-- ===== src/Tests/Lives.antt =====
-- The live files and the records at concrete inputs.
use flx.Prelude.{◌≡◌, [], ◌++◌, none, codes, lookup, lookup-put_self, put, All, nat_eq, false, true}
use flx.Hub.{Hub, new_hub, subscribe}
use flx.Render.{Formats, escape_content}
use flx.Render.Escape.{
  IsInline, unescape_content, escape_content-IsInline, unescape_content-escape_content,
}
use flx.File.Live.{LiveFile, LiveReader, read_live}
use flx.File.Live.Backlog.{backlog, is_closed}
use flx.File.Live.Stream.{ReadOutcome, read_live-ReadOutcome}

abbrev formats : Formats
formats = record {
  json_event = λ e. e.kind;
  json_message = λ m. m.id;
  rfc3339 = λ n. codes "t";
  parse_rfc3339 = λ s. none;
}

abbrev reader : LiveReader
reader = record { channel_id = codes "7"; sub = 0; pending = codes "[t] left" }

abbrev file : LiveFile
file = record { readers = put 3 reader []; json_lines = true; global = false }

abbrev hub : Hub
hub = (subscribe (codes "7") (new_hub true)).0

read_live-ReadOutcome_example :
    ReadOutcome formats 1 file 3 4 0
      (codes "[t] left" ++ backlog formats 1 file (lookup 0 hub.subs))
      (is_closed (lookup 0 hub.subs))
      (read_live formats 1 file 3 0 4 hub)
read_live-ReadOutcome_example =
    read_live-ReadOutcome formats 1 file 3 4 0 reader hub (lookup-put_self 3 reader [])

escape_content-IsInline_example : All IsInline (escape_content (codes "a\tb\nc\\n"))
escape_content-IsInline_example = escape_content-IsInline (codes "a\tb\nc\\n")

unescape_content-escape_content_example :
    unescape_content (escape_content (codes "a\tb\nc\\n")) ≡ codes "a\tb\nc\\n"
unescape_content-escape_content_example = unescape_content-escape_content (codes "a\tb\nc\\n")
