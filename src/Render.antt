-- ===== src/Render.antt =====
-- internal/render/render.go: the records of events and messages. JSON encoding and the formats of
-- package time are parameters.
pub mod Escape
use flx.Prelude.{
  ℕ, Bool, true, false, List, [], ◌∷◌, ◌++◌, Option, none, some, Bytes, codes, ℤ, pos, ◌==◌,
  bytes_eq, if◌then◌else◌, ltb, length,
}
use flx.Text.Decimal.{decimal}
use flx.Text.Replace.{replace_byte}
use flx.Types.{User, tag, Message, Event}

-- json.Marshal of an event and of a message, time.RFC3339 of an instant in UTC, and the instant of a
-- text in the format time.RFC3339Nano.
pub record Formats : Type 0 where
  pub json_event : Event → Bytes
  pub json_message : Message → Bytes
  pub rfc3339 : ℕ → Bytes
  pub parse_rfc3339 : Bytes → Option ℕ

unfoldable pub escape_content : Bytes → Bytes
escape_content value = replace_byte 0x09 (codes "\\t") (
    replace_byte 0x0a (codes "\\n")
      (replace_byte 0x0d (codes "\\r") (replace_byte 0x5c (codes "\\\\") value)))

unfoldable pub author : User → Bytes
author user = if tag user == [] then user.id else tag user

module _ (formats : Formats) where
  unfoldable pub timestamp : Bytes → Bytes
  timestamp value = elim (formats.parse_rfc3339 value) [
    | some instant ↦ formats.rfc3339 instant
    | none ↦ value
  ]

  -- "message=%s %s: %s\n"
  message_part : Message → Bytes
  message_part m =
      codes "message="
      ++ (m.id
          ++ (codes " "
              ++ (author m.author ++ (codes ": " ++ (escape_content m.content ++ codes "\n")))))

  bracketed : Bytes → Bytes → Bytes
  bracketed when rest = codes "[" ++ (when ++ (codes "] " ++ rest))

  gap_record : Event → Bytes
  gap_record event =
      codes "GAP dropped="
      ++ (decimal event.dropped ++ (codes " reason=" ++ (event.reason ++ codes "\n")))

  -- " channel=%s", for the inbox
  channel_part : Bool → Event → Bytes
  channel_part true event = codes " channel=" ++ event.channel_id
  channel_part false event = []

  unfoldable pub message_record : Bool → Event → Option Message → Bytes
  unfolding message_part bracketed channel_part
  message_record include_channel event (some m) =
      bracketed (timestamp m.timestamp)
        (event.kind ++ (channel_part include_channel event ++ (codes " " ++ message_part m)))
  message_record include_channel event none = bracketed (formats.rfc3339 event.occurred_at) (
      event.kind
      ++ (channel_part include_channel event
          ++ (codes " message=" ++ (event.message_id ++ codes "\n"))))

  unfoldable pub event_record : Event → Bool → Bool → Bytes
  unfolding message_record gap_record bracketed
  event_record event json_lines include_channel =
      if json_lines
      then formats.json_event (record event { payload = [] }) ++ codes "\n"
      else if event.kind == codes "GAP"
      then bracketed (formats.rfc3339 event.occurred_at) (gap_record event)
      else message_record include_channel event event.message

  -- Event
  unfoldable pub render_event : Event → Bool → Bytes
  render_event event json_lines = event_record event json_lines false

  -- InboxEvent
  unfoldable pub render_inbox_event : Event → Bool → Bytes
  render_inbox_event event json_lines = event_record event json_lines true

  -- Gap at the instant `now`
  unfoldable pub render_gap : ℕ → ℕ → Bool → Bytes
  render_gap now dropped json_lines =
      render_event
        (record {
          kind = codes "GAP";
          sequence = pos 0;
          channel_id = [];
          message = none;
          message_id = [];
          occurred_at = now;
          payload = [];
          dropped = dropped;
          reason = codes "queue_overflow";
        })
        json_lines
