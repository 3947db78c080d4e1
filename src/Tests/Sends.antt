-- ===== src/Tests/Sends.antt =====
-- The parser of the send file at a concrete input.
use flx.Prelude.{◌≡◌, refl, some, Bytes, codes, ok}
use flx.Prelude.Keys.{bytes_beq}
use flx.Text.Utf8.{valid, chunks, chunk_at, rune_count}
use flx.Text.Space.{is_space, trim_left, trim_space}
use flx.Text.Search.{has_prefix, index_byte, index}
use flx.File.Send.{
  SendPayload, parse_send, parse_framed_attachment, validate_attachment_filename, split_framed,
  has_forbidden, is_forbidden,
}
use flx.File.Send.Safety.{IsSendable, parse_send-IsSendable}

abbrev detect : Bytes → Bytes
detect input = codes "text/plain; charset=utf-8"

abbrev input : Bytes
input = codes "!attach a.txt\nnote\n\nbody"

abbrev message : SendPayload
message = record {
  content = codes "note";
  attachment = some (record {
    filename = codes "a.txt";
    content_type = codes "text/plain; charset=utf-8";
    payload = codes "body";
  });
}

input_parsed : parse_send detect input ≡ ok message
unfolding parse_send parse_framed_attachment validate_attachment_filename split_framed has_forbidden
    is_forbidden has_prefix index_byte index valid chunks chunk_at rune_count is_space trim_left
    trim_space bytes_beq
input_parsed = refl

parse_send-IsSendable_example : IsSendable message
parse_send-IsSendable_example = parse_send-IsSendable detect input message input_parsed
