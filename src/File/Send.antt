-- ===== src/File/Send.antt =====
-- internal/p9fs/files.go: parseSend, parseFramedAttachment, validateAttachmentFilename and
-- inferAttachmentFilename. What http.DetectContentType answers is a parameter.
pub mod Safety
use flx.Prelude.{
  ℕ, ◌+◌, Bool, true, false, ◌&&◌, ◌||◌, not, List, [], ◌∷◌, ◌++◌, Option, none, some, Bytes, codes,
  Result, ok, err, panic, ◌>>=◌, ltb, nat_beq, ◌==◌, bytes_eq, if◌then◌else◌, length, take, drop,
}
use flx.Text.Utf8.{Chunk, chunks, valid, rune_count}
use flx.Text.Space.{trim_space, trim_suffix}
use flx.Text.Search.{has_prefix, index_byte, index}

pub record SendAttachment : Type 0 where
  pub filename : Bytes
  pub content_type : Bytes
  pub payload : Bytes

pub record SendPayload : Type 0 where
  pub content : Bytes
  pub attachment : Option SendAttachment

pub data SendError : Type 0 where
  message_empty message_too_long header_unfinished caption_unfinished attachment_empty : SendError
  caption_not_utf8 caption_too_long filename_invalid filename_long filename_separator : SendError

-- r == '/' || r == '\\' || r < 0x20 || r == 0x7f
unfoldable pub is_forbidden : ℕ → Bool
is_forbidden r = nat_beq r b'/' || (nat_beq r 0x5c || (ltb r 0x20 || nat_beq r 0x7f))

-- for _, r := range filename
unfoldable pub has_forbidden : List Chunk → Bool
has_forbidden [] = false
has_forbidden (c ∷ cs) = let rest = has_forbidden cs in if is_forbidden c.rune then true else rest

unfoldable pub validate_attachment_filename : Bytes → Result SendError (Unit {0})
validate_attachment_filename filename =
    if filename == [] || (filename == codes "." || filename == codes "..")
    then err filename_invalid
    else if ltb 255 (length filename) || not (valid filename)
    then err filename_long
    else if has_forbidden (chunks filename)
    then err filename_separator
    else ok tt

cut : Option ℕ → Bytes → Bytes
cut none s = s
cut (some separator) s = take separator s

unfoldable pub extension_of : Bytes → Bytes
extension_of kind =
    if kind == codes "image/png"
    then codes ".png"
    else if kind == codes "image/jpeg"
    then codes ".jpg"
    else if kind == codes "image/gif"
    then codes ".gif"
    else if kind == codes "image/webp"
    then codes ".webp"
    else if kind == codes "application/pdf"
    then codes ".pdf"
    else if kind == codes "audio/mpeg"
    then codes ".mp3"
    else if kind == codes "video/mp4"
    then codes ".mp4"
    else if kind == codes "application/zip"
    then codes ".zip"
    else codes ".bin"

unfoldable pub infer_attachment_filename : Bytes → Bytes
unfolding cut
infer_attachment_filename content_type =
    codes "attachment" ++ extension_of (cut (index_byte b';' content_type) content_type)

-- The caption and the data behind the header line.
split_double : Bytes → Option ℕ → Option ℕ → Result SendError (Bytes × Bytes)
split_double rest (some separator) o = ok (take separator rest, drop (separator + 4) rest)
split_double rest none (some separator) = ok (take separator rest, drop (separator + 2) rest)
split_double rest none none = err caption_unfinished

unfoldable pub split_framed : Bytes → Result SendError (Bytes × Bytes)
unfolding split_double
split_framed rest =
    if has_prefix (0x0d ∷ 0x0a ∷ []) rest
    then ok ([], drop 2 rest)
    else if has_prefix (0x0a ∷ []) rest
    then ok ([], drop 1 rest)
    else split_double rest (index (0x0d ∷ 0x0a ∷ 0x0d ∷ 0x0a ∷ []) rest)
        (index (0x0a ∷ 0x0a ∷ []) rest)

-- The length of "!attach ".
abbrev pub header_length : ℕ
header_length = 8

text_message : Bytes → Result SendError SendPayload
text_message [] = err message_empty
text_message (b ∷ s) =
    if ltb 4000 (rune_count (b ∷ s))
    then err message_too_long
    else ok (record { content = b ∷ s; attachment = none })

unframed : Bytes → Bytes → Result SendError SendPayload
unfolding text_message
unframed content_type input =
    if has_prefix (codes "text/plain") content_type && valid input
    then text_message (trim_suffix 0x0a input)
    else ok (record {
      content = [];
      attachment = some (record {
        filename = infer_attachment_filename content_type;
        content_type = content_type;
        payload = input;
      });
    })

module _ (detect_content_type : Bytes → Bytes) where
  framed : Bytes → Bytes × Bytes → Result SendError SendPayload
  framed filename (caption, []) = err attachment_empty
  framed filename (caption, b ∷ payload) =
      if not (valid caption)
      then err caption_not_utf8
      else if ltb 4000 (rune_count caption)
      then err caption_too_long
      else ok (record {
        content = caption;
        attachment = some (record {
          filename = filename;
          content_type = detect_content_type (b ∷ payload);
          payload = b ∷ payload;
        });
      })

  framed_from : Bytes → Option ℕ → Result SendError SendPayload
  unfolding framed
  framed_from input none = err header_unfinished
  framed_from input (some line_end) = do
    let filename = trim_space (drop header_length (take line_end input))
    _ ← validate_attachment_filename filename
    parts ← split_framed (drop (line_end + 1) input)
    framed filename parts

  unfoldable pub parse_framed_attachment : Bytes → Result SendError SendPayload
  unfolding framed_from
  parse_framed_attachment input = framed_from input (index_byte 0x0a input)

  unfoldable pub parse_send : Bytes → Result SendError SendPayload
  unfolding unframed
  parse_send [] = err message_empty
  parse_send (b ∷ s) =
      if has_prefix (codes "!attach ") (b ∷ s)
      then parse_framed_attachment (b ∷ s)
      else unframed (detect_content_type (b ∷ s)) (b ∷ s)
