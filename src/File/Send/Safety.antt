-- ===== src/File/Send/Safety.antt =====
-- What a parsed message of the send file looks like.
use flx.Prelude.{
  ℕ, ◌≤◌, ◌≡◌, ◌≢◌, refl, Bool, true, false, ◌&&◌, List, [], ◌∷◌, ◌++◌, Option, none, some, Bytes,
  codes, Result, ok, err, ◌>>=◌, bind_ok, ltb, ◌==◌, bytes_eq, bytes_beq_iff, if◌then◌else◌, length,
  take, drop, ◌+◌, All, arith, Bool-cases, inl, inr,
}
use mathlib.Core.Path.{subst}
use flx.Prelude.Keys.{bytes_beq}
use flx.Text.Utf8.{Chunk, chunk_at, chunks, valid, rune_count}
use flx.Text.Space.{trim_suffix, trim_space}
use flx.Text.Search.{index_byte, has_prefix}
use flx.File.Send.{
  SendAttachment, header_length, SendPayload, SendError, message_too_long, caption_not_utf8,
  caption_too_long, filename_invalid, filename_long, filename_separator, is_forbidden,
  has_forbidden, validate_attachment_filename, extension_of, infer_attachment_filename,
  split_framed, framed, framed_from, parse_framed_attachment, text_message, unframed, parse_send,
}

-- Neither a separator of either kind nor a control character.
abbrev pub IsAllowed : Chunk → Type 0
IsAllowed c = (c.rune ≢ b'/') × (c.rune ≢ 0x5c) × (0x20 ≤ c.rune) × (c.rune ≢ 0x7f)

pub record IsFilename (filename : Bytes) : Type 0 where
  pub nonempty : filename ≢ []
  pub not_dot : filename ≢ codes "."
  pub not_dot_dot : filename ≢ codes ".."
  pub fits : length filename ≤ 255
  pub utf8 : valid filename ≡ true
  pub allowed : All IsAllowed (chunks filename)

-- A test that did not refuse.
if_passed :
    {A : Type 0} (b : Bool) (e : SendError) (r : Result SendError A) {a : A}
    → (if b then err e else r) ≡ ok a
    → (b ≡ false) × (r ≡ ok a)
if_passed true e r h = cc
if_passed false e r h = (refl, h)

rune-IsAllowed : (c : Chunk) → is_forbidden c.rune ≡ false → IsAllowed c
unfolding is_forbidden
rune-IsAllowed c h = (ground arith, ground arith, ground arith, ground arith)

has_forbidden-All : (cs : List Chunk) → has_forbidden cs ≡ false → All IsAllowed cs
unfolding has_forbidden
has_forbidden-All [] h = tt
has_forbidden-All (c ∷ cs) h = elim (Bool-cases (is_forbidden c.rune)) [
  | inl e ↦ ground arith
  | inr e ↦ (rune-IsAllowed c e, has_forbidden-All cs (rw e at h))
]

validate_sound : (s : Bytes) → validate_attachment_filename s ≡ ok tt → IsFilename s
unfolding validate_attachment_filename
validate_sound s h =
    let (some_name, h1) = if_passed _ filename_invalid _ h in
    let (short, h2) = if_passed _ filename_long _ h1 in
    let (separated, h3) = if_passed _ filename_separator _ h2 in
    record {
      nonempty = ground (arith, bytes_beq_iff s []);
      not_dot = ground (arith, bytes_beq_iff s (codes "."));
      not_dot_dot = ground (arith, bytes_beq_iff s (codes ".."));
      fits = ground arith;
      utf8 = ground arith;
      allowed = has_forbidden-All (chunks s) separated;
    }

IsExtension : Bytes → Type 0
IsExtension extension = IsFilename (codes "attachment" ++ extension)

IsExtension-if :
    (b : Bool) (x y : Bytes) → IsExtension x → IsExtension y → IsExtension (if b then x else y)
IsExtension-if true x y hx hy = hx
IsExtension-if false x y hx hy = hy

validated :
    (x : Bytes) → validate_attachment_filename (codes "attachment" ++ x) ≡ ok tt → IsExtension x
unfolding IsExtension
validated x h = validate_sound (codes "attachment" ++ x) h

extension_of-IsExtension : (kind : Bytes) → IsExtension (extension_of kind)
unfolding extension_of validate_attachment_filename valid chunks chunk_at has_forbidden is_forbidden
    bytes_beq
extension_of-IsExtension kind =
    IsExtension-if (kind == codes "image/png") _ _ (validated (codes ".png") refl) (
      IsExtension-if (kind == codes "image/jpeg") _ _ (validated (codes ".jpg") refl) (
        IsExtension-if (kind == codes "image/gif") _ _ (validated (codes ".gif") refl) (
          IsExtension-if (kind == codes "image/webp") _ _ (validated (codes ".webp") refl) (
            IsExtension-if (kind == codes "application/pdf") _ _ (validated (codes ".pdf") refl) (
              IsExtension-if (kind == codes "audio/mpeg") _ _ (validated (codes ".mp3") refl) (
                IsExtension-if (kind == codes "video/mp4") _ _ (validated (codes ".mp4") refl) (
                  IsExtension-if (kind == codes "application/zip") _ _
                    (validated (codes ".zip") refl) (validated (codes ".bin") refl))))))))

-- A message has a text, or an attachment with content and a safe name.
abbrev pub IsAttached : Bytes → Option SendAttachment → Type 0
IsAttached content none = content ≢ []
IsAttached content (some a) = (a.payload ≢ []) × IsFilename a.filename

pub record IsSendable (p : SendPayload) : Type 0 where
  pub short : rune_count p.content ≤ 4000
  pub attached : IsAttached p.content p.attachment

text_sound : (s : Bytes) (p : SendPayload) → text_message s ≡ ok p → IsSendable p
unfolding text_message
text_sound [] p h = cc
text_sound (b ∷ s) p h =
    let (fits, e) = if_passed (ltb 4000 (rune_count (b ∷ s))) message_too_long _ h in
    let same : record { content = b ∷ s; attachment = none } ≡ p = ground arith in
    subst IsSendable same (record { short = ground arith; attached = cc })

framed_sound :
    (detect : Bytes → Bytes) (filename : Bytes) (parts : Bytes × Bytes) (p : SendPayload)
    → IsFilename filename
    → framed detect filename parts ≡ ok p
    → IsSendable p
unfolding framed
framed_sound detect filename (caption, []) p named h = cc
framed_sound detect filename (caption, b ∷ payload) p named h =
    let (utf8, h1) = if_passed _ caption_not_utf8 _ h in
    let (fits, e) = if_passed (ltb 4000 (rune_count caption)) caption_too_long _ h1 in
    let same : record {
      content = caption;
      attachment = some (record {
        filename = filename;
        content_type = detect (b ∷ payload);
        payload = b ∷ payload;
      });
    }
        ≡ p =
      ground arith in
    subst IsSendable same (record { short = ground arith; attached = ((cc), named) })

framed_from_sound :
    (detect : Bytes → Bytes) (input : Bytes) (line_end : Option ℕ) (p : SendPayload)
    → framed_from detect input line_end ≡ ok p
    → IsSendable p
unfolding framed_from
framed_from_sound detect input none p h = cc
framed_from_sound detect input (some line_end) p h =
    let filename = trim_space (drop header_length (take line_end input)) in
    let (u, named, h1) =
      bind_ok (validate_attachment_filename filename)
        (λ u. split_framed (drop (line_end + 1) input) >>= (λ parts. framed detect filename parts))
        h in
    let (parts, split, h2) =
      bind_ok (split_framed (drop (line_end + 1) input)) (λ parts. framed detect filename parts)
        h1 in
    framed_sound detect filename parts p (validate_sound filename named) h2

-- The message that holds the bytes as an attachment of a detected type.
abbrev detected : Bytes → Bytes → SendPayload
detected content_type input = record {
  content = [];
  attachment = some (record {
    filename = infer_attachment_filename content_type;
    content_type = content_type;
    payload = input;
  });
}

attachment_sound :
    (content_type : Bytes) (b : ℕ) (s : Bytes) (p : SendPayload)
    → ◌≡◌ {A = Result SendError SendPayload} (ok (detected content_type (b ∷ s))) (ok p)
    → IsSendable p
unfolding infer_attachment_filename rune_count chunks
attachment_sound content_type b s p h =
    let same : detected content_type (b ∷ s) ≡ p = ground arith in
    subst IsSendable same (record {
      short = omega arith;
      attached = ((cc), unfold IsExtension in extension_of-IsExtension _);
    })

unframed_sound :
    (content_type : Bytes) (b : ℕ) (s : Bytes) (p : SendPayload)
    → unframed content_type (b ∷ s) ≡ ok p
    → IsSendable p
unfolding unframed infer_attachment_filename
unframed_sound content_type b s p h =
    elim (Bool-cases (has_prefix (codes "text/plain") content_type && valid (b ∷ s))) [
      | inl e ↦ text_sound (trim_suffix 0x0a (b ∷ s)) p (rw e at h)
      | inr e ↦ attachment_sound content_type b s p (rw e at h)
    ]

-- Whatever bytes are written and whatever content type is detected, a message that is parsed has a
-- content of at most 4000 runes, and either a content that is not empty and no attachment, or an
-- attachment with at least one byte, whose filename is valid UTF-8 of one to 255 bytes, neither "."
-- nor "..", without a slash, a backslash or a control character.
pub parse_send-IsSendable :
    (detect_content_type : Bytes → Bytes) (input : Bytes) (p : SendPayload)
    → parse_send detect_content_type input ≡ ok p
    → IsSendable p
unfolding parse_send parse_framed_attachment
parse_send-IsSendable detect [] p h = cc
parse_send-IsSendable detect (b ∷ s) p h =
    elim (Bool-cases (has_prefix (codes "!attach ") (b ∷ s))) [
      | inl e ↦ framed_from_sound detect (b ∷ s) (index_byte 0x0a (b ∷ s)) p (rw e at h)
      | inr e ↦ unframed_sound (detect (b ∷ s)) b s p (rw e at h)
    ]
