-- ===== src/Command/Sound.antt =====
-- What an accepted command text looks like.
use flx.Prelude.{
  ℕ, ◌<◌, ◌≤◌, ◌≡◌, ◌≢◌, refl, true, List, [], ◌∷◌, ◌++◌, Option, none, some, Bytes, codes, take,
  drop, ok, err, All, arith, ◌⊎◌, inl, inr, bind_ok, Bool-cases, take-append-drop, append_assoc,
  append-nil,
}
use flx.Text.Utf8.{Chunk, chunks, concat, valid, rune_count, chunks_from, chunk_at}
use flx.Text.Utf8.Decode.{chunks-ascii, chunk_at-small, ascii}
use flx.Text.Space.{
  index_space, trim_left, trim_suffix, AllSpace, trim_suffix_parts, trim_left_parts, spaces_before,
  spaces_before-AllSpace, NoLead, NoLead-drop_spaces, chunks-trim_left, index_space_starts,
  spaces_before_nonempty,
}
use flx.Command.{
  command_not_utf8, command_text, reject_empty, validate_message_id, parse_message_command,
  all_digits, check_content, split_message,
}

abbrev pub IsDigit : ℕ → Type 0
IsDigit c = (b'0' ≤ c) × (c ≤ b'9')

leading_digit :
    (b : ℕ) (s : Bytes) → all_digits (chunks (b ∷ s)) ≡ true → (chunk_at b s).rune < 0x80
unfolding chunks chunks_from all_digits
leading_digit b s h = ground arith

all_digits_sound : (s : Bytes) → all_digits (chunks s) ≡ true → All IsDigit s
unfolding all_digits
all_digits_sound [] h = tt
all_digits_sound (b ∷ s) h =
    let e = chunks-ascii b s (chunk_at-small b s (leading_digit b s h)) in
    let h' : all_digits (ascii b ∷ chunks s) ≡ true = rw e at h in
    ground (arith, all_digits_sound s)

-- An accepted identifier is one or more decimal digits.
pub validate_message_id_sound :
    (s : Bytes) → validate_message_id s ≡ ok tt → (s ≢ []) × All IsDigit s
unfolding validate_message_id
validate_message_id_sound [] h = cc
validate_message_id_sound (b ∷ s) h = (cc, all_digits_sound (b ∷ s) (ground arith))

-- What may stand behind the text of a command.
abbrev pub IsLineEnd : Bytes → Type 0
IsLineEnd e = (e ≡ []) ⊎ ((e ≡ codes "\n") ⊎ ((e ≡ codes "\r") ⊎ (e ≡ codes "\r\n")))

abbrev pub CommandLine : Bytes → Bytes → Type 0
CommandLine s text = (e : Bytes) × (s ≡ text ++ e) × IsLineEnd e

line_parts : (s : Bytes) → CommandLine s (trim_suffix b'\r' (trim_suffix b'\n' s))
line_parts s = join (trim_suffix_parts b'\n' s) (trim_suffix_parts b'\r' (trim_suffix b'\n' s))
  where
    join :
        {t u : Bytes}
        → (s ≡ t) ⊎ (s ≡ t ++ b'\n' ∷ [])
        → (t ≡ u) ⊎ (t ≡ u ++ b'\r' ∷ [])
        → CommandLine s u
    join {u} (inl p) (inl q) = ([], cc (append-nil u), inl refl)
    join (inr p) (inl q) = (codes "\n", cc, inr (inl refl))
    join (inl p) (inr q) = (codes "\r", cc, inr (inr (inl refl)))
    join {u} (inr p) (inr q) =
        (codes "\r\n", cc (append_assoc u (b'\r' ∷ []) (b'\n' ∷ [])), inr (inr (inr refl)))

reject_empty_parts : (u text : Bytes) → reject_empty u ≡ ok text → (text ≢ []) × (u ≡ text)
unfolding reject_empty
reject_empty_parts [] text h = cc
reject_empty_parts (c ∷ u) text h = (cc, cc)

-- An accepted command is valid UTF-8: a non-empty text and at most one line end behind it.
pub command_text_parts :
    (s text : Bytes)
    → command_text s ≡ ok text
    → (text ≢ []) × (valid s ≡ true) × CommandLine s text
unfolding command_text
command_text_parts [] text h = cc
command_text_parts (b ∷ s) text h = elim (Bool-cases (valid (b ∷ s))) [
  | inl e ↦
      let (nonempty, same) = reject_empty_parts _ text (rw e at h) in
      (nonempty, e, rw same at (line_parts (b ∷ s)))
  | inr e ↦ let bad : err command_not_utf8 ≡ ok text = rw e at h in cc
]

-- Spaces between the identifier and the content.
abbrev pub IsGap : Bytes → Type 0
IsGap gap = (cs : List Chunk) × (concat cs ≡ gap) × AllSpace cs

check_content_parts :
    (i c id content : Bytes)
    → check_content i c ≡ ok (id, content)
    → (i ≡ id) × (c ≡ content) × (content ≢ []) × (rune_count content ≤ 4000)
unfolding check_content
check_content_parts i [] id content h = cc
check_content_parts i (b ∷ c) id content h = ground arith

pub record MessageCommand (text id content : Bytes) : Type 0 where
  pub id_nonempty : id ≢ []
  pub id_digits : All IsDigit id
  pub nonempty : content ≢ []
  pub fits : rune_count content ≤ 4000
  pub no_lead : NoLead (chunks content)
  pub gap : Bytes
  pub is_gap : IsGap gap
  pub gap_nonempty : gap ≢ []
  pub spelled : text ≡ id ++ (gap ++ content)

split_message_sound :
    (text : Bytes) (at : Option ℕ) {id content : Bytes}
    → index_space text ≡ at
    → split_message text at ≡ ok (id, content)
    → MessageCommand text id content
unfolding split_message
split_message_sound text none found h = cc
split_message_sound text (some n) {id} {content} found h =
    let (_, checked, rest) = bind_ok (validate_message_id (take n text)) _ h in
    let (nonempty, digits) = validate_message_id_sound _ checked in
    let (ei, ec, content_nonempty, fits) = check_content_parts _ _ id content rest in
    let lead : NoLead (chunks (trim_left (drop n text))) =
      rw chunks-trim_left (NoLead-drop_spaces (chunks (drop n text))) in
    record {
      id_nonempty = rw ei at nonempty;
      id_digits = rw ei at digits;
      nonempty = content_nonempty;
      fits = fits;
      no_lead = rw ec at lead;
      gap = concat (spaces_before (chunks (drop n text)));
      is_gap = (spaces_before (chunks (drop n text)), refl, spaces_before-AllSpace _);
      gap_nonempty = spaces_before_nonempty (drop n text) (index_space_starts text n found);
      spelled = cc (ei, ec, trim_left_parts (drop n text), take-append-drop n text);
    }

-- What an accepted edit, reply or reaction says of the bytes that were written.
pub record MessageInput (s id content : Bytes) : Type 0 where
  pub is_valid : valid s ≡ true
  pub text : Bytes
  pub line : CommandLine s text
  pub parts : MessageCommand text id content

-- If a message command is accepted as `(id, content)`, then the bytes are valid UTF-8 and are
-- `id`, spaces, `content` and at most one line end; `id` is one or more decimal digits, the spaces
-- are at least one, `content` is not empty, starts with no space and has at most 4000 runes.
pub parse_message_command_sound :
    (s id content : Bytes) → parse_message_command s ≡ ok (id, content) → MessageInput s id content
unfolding parse_message_command
parse_message_command_sound s id content h =
    let (text, read, split) = bind_ok (command_text s) _ h in
    let (_, is_valid, line) = command_text_parts s text read in
    record {
      is_valid = is_valid;
      text = text;
      line = line;
      parts = split_message_sound text (index_space text) refl split;
    }
