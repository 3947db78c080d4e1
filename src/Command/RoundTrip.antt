-- ===== src/Command/RoundTrip.antt =====
-- What a client writes by `echo 'ID CONTENT' > edit` is read back as it was meant.
use flx.Prelude.{
  ℕ, ◌<◌, ◌≤◌, ◌≡◌, ◌≢◌, refl, true, false, [], ◌∷◌, ◌++◌, some, Bytes, drop, ok, All, arith,
  take_left, drop_left, length, ap,
}
use flx.Text.Utf8.{chunks, valid, rune_count}
use flx.Text.Utf8.Decode.{chunks-ascii}
use flx.Text.Space.{
  index_space, index_space-ascii, trim_left-ascii, trim_left-NoLead, is_space, trim_left,
  trim_suffix, trim_suffix-append, NoLead,
}
use flx.Command.{
  command_text, validate_message_id, parse_message_command, all_digits, check_content,
  split_message, reject_empty,
}
use flx.Command.Sound.{IsDigit}

pub small : (b : ℕ) → IsDigit b → b < 0x80
small b h = omega arith

pub digit_not_space : (b : ℕ) → IsDigit b → is_space b ≡ false
unfolding is_space
digit_not_space b h = ground arith

all_digits_complete : (s : Bytes) → All IsDigit s → all_digits (chunks s) ≡ true
unfolding all_digits
all_digits_complete [] h = unfold chunks in refl
all_digits_complete (b ∷ s) h =
    rw (chunks-ascii b s (small b h.0)) (ground (arith, all_digits_complete s h.1))

pub validate_message_id_complete :
    (s : Bytes) → s ≢ [] → All IsDigit s → validate_message_id s ≡ ok tt
unfolding validate_message_id
validate_message_id_complete [] ne h = absurd (ne refl)
validate_message_id_complete (b ∷ s) ne h = rw (all_digits_complete (b ∷ s) h)

index_after_digits :
    (id rest : Bytes) → All IsDigit id → index_space (id ++ 0x20 ∷ rest) ≡ some (length id)
index_after_digits [] rest h =
    rw (index_space-ascii 0x20 rest (omega arith)) (unfold is_space in refl)
index_after_digits (b ∷ id) rest h =
    rw (index_space-ascii b (id ++ 0x20 ∷ rest) (small b h.0))
      (rw (digit_not_space b h.0, index_after_digits id rest h.1) (ap some (omega arith)))

-- The bytes that the shell writes.
abbrev pub echo : Bytes → Bytes → Bytes
echo id content = (id ++ 0x20 ∷ content) ++ b'\n' ∷ []

-- A text that does not end in a carriage return.
abbrev pub NoReturn : Bytes → Type 0
NoReturn s = trim_suffix b'\r' s ≡ s

reject_empty_nonempty : (s : Bytes) → s ≢ [] → reject_empty s ≡ ok s
unfolding reject_empty
reject_empty_nonempty [] h = absurd (h refl)
reject_empty_nonempty (b ∷ s) h = refl

pub command_text_echo :
    (s : Bytes)
    → s ≢ []
    → valid (s ++ b'\n' ∷ []) ≡ true
    → NoReturn s
    → command_text (s ++ b'\n' ∷ []) ≡ ok s
unfolding command_text
command_text_echo [] ne v r = absurd (ne refl)
command_text_echo (b ∷ s) ne v r =
    rw v (rw (trim_suffix-append b'\n' (b ∷ s)) (rw r (reject_empty_nonempty (b ∷ s) ne)))

check_content_complete :
    (id content : Bytes)
    → content ≢ []
    → rune_count content ≤ 4000
    → check_content id content ≡ ok (id, content)
unfolding check_content
check_content_complete id [] ne h = absurd (ne refl)
check_content_complete id (b ∷ c) ne h = ground arith

split_message_complete :
    (id content : Bytes)
    → id ≢ []
    → All IsDigit id
    → content ≢ []
    → rune_count content ≤ 4000
    → NoLead (chunks content)
    → split_message (id ++ 0x20 ∷ content) (some (length id)) ≡ ok (id, content)
unfolding split_message
split_message_complete id content ne digits cne fits lead =
    let skipped : trim_left (drop (length id) (id ++ 0x20 ∷ content)) ≡ content =
      rw (drop_left id (0x20 ∷ content)) (
        rw (trim_left-ascii 0x20 content (omega arith) (unfold is_space in refl))
          (trim_left-NoLead content lead)) in
    rw (skipped, take_left id (0x20 ∷ content), validate_message_id_complete id ne digits)
      (check_content_complete id content cne fits)

append-ne-nil : (s t : Bytes) → s ≢ [] → s ++ t ≢ []
append-ne-nil [] t h = absurd (h refl)
append-ne-nil (b ∷ s) t h = cc

-- Let `id` be one or more decimal digits, and `content` a non-empty text of at most 4000 runes that
-- starts with no space, where `id`, a space and `content` do not end in a carriage return. If the
-- line `id`, a space, `content` and a line feed is valid UTF-8, it is parsed as `(id, content)`.
pub parse_message_command-echo :
    (id content : Bytes)
    → id ≢ []
    → All IsDigit id
    → content ≢ []
    → rune_count content ≤ 4000
    → NoLead (chunks content)
    → NoReturn (id ++ 0x20 ∷ content)
    → valid (echo id content) ≡ true
    → parse_message_command (echo id content) ≡ ok (id, content)
unfolding parse_message_command
parse_message_command-echo id content ne digits cne fits lead nr v =
    rw (command_text_echo (id ++ 0x20 ∷ content) (append-ne-nil id _ ne) v nr) (
      rw (index_after_digits id content digits)
        (split_message_complete id content ne digits cne fits lead))
