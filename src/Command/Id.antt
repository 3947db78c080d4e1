-- ===== src/Command/Id.antt =====
-- The commands that are one message identifier: delete, pin, unpin and read.
use flx.Prelude.{
  ℕ, ◌≡◌, ◌≢◌, refl, true, [], ◌∷◌, ◌++◌, Option, none, some, Bytes, ok, All, arith, bind_ok, ap,
}
use flx.Text.Utf8.{chunks, valid}
use flx.Text.Utf8.Decode.{valid-ascii, chunks-ascii}
use flx.Text.Space.{
  index_space, Trimmed, trim_space_parts, NoSpace, trim_space-NoSpace, index_space-NoSpace,
  trim_suffix,
}
use flx.Command.{
  command_text, validate_message_id, parse_message_command, parse_reaction_command,
  parse_id_command, check_id, check_emoji,
}
use flx.Command.Sound.{
  IsDigit, MessageInput, CommandLine, command_text_parts, validate_message_id_sound,
  parse_message_command_sound,
}
use flx.Command.RoundTrip.{
  small, digit_not_space, validate_message_id_complete, command_text_echo, NoReturn,
}

-- What an accepted identifier command says of the bytes that were written.
pub record IdInput (s id : Bytes) : Type 0 where
  pub is_valid : valid s ≡ true
  pub text : Bytes
  pub line : CommandLine s text
  pub trimmed : Trimmed text id
  pub id_nonempty : id ≢ []
  pub id_digits : All IsDigit id

check_id_parts :
    (t id : Bytes) (o : Option ℕ)
    → check_id t o ≡ ok id
    → (t ≡ id) × (validate_message_id t ≡ ok tt)
unfolding check_id
check_id_parts t id (some i) h = cc
check_id_parts t id none h =
    let (_, checked, same) = bind_ok (validate_message_id t) _ h in (cc, checked)

-- If an identifier command is accepted as `id`, then the bytes are valid UTF-8 and are spaces, `id`,
-- spaces and at most one line end, and `id` is one or more decimal digits.
pub parse_id_command_sound : (s id : Bytes) → parse_id_command s ≡ ok id → IdInput s id
unfolding parse_id_command
parse_id_command_sound s id h =
    let (text, read, checked) = bind_ok (command_text s) _ h in
    let (_, is_valid, line) = command_text_parts s text read in
    let (same, accepted) = check_id_parts _ id _ checked in
    let (nonempty, digits) = validate_message_id_sound _ accepted in
    record {
      is_valid = is_valid;
      text = text;
      line = line;
      trimmed = rw same at (trim_space_parts text);
      id_nonempty = rw same at nonempty;
      id_digits = rw same at digits;
    }

digits_NoSpace : (s : Bytes) → All IsDigit s → NoSpace (chunks s)
digits_NoSpace [] h = unfold chunks in tt
digits_NoSpace (b ∷ s) h =
    rw (chunks-ascii b s (small b h.0)) (digit_not_space b h.0, digits_NoSpace s h.1)

digits_valid : (s : Bytes) → All IsDigit s → valid (s ++ b'\n' ∷ []) ≡ true
digits_valid [] h = rw (valid-ascii b'\n' [] (omega arith)) (unfold valid chunks in refl)
digits_valid (b ∷ s) h = rw (valid-ascii b _ (small b h.0)) (digits_valid s h.1)

digits_NoReturn : (s : Bytes) → All IsDigit s → NoReturn s
unfolding trim_suffix
digits_NoReturn [] h = refl
digits_NoReturn (b ∷ []) h = ground arith
digits_NoReturn (b ∷ c ∷ s) h = ap (λ t. b ∷ t) (digits_NoReturn (c ∷ s) h.1)

-- One or more decimal digits and a line feed, as `echo ID > delete` writes them, are parsed as that
-- identifier.
pub parse_id_command-echo :
    (id : Bytes) → id ≢ [] → All IsDigit id → parse_id_command (id ++ b'\n' ∷ []) ≡ ok id
unfolding parse_id_command check_id
parse_id_command-echo id ne digits =
    rw (command_text_echo id ne (digits_valid id digits) (digits_NoReturn id digits)) (
      rw (trim_space-NoSpace id (digits_NoSpace id digits)) (
        rw (index_space-NoSpace id (digits_NoSpace id digits))
          (rw (validate_message_id_complete id ne digits))))

check_emoji_parts :
    (p q : Bytes × Bytes) (o : Option ℕ) → check_emoji p o ≡ ok q → (p ≡ q) × (o ≡ none)
unfolding check_emoji
check_emoji_parts p q (some i) h = cc
check_emoji_parts p q none h = (cc, refl)

-- If a reaction is accepted as `(id, emoji)`, then the bytes are a message command with that
-- identifier and that content, and no space stands in the emoji.
pub parse_reaction_command_sound :
    (s id emoji : Bytes)
    → parse_reaction_command s ≡ ok (id, emoji)
    → MessageInput s id emoji × (index_space emoji ≡ none)
unfolding parse_reaction_command
parse_reaction_command_sound s id emoji h =
    let (parsed, read, checked) = bind_ok (parse_message_command s) _ h in
    let (same, no_space) = check_emoji_parts parsed (id, emoji) _ checked in
    (parse_message_command_sound s id emoji (cc), rw same at no_space)
