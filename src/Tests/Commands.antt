-- ===== src/Tests/Commands.antt =====
-- The command parsers at concrete inputs.
use flx.Prelude.{◌≡◌, ◌≤◌, refl, ◌++◌, ◌∷◌, Bytes, codes, ok, true, arith}
use flx.Text.Utf8.{valid, chunks, chunk_at, rune_count}
use flx.Text.Space.{index_space, is_space, NoLead, trim_suffix, trim_space, trim_left}
use flx.Command.{
  command_text, validate_message_id, parse_message_command, parse_id_command,
  parse_reaction_command,
}
use flx.Command.Sound.{parse_message_command_sound, MessageInput}
use flx.Command.RoundTrip.{parse_message_command-echo, echo, NoReturn}

abbrev line : Bytes
line = codes "123 hello\n"

abbrev id_line : Bytes
id_line = codes " 77 \n"

abbrev reaction : Bytes
reaction = codes "123 thumb"

hello_fits : rune_count (codes "hello") ≤ 4000
unfolding rune_count chunks chunk_at
hello_fits = omega arith

hello-NoLead : NoLead (chunks (codes "hello"))
unfolding chunks chunk_at is_space
hello-NoLead = refl

hello-NoReturn : NoReturn (codes "123" ++ 0x20 ∷ codes "hello")
unfolding trim_suffix
hello-NoReturn = refl

hello_valid : valid (echo (codes "123") (codes "hello")) ≡ true
unfolding valid chunks chunk_at
hello_valid = refl

parse_message_command-echo_example :
    parse_message_command (echo (codes "123") (codes "hello")) ≡ ok (codes "123", codes "hello")
parse_message_command-echo_example =
    parse_message_command-echo (codes "123") (codes "hello") (cc) (omega arith) (cc) hello_fits
      hello-NoLead hello-NoReturn hello_valid

line_accepted : parse_message_command line ≡ ok (codes "123", codes "hello")
unfolding parse_message_command parse_id_command parse_reaction_command command_text valid chunks
    chunk_at trim_suffix trim_space index_space is_space validate_message_id trim_left rune_count
line_accepted = refl

parse_message_command_sound_example : MessageInput line (codes "123") (codes "hello")
parse_message_command_sound_example =
    parse_message_command_sound line (codes "123") (codes "hello") line_accepted

id_accepted : validate_message_id (codes "123") ≡ ok tt
unfolding parse_message_command parse_id_command parse_reaction_command command_text valid chunks
    chunk_at trim_suffix trim_space index_space is_space validate_message_id trim_left rune_count
id_accepted = refl

text_accepted : command_text line ≡ ok (codes "123 hello")
unfolding parse_message_command parse_id_command parse_reaction_command command_text valid chunks
    chunk_at trim_suffix trim_space index_space is_space validate_message_id trim_left rune_count
text_accepted = refl

id_line_accepted : parse_id_command id_line ≡ ok (codes "77")
unfolding parse_message_command parse_id_command parse_reaction_command command_text valid chunks
    chunk_at trim_suffix trim_space index_space is_space validate_message_id trim_left rune_count
id_line_accepted = refl

reaction_accepted : parse_reaction_command reaction ≡ ok (codes "123", codes "thumb")
unfolding parse_message_command parse_id_command parse_reaction_command command_text valid chunks
    chunk_at trim_suffix trim_space index_space is_space validate_message_id trim_left rune_count
reaction_accepted = refl
