-- ===== src/Command.antt =====
-- The commands that are written to the control files of a conversation,
-- internal/p9fs/files.go: commandText, validateMessageID, parseMessageCommand,
-- parseReactionCommand and parseIDCommand.
pub mod Sound
pub mod Id
pub mod RoundTrip
use flx.Prelude.{
  ℕ, ◌+◌, ◌<◌, ◌≡◌, refl, Bool, true, false, ◌||◌, List, [], ◌∷◌, Option, none, some, Bytes, codes,
  ltb, nat_beq, if◌then◌else◌, take, drop, Result, ok, err, panic, ◌>>=◌,
}
use flx.Text.Utf8.{Chunk, chunks, valid, rune_count}
use flx.Text.Space.{index_space, trim_left, trim_space, trim_suffix}

pub data CommandError : Type 0 where
  command_empty command_not_utf8 expected_id_and_content content_empty message_too_long :
      CommandError
  id_empty id_not_digits emoji_has_space expected_one_id : CommandError

reject_empty : Bytes → Result CommandError Bytes
reject_empty [] = err command_empty
reject_empty (c ∷ text) = ok (c ∷ text)

-- A text of one line, without the line end that a shell's `echo` adds.
unfoldable pub command_text : Bytes → Result CommandError Bytes
unfolding reject_empty
command_text [] = err command_empty
command_text (b ∷ s) =
    if valid (b ∷ s)
    then reject_empty (trim_suffix b'\r' (trim_suffix b'\n' (b ∷ s)))
    else err command_not_utf8

-- for _, r := range id
all_digits : List Chunk → Bool
all_digits [] = true
all_digits (c ∷ cs) =
    let rest = all_digits cs in if ltb c.rune b'0' || ltb b'9' c.rune then false else rest

unfoldable pub validate_message_id : Bytes → Result CommandError (Unit {0})
unfolding all_digits
validate_message_id [] = err id_empty
validate_message_id (b ∷ s) = if all_digits (chunks (b ∷ s)) then ok tt else err id_not_digits

check_content : Bytes → Bytes → Result CommandError (Bytes × Bytes)
check_content message_id [] = err content_empty
check_content message_id (b ∷ s) =
    if ltb 4000 (rune_count (b ∷ s)) then err message_too_long else ok (message_id, b ∷ s)

-- The separator is the first space; the identifier stands before it and the content behind.
split_message : Bytes → Option ℕ → Result CommandError (Bytes × Bytes)
unfolding check_content
split_message text none = err expected_id_and_content
split_message text (some separator) = do
  let message_id = take separator text
  let content = trim_left (drop separator text)
  _ ← validate_message_id message_id
  check_content message_id content

unfoldable pub parse_message_command : Bytes → Result CommandError (Bytes × Bytes)
unfolding split_message
parse_message_command input = do text ← command_text input; split_message text (index_space text)

check_emoji : Bytes × Bytes → Option ℕ → Result CommandError (Bytes × Bytes)
check_emoji parsed (some i) = err emoji_has_space
check_emoji parsed none = ok parsed

unfoldable pub parse_reaction_command : Bytes → Result CommandError (Bytes × Bytes)
unfolding check_emoji
parse_reaction_command input = do
  parsed ← parse_message_command input
  check_emoji parsed (index_space parsed.1)

check_id : Bytes → Option ℕ → Result CommandError Bytes
check_id message_id (some i) = err expected_one_id
check_id message_id none = do _ ← validate_message_id message_id; ok message_id

unfoldable pub parse_id_command : Bytes → Result CommandError Bytes
unfolding check_id
parse_id_command input = do
  text ← command_text input
  let message_id = trim_space text
  check_id message_id (index_space message_id)
