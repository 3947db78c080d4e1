-- ===== src/Tests/Actions.antt =====
-- The command files at concrete inputs.
use flx.Prelude.{◌≡◌, ◌≤◌, refl, true, List, [], ◌∷◌, ◌++◌, Bytes, codes, ok, nat_eq, arith}
use flx.Text.Utf8.{valid, chunks, chunk_at, rune_count}
use flx.Text.Space.{is_space, NoLead, trim_suffix}
use flx.Command.RoundTrip.{echo, NoReturn}
use flx.File.Modes.{protocol_modes}
use flx.File.Input.{new_input_file, open_input, close_input, command_limit}
use flx.File.Input.Session.{write_pieces}
use flx.File.Actions.{Client, ActionError, called, edit, delete}
use flx.File.Actions.Sending.{Sending}
use flx.File.Actions.Calls.{Deletion, close_edit-echo, delete-Deletion}

-- A client whose world is the list of the arguments of its calls.
abbrev api : Client (Unit {0}) (List Bytes)
api = record {
  resolve = λ w. (ok (codes "900"), w);
  message_nonce = λ w. (ok (codes "00"), w);
  edit_message = λ channel id content w. (ok tt, channel ∷ id ∷ content ∷ w);
  reply_message = λ channel id content nonce w. (ok tt, channel ∷ id ∷ content ∷ w);
  send_message = λ channel content nonce w. (ok tt, channel ∷ content ∷ w);
  send_attachment_message = λ channel content attachment nonce w. (ok tt, channel ∷ content ∷ w);
  delete_message = λ channel id w. (ok tt, channel ∷ id ∷ w);
  add_reaction = λ channel id emoji w. (ok tt, w);
  remove_reaction = λ channel id emoji w. (ok tt, w);
  indicate_typing = λ channel w. (ok tt, w);
  set_pinned = λ channel id pinned w. (ok tt, w);
  acknowledge_message = λ channel id w. (ok tt, w);
}

abbrev pieces : List Bytes
pieces = codes "123 he" ∷ codes "llo\n" ∷ []

short : rune_count (codes "hello") ≤ 4000
unfolding rune_count chunks chunk_at
short = omega arith

starts : NoLead (chunks (codes "hello"))
unfolding chunks chunk_at is_space
starts = refl

ends : NoReturn (codes "123" ++ 0x20 ∷ codes "hello")
unfolding trim_suffix
ends = refl

utf8 : valid (echo (codes "123") (codes "hello")) ≡ true
unfolding valid chunks chunk_at
utf8 = refl

close_edit-echo_example :
    let opened = (open_input {E = ActionError (Unit {0})} protocol_modes new_input_file 3 1).1 in
    let closed = close_input (edit api) (write_pieces command_limit opened 3 0 pieces) 3 [] in
    (closed.0 ≡ (called (api.edit_message (codes "900") (codes "123") (codes "hello") [])).0)
    × (closed.1.1 ≡ (called (api.edit_message (codes "900") (codes "123") (codes "hello") [])).1)
close_edit-echo_example =
    close_edit-echo protocol_modes api new_input_file 3 1 [] [] pieces (codes "123") (codes "hello")
      (codes "900") (omega arith) refl (omega arith) (cc) (omega arith) (cc) short starts ends utf8
      refl

delete-Deletion_example : Deletion api (codes " 7 \n") [] (delete api (codes " 7 \n") [])
delete-Deletion_example = delete-Deletion api (codes " 7 \n") []

abbrev detect : Bytes → Bytes
detect input = codes "text/plain"
