-- ===== src/File/Actions/Calls.antt =====
-- What the command files ask the API client to do.
use flx.Prelude.{
  ℕ, ◌≤◌, ◌≡◌, ◌≢◌, refl, ◌∙◌, ap, sym, true, List, [], ◌∷◌, ◌++◌, Bytes, Result, ok, err, panic,
  length, join, nat_eq, All, arith,
}
use flx.Text.Utf8.{valid, chunks, rune_count}
use flx.Text.Space.{NoLead}
use flx.Command.{CommandError, parse_id_command}
use flx.Command.Sound.{IsDigit}
use flx.Command.Id.{IdInput, parse_id_command_sound}
use flx.Command.RoundTrip.{parse_message_command-echo, echo, NoReturn}
use flx.File.Modes.{Modes, access}
use flx.File.Input.{InputFile, open_input, close_input, command_limit}
use flx.File.Input.Session.{write_pieces, close_input-write_pieces}
use flx.File.Actions.{Client, ActionError, delete_refused, called, parsed, then_call, edit, delete}

module _ {E W : Type 0} (modes : Modes) (api : Client E W) where
  -- `echo ID CONTENT > edit`: let `id` be one or more decimal digits, and `content` a non-empty text
  -- of at most 4000 runes that starts with no space, where `id`, a space and `content` do not end in
  -- a carriage return and the line is valid UTF-8. If a client opens the edit file for writing,
  -- writes the line in whatever pieces and closes the file, if the line fits the limit of the buffer
  -- and the channel is resolved, then the one call made after it is the edit of that message in that
  -- channel to that content, and its result is the result of the close.
  pub close_edit-echo :
      (f : InputFile) (fid mode : ℕ) (w w' : W) (pieces : List Bytes)
      (id content channel_id : Bytes)
      → access mode ≡ modes.owrite
      → join pieces ≡ echo id content
      → length (echo id content) ≤ command_limit
      → id ≢ []
      → All IsDigit id
      → content ≢ []
      → rune_count content ≤ 4000
      → NoLead (chunks content)
      → NoReturn (id ++ 0x20 ∷ content)
      → valid (echo id content) ≡ true
      → api.resolve w ≡ (ok channel_id, w')
      → let opened = (open_input {E = ActionError E} modes f fid mode).1 in
        let closed =
          close_input (edit api) (write_pieces command_limit opened fid 0 pieces) fid w in
        (closed.0 ≡ (called (api.edit_message channel_id id content w')).0)
        × (closed.1.1 ≡ (called (api.edit_message channel_id id content w')).1)
  close_edit-echo f fid mode w w' pieces id content channel_id opens line fits id_ne digits
        content_ne short lead return utf8 resolves =
      let parses =
        parse_message_command-echo id content id_ne digits content_ne short lead return utf8 in
      let (r, s, gone) =
        close_input-write_pieces modes (edit api) command_limit f fid mode w pieces opens
          (omega arith) (rw line fits) in
      let runs : edit api (join pieces) w ≡ called (api.edit_message channel_id id content w') =
        unfold edit in rw (line, parses, resolves) refl in
      (r ∙ ap (λ x. x.0) runs, s ∙ ap (λ x. x.1) runs)

-- What the delete file did: it refused the command and called nothing; or it failed to resolve its
-- channel; or it called for the deletion of the identifier that stands in the command.
pub data Deletion {E W : Type 0} (api : Client E W) (input : Bytes) (w : W)
    : Result (ActionError E) (Unit {0}) × W → Type 0 where
  not_called :
      (r : Result (ActionError E) (Unit {0}) × W) → r.0 ≢ ok tt → r.1 ≡ w → Deletion api input w r
  not_resolved :
      (r : Result (ActionError E) (Unit {0}) × W)
      → r.0 ≢ ok tt
      → r.1 ≡ (api.resolve w).1
      → Deletion api input w r
  deleted :
      (id channel_id : Bytes) (w' : W)
      → IdInput input id
      → api.resolve w ≡ (ok channel_id, w')
      → Deletion api input w (called (api.delete_message channel_id id w'))

module _ {E W : Type 0} (api : Client E W) (input : Bytes) where
  delete_resolved :
      (w : W) (id : Bytes) (r : Result E Bytes × W)
      → IdInput input id
      → api.resolve w ≡ r
      → Deletion api input w
          (then_call (called r) (λ channel_id w2. called (api.delete_message channel_id id w2)))
  delete_resolved w id (ok channel_id, w') written e = deleted id channel_id w' written e
  delete_resolved w id (err e', w') written e = not_resolved _ (λ h. cc) (ap (λ x. x.1) (sym e))
  delete_resolved w id (panic, w') written e = not_resolved _ (λ h. cc) (ap (λ x. x.1) (sym e))

  delete_parsed :
      (w : W) (r : Result CommandError Bytes)
      → parse_id_command input ≡ r
      → Deletion api input w (
          then_call (parsed delete_refused r w) (λ message_id w1.
            then_call
              (called (api.resolve w1))
              (λ channel_id w2. called (api.delete_message channel_id message_id w2))))
  delete_parsed w (ok id) e =
      delete_resolved w id (api.resolve w) (parse_id_command_sound input id e) refl
  delete_parsed w (err e') e = not_called _ (λ h. cc) refl
  delete_parsed w panic e = not_called _ (λ h. cc) refl

  -- Whatever is written into the delete file: either the action fails and leaves the world as it
  -- was, or as the resolution of the channel left it; or the bytes are spaces, an identifier of
  -- decimal digits, spaces and at most one line end, and the action is the deletion of that
  -- identifier in the channel that was resolved.
  pub delete-Deletion : (w : W) → Deletion api input w (delete api input w)
  unfolding delete
  delete-Deletion w = delete_parsed w (parse_id_command input) refl
