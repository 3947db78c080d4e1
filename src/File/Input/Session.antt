-- ===== src/File/Input/Session.antt =====
-- A client's session on a command or send file: open, write piece by piece, close.
use flx.Prelude.{
  ℕ, ◌+◌, ◌≤◌, ◌<◌, ◌≡◌, ◌%◌, ◌^◌, refl, ◌∙◌, ap, sym, List, [], ◌∷◌, ◌++◌, append_assoc,
  append-nil, Bytes, none, some, Result, ok, lookup, put, nat_eq, length, length-append,
  lookup-put_self, lookup-remove_self, join, arith, beq_refl,
}
use flx.File.Modes.{Modes, access}
use flx.File.Buffer.{u64_mod}
use flx.File.Buffer.Laws.{write_buffer_append}
use flx.File.Input.{InputFile, open_input, write_input, close_input}

-- The client writes the pieces at successive offsets.
abbrev pub write_pieces : ℕ → InputFile → ℕ → ℕ → List Bytes → InputFile
write_pieces limit f fid offset [] = f
write_pieces limit f fid offset (piece ∷ pieces) =
    write_pieces limit (write_input {E = Unit {0}} limit f fid offset piece).1 fid
      (offset + length piece) pieces

piece_appended :
    (limit : ℕ) (f : InputFile) (fid : ℕ) (piece buffer : Bytes)
    → limit < u64_mod
    → lookup fid f.buffers ≡ some buffer
    → length buffer + length piece ≤ limit
    → write_input {E = Unit {0}} limit f fid (length buffer) piece
      ≡ (ok (length piece % 2 ^ 32), record { buffers = put fid (buffer ++ piece) f.buffers })
unfolding write_input
piece_appended limit f fid piece buffer small held h =
    rw held (rw (write_buffer_append limit piece buffer small h))

pieces_collected :
    (limit : ℕ) (f : InputFile) (fid : ℕ) (pieces : List Bytes) (buffer : Bytes) (offset : ℕ)
    → limit < u64_mod
    → lookup fid f.buffers ≡ some buffer
    → offset ≡ length buffer
    → length buffer + length (join pieces) ≤ limit
    → lookup fid (write_pieces limit f fid offset pieces).buffers ≡ some (buffer ++ join pieces)
pieces_collected limit f fid [] buffer offset small held here h =
    held ∙ ap some (sym (append-nil buffer))
pieces_collected limit f fid (piece ∷ pieces) buffer offset small held here h =
    let sizes = length-append piece (join pieces) in
    let longer = length-append buffer piece in
    let grown : InputFile = record { buffers = put fid (buffer ++ piece) f.buffers } in
    let step = piece_appended limit f fid piece buffer small held (omega arith) in
    let rest =
      pieces_collected limit grown fid pieces (buffer ++ piece) (length buffer + length piece) small
        (lookup-put_self fid (buffer ++ piece) f.buffers) (omega arith) (omega arith) in
    rw here (
      ap
        (λ r. lookup fid (write_pieces limit r.1 fid (length buffer + length piece) pieces).buffers)
        step
      ∙ (rest ∙ ap some (append_assoc buffer piece (join pieces))))

module _ {E W : Type 0} (modes : Modes) (run : Bytes → W → Result E (Unit {0}) × W) where
  opened_empty :
      (f : InputFile) (fid mode : ℕ)
      → access mode ≡ modes.owrite
      → (open_input {E = E} modes f fid mode).1 ≡ record { buffers = put fid [] f.buffers }
  unfolding open_input
  opened_empty f fid mode h = rw h (rw (beq_refl modes.owrite))

  -- Whatever pieces a client writes one after the other into a command or send file that it opened
  -- for writing, if together they fit the limit, then the close runs the command once on their
  -- concatenation, gives its result and its world back, and forgets the fid.
  pub close_input-write_pieces :
      (limit : ℕ) (f : InputFile) (fid mode : ℕ) (w : W) (pieces : List Bytes)
      → access mode ≡ modes.owrite
      → limit < u64_mod
      → length (join pieces) ≤ limit
      → let opened = (open_input {E = E} modes f fid mode).1 in
        let closed = close_input run (write_pieces limit opened fid 0 pieces) fid w in
        (closed.0 ≡ (run (join pieces) w).0)
        × (closed.1.1 ≡ (run (join pieces) w).1)
        × (lookup fid closed.1.0.buffers ≡ none)
  unfolding close_input
  close_input-write_pieces limit f fid mode w pieces h small fits =
      let held =
        pieces_collected limit (record { buffers = put fid [] f.buffers }) fid pieces [] 0 small
          (lookup-put_self fid [] f.buffers) refl (omega arith) in
      rw (opened_empty f fid mode h, held) (refl, refl, lookup-remove_self fid _)
