-- ===== src/File/Setting/Session.antt =====
-- A client's session on a setting file: it is opened for writing, written piece by piece, and closed.
use flx.Prelude.{
  ℕ, ◌+◌, ◌≤◌, ◌<◌, ◌≡◌, ◌%◌, ◌^◌, refl, ◌∙◌, ap, sym, List, [], ◌∷◌, ◌++◌, append_assoc,
  append-nil, Bytes, none, some, Result, ok, err, panic, lookup, put, nat_eq, length, length-append,
  lookup-put_self, lookup-remove_self, join, arith, beq_ne, beq_refl,
}
use flx.File.Modes.{Modes, access}
use flx.File.Buffer.{u64_mod}
use flx.File.Buffer.Laws.{write_buffer_append}
use flx.File.Setting.{SettingFile, open_setting, write_setting, close_setting, store_result}

-- The client writes the pieces at successive offsets.
abbrev pub write_all : SettingFile → ℕ → ℕ → List Bytes → SettingFile
write_all f fid offset [] = f
write_all f fid offset (piece ∷ pieces) =
    write_all (write_setting {E = Unit {0}} f fid offset piece).1 fid (offset + length piece) pieces

write_appends :
    {E : Type 0} (f : SettingFile) (fid : ℕ) (piece buffer : Bytes)
    → f.limit < u64_mod
    → lookup fid f.writes ≡ some buffer
    → length buffer + length piece ≤ f.limit
    → write_setting {E = E} f fid (length buffer) piece
      ≡ (ok (length piece % 2 ^ 32), record f { writes = put fid (buffer ++ piece) f.writes })
unfolding write_setting
write_appends f fid piece buffer small held h =
    rw held (rw (write_buffer_append f.limit piece buffer small h))

writes_collected :
    (f : SettingFile) (fid : ℕ) (pieces : List Bytes) (buffer : Bytes) (offset : ℕ)
    → f.limit < u64_mod
    → lookup fid f.writes ≡ some buffer
    → offset ≡ length buffer
    → length buffer + length (join pieces) ≤ f.limit
    → lookup fid (write_all f fid offset pieces).writes ≡ some (buffer ++ join pieces)
writes_collected f fid [] buffer offset small held here h = held ∙ ap some (sym (append-nil buffer))
writes_collected f fid (piece ∷ pieces) buffer offset small held here h =
    let sizes = length-append piece (join pieces) in
    let longer = length-append buffer piece in
    let grown : SettingFile = record f { writes = put fid (buffer ++ piece) f.writes } in
    let step = write_appends {E = Unit {0}} f fid piece buffer small held (omega arith) in
    rw here (
      ap (λ r. lookup fid (write_all r.1 fid (length buffer + length piece) pieces).writes) step
      ∙ (writes_collected grown fid pieces (buffer ++ piece) (length buffer + length piece) small
            (lookup-put_self fid (buffer ++ piece) f.writes) (omega arith) (omega arith)
          ∙ ap some (append_assoc buffer piece (join pieces))))

module _ {E W : Type 0} (modes : Modes) (load : W → Result E Bytes × W)
    (store : Bytes → W → Result E (Unit {0}) × W) where
  open_for_writing :
      (f : SettingFile) (fid mode : ℕ) (w : W)
      → access mode ≡ modes.owrite
      → open_setting modes load f fid mode w
        ≡ (ok tt, (record f { writes = put fid [] f.writes }, w))
  unfolding open_setting
  open_for_writing f fid mode w h = rw h (
      rw
        (beq_ne modes.owrite modes.oread (λ e. modes.read_ne_write (sym e)), beq_refl modes.owrite))

  -- Whatever pieces a client writes one after the other into a setting that it opened for writing,
  -- if together they fit the limit, then the close hands `store` their concatenation, gives its
  -- result and its world back, and forgets the fid.
  pub close_setting-write_all :
      (f : SettingFile) (fid mode : ℕ) (w : W) (pieces : List Bytes)
      → access mode ≡ modes.owrite
      → f.limit < u64_mod
      → length (join pieces) ≤ f.limit
      → let opened = (open_setting modes load f fid mode w).1.0 in
        let closed = close_setting store (write_all opened fid 0 pieces) fid w in
        (closed.0 ≡ (store_result (store (join pieces) w)).0)
        × (closed.1.1 ≡ (store (join pieces) w).1)
        × (lookup fid closed.1.0.writes ≡ none)
        × (lookup fid closed.1.0.reads ≡ none)
  unfolding close_setting
  close_setting-write_all f fid mode w pieces h small fits =
      let opened : SettingFile = record f { writes = put fid [] f.writes } in
      let collected =
        writes_collected opened fid pieces [] 0 small (lookup-put_self fid [] f.writes) refl
          (omega arith) in
      rw (open_for_writing f fid mode w h) (
        rw collected (
          refl,
          world_of (store (join pieces) w),
          lookup-remove_self fid _,
          lookup-remove_self fid _,
        ))
    where
      world_of : (r : Result E (Unit {0}) × W) → (store_result r).1 ≡ r.1
      world_of (ok u, w') = refl
      world_of (err e, w') = refl
      world_of (panic, w') = refl

  -- A fid that is not open for writing stores nothing when it is closed.
  pub close_setting_unwritten :
      (f : SettingFile) (fid : ℕ) (w : W)
      → lookup fid f.writes ≡ none
      → ((close_setting store f fid w).0 ≡ ok tt) × ((close_setting store f fid w).1.1 ≡ w)
  unfolding close_setting
  close_setting_unwritten f fid w h = rw h (refl, refl)
