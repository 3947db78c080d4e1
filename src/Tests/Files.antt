-- ===== src/Tests/Files.antt =====
-- The files at concrete inputs.
use flx.Prelude.{
  ℕ, ◌+◌, ◌≡◌, ◌≤◌, ◌<◌, refl, List, [], ◌∷◌, Bytes, codes, Result, ok, panic, none, take, drop,
  length, join, nat_eq, arith,
}
use flx.Prelude.Tables.{put, lookup}
use flx.File.Modes.{protocol_modes}
use flx.File.Buffer.{slice, write_buffer, u64_mod}
use flx.File.Buffer.Laws.{
  slice-eq-take, slice_wraps, Written, write_buffer_fits, write_buffer_wraps,
}
use flx.File.Snapshot.{SnapshotFile, new_snapshot_file, open_snapshot, read_snapshot}
use flx.File.Snapshot.Isolation.{Request, open_fid, write_fid, close_fid, serve, read_snapshot-open}
use flx.File.Input.{new_input_file, open_input, close_input, command_limit}
use flx.File.Input.Session.{write_pieces, close_input-write_pieces}
use flx.File.Setting.{new_setting_file, open_setting, close_setting, store_result}
use flx.File.Setting.Session.{write_all, close_setting-write_all}

abbrev hello : Bytes
hello = codes "hello"

slice-eq-take_example : slice {E = Unit {0}} hello 1 3 ≡ ok (take 3 (drop 1 hello))
slice-eq-take_example = slice-eq-take {E = Unit {0}} hello 1 3 (omega arith)

-- The largest count is 2 ^ 64 - 1.
slice_wraps_example : slice {E = Unit {0}} hello 1 0xFFFFFFFFFFFFFFFF ≡ panic
slice_wraps_example =
    slice_wraps {E = Unit {0}} hello 1 0xFFFFFFFFFFFFFFFF (omega arith) (omega arith) (omega arith)
      (omega arith)

write_buffer_fits_example :
    (r : Bytes) × (write_buffer 16 7 hello (codes "ab") ≡ ok r) × Written 7 hello (codes "ab") r
write_buffer_fits_example = write_buffer_fits 16 7 hello (codes "ab") (omega arith) (omega arith)

write_buffer_wraps_example : write_buffer 16 0xFFFFFFFFFFFFFFFE hello (codes "ab") ≡ panic
write_buffer_wraps_example =
    write_buffer_wraps 16 0xFFFFFFFFFFFFFFFE hello (codes "ab") (omega arith) (omega arith)
      (omega arith) (omega arith)

-- A world that counts, and a generator that writes a byte for each count.
abbrev generate : ℕ → Result (Unit {0}) Bytes × ℕ
generate w = (ok (w ∷ codes "hello"), w + 1)

abbrev opened : SnapshotFile
opened = record { content = (3, 9 ∷ hello) ∷ [] }

open_succeeds :
    open_snapshot protocol_modes generate new_snapshot_file 3 0 9 ≡ (ok tt, (opened, 10))
unfolding open_snapshot new_snapshot_file put
open_succeeds = refl

-- Another fid is opened and closed in between.
abbrev others : List Request
others = open_fid 4 0 ∷ write_fid 4 0 hello ∷ close_fid 4 ∷ []

read_snapshot-open_example :
    (input : Bytes) × ((generate 9).0 ≡ ok input)
    × (read_snapshot {E = Unit {0}} (serve protocol_modes generate (opened, 10) others).0 3 1 2
        ≡ ok (take 2 (drop 1 input)))
read_snapshot-open_example =
    read_snapshot-open protocol_modes generate new_snapshot_file 3 0 9 (opened, 10) others 1 2
      open_succeeds (omega arith) (omega arith)

abbrev store : Bytes → List Bytes → Result (Unit {0}) (Unit {0}) × List Bytes
store input w = (ok tt, input ∷ w)

abbrev load : List Bytes → Result (Unit {0}) Bytes × List Bytes
load w = (ok hello, w)

nothing_held : lookup 3 (new_setting_file 16).writes ≡ none
unfolding new_setting_file lookup
nothing_held = refl

abbrev pieces : List Bytes
pieces = codes "he" ∷ codes "llo" ∷ []

limit_small : (new_setting_file 16).limit < u64_mod
unfolding new_setting_file
limit_small = omega arith

pieces_fit : length (join pieces) ≤ (new_setting_file 16).limit
unfolding new_setting_file
pieces_fit = omega arith

close_setting-write_all_example :
    let first = (open_setting protocol_modes load (new_setting_file 16) 3 1 []).1.0 in
    let closed = close_setting store (write_all first 3 0 pieces) 3 [] in
    (closed.0 ≡ (store_result (store (join pieces) [])).0)
    × (closed.1.1 ≡ (store (join pieces) []).1)
    × (lookup 3 closed.1.0.writes ≡ none)
    × (lookup 3 closed.1.0.reads ≡ none)
close_setting-write_all_example =
    close_setting-write_all protocol_modes load store (new_setting_file 16) 3 1 [] pieces
      (omega arith) limit_small pieces_fit

abbrev command_pieces : List Bytes
command_pieces = codes "123 he" ∷ codes "llo\n" ∷ []

abbrev run : Bytes → List Bytes → Result (Unit {0}) (Unit {0}) × List Bytes
run input w = (ok tt, input ∷ w)

close_input-write_pieces_example :
    let first = (open_input {E = Unit {0}} protocol_modes new_input_file 3 1).1 in
    let closed = close_input run (write_pieces command_limit first 3 0 command_pieces) 3 [] in
    (closed.0 ≡ (run (join command_pieces) []).0)
    × (closed.1.1 ≡ (run (join command_pieces) []).1)
    × (lookup 3 closed.1.0.buffers ≡ none)
close_input-write_pieces_example =
    close_input-write_pieces protocol_modes run command_limit new_input_file 3 1 [] command_pieces
      (omega arith) (omega arith) (omega arith)
