-- ===== src/File/Snapshot.antt =====
-- internal/p9fs/files.go: snapshotFile. A file whose content is generated when it is opened, and
-- kept for the fid until it is closed. `W` is the state of the world that `generate` works on.
pub mod Isolation
use flx.Prelude.{
  ℕ, ◌||◌, [], Bytes, Option, none, some, Result, ok, err, panic, if◌then◌else◌, Table, lookup, put,
  remove, nat_eq, nat_beq, List, ◌∷◌,
}
use flx.File.Modes.{Modes, access}
use flx.File.Errors.{FileError, read_only, not_open, failed}
use flx.File.Buffer.{slice}

pub record SnapshotFile : Type 0 where
  pub content : Table ℕ Bytes

unfoldable pub new_snapshot_file : SnapshotFile
new_snapshot_file = record { content = [] }

module _ {E W : Type 0} (modes : Modes) (generate : W → Result E Bytes × W) where
  keep :
      SnapshotFile → ℕ → Result E Bytes × W → Result (FileError E) (Unit {0}) × (SnapshotFile × W)
  keep f fid (ok input, w) = (ok tt, (record { content = put fid input f.content }, w))
  keep f fid (err e, w) = (err (failed e), (f, w))
  keep f fid (panic, w) = (panic, (f, w))

  unfoldable pub open_snapshot :
      SnapshotFile → ℕ → ℕ → W → Result (FileError E) (Unit {0}) × (SnapshotFile × W)
  unfolding keep
  open_snapshot f fid mode w =
      if nat_beq (access mode) modes.owrite || nat_beq (access mode) modes.ordwr
      then (err read_only, (f, w))
      else keep f fid (generate w)

module _ {E : Type 0} where
  sliced : Option Bytes → ℕ → ℕ → Result (FileError E) Bytes
  sliced none offset count = err not_open
  sliced (some input) offset count = slice input offset count

  unfoldable pub read_snapshot : SnapshotFile → ℕ → ℕ → ℕ → Result (FileError E) Bytes
  unfolding sliced
  read_snapshot f fid offset count = sliced (lookup fid f.content) offset count

  unfoldable pub write_snapshot : SnapshotFile → ℕ → ℕ → Bytes → Result (FileError E) ℕ
  write_snapshot f fid offset input = err read_only

unfoldable pub close_snapshot : SnapshotFile → ℕ → SnapshotFile
close_snapshot f fid = record { content = remove fid f.content }
