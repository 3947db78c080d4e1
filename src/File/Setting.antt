-- ===== src/File/Setting.antt =====
-- internal/p9fs/files.go: settingFile. A fid is open for reading or for writing. What was written
-- is handed to `store` when the fid is closed. `W` is the state of the world that `load` and `store`
-- work on.
pub mod Session
use flx.Prelude.{
  ℕ, ◌%◌, ◌^◌, [], Bytes, Option, none, some, Result, ok, err, panic, if◌then◌else◌, Table, lookup,
  put, remove, nat_eq, nat_beq, length,
}
use flx.File.Modes.{Modes, access}
use flx.File.Errors.{
  FileError, not_open_for_reading, not_open_for_writing, one_mode_only, limit_exceeded, failed,
}
use flx.File.Buffer.{BufferError, slice, write_buffer}

pub record SettingFile : Type 0 where
  pub reads : Table ℕ Bytes
  pub writes : Table ℕ Bytes
  pub limit : ℕ

unfoldable pub new_setting_file : ℕ → SettingFile
new_setting_file limit = record { reads = []; writes = []; limit = limit }

module _ {E W : Type 0} where
  keep : SettingFile → ℕ → Result E Bytes × W → Result (FileError E) (Unit {0}) × (SettingFile × W)
  keep f fid (ok input, w) = (ok tt, (record f { reads = put fid input f.reads }, w))
  keep f fid (err e, w) = (err (failed e), (f, w))
  keep f fid (panic, w) = (panic, (f, w))

  unfoldable pub open_setting :
      Modes
      → (W → Result E Bytes × W)
      → SettingFile
      → ℕ
      → ℕ
      → W
      → Result (FileError E) (Unit {0}) × (SettingFile × W)
  unfolding keep
  open_setting modes load f fid mode w =
      if nat_beq (access mode) modes.oread
      then keep f fid (load w)
      else if nat_beq (access mode) modes.owrite
      then (ok tt, (record f { writes = put fid [] f.writes }, w))
      else (err one_mode_only, (f, w))

  abbrev pub store_result : Result E (Unit {0}) × W → Result (FileError E) (Unit {0}) × W
  store_result (ok u, w) = (ok u, w)
  store_result (err e, w) = (err (failed e), w)
  store_result (panic, w) = (panic, w)

  finish :
      (Bytes → W → Result E (Unit {0}) × W) → Option Bytes → W → Result (FileError E) (Unit {0}) × W
  finish store none w = (ok tt, w)
  finish store (some input) w = store_result (store input w)

  unfoldable pub close_setting :
      (Bytes → W → Result E (Unit {0}) × W)
      → SettingFile
      → ℕ
      → W
      → Result (FileError E) (Unit {0}) × (SettingFile × W)
  unfolding finish
  close_setting store f fid w =
      let (r, w') = finish store (lookup fid f.writes) w in
      (r, (record f { reads = remove fid f.reads; writes = remove fid f.writes }, w'))

module _ {E : Type 0} where
  sliced : Option Bytes → ℕ → ℕ → Result (FileError E) Bytes
  sliced none offset count = err not_open_for_reading
  sliced (some input) offset count = slice input offset count

  unfoldable pub read_setting : SettingFile → ℕ → ℕ → ℕ → Result (FileError E) Bytes
  unfolding sliced
  read_setting f fid offset count = sliced (lookup fid f.reads) offset count

  accept : SettingFile → ℕ → Bytes → Result BufferError Bytes → Result (FileError E) ℕ × SettingFile
  accept f fid input (ok buffer) =
      (ok (length input % 2 ^ 32), record f { writes = put fid buffer f.writes })
  accept f fid input (err e) = (err limit_exceeded, f)
  accept f fid input panic = (panic, f)

  write_open : SettingFile → ℕ → ℕ → Bytes → Option Bytes → Result (FileError E) ℕ × SettingFile
  unfolding accept
  write_open f fid offset input none = (err not_open_for_writing, f)
  write_open f fid offset input (some buffer) =
      accept f fid input (write_buffer f.limit offset input buffer)

  unfoldable pub write_setting : SettingFile → ℕ → ℕ → Bytes → Result (FileError E) ℕ × SettingFile
  unfolding write_open
  write_setting f fid offset input = write_open f fid offset input (lookup fid f.writes)
