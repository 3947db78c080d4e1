-- ===== src/File/Input.antt =====
-- internal/p9fs/files.go: commandFile and sendFile. Both collect what a fid writes in a buffer and
-- act on it when the fid is closed; they differ in the limit of the buffer and in what they do.
pub mod Session
use flx.Prelude.{
  ℕ, ◌%◌, ◌^◌, ◌*◌, ◌&&◌, not, [], Bytes, Option, none, some, Result, ok, err, panic, if◌then◌else◌,
  Table, lookup, put, remove, nat_eq, nat_beq, length,
}
use flx.File.Modes.{Modes, access}
use flx.File.Errors.{FileError, write_only, not_open, limit_exceeded, failed}
use flx.File.Buffer.{BufferError, write_buffer}

-- The buffers by fid.
pub record InputFile : Type 0 where
  pub buffers : Table ℕ Bytes

unfoldable pub new_input_file : InputFile
new_input_file = record { buffers = [] }

-- 32 << 10
abbrev pub command_limit : ℕ
command_limit = 32768

-- 64 << 20
abbrev pub max_send_buffer : ℕ
max_send_buffer = 67108864

module _ {E : Type 0} where
  unfoldable pub open_input :
      Modes → InputFile → ℕ → ℕ → Result (FileError E) (Unit {0}) × InputFile
  open_input modes f fid mode =
      if not (nat_beq (access mode) modes.owrite) && not (nat_beq (access mode) modes.ordwr)
      then (err write_only, f)
      else (ok tt, record { buffers = put fid [] f.buffers })

  unfoldable pub read_input : InputFile → ℕ → ℕ → ℕ → Result (FileError E) Bytes
  read_input f fid offset count = err write_only

  keep_buffer :
      InputFile → ℕ → Bytes → Result BufferError Bytes → Result (FileError E) ℕ × InputFile
  keep_buffer f fid input (ok buffer) =
      (ok (length input % 2 ^ 32), record { buffers = put fid buffer f.buffers })
  keep_buffer f fid input (err e) = (err limit_exceeded, f)
  keep_buffer f fid input panic = (panic, f)

  write_held : ℕ → InputFile → ℕ → ℕ → Bytes → Option Bytes → Result (FileError E) ℕ × InputFile
  unfolding keep_buffer
  write_held limit f fid offset input none = (err not_open, f)
  write_held limit f fid offset input (some buffer) =
      keep_buffer f fid input (write_buffer limit offset input buffer)

  unfoldable pub write_input : ℕ → InputFile → ℕ → ℕ → Bytes → Result (FileError E) ℕ × InputFile
  unfolding write_held
  write_input limit f fid offset input = write_held limit f fid offset input (lookup fid f.buffers)

  unfoldable pub write_command : InputFile → ℕ → ℕ → Bytes → Result (FileError E) ℕ × InputFile
  write_command f fid offset input = write_input command_limit f fid offset input

  unfoldable pub write_send : InputFile → ℕ → ℕ → Bytes → Result (FileError E) ℕ × InputFile
  write_send f fid offset input = write_input max_send_buffer f fid offset input

module _ {E W : Type 0} (run : Bytes → W → Result E (Unit {0}) × W) where
  run_held : Option Bytes → W → Result E (Unit {0}) × W
  run_held none w = (ok tt, w)
  run_held (some input) w = run input w

  unfoldable pub close_input : InputFile → ℕ → W → Result E (Unit {0}) × (InputFile × W)
  unfolding run_held
  close_input f fid w =
      let (r, w') = run_held (lookup fid f.buffers) w in
      (r, (record { buffers = remove fid f.buffers }, w'))
