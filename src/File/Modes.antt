-- ===== src/File/Modes.antt =====
-- The access modes of an open request. The constants belong to the 9P library, which is not part of
-- the repository: the model takes them as values that the low four bits of a mode can hold, of
-- which the three that the program compares are different.
use flx.Prelude.{ℕ, ◌%◌, ◌≢◌, arith}

pub record Modes : Type 0 where
  pub oread : ℕ
  pub owrite : ℕ
  pub ordwr : ℕ
  pub read_ne_write : oread ≢ owrite
  pub read_ne_rdwr : oread ≢ ordwr
  pub write_ne_rdwr : owrite ≢ ordwr

-- mode & 0x0f
abbrev pub access : ℕ → ℕ
access mode = mode % 16

-- The values of the 9P protocol.
abbrev pub protocol_modes : Modes
protocol_modes = record {
  oread = 0;
  owrite = 1;
  ordwr = 2;
  read_ne_write = omega arith;
  read_ne_rdwr = omega arith;
  write_ne_rdwr = omega arith;
}
