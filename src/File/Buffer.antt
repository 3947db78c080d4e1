-- ===== src/File/Buffer.antt =====
-- internal/p9fs/nodes.go (slice), and the buffer arithmetic that the Write methods of
-- internal/p9fs/files.go share. Offsets and counts are uint64 and wrap; a slice expression whose
-- start lies behind its end panics.
pub mod Laws
use flx.Prelude.{
  ℕ, zero, suc, ◌+◌, ◌-◌, ◌%◌, ◌^◌, List, [], ◌∷◌, ◌++◌, Bytes, Result, ok, err, panic, ltb, leb,
  if◌then◌else◌, length, take, drop, replicate, refl, ◌≡◌, codes,
}

abbrev pub u64_mod : ℕ
u64_mod = 2 ^ 64

-- uint64 addition
abbrev pub add64 : ℕ → ℕ → ℕ
add64 a b = (a + b) % u64_mod

-- s[lo:hi], for hi within the capacity
abbrev pub subslice : {E : Type 0} {A : Type 0} → List A → ℕ → ℕ → Result E (List A)
subslice s lo hi = if ltb hi lo then panic else ok (take (hi - lo) (drop lo s))

unfoldable pub slice : {E : Type 0} → Bytes → ℕ → ℕ → Result E Bytes
slice input offset count =
    if leb (length input) offset
    then ok []
    else let end = add64 offset count in
      subslice input offset (if ltb (length input) end then length input else end)

-- copy(buffer[offset:], src)
unfoldable pub overwrite : ℕ → Bytes → Bytes → Bytes
overwrite zero [] buffer = buffer
overwrite zero (d ∷ src) [] = []
overwrite zero (d ∷ src) (b ∷ buffer) = d ∷ overwrite zero src buffer
overwrite (suc i) src [] = []
overwrite (suc i) src (b ∷ buffer) = b ∷ overwrite i src buffer

pub data BufferError : Type 0 where
  over_limit : BufferError

-- append(buffer, make([]byte, end-len(buffer))...)
unfoldable pub grow : ℕ → Bytes → Bytes
grow end buffer =
    if ltb (length buffer) end then buffer ++ replicate (end - length buffer) 0 else buffer

-- The limit test, the growth and `copy(buffer[offset:end], data)`.
unfoldable pub write_buffer : ℕ → ℕ → Bytes → Bytes → Result BufferError Bytes
write_buffer limit offset input buffer =
    let end = add64 offset (length input) in
    if ltb limit end
    then err over_limit
    else if ltb end offset
    then panic
    else ok (overwrite offset input (grow end buffer))
