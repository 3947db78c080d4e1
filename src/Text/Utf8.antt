-- ===== src/Text/Utf8.antt =====
-- Go's utf8 decoder. `chunk_at` is `DecodeRune` on a non-empty text, and `chunks` the loop that
-- decodes a text from its start, as `range` over a string does.
pub mod Decode
pub mod Separate
use flx.Prelude.{
  ℕ, zero, suc, ◌+◌, ◌-◌, ◌*◌, ◌<◌, ◌≤◌, ◌≡◌, refl, ap, Bool, true, false, ◌&&◌, not, List, [], ◌∷◌,
  ◌++◌, arith, Bytes, ltb, leb, nat_beq, if◌then◌else◌, length, take, drop, all, take-append-drop,
  lt→ltb, Bool-cases, inl, inr,
}

-- A decoded rune with the bytes it was read from.
pub record Chunk : Type 0 where
  pub rune : ℕ
  pub raw : Bytes

-- U+FFFD, `utf8.RuneError`.
abbrev pub rune_error : ℕ
rune_error = 0xfffd

in_range : ℕ → ℕ → ℕ → Bool
in_range lo hi b = leb lo b && leb b hi

-- A continuation byte.
tail_byte : ℕ → Bool
unfolding in_range
tail_byte b = in_range 0x80 0xbf b

-- The accepted range of the second byte under the first byte of a three-byte sequence.
second_of_three : ℕ → ℕ → Bool
unfolding in_range
second_of_three b0 b1 =
    if nat_beq b0 0xe0
    then in_range 0xa0 0xbf b1
    else if nat_beq b0 0xed
    then in_range 0x80 0x9f b1
    else in_range 0x80 0xbf b1

second_of_four : ℕ → ℕ → Bool
unfolding in_range
second_of_four b0 b1 =
    if nat_beq b0 0xf0
    then in_range 0x90 0xbf b1
    else if nat_beq b0 0xf4
    then in_range 0x80 0x8f b1
    else in_range 0x80 0xbf b1

-- One byte, read as itself below 0x80 and as an error otherwise.
invalid : ℕ → Chunk
invalid b0 = record { rune = rune_error; raw = b0 ∷ [] }

two_bytes : ℕ → Bytes → Chunk
unfolding tail_byte invalid
two_bytes b0 (b1 ∷ rest) =
    if tail_byte b1
    then record { rune = (b0 - 0xc0) * 64 + (b1 - 0x80); raw = b0 ∷ b1 ∷ [] }
    else invalid b0
two_bytes b0 [] = invalid b0

three_bytes : ℕ → Bytes → Chunk
unfolding tail_byte invalid second_of_three
three_bytes b0 (b1 ∷ b2 ∷ rest) =
    if second_of_three b0 b1 && tail_byte b2
    then record {
      rune = (b0 - 0xe0) * 4096 + (b1 - 0x80) * 64 + (b2 - 0x80);
      raw = b0 ∷ b1 ∷ b2 ∷ [];
    }
    else invalid b0
three_bytes b0 _ = invalid b0

four_bytes : ℕ → Bytes → Chunk
unfolding tail_byte invalid second_of_four
four_bytes b0 (b1 ∷ b2 ∷ b3 ∷ rest) =
    if second_of_four b0 b1 && (tail_byte b2 && tail_byte b3)
    then record {
      rune = (b0 - 0xf0) * 262144 + (b1 - 0x80) * 4096 + (b2 - 0x80) * 64 + (b3 - 0x80);
      raw = b0 ∷ b1 ∷ b2 ∷ b3 ∷ [];
    }
    else invalid b0
four_bytes b0 _ = invalid b0

-- utf8.DecodeRune on the text `b0 ∷ rest`.
unfoldable pub chunk_at : ℕ → Bytes → Chunk
unfolding two_bytes three_bytes four_bytes in_range invalid
chunk_at b0 rest =
    if ltb b0 0x80
    then record { rune = b0; raw = b0 ∷ [] }
    else if in_range 0xc2 0xdf b0
    then two_bytes b0 rest
    else if in_range 0xe0 0xef b0
    then three_bytes b0 rest
    else if in_range 0xf0 0xf4 b0
    then four_bytes b0 rest
    else invalid b0

-- The first argument counts the bytes of the last rune that are still to be passed over.
unfoldable pub chunks_from : ℕ → Bytes → List Chunk
chunks_from k [] = []
chunks_from zero (b ∷ s) = chunk_at b s ∷ chunks_from (length (chunk_at b s).raw - 1) s
chunks_from (suc k) (b ∷ s) = chunks_from k s

unfoldable pub chunks : Bytes → List Chunk
unfolding chunks_from
chunks = chunks_from 0

-- The bytes of a list of chunks.
unfoldable pub concat : List Chunk → Bytes
concat [] = []
concat (c ∷ cs) = c.raw ++ concat cs

is_valid : Chunk → Bool
is_valid c = not (nat_beq c.rune rune_error && nat_beq (length c.raw) 1)

-- utf8.Valid
unfoldable pub valid : Bytes → Bool
unfolding is_valid
valid s = all is_valid (chunks s)

-- utf8.RuneCount
unfoldable pub rune_count : Bytes → ℕ
rune_count s = length (chunks s)
