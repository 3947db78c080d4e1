-- ===== src/Text/Utf8/Decode.antt =====
-- The chunks of a text: what they spell, how ASCII bytes are read, and that no overlong form
-- stands for an ASCII byte.
use flx.Prelude.{
  ℕ, zero, suc, ◌-◌, ◌<◌, ◌≤◌, ◌≡◌, refl, ap, Bool, true, false, ◌&&◌, List, [], ◌∷◌, arith, Bytes,
  if◌then◌else◌, length, take, drop, take-append-drop, lt→ltb, Bool-cases, inl, inr,
}
use flx.Text.Utf8.{
  Chunk, rune_error, tail_byte, second_of_three, second_of_four, two_bytes, three_bytes, four_bytes,
  chunk_at, chunks_from, chunks, concat, valid,
}

-- `c` is a non-empty prefix of the text `b ∷ s`.
pub record Heads (b : ℕ) (s : Bytes) (c : Chunk) : Type 0 where
  pub nonempty : 0 < length c.raw
  pub starts : c.raw ≡ b ∷ take (length c.raw - 1) s

Heads-single : (b : ℕ) (s : Bytes) (r : ℕ) → Heads b s (record { rune = r; raw = b ∷ [] })
Heads-single b s r = record { nonempty = omega arith; starts = refl }

Heads-two_bytes : (b : ℕ) (s : Bytes) → Heads b s (two_bytes b s)
unfolding two_bytes
Heads-two_bytes b [] = record { nonempty = omega arith; starts = refl }
Heads-two_bytes b (b1 ∷ s) = elim (Bool-cases (tail_byte b1)) [
  | inl e ↦ rw e record { nonempty = omega arith; starts = refl }
  | inr e ↦ rw e record { nonempty = omega arith; starts = refl }
]

Heads-three_bytes : (b : ℕ) (s : Bytes) → Heads b s (three_bytes b s)
unfolding three_bytes
Heads-three_bytes b (b1 ∷ b2 ∷ s) = elim (Bool-cases (second_of_three b b1 && tail_byte b2)) [
  | inl e ↦ rw e record { nonempty = omega arith; starts = refl }
  | inr e ↦ rw e record { nonempty = omega arith; starts = refl }
]
Heads-three_bytes b _ = record { nonempty = omega arith; starts = refl }

Heads-four_bytes : (b : ℕ) (s : Bytes) → Heads b s (four_bytes b s)
unfolding four_bytes
Heads-four_bytes b (b1 ∷ b2 ∷ b3 ∷ s) =
    elim (Bool-cases (second_of_four b b1 && (tail_byte b2 && tail_byte b3))) [
      | inl e ↦ rw e record { nonempty = omega arith; starts = refl }
      | inr e ↦ rw e record { nonempty = omega arith; starts = refl }
    ]
Heads-four_bytes b _ = record { nonempty = omega arith; starts = refl }

Heads-if :
    (b : ℕ) (s : Bytes) (t : Bool) {c d : Chunk}
    → Heads b s c
    → Heads b s d
    → Heads b s (if t then c else d)
Heads-if b s true hc hd = hc
Heads-if b s false hc hd = hd

pub Heads-chunk_at : (b : ℕ) (s : Bytes) → Heads b s (chunk_at b s)
unfolding chunk_at
Heads-chunk_at b s = Heads-if b s _ (Heads-single b s b) (
    Heads-if b s _ (Heads-two_bytes b s) (
      Heads-if b s _ (Heads-three_bytes b s)
        (Heads-if b s _ (Heads-four_bytes b s) (Heads-single b s rune_error))))

pub concat-chunks_from : (k : ℕ) (s : Bytes) → concat (chunks_from k s) ≡ drop k s
unfolding concat chunks_from
concat-chunks_from zero [] = refl
concat-chunks_from (suc k) [] = refl
concat-chunks_from (suc k) (b ∷ s) = concat-chunks_from k s
concat-chunks_from zero (b ∷ s) =
    let n = length (chunk_at b s).raw - 1 in
    cc ((Heads-chunk_at b s).starts, concat-chunks_from n s, take-append-drop n s)

-- Decoding loses nothing: the chunks spell the text.
pub concat-chunks : (s : Bytes) → concat (chunks s) ≡ s
unfolding chunks
concat-chunks s = concat-chunks_from 0 s

-- An ASCII byte is a chunk by itself.
abbrev pub ascii : ℕ → Chunk
ascii b = record { rune = b; raw = b ∷ [] }

pub chunk_at-ascii : (b : ℕ) (s : Bytes) → b < 0x80 → chunk_at b s ≡ ascii b
unfolding chunk_at
chunk_at-ascii b s h = rw (lt→ltb _ _ h)

pub chunks-ascii : (b : ℕ) (s : Bytes) → b < 0x80 → chunks (b ∷ s) ≡ ascii b ∷ chunks s
unfolding chunks chunks_from
chunks-ascii b s h = rw (chunk_at-ascii b s h)

-- Decoding after a prefix was passed over is decoding the rest.
chunks_from-drop : (k : ℕ) (s : Bytes) → chunks_from k s ≡ chunks (drop k s)
unfolding chunks chunks_from
chunks_from-drop zero s = refl
chunks_from-drop (suc k) [] = refl
chunks_from-drop (suc k) (b ∷ s) = chunks_from-drop k s

-- The list is what its own bytes decode to.
abbrev pub IsDecoded : List Chunk → Type 0
IsDecoded cs = chunks (concat cs) ≡ cs

pub IsDecoded-chunks : (s : Bytes) → IsDecoded (chunks s)
IsDecoded-chunks s = ap chunks (concat-chunks s)

tail-IsDecoded : (s : Bytes) (c : Chunk) (cs : List Chunk) → chunks s ≡ c ∷ cs → IsDecoded cs
unfolding chunks chunks_from
tail-IsDecoded [] c cs h = cc
tail-IsDecoded (b ∷ s) c cs h =
    let n = length (chunk_at b s).raw - 1 in
    let e : cs ≡ chunks_from n s = cc in
    rw e (rw (chunks_from-drop n s) (IsDecoded-chunks (drop n s)))

pub IsDecoded-tail : (c : Chunk) (cs : List Chunk) → IsDecoded (c ∷ cs) → IsDecoded cs
IsDecoded-tail c cs h = tail-IsDecoded (concat (c ∷ cs)) c cs h

large_two_bytes : (b : ℕ) (s : Bytes) → 0xc2 ≤ b → 0x80 ≤ (two_bytes b s).rune
unfolding two_bytes
large_two_bytes b [] h = omega arith
large_two_bytes b (b1 ∷ s) h = ground arith

large_three_bytes : (b : ℕ) (s : Bytes) → 0xe0 ≤ b → 0x80 ≤ (three_bytes b s).rune
unfolding three_bytes
large_three_bytes b (b1 ∷ b2 ∷ s) h = ground arith
large_three_bytes b _ h = omega arith

large_four_bytes : (b : ℕ) (s : Bytes) → 0xf0 ≤ b → 0x80 ≤ (four_bytes b s).rune
unfolding four_bytes
large_four_bytes b (b1 ∷ b2 ∷ b3 ∷ s) h = ground arith
large_four_bytes b _ h = omega arith

-- A rune below 0x80 is read from its own byte only: no overlong form stands for it.
pub chunk_at-small : (b : ℕ) (s : Bytes) → (chunk_at b s).rune < 0x80 → b < 0x80
unfolding chunk_at
chunk_at-small b s h =
    ground (arith, large_two_bytes b s, large_three_bytes b s, large_four_bytes b s)

-- A decoded chunk has at least one byte.
pub chunk-ne-nil : (s : Bytes) (c : Chunk) (cs : List Chunk) → chunks s ≡ c ∷ cs → 0 < length c.raw
unfolding chunks chunks_from
chunk-ne-nil [] c cs h = cc
chunk-ne-nil (b ∷ s) c cs h =
    let e : chunk_at b s ≡ c = cc in rw e at ((Heads-chunk_at b s).nonempty)

pub valid-ascii : (b : ℕ) (s : Bytes) → b < 0x80 → valid (b ∷ s) ≡ valid s
unfolding valid
valid-ascii b s h = rw (chunks-ascii b s h) (ground arith)
