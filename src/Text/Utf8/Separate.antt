-- ===== src/Text/Utf8/Separate.antt =====
-- Multi-byte sequences hold no ASCII byte.
use flx.Prelude.{
  ℕ, zero, suc, ◌-◌, ◌<◌, ◌≤◌, ◌≡◌, Bool, true, false, ◌&&◌, [], ◌∷◌, arith, Bytes, ltb,
  if◌then◌else◌, length, Bool-cases, inl, inr, ◌⊎◌, All, ltb→lt,
}
use flx.Text.Utf8.{
  Chunk, in_range, tail_byte, second_of_three, second_of_four, two_bytes, three_bytes, four_bytes,
  chunk_at, chunks_from, chunks,
}
use flx.Text.Utf8.Decode.{ascii, chunk_at-ascii}

-- A chunk is an ASCII byte, or all its bytes are above ASCII.
abbrev pub IsSeparate : Chunk → Type 0
IsSeparate c = ((b : ℕ) × (b < 0x80) × (c ≡ ascii b)) ⊎ All (λ b. 0x80 ≤ b) c.raw

high_tail : (b : ℕ) → tail_byte b ≡ true → 0x80 ≤ b
unfolding tail_byte
high_tail b h = ground arith

high_two_bytes : (b : ℕ) (s : Bytes) → 0x80 ≤ b → All (λ x. 0x80 ≤ x) (two_bytes b s).raw
unfolding two_bytes
high_two_bytes b [] h = (h, tt)
high_two_bytes b (b1 ∷ s) h = elim (Bool-cases (tail_byte b1)) [
  | inl e ↦ rw e (h, (high_tail b1 e, tt))
  | inr e ↦ rw e (h, tt)
]

high_second_of_three : (b b1 : ℕ) → second_of_three b b1 ≡ true → 0x80 ≤ b1
unfolding second_of_three
high_second_of_three b b1 h = ground arith

high_second_of_four : (b b1 : ℕ) → second_of_four b b1 ≡ true → 0x80 ≤ b1
unfolding second_of_four
high_second_of_four b b1 h = ground arith

high_three_bytes : (b : ℕ) (s : Bytes) → 0x80 ≤ b → All (λ x. 0x80 ≤ x) (three_bytes b s).raw
unfolding three_bytes
high_three_bytes b (b1 ∷ b2 ∷ s) h = elim (Bool-cases (second_of_three b b1 && tail_byte b2)) [
  | inl e ↦
      rw e (h, (ground (arith, high_second_of_three b b1), (ground (arith, high_tail b2), tt)))
  | inr e ↦ rw e (h, tt)
]
high_three_bytes b _ h = (h, tt)

high_four_bytes : (b : ℕ) (s : Bytes) → 0x80 ≤ b → All (λ x. 0x80 ≤ x) (four_bytes b s).raw
unfolding four_bytes
high_four_bytes b (b1 ∷ b2 ∷ b3 ∷ s) h =
    elim (Bool-cases (second_of_four b b1 && (tail_byte b2 && tail_byte b3))) [
      | inl e ↦ rw e (
        h,
        (
          ground (arith, high_second_of_four b b1),
          (ground (arith, high_tail b2), (ground (arith, high_tail b3), tt)),
        ),
      )
      | inr e ↦ rw e (h, tt)
    ]
high_four_bytes b _ h = (h, tt)

All-if :
    (P : ℕ → Type 0) (t : Bool) (c d : Chunk)
    → All P c.raw
    → All P d.raw
    → All P (if t then c else d).raw
All-if P true c d hc hd = hc
All-if P false c d hc hd = hd

IsSeparate-chunk_at : (b : ℕ) (s : Bytes) → IsSeparate (chunk_at b s)
IsSeparate-chunk_at b s = elim (Bool-cases (ltb b 0x80)) [
  | inl e ↦ inl (b, ltb→lt b 0x80 e, chunk_at-ascii b s (ltb→lt b 0x80 e))
  | inr e ↦
      let h : 0x80 ≤ b = ground arith in
      inr (
        unfold chunk_at in
        rw e (
          All-if _ (in_range 0xc2 0xdf b) _ _ (high_two_bytes b s h) (
            All-if _ (in_range 0xe0 0xef b) _ _ (high_three_bytes b s h)
              (All-if _ (in_range 0xf0 0xf4 b) _ _ (high_four_bytes b s h) (h, tt)))))
]

IsSeparate-chunks_from : (k : ℕ) (s : Bytes) → All IsSeparate (chunks_from k s)
unfolding chunks_from
IsSeparate-chunks_from zero [] = tt
IsSeparate-chunks_from (suc k) [] = tt
IsSeparate-chunks_from (suc k) (b ∷ s) = IsSeparate-chunks_from k s
IsSeparate-chunks_from zero (b ∷ s) =
    (IsSeparate-chunk_at b s, IsSeparate-chunks_from (length (chunk_at b s).raw - 1) s)

pub IsSeparate-chunks : (s : Bytes) → All IsSeparate (chunks s)
unfolding chunks
IsSeparate-chunks s = IsSeparate-chunks_from 0 s
