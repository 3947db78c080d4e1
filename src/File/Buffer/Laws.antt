-- ===== src/File/Buffer/Laws.antt =====
-- What `slice` and `write_buffer` compute where the offsets do not wrap, and that they panic where
-- the sum of offset and size wraps.
use flx.Prelude.{
  ℕ, zero, suc, ◌+◌, ◌-◌, ◌<◌, ◌≤◌, [], ◌∷◌, ◌++◌, Bytes, ok, err, panic, ltb, leb, if◌then◌else◌,
  length, take, drop, replicate, get_or, refl, ◌≡◌, arith, max, length-append, length-replicate,
  Bool-cases, inl, inr, ◌&&◌, take_of_length_le, length-drop, drop_of_length_le, ap, le→ltb_false,
  sym, ◌∙◌, append-nil,
}
use flx.File.Buffer.{u64_mod, add64, slice, overwrite, grow, write_buffer, over_limit}

take-nil : (n : ℕ) → take {A = ℕ} n [] ≡ []
take-nil zero = refl
take-nil (suc n) = refl

module _ {E : Type 0} (input : Bytes) (offset count : ℕ) where
  -- If offset and count do not wrap, then `slice` returns the `count` bytes behind `offset`, or as
  -- many as there are.
  pub slice-eq-take :
      offset + count < u64_mod
      → slice {E = E} input offset count ≡ ok (take count (drop offset input))
  unfolding slice
  slice-eq-take h =
      let no_wrap : add64 offset count ≡ offset + count = omega arith in
      elim (Bool-cases (leb (length input) offset)) [
        | inl past ↦
            rw (past, drop_of_length_le offset input (ground arith)) (ap ok (sym (take-nil count)))
        | inr inside ↦ elim (Bool-cases (ltb (length input) (offset + count))) [
          | inl beyond ↦
              let all_left = length-drop offset input in
              rw (inside, no_wrap)
                (rw beyond (
                  rw (le→ltb_false (length input) offset (ground arith)) (
                    ap ok (
                      take_of_length_le _ _ (omega arith)
                      ∙ sym (take_of_length_le count _ (ground arith))))))
          | inr within ↦
              rw (inside, no_wrap)
                (rw within (
                  rw (le→ltb_false (offset + count) offset (omega arith))
                    (ap (λ (n : ℕ). ok (take n (drop offset input))) (omega arith))))
        ]
      ]

  -- If the offset is inside the data and offset plus count wraps around, then `slice` panics.
  pub slice_wraps :
      offset < length input
      → count < u64_mod
      → length input < u64_mod
      → u64_mod ≤ offset + count
      → slice {E = E} input offset count ≡ panic
  unfolding slice
  slice_wraps ho hc hl wraps = ground arith

length-grow : (end : ℕ) (buffer : Bytes) → length (grow end buffer) ≡ max (length buffer) end
unfolding grow
length-grow end buffer = ground (
  arith,
  length-append buffer (replicate {A = ℕ} (end - length buffer) 0),
  length-replicate {A = ℕ} (end - length buffer) 0,
)

length-overwrite : (i : ℕ) (src buffer : Bytes) → length (overwrite i src buffer) ≡ length buffer
unfolding overwrite
length-overwrite zero [] buffer = refl
length-overwrite zero (d ∷ src) [] = refl
length-overwrite zero (d ∷ src) (b ∷ buffer) = ap suc (length-overwrite zero src buffer)
length-overwrite (suc i) src [] = refl
length-overwrite (suc i) src (b ∷ buffer) = ap suc (length-overwrite i src buffer)

-- The byte at a position, zero where there is none.
abbrev pub byte_at : Bytes → ℕ → ℕ
byte_at s i = get_or s i 0

byte_at-replicate : (n j : ℕ) → byte_at (replicate n 0) j ≡ 0
byte_at-replicate zero j = refl
byte_at-replicate (suc n) zero = refl
byte_at-replicate (suc n) (suc j) = byte_at-replicate n j

byte_at-zeros :
    (n : ℕ) (buffer : Bytes) (j : ℕ) → byte_at (buffer ++ replicate n 0) j ≡ byte_at buffer j
byte_at-zeros n [] j = byte_at-replicate n j
byte_at-zeros n (b ∷ buffer) zero = refl
byte_at-zeros n (b ∷ buffer) (suc j) = byte_at-zeros n buffer j

byte_at-grow : (end : ℕ) (buffer : Bytes) (j : ℕ) → byte_at (grow end buffer) j ≡ byte_at buffer j
unfolding grow
byte_at-grow end buffer j = elim (Bool-cases (ltb (length buffer) end)) [
  | inl more ↦ rw more (byte_at-zeros (end - length buffer) buffer j)
  | inr enough ↦ rw enough
]

byte_at-overwrite :
    (i : ℕ) (src buffer : Bytes) (j : ℕ)
    → i + length src ≤ length buffer
    → byte_at (overwrite i src buffer) j
      ≡ (if leb i j && ltb j (i + length src) then byte_at src (j - i) else byte_at buffer j)
unfolding overwrite
byte_at-overwrite zero [] buffer j h = ground arith
byte_at-overwrite zero (d ∷ src) [] j h = absurd (omega arith)
byte_at-overwrite zero (d ∷ src) (b ∷ buffer) zero h = ground arith
byte_at-overwrite zero (d ∷ src) (b ∷ buffer) (suc j) h =
    ground (arith, byte_at-overwrite zero src buffer j)
byte_at-overwrite (suc i) [] [] j h = absurd (omega arith)
byte_at-overwrite (suc i) (d ∷ src) [] j h = absurd (omega arith)
byte_at-overwrite (suc i) src (b ∷ buffer) zero h = ground arith
byte_at-overwrite (suc i) src (b ∷ buffer) (suc j) h =
    ground (arith, byte_at-overwrite i src buffer j)

-- A file whose first `limit` bytes can be written: the bytes of `input` stand at `offset`, all
-- others are those of `buffer`, and the file is as long as its last byte asks.
pub record Written (offset : ℕ) (input buffer result : Bytes) : Type 0 where
  pub size : length result ≡ max (length buffer) (offset + length input)
  pub bytes :
      (j : ℕ)
      → byte_at result j ≡ (
          if leb offset j && ltb j (offset + length input)
          then byte_at input (j - offset)
          else byte_at buffer j)

module _ (limit offset : ℕ) (input buffer : Bytes) (small : limit < u64_mod) where
  abbrev result : Bytes
  result = overwrite offset input (grow (offset + length input) buffer)

  write_buffer-eq :
      offset + length input ≤ limit → write_buffer limit offset input buffer ≡ ok result
  unfolding write_buffer
  write_buffer-eq h =
      let no_wrap : add64 offset (length input) ≡ offset + length input = omega arith in
      rw no_wrap (
        rw (le→ltb_false limit (offset + length input) h)
          (rw (le→ltb_false (offset + length input) offset (omega arith))))

  written : offset + length input ≤ limit → Written offset input buffer result
  written h =
      let grown = length-grow (offset + length input) buffer in
      record {
        size = length-overwrite offset input _ ∙ grown;
        bytes = λ j.
            byte_at-overwrite offset input (grow (offset + length input) buffer) j (omega arith)
            ∙ ap
                (λ (b : ℕ).
                  if leb offset j && ltb j (offset + length input)
                  then byte_at input (j - offset)
                  else b)
                (byte_at-grow (offset + length input) buffer j);
      }

  -- A write that ends within the limit succeeds and is the write of a sparse file.
  pub write_buffer_fits :
      offset + length input ≤ limit
      → (r : Bytes) × (write_buffer limit offset input buffer ≡ ok r)
        × Written offset input buffer r
  write_buffer_fits h = (result, write_buffer-eq h, written h)

  -- A write that ends behind the limit is refused, if its end is still a uint64.
  pub write_buffer_refused :
      limit < offset + length input
      → offset + length input < u64_mod
      → write_buffer limit offset input buffer ≡ err over_limit
  unfolding write_buffer
  write_buffer_refused h k = ground arith

  -- If the offset and the limit are below 2 ^ 64, the input is not longer than the limit, and offset
  -- plus length wraps around, then the write passes the limit test and panics.
  pub write_buffer_wraps :
      offset < u64_mod
      → length input ≤ limit
      → u64_mod ≤ offset + length input
      → write_buffer limit offset input buffer ≡ panic
  unfolding write_buffer
  write_buffer_wraps h k wraps = ground arith

overwrite-append :
    (buffer src : Bytes)
    → overwrite (length buffer) src (buffer ++ replicate (length src) 0) ≡ buffer ++ src
unfolding overwrite
overwrite-append [] [] = refl
overwrite-append [] (d ∷ src) = ap (λ t. d ∷ t) (overwrite-append [] src)
overwrite-append (b ∷ buffer) src = ap (λ t. b ∷ t) (overwrite-append buffer src)

grow_by : (n : ℕ) (buffer : Bytes) → grow (length buffer + n) buffer ≡ buffer ++ replicate n 0
unfolding grow
grow_by n buffer = elim (Bool-cases (ltb (length buffer) (length buffer + n))) [
  | inl more ↦ rw more (ap (λ (k : ℕ). buffer ++ replicate k 0) (omega arith))
  | inr none_added ↦
      let z : n ≡ 0 = ground arith in
      rw none_added (sym (ap (λ (k : ℕ). buffer ++ replicate k 0) z ∙ append-nil buffer))
]

-- A write at the end of the buffer appends.
pub write_buffer_append :
    (limit : ℕ) (input buffer : Bytes)
    → limit < u64_mod
    → length buffer + length input ≤ limit
    → write_buffer limit (length buffer) input buffer ≡ ok (buffer ++ input)
write_buffer_append limit input buffer small h =
    write_buffer-eq limit (length buffer) input buffer small h
    ∙ ap ok (
        ap (overwrite (length buffer) input) (grow_by (length input) buffer)
        ∙ overwrite-append buffer input)
