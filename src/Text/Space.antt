-- ===== src/Text/Space.antt =====
-- unicode.IsSpace, and the functions of strings that search for it or trim it away.
use flx.Prelude.{
  ℕ, ◌+◌, ◌≡◌, ◌<◌, ◌≢◌, refl, sym, ◌∙◌, ap, All-reverse, drop, drop-append, length-append, Bool,
  true, false, ◌&&◌, ◌||◌, List, [], ◌∷◌, ◌++◌, append_assoc, Option, none, some, arith, Bytes, leb,
  nat_beq, if◌then◌else◌, length, All, Bool-cases, ◌⊎◌, inl, inr,
}
use mathlib.Core.List.{reverse, reverse-append, reverse-reverse}
use flx.Text.Utf8.{Chunk, chunks, concat}
use flx.Text.Utf8.Decode.{
  concat-chunks, IsDecoded, IsDecoded-chunks, IsDecoded-tail, chunk-ne-nil, chunks-ascii,
}

-- unicode.IsSpace: the property White_Space.
unfoldable pub is_space : ℕ → Bool
is_space r =
    (leb 0x09 r && leb r 0x0d)
    || (nat_beq r 0x20
        || (nat_beq r 0x85
            || (nat_beq r 0xa0
                || (nat_beq r 0x1680
                    || ((leb 0x2000 r && leb r 0x200a)
                        || (nat_beq r 0x2028
                            || (nat_beq r 0x2029
                                || (nat_beq r 0x202f
                                    || (nat_beq r 0x205f || nat_beq r 0x3000)))))))))

abbrev pub shift : ℕ → Option ℕ → Option ℕ
shift n none = none
shift n (some i) = some (n + i)

index_in : List Chunk → Option ℕ
index_in [] = none
index_in (c ∷ cs) = if is_space c.rune then some 0 else shift (length c.raw) (index_in cs)

-- strings.IndexFunc(s, unicode.IsSpace): the byte offset of the first space; `none` is -1.
unfoldable pub index_space : Bytes → Option ℕ
unfolding index_in
index_space s = index_in (chunks s)

unfoldable pub drop_spaces : List Chunk → List Chunk
drop_spaces [] = []
drop_spaces (c ∷ cs) = let rest = drop_spaces cs in if is_space c.rune then rest else c ∷ cs

-- strings.TrimLeftFunc(s, unicode.IsSpace)
unfoldable pub trim_left : Bytes → Bytes
unfolding drop_spaces concat
trim_left s = concat (drop_spaces (chunks s))

-- strings.TrimSpace
unfoldable pub trim_space : Bytes → Bytes
unfolding drop_spaces concat
trim_space s = concat (reverse (drop_spaces (reverse (drop_spaces (chunks s)))))

-- strings.TrimSuffix(s, b) for a suffix of one byte.
unfoldable pub trim_suffix : ℕ → Bytes → Bytes
trim_suffix b [] = []
trim_suffix b (c ∷ []) = if nat_beq c b then [] else c ∷ []
trim_suffix b (c ∷ d ∷ s) = c ∷ trim_suffix b (d ∷ s)

-- A list of chunks that are all spaces.
abbrev pub AllSpace : List Chunk → Type 0
AllSpace = All (λ c. is_space c.rune ≡ true)

-- No space comes first.
abbrev pub NoLead : List Chunk → Type 0
NoLead [] = Unit
NoLead (c ∷ cs) = is_space c.rune ≡ false

pub NoLead-drop_spaces : (cs : List Chunk) → NoLead (drop_spaces cs)
unfolding drop_spaces
NoLead-drop_spaces [] = tt
NoLead-drop_spaces (c ∷ cs) = elim (Bool-cases (is_space c.rune)) [
  | inl e ↦ rw e (NoLead-drop_spaces cs)
  | inr e ↦ rw e e
]

IsDecoded-drop_spaces : (cs : List Chunk) → IsDecoded cs → IsDecoded (drop_spaces cs)
unfolding drop_spaces
IsDecoded-drop_spaces [] h = h
IsDecoded-drop_spaces (c ∷ cs) h = elim (Bool-cases (is_space c.rune)) [
  | inl e ↦ rw e (IsDecoded-drop_spaces cs (IsDecoded-tail c cs h))
  | inr e ↦ rw e h
]

pub chunks-trim_left : (s : Bytes) → chunks (trim_left s) ≡ drop_spaces (chunks s)
unfolding trim_left
chunks-trim_left s = IsDecoded-drop_spaces (chunks s) (IsDecoded-chunks s)

-- What `drop_spaces` takes away.
pub spaces_before : List Chunk → List Chunk
spaces_before [] = []
spaces_before (c ∷ cs) = let rest = spaces_before cs in if is_space c.rune then c ∷ rest else []

pub spaces_before-AllSpace : (cs : List Chunk) → AllSpace (spaces_before cs)
unfolding spaces_before
spaces_before-AllSpace [] = tt
spaces_before-AllSpace (c ∷ cs) = elim (Bool-cases (is_space c.rune)) [
  | inl e ↦ rw e (e, spaces_before-AllSpace cs)
  | inr e ↦ rw e tt
]

concat-spaces_before :
    (cs : List Chunk) → concat (spaces_before cs) ++ concat (drop_spaces cs) ≡ concat cs
unfolding spaces_before drop_spaces concat
concat-spaces_before [] = refl
concat-spaces_before (c ∷ cs) = elim (Bool-cases (is_space c.rune)) [
  | inl e ↦ rw e (simp (append_assoc, concat-spaces_before cs))
  | inr e ↦ rw e
]

-- A text is its leading spaces and what `trim_left` leaves.
pub trim_left_parts : (s : Bytes) → concat (spaces_before (chunks s)) ++ trim_left s ≡ s
unfolding trim_left
trim_left_parts s = cc (concat-spaces_before (chunks s), concat-chunks s)

-- `trim_left` changes nothing where no space comes first.
pub drop_spaces-NoLead : (cs : List Chunk) → NoLead cs → drop_spaces cs ≡ cs
unfolding drop_spaces
drop_spaces-NoLead [] h = refl
drop_spaces-NoLead (c ∷ cs) h = rw h

-- `trim_suffix` removes the byte once, or nothing.
pub trim_suffix_parts :
    (b : ℕ) (s : Bytes) → (s ≡ trim_suffix b s) ⊎ (s ≡ trim_suffix b s ++ b ∷ [])
unfolding trim_suffix
trim_suffix_parts b [] = inl refl
trim_suffix_parts b (c ∷ []) = ground arith
trim_suffix_parts b (c ∷ d ∷ s) = elim (trim_suffix_parts b (d ∷ s)) [
  | inl e ↦ inl (ap (λ t. c ∷ t) e)
  | inr e ↦ inr (ap (λ t. c ∷ t) e)
]

pub trim_suffix-append : (b : ℕ) (s : Bytes) → trim_suffix b (s ++ b ∷ []) ≡ s
unfolding trim_suffix
trim_suffix-append b [] = ground arith
trim_suffix-append b (c ∷ []) = ap (λ t. c ∷ t) (trim_suffix-append b [])
trim_suffix-append b (c ∷ d ∷ s) = ap (λ t. c ∷ t) (trim_suffix-append b (d ∷ s))

-- A space comes first.
abbrev pub StartsSpace : List Chunk → Type 0
StartsSpace [] = ⊥
StartsSpace (c ∷ cs) = is_space c.rune ≡ true

shift_parts : (k n : ℕ) (o : Option ℕ) → shift k o ≡ some n → (m : ℕ) × (o ≡ some m) × (n ≡ k + m)
shift_parts k n none h = cc
shift_parts k n (some m) h = (m, refl, cc)

index_in_starts :
    (cs : List Chunk) (n : ℕ)
    → IsDecoded cs
    → index_in cs ≡ some n
    → StartsSpace (chunks (drop n (concat cs)))
unfolding index_in
index_in_starts [] n d h = cc
index_in_starts (c ∷ cs) n d h = elim (Bool-cases (is_space c.rune)) [
  | inl e ↦ let z : n ≡ 0 = (let h' : some 0 ≡ some n = rw e at h in cc) in rw (z, d) e
  | inr e ↦
      let (m, found, sum) = shift_parts _ n (index_in cs) (rw e at h) in
      let skip : drop n (concat (c ∷ cs)) ≡ drop m (concat cs) =
        rw sum (unfold concat in drop-append c.raw (concat cs) m) in
      rw skip (index_in_starts cs m (IsDecoded-tail c cs d) found)
]

-- The offset that `index_space` finds is where a space starts.
pub index_space_starts :
    (s : Bytes) (n : ℕ) → index_space s ≡ some n → StartsSpace (chunks (drop n s))
unfolding index_space
index_space_starts s n h =
    rw (concat-chunks s) at (index_in_starts (chunks s) n (IsDecoded-chunks s) h)

spaces_before-ne-nil :
    (s : Bytes) (cs : List Chunk)
    → chunks s ≡ cs
    → StartsSpace cs
    → 0 < length (concat (spaces_before cs))
unfolding spaces_before concat
spaces_before-ne-nil s [] e h = absurd h
spaces_before-ne-nil s (c ∷ cs) e h =
    rw h (omega (arith, chunk-ne-nil s c cs e, length-append c.raw (concat (spaces_before cs))))

pub spaces_before_nonempty :
    (s : Bytes) → StartsSpace (chunks s) → concat (spaces_before (chunks s)) ≢ []
spaces_before_nonempty s h e =
    let pos = spaces_before-ne-nil s (chunks s) refl h in
    let none_left : 0 < length (let z : Bytes = [] in z) = rw e at pos in omega arith

pub index_space-ascii :
    (b : ℕ) (s : Bytes)
    → b < 0x80
    → index_space (b ∷ s) ≡ (if is_space b then some 0 else shift 1 (index_space s))
unfolding index_space
index_space-ascii b s h = rw (chunks-ascii b s h)

pub trim_left-ascii :
    (b : ℕ) (s : Bytes) → b < 0x80 → is_space b ≡ true → trim_left (b ∷ s) ≡ trim_left s
unfolding trim_left
trim_left-ascii b s h sp = rw (chunks-ascii b s h) (rw sp)

pub trim_left-NoLead : (s : Bytes) → NoLead (chunks s) → trim_left s ≡ s
unfolding trim_left
trim_left-NoLead s h = rw (drop_spaces-NoLead (chunks s) h) (concat-chunks s)

concat-append : (xs ys : List Chunk) → concat (xs ++ ys) ≡ concat xs ++ concat ys
unfolding concat
concat-append [] ys = refl
concat-append (c ∷ xs) ys = simp (concat-append xs, append_assoc)

spaces_before_append : (cs : List Chunk) → spaces_before cs ++ drop_spaces cs ≡ cs
unfolding spaces_before drop_spaces
spaces_before_append [] = refl
spaces_before_append (c ∷ cs) = elim (Bool-cases (is_space c.rune)) [
  | inl e ↦ rw e (rw (spaces_before_append cs))
  | inr e ↦ rw e
]

-- The chunks without the spaces at the end.
drop_end : List Chunk → List Chunk
drop_end cs = reverse (drop_spaces (reverse cs))

spaces_after : List Chunk → List Chunk
spaces_after cs = reverse (spaces_before (reverse cs))

drop_end_append : (cs : List Chunk) → drop_end cs ++ spaces_after cs ≡ cs
unfolding drop_end spaces_after
drop_end_append cs =
    sym (reverse-append (spaces_before (reverse cs)) (drop_spaces (reverse cs)))
    ∙ (ap reverse (spaces_before_append (reverse cs)) ∙ reverse-reverse cs)

-- A text is spaces, what `trim_space` leaves, and spaces.
pub record Trimmed (s t : Bytes) : Type 0 where
  pub before : List Chunk
  pub after : List Chunk
  pub spelled : s ≡ concat before ++ (t ++ concat after)
  pub all_before : AllSpace before
  pub all_after : AllSpace after

pub trim_space_parts : (s : Bytes) → Trimmed s (trim_space s)
unfolding trim_space drop_end spaces_after
trim_space_parts s = record {
  before = spaces_before (chunks s);
  after = spaces_after (drop_spaces (chunks s));
  spelled =
      let inner = drop_spaces (chunks s) in
      cc (
        concat-chunks s,
        concat-spaces_before (chunks s),
        concat-append (drop_end inner) (spaces_after inner),
        drop_end_append inner,
      );
  all_before = spaces_before-AllSpace (chunks s);
  all_after = All-reverse _ _ (spaces_before-AllSpace (reverse (drop_spaces (chunks s))));
}

abbrev pub NoSpace : List Chunk → Type 0
NoSpace = All (λ c. is_space c.rune ≡ false)

NoLead-of_NoSpace : (cs : List Chunk) → NoSpace cs → NoLead cs
NoLead-of_NoSpace [] h = tt
NoLead-of_NoSpace (c ∷ cs) h = h.0

-- `trim_space` changes nothing where there is no space at all.
pub trim_space-NoSpace : (s : Bytes) → NoSpace (chunks s) → trim_space s ≡ s
unfolding trim_space
trim_space-NoSpace s h = rw (drop_spaces-NoLead (chunks s) (NoLead-of_NoSpace _ h)) (
    rw (drop_spaces-NoLead (reverse (chunks s)) (NoLead-of_NoSpace _ (All-reverse _ (chunks s) h)))
      (rw reverse-reverse (concat-chunks s)))

index_in-NoSpace : (cs : List Chunk) → NoSpace cs → index_in cs ≡ none
unfolding index_in
index_in-NoSpace [] h = refl
index_in-NoSpace (c ∷ cs) h = rw (h.0, index_in-NoSpace cs h.1)

pub index_space-NoSpace : (s : Bytes) → NoSpace (chunks s) → index_space s ≡ none
unfolding index_space
index_space-NoSpace s h = index_in-NoSpace (chunks s) h
