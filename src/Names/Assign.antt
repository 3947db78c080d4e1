-- ===== src/Names/Assign.antt =====
-- What names assign_names gives.
use flx.Prelude.{
  ℕ, suc, ◌+◌, ◌<◌, ◌≡◌, ◌≢◌, refl, sym, ap, ◌∙◌, ◌↔◌, true, List, [], ◌∷◌, ◌++◌, some, Bytes, ltb,
  ◌==◌, bytes_eq, bytes_beq_iff, if◌then◌else◌, All, arith, Bool-cases, inl, inr, Table, lookup,
  put, lookup-put, lookup-nil, append_assoc, lookup-put_self, lookup-put_ne,
}
use mathlib.Core.Path.{subst}
use flx.Names.{NamedId, count_of, count_bases, name_of, name_items, assign_names, short_id}

-- How many items have the base.
unfoldable pub occurrences : Bytes → List NamedId → ℕ
occurrences base [] = 0
occurrences base (item ∷ items) =
    let rest = occurrences base items in if item.base == base then suc rest else rest

count_of-put :
    (base b : Bytes) (n : ℕ) (counts : Table Bytes ℕ)
    → count_of b (put base n counts) ≡ (if base == b then n else count_of b counts)
unfolding count_of
count_of-put base b n counts = elim (Bool-cases (base == b)) [
  | inl e ↦ rw (lookup-put base b n counts, e)
  | inr e ↦ rw (lookup-put base b n counts, e)
]

count_of-count_bases :
    (items : List NamedId) (counts : Table Bytes ℕ) (b : Bytes)
    → count_of b (count_bases items counts) ≡ count_of b counts + occurrences b items
unfolding count_bases occurrences
count_of-count_bases [] counts b = omega arith
count_of-count_bases (item ∷ items) counts b =
    let counts' = put item.base (count_of item.base counts + 1) counts in
    let ih = count_of-count_bases items counts' b in
    let here = count_of-put item.base b (count_of item.base counts + 1) counts in
    ground (arith, ih, here, bytes_beq_iff item.base b)

-- The name of an item, by the number of items that share its base.
pub expected_name : List NamedId → NamedId → Bytes
expected_name items item =
    if ltb 1 (occurrences item.base items) then item.base ++ b'~' ∷ short_id item.id else item.base

name_of-expected :
    (items : List NamedId) (item : NamedId)
    → name_of (count_bases items []) item ≡ expected_name items item
unfolding name_of expected_name
name_of-expected items item =
    ap (λ (n : ℕ). if ltb 1 n then item.base ++ b'~' ∷ short_id item.id else item.base)
      (count_of-count_bases items [] item.base ∙ empty_count (occurrences item.base items))
  where
    empty_count : (n : ℕ) → count_of item.base [] + n ≡ n
    empty_count n = unfold count_of in rw (lookup-nil item.base) (omega arith)

name_items_later :
    (counts : Table Bytes ℕ) (items : List NamedId) (result : Table Bytes Bytes) (id : Bytes)
    → All (λ item. item.id ≢ id) items
    → lookup id (name_items counts items result) ≡ lookup id result
unfolding name_items
name_items_later counts [] result id h = refl
name_items_later counts (item ∷ items) result id (h, hs) =
    name_items_later counts items (put item.id (name_of counts item) result) id hs
    ∙ lookup-put_ne item.id id (name_of counts item) result h

name_items_at :
    (counts : Table Bytes ℕ) (before : List NamedId) (item : NamedId) (after : List NamedId)
    (result : Table Bytes Bytes)
    → All (λ other. other.id ≢ item.id) after
    → lookup item.id (name_items counts (before ++ item ∷ after) result)
      ≡ some (name_of counts item)
unfolding name_items
name_items_at counts [] item after result h =
    name_items_later counts after (put item.id (name_of counts item) result) item.id h
    ∙ lookup-put_self item.id (name_of counts item) result
name_items_at counts (b ∷ before) item after result h =
    name_items_at counts before item after (put b.id (name_of counts b) result) h

-- Every item, if no later one has its identifier, gets its base as name where no other item has that
-- base, and otherwise the base, a tilde and the short form of its identifier.
pub assign_names-lookup :
    (before : List NamedId) (item : NamedId) (after : List NamedId)
    → All (λ other. other.id ≢ item.id) after
    → lookup item.id (assign_names (before ++ item ∷ after))
      ≡ some (expected_name (before ++ item ∷ after) item)
unfolding assign_names
assign_names-lookup before item after h =
    let items = before ++ item ∷ after in
    name_items_at (count_bases items []) before item after [] h
    ∙ ap some (name_of-expected items item)

cancel : (s t u : Bytes) → s ++ t ≡ s ++ u → t ≡ u
cancel [] t u h = h
cancel (b ∷ s) t u h = cancel s t u (cc)

tilde_eq : (s t : Bytes) → ◌≡◌ {A = Bytes} (b'~' ∷ s) (b'~' ∷ t) → s ≡ t
tilde_eq s t h = cc

same_base :
    (a b : NamedId) (items : List NamedId)
    → a.base ≡ b.base
    → ltb 1 (occurrences a.base items) ≡ true
    → expected_name items b ≡ a.base ++ b'~' ∷ short_id b.id
unfolding expected_name
same_base a b items e many = rw (← e) (rw many)

expected_name-collision :
    (items : List NamedId) (a b : NamedId)
    → a.base ≡ b.base
    → 1 < occurrences a.base items
    → (expected_name items a ≡ expected_name items b) ↔ (short_id a.id ≡ short_id b.id)
expected_name-collision items a b e many =
    let shared : ltb 1 (occurrences a.base items) ≡ true = ground arith in
    let na = same_base a a items refl shared in
    let nb = same_base a b items e shared in
    (
      λ same. tilde_eq _ _ (cancel a.base _ _ (sym na ∙ (same ∙ nb))),
      λ same. na ∙ (ap (λ s. a.base ++ b'~' ∷ s) same ∙ sym nb),
    )

-- Two items of a list share the base of the first.
occurrences_some :
    (base : Bytes) (xs : List NamedId) (b : NamedId) (ys : List NamedId)
    → b.base ≡ base
    → 0 < occurrences base (xs ++ b ∷ ys)
unfolding occurrences
occurrences_some base [] b ys e = ground (arith, bytes_beq_iff b.base base)
occurrences_some base (x ∷ xs) b ys e = ground (arith, occurrences_some base xs b ys e)

occurrences_two :
    (xs : List NamedId) (a : NamedId) (ys : List NamedId) (b : NamedId) (zs : List NamedId)
    → a.base ≡ b.base
    → 1 < occurrences a.base (xs ++ a ∷ (ys ++ b ∷ zs))
unfolding occurrences
occurrences_two [] a ys b zs e =
    ground (arith, bytes_beq_iff a.base a.base, occurrences_some a.base ys b zs (sym e))
occurrences_two (x ∷ xs) a ys b zs e = ground (arith, occurrences_two xs a ys b zs e)

some_iff : {A : Type 0} (a b : A) → (some a ≡ some b) ↔ (a ≡ b)
some_iff a b = ((λ e. cc), λ e. ap some e)

-- Two items with one base, whose identifiers no later item has, get the same name from assignNames
-- exactly when the short forms of their identifiers are the same.
pub assign_names-collision :
    (xs : List NamedId) (a : NamedId) (ys : List NamedId) (b : NamedId) (zs : List NamedId)
    → a.base ≡ b.base
    → All (λ other. other.id ≢ a.id) (ys ++ b ∷ zs)
    → All (λ other. other.id ≢ b.id) zs
    → let names = assign_names (xs ++ a ∷ (ys ++ b ∷ zs)) in
      (lookup a.id names ≡ lookup b.id names) ↔ (short_id a.id ≡ short_id b.id)
assign_names-collision xs a ys b zs e alone_a alone_b =
    let items = xs ++ a ∷ (ys ++ b ∷ zs) in
    let spelled : (xs ++ a ∷ ys) ++ b ∷ zs ≡ items = append_assoc xs (a ∷ ys) (b ∷ zs) in
    let at_a = assign_names-lookup xs a (ys ++ b ∷ zs) alone_a in
    let at_b : lookup b.id (assign_names items) ≡ some (expected_name items b) =
      subst (λ t. lookup b.id (assign_names t) ≡ some (expected_name t b)) spelled
        (assign_names-lookup (xs ++ a ∷ ys) b zs alone_b) in
    let (there, back) = expected_name-collision items a b e (occurrences_two xs a ys b zs e) in
    let (out, into) = some_iff (expected_name items a) (expected_name items b) in
    (λ same. there (out (sym at_a ∙ (same ∙ at_b))), λ same. at_a ∙ (into (back same) ∙ sym at_b))
