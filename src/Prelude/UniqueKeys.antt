-- ===== src/Prelude/UniqueKeys.antt =====
-- Tables in which no key is repeated: ranging over such a table meets what lookups find.
use mathlib.Core.Path.{◌≡◌, refl}
use mathlib.Core.List.{[], ◌∷◌}
use mathlib.Core.Option.{none, some}
use mathlib.Core.Logic.{inl, inr}
use native.Mathlib.Omega.{arith}
use flx.Prelude.Tests.{Bool-cases}
use flx.Prelude.Keys.{Equality, ◌==◌}
use flx.Prelude.Lists.{All}
use flx.Prelude.Tables.{Table, lookup, put, remove, lookup-put, lookup-remove}

module _ {ℓ} {K V : Type ℓ} ⦃e : Equality K⦄ where
  abbrev pub Unique : Table K V → Type ℓ
  Unique [] = Unit
  Unique ((k, v) ∷ m) = (lookup k m ≡ none) × Unique m

  pub Unique-put : (k : K) (v : V) (m : Table K V) → Unique m → Unique (put k v m)
  unfolding put
  Unique-put k v [] u = unfold lookup in (refl, tt)
  Unique-put k v ((j, w) ∷ m) u = elim (Bool-cases (j == k)) [
    | inl same ↦
        let absent : lookup k m ≡ none = rw ((e.equal_iff j k).0 same) at (u.0) in
        rw same (absent, u.1)
    | inr other ↦ rw other (
      ground (arith, lookup-put k j v m, e.equal_iff k j, e.equal_iff j k, u.0),
      Unique-put k v m u.1,
    )
  ]

  pub Unique-remove : (k : K) (m : Table K V) → Unique m → Unique (remove k m)
  unfolding remove
  Unique-remove k [] u = tt
  Unique-remove k ((j, w) ∷ m) u = elim (Bool-cases (j == k)) [
    | inl same ↦ rw same (Unique-remove k m u.1)
    | inr other ↦ rw other (
      ground (arith, lookup-remove k j m, e.equal_iff k j, e.equal_iff j k, u.0),
      Unique-remove k m u.1,
    )
  ]

  -- What holds of every value that a lookup finds holds of every entry.
  pub All-of_lookup {κ} :
      (Q : K → V → Type κ) (m : Table K V)
      → Unique m
      → ((k : K) (v : V) → lookup k m ≡ some v → Q k v)
      → All (λ entry. Q entry.0 entry.1) m
  All-of_lookup Q [] u h = tt
  All-of_lookup Q ((j, w) ∷ m) u h = (
    h j w (unfold lookup in rw ((e.equal_iff j j).1 refl)),
    All-of_lookup Q m u.1
        (λ k v found. h k v (unfold lookup in ground (arith, e.equal_iff j k, u.0))),
  )
