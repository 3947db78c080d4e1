-- ===== src/Store/Gateway/Consistent.antt =====
-- internal/core/store.go. What it means for the store to be consistent: every relationship, private
-- channel, community and user stands under its own identifier; and the operations on one table.
use flx.Prelude.{
  ◌+◌, ◌≡◌, refl, sym, ◌∙◌, Bool, true, false, List, [], ◌∷◌, Option, none, some, Bytes, ◌==◌,
  bytes_eq, bytes_beq_iff, if◌then◌else◌, Table, lookup, put, remove, lookup-put, lookup-remove,
  arith, Bool-cases, inl, inr,
}
use mathlib.Core.Path.{subst}
use flx.Types.{User, Relationship, Channel, Guild}
use flx.Hub.Invariant.{IsSound}
use flx.Store.{
  Store, zero_guild, observe, merge_guild, or_else, put_users, put_dms, put_relationships,
}
use flx.Store.Gateway.{put_available}

abbrev pub Holds : {A : Type 0} → (A → Type 0) → Option A → Type 0
Holds P none = Unit
Holds P (some a) = P a

module _ {V : Type 0} (id_of : V → Bytes) where
  -- What stands under a key has that key.
  abbrev pub Keyed : Table Bytes V → Type 0
  Keyed m = (k : Bytes) → Holds (λ v. id_of v ≡ k) (lookup k m)

  pub Keyed-put :
      (k : Bytes) (v : V) (m : Table Bytes V) → id_of v ≡ k → Keyed m → Keyed (put k v m)
  Keyed-put k v m e h j =
      subst (Holds (λ v. id_of v ≡ j)) (sym (lookup-put k j v m)) (elim (Bool-cases (k == j)) [
        | inl same ↦ rw same (e ∙ (bytes_beq_iff k j).0 same)
        | inr other ↦ rw other (h j)
      ])

  pub Keyed-remove : (k : Bytes) (m : Table Bytes V) → Keyed m → Keyed (remove k m)
  Keyed-remove k m h j =
      subst (Holds (λ v. id_of v ≡ j)) (sym (lookup-remove k j m))
        (elim (Bool-cases (k == j)) [ inl same ↦ rw same tt | inr other ↦ rw other (h j) ])

pub record IsConsistent (s : Store) : Type 0 where
  pub users : Keyed (λ u. u.id) s.users
  pub relationships : Keyed (λ r. r.id) s.relationships
  pub dms : Keyed (λ c. c.id) s.dms
  pub guilds : Keyed (λ g. g.id) s.guilds
  pub hub : IsSound s.hub

pub IsConsistent-if :
    (b : Bool) (s t : Store) → IsConsistent s → IsConsistent t → IsConsistent (if b then s else t)
IsConsistent-if true s t ks kt = ks
IsConsistent-if false s t ks kt = kt

pub IsConsistent-observe : (s : Store) → IsConsistent s → IsConsistent (observe s)
unfolding observe
IsConsistent-observe s k =
    IsConsistent-if s.has_observer (record s { refreshes = s.refreshes + 1 }) s
      (record {
        users = k.users;
        relationships = k.relationships;
        dms = k.dms;
        guilds = k.guilds;
        hub = k.hub;
      })
      k

pub Keyed-put_users :
    (us : List User) (m : Table Bytes User)
    → Keyed (λ u. u.id) m
    → Keyed (λ u. u.id) (put_users us m)
unfolding put_users
Keyed-put_users [] m h = h
Keyed-put_users (u ∷ us) m h =
    Keyed-put_users us (put u.id u m) (Keyed-put (λ u. u.id) u.id u m refl h)

pub Keyed-put_dms :
    (ds : List Channel) (m : Table Bytes Channel)
    → Keyed (λ u. u.id) m
    → Keyed (λ u. u.id) (put_dms ds m)
unfolding put_dms
Keyed-put_dms [] m h = h
Keyed-put_dms (u ∷ us) m h = Keyed-put_dms us (put u.id u m) (Keyed-put (λ u. u.id) u.id u m refl h)

pub Keyed-put_relationships :
    (rs : List Relationship) (m : Table Bytes Relationship)
    → Keyed (λ u. u.id) m
    → Keyed (λ u. u.id) (put_relationships rs m)
unfolding put_relationships
Keyed-put_relationships [] m h = h
Keyed-put_relationships (u ∷ us) m h =
    Keyed-put_relationships us (put u.id u m) (Keyed-put (λ u. u.id) u.id u m refl h)

-- The identifier of the merged community is that of the update, also where that is empty.
pub id-merge_guild :
    (guild : Guild) (o : Option Guild)
    → Holds (λ g. g.id ≡ guild.id) o
    → (merge_guild (or_else o zero_guild) guild).id ≡ guild.id
unfolding merge_guild
id-merge_guild guild none h = ground (arith, bytes_beq_iff guild.id [])
id-merge_guild guild (some g) h = ground (arith, bytes_beq_iff guild.id [])

pub Keyed-merge :
    (guild : Guild) (m : Table Bytes Guild)
    → Keyed (λ g. g.id) m
    → Keyed
        (λ g. g.id)
        (put guild.id (merge_guild (or_else (lookup guild.id m) zero_guild) guild) m)
Keyed-merge guild m h =
    Keyed-put (λ g. g.id) guild.id _ m (id-merge_guild guild (lookup guild.id m) (h guild.id)) h

pub Keyed-if :
    {V : Type 0} (id_of : V → Bytes) (b : Bool) (m n : Table Bytes V)
    → Keyed id_of m
    → Keyed id_of n
    → Keyed id_of (if b then m else n)
Keyed-if id_of true m n hm hn = hm
Keyed-if id_of false m n hm hn = hn

pub Keyed-put_available :
    (gs : List Guild) (m : Table Bytes Guild)
    → Keyed (λ g. g.id) m
    → Keyed (λ g. g.id) (put_available gs m)
unfolding put_available
Keyed-put_available [] m h = h
Keyed-put_available (g ∷ gs) m h =
    Keyed-put_available gs _ (Keyed-if (λ v. v.id) g.unavailable m _ h (Keyed-merge g m h))

pub put_named :
    (u : User) (m : Table Bytes User)
    → Keyed (λ u. u.id) m
    → Keyed (λ u. u.id) (if u.id == [] then m else put u.id u m)
put_named u m h = Keyed-if (λ v. v.id) (u.id == []) m _ h (Keyed-put (λ u. u.id) u.id u m refl h)
