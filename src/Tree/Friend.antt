-- ===== src/Tree/Friend.antt =====
-- internal/p9fs/tree.go: the channel of a friend's conversation, which is made for the first message.
use flx.Prelude.{
  ◌≡◌, refl, sym, true, [], ◌∷◌, Option, none, some, Bytes, ◌==◌, bytes_eq, Result, ok, err, panic,
  Table, Bool-cases, inl, inr,
}
use mathlib.Core.Path.{subst}
use flx.Prelude.Tables.{put}
use flx.Types.{Channel}
use flx.Store.{Store, find_dm, find_dm_for_user, is_dm_with, upsert_dm, observe}

-- The outcome of a call of send: the channel, and the store and the world behind the API client.
module _ {E W : Type 0} (create_dm : Bytes → W → Result E Channel × W) where
  unfoldable pub created : Store → Result E Channel × W → Result E Bytes × (Store × W)
  created s (ok dm, w) = (ok dm.id, (upsert_dm dm s, w))
  created s (err e, w) = (err e, (s, w))
  created s (panic, w) = (panic, (s, w))

  unfoldable pub found_or_created :
      Bytes → Store → W → Option Channel → Result E Bytes × (Store × W)
  unfolding created
  found_or_created user_id s w none = created s (create_dm user_id w)
  found_or_created user_id s w (some dm) = (ok dm.id, (s, w))

  -- send of a friend's conversation, under the lock of the direct messages
  unfoldable pub friend_send : Bytes → Store → W → Result E Bytes × (Store × W)
  unfolding found_or_created
  friend_send user_id s w = found_or_created user_id s w (find_dm_for_user user_id s)

-- A direct message with the user is found.
Finds : Bytes → Option Channel → Type 0
Finds user_id o = (dm : Channel) × (o ≡ some dm)

find_dm-put :
    (user_id : Bytes) (dm : Channel) (dms : Table Bytes Channel)
    → is_dm_with user_id dm ≡ true
    → Finds user_id (find_dm user_id (put dm.id dm dms))
unfolding find_dm put Finds
find_dm-put user_id dm [] with_user = (dm, rw with_user refl)
find_dm-put user_id dm ((k, other) ∷ dms) with_user = elim (Bool-cases (k == dm.id)) [
  | inl e ↦ (dm, rw (e, with_user) refl)
  | inr e ↦ elim (Bool-cases (is_dm_with user_id other)) [
    | inl d ↦ (other, rw (e, d) refl)
    | inr d ↦ let (found, f) = find_dm-put user_id dm dms with_user in (found, rw (e, d) f)
  ]
]

upsert_dm-dms : (dm : Channel) (s : Store) → (upsert_dm dm s).dms ≡ put dm.id dm s.dms
unfolding upsert_dm observe
upsert_dm-dms dm s = elim (Bool-cases s.has_observer) [ inl e ↦ rw e refl | inr e ↦ rw e refl ]

module _ {E W : Type 0} (create_dm : Bytes → W → Result E Channel × W) (user_id : Bytes) where
  created-Finds :
      (s : Store) (r : Result E Channel × W) (id : Bytes)
      → ((dm : Channel) → r.0 ≡ ok dm → is_dm_with user_id dm ≡ true)
      → (created create_dm s r).0 ≡ ok id
      → Finds user_id (find_dm_for_user user_id (created create_dm s r).1.0)
  unfolding created find_dm_for_user
  created-Finds s (ok dm, w) id with_user e =
      subst (λ dms. Finds user_id (find_dm user_id dms)) (sym (upsert_dm-dms dm s))
        (find_dm-put user_id dm s.dms (with_user dm refl))
  created-Finds s (err x, w) id with_user e = cc
  created-Finds s (panic, w) id with_user e = cc

  found-Finds :
      (s : Store) (w : W) (o : Option Channel) (id : Bytes)
      → find_dm_for_user user_id s ≡ o
      → ((dm : Channel) → (create_dm user_id w).0 ≡ ok dm → is_dm_with user_id dm ≡ true)
      → (found_or_created create_dm user_id s w o).0 ≡ ok id
      → Finds user_id (find_dm_for_user user_id (found_or_created create_dm user_id s w o).1.0)
  unfolding found_or_created Finds
  found-Finds s w none id here with_user e = created-Finds s (create_dm user_id w) id with_user e
  found-Finds s w (some dm) id here with_user e = (dm, here)

  -- If the API client creates direct messages with the user that it is asked for, then after a send to
  -- a friend that got a channel, whatever happens outside the store, the next send gets a channel
  -- without a call of the API client and without a change of the store: the conversation is created
  -- at most once.
  pub friend_send-once :
      (s : Store) (w later : W) (id : Bytes)
      → ((dm : Channel) → (create_dm user_id w).0 ≡ ok dm → is_dm_with user_id dm ≡ true)
      → (friend_send create_dm user_id s w).0 ≡ ok id
      → let s' = (friend_send create_dm user_id s w).1.0 in
        (again : Bytes) × (friend_send create_dm user_id s' later ≡ (ok again, (s', later)))
  unfolding friend_send found_or_created Finds
  friend_send-once s w later id with_user e =
      let (dm, found) = found-Finds s w (find_dm_for_user user_id s) id refl with_user e in
      (dm.id, rw found refl)
