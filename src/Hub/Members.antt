-- ===== src/Hub/Members.antt =====
-- Subscribing and unsubscribing keep the invariant of the hub.
use mathlib.Core.Path.{subst}
use flx.Prelude.{
  ℕ, ◌+◌, ◌≤◌, ◌≡◌, refl, sym, ◌∙◌, false, ◌∷◌, Option, none, some, Bytes, nat_beq, nat_beq_iff,
  ◌==◌, bytes_eq, bytes_beq_iff, nat_eq, if◌then◌else◌, lookup, put, Unique-put, All, All-map,
  arith, lookup-put, lookup-put_self, Bool-cases, inl, inr,
}
use flx.Hub.{Hub, subscribe_all, subscribe, members, fresh}
use flx.Hub.Invariant.{Live, At, IsSound, Live-put}

-- A registration survives a step that keeps its subscription alive and its place.
At-move :
    (h h' : Hub) (home home' : ℕ → Option Bytes) (place : Option Bytes) (id : ℕ)
    → Live h'.subs id
    → home' id ≡ home id
    → h.next ≤ h'.next
    → At h home place id
    → At h' home' place id
At-move h h' home home' place id live same grown a = record {
  live = live;
  lives_at = same ∙ a.lives_at;
  allocated = (let before = a.allocated in omega arith);
}

module _ (h : Hub) (s : IsSound h) (place : Option Bytes) where
  -- The new subscription lives at `place`.
  home_with : ℕ → Option Bytes
  home_with id = if nat_beq id h.next then place else s.home id

  module _ (h' : Hub) (subs_eq : h'.subs ≡ put h.next fresh h.subs)
      (next_eq : h'.next ≡ h.next + 1) where
    old-At : (p : Option Bytes) (id : ℕ) → At h s.home p id → At h' home_with p id
    unfolding home_with
    old-At p id a =
        At-move h h' s.home home_with p id
          (subst (λ t. Live t id) (sym subs_eq)
            (Live-put h.subs h.next fresh refl (omega arith) id a.live))
          (let below = a.allocated in let e : nat_beq id h.next ≡ false = ground arith in rw e)
          (omega arith) a

    new-At : At h' home_with place h.next
    unfolding home_with
    new-At = record {
      live =
          subst (λ t. Live t h.next) (sym subs_eq)
            (record {
              sub = fresh;
              found = lookup-put_self h.next fresh h.subs;
              is_open = refl;
              fits = omega arith;
            });
      lives_at = rw ((nat_beq_iff h.next h.next).1 refl);
      allocated = omega arith;
    }

pub subscribe_all-IsSound : (h : Hub) → IsSound h → IsSound (subscribe_all h).0
unfolding subscribe_all
subscribe_all-IsSound h s =
    let h' : Hub = (subscribe_all h).0 in
    let old = old-At h s none h' refl refl in
    record {
      home = home_with h s none;
      channels = λ c. All-map _ (old (some c)) (s.channels c);
      globals = (new-At h s none h' refl refl, All-map _ (old none) s.globals);
      unique = s.unique;
    }

pub subscribe-IsSound :
    (channel_id : Bytes) (h : Hub) → IsSound h → IsSound (subscribe channel_id h).0
unfolding subscribe
subscribe-IsSound channel_id h s =
    let h' : Hub = (subscribe channel_id h).0 in
    let place = some channel_id in
    let old = old-At h s place h' refl refl in
    let ids = members (lookup channel_id h.by_channel) in
    record {
      home = home_with h s place;
      channels = λ c. elim (Bool-cases (channel_id == c)) [
        | inl same ↦
            subst (λ o. All (At h' (home_with h s place) (some c)) (members o))
              (sym (lookup-put channel_id c (h.next ∷ ids) h.by_channel))
              (rw same (
                subst (λ k. All (At h' (home_with h s place) (some k)) (h.next ∷ ids))
                  ((bytes_beq_iff channel_id c).0 same)
                  (
                    new-At h s place h' refl refl,
                    All-map ids (old (some channel_id)) (s.channels channel_id),
                  )))
        | inr other ↦
            subst (λ o. All (At h' (home_with h s place) (some c)) (members o))
              (sym (lookup-put channel_id c (h.next ∷ ids) h.by_channel))
              (rw other (All-map _ (old (some c)) (s.channels c)))
      ];
      globals = All-map _ (old none) s.globals;
      unique = Unique-put channel_id _ h.by_channel s.unique;
    }
