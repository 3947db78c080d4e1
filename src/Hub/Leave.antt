-- ===== src/Hub/Leave.antt =====
-- Unsubscribing keeps the invariant of the hub: the channel that it closes is registered nowhere
-- else, so every registered one stays open.
use mathlib.Core.Path.{subst}
use flx.Prelude.{
  ℕ, ◌≡◌, ◌≢◌, refl, sym, ap, ◌∙◌, true, List, [], ◌∷◌, Option, none, some, Bytes, nat_beq,
  nat_beq_iff, ◌==◌, bytes_eq, bytes_beq_iff, nat_eq, if◌then◌else◌, Table, lookup, put, Unique,
  Unique-put, Unique-remove, All, All-map, arith, lookup-put, lookup-remove, lookup-put_ne,
  Bool-cases, inl, inr,
}
use flx.Hub.{
  Hub, Subscription, contains, without, close_channel, unsubscribe_all, unsubscribe, members,
  shrink, leave,
}
use flx.Hub.Invariant.{Live, At, IsSound}

contains-All : (P : ℕ → Type 0) (id : ℕ) (ids : List ℕ) → All P ids → contains id ids ≡ true → P id
unfolding contains
contains-All P id [] a h = cc
contains-All P id (j ∷ ids) (p, a) h = elim (Bool-cases (nat_beq j id)) [
  | inl same ↦ subst P ((nat_beq_iff j id).0 same) p
  | inr other ↦ contains-All P id ids a (ground arith)
]

All-without :
    (P : ℕ → Type 0) (id : ℕ) (ids : List ℕ)
    → All P ids
    → All (λ j. P j × (j ≢ id)) (without id ids)
unfolding without
All-without P id [] a = tt
All-without P id (j ∷ ids) (p, a) = elim (Bool-cases (nat_beq j id)) [
  | inl same ↦ rw same (All-without P id ids a)
  | inr other ↦ rw other ((p, ground arith), All-without P id ids a)
]

-- The hub after the channel was closed.
closed : ℕ → Subscription → Hub → Hub
closed id sub h = record h { subs = put id (record sub { closed = true }) h.subs }

close_channel-Live :
    (id : ℕ) (h : Hub) (l : Live h.subs id) → close_channel id h ≡ some (closed id l.sub h)
unfolding close_channel closed
close_channel-Live id h l = rw (l.found, l.is_open)

At-closed :
    (h : Hub) (by_channel : Table Bytes (List ℕ)) (global : List ℕ) (id : ℕ) (sub : Subscription)
    (home : ℕ → Option Bytes) (place : Option Bytes) (j : ℕ)
    → At h home place j
    → j ≢ id
    → At (closed id sub (record h { by_channel = by_channel; global = global })) home place j
unfolding closed
At-closed h by_channel global id sub home place j a ne = record {
  live = record {
    sub = a.live.sub;
    found = lookup-put_ne id j _ h.subs (λ e. ne (sym e)) ∙ a.live.found;
    is_open = a.live.is_open;
    fits = a.live.fits;
  };
  lives_at = a.lives_at;
  allocated = a.allocated;
}

-- Two ids at different places are different.
ne_of_places :
    (h : Hub) (home : ℕ → Option Bytes) (p q : Option Bytes) (i j : ℕ)
    → p ≢ q
    → At h home p i
    → At h home q j
    → i ≢ j
ne_of_places h home p q i j ne a b e = ne (sym a.lives_at ∙ (ap home e ∙ b.lives_at))

pub unsubscribe_all-IsSound :
    (id : ℕ) (h : Hub) → IsSound h → (h' : Hub) × (unsubscribe_all id h ≡ some h') × IsSound h'
unfolding unsubscribe_all
unsubscribe_all-IsSound id h s = elim (Bool-cases (contains id h.global)) [
  | inr absent ↦ (h, rw absent, s)
  | inl present ↦
      let here = contains-All _ id h.global s.globals present in
      let l = here.live in
      let rest = record h { global = without id h.global } in
      (
        closed id l.sub rest,
        rw present (close_channel-Live id rest l),
        unfold closed in
            record {
              home = s.home;
              channels = λ c.
                  All-map _
                    (λ j a.
                      At-closed h h.by_channel (without id h.global) id l.sub s.home (some c) j a
                        (ne_of_places h s.home (some c) none j id (cc) a here))
                    (s.channels c);
              globals =
                  All-map _
                    (λ j p.
                      At-closed h h.by_channel (without id h.global) id l.sub s.home none j p.0 p.1)
                    (All-without _ id h.global s.globals);
              unique = s.unique;
            },
      )
]

members-shrink :
    (k c : Bytes) (ids : List ℕ) (m : Table Bytes (List ℕ))
    → members (lookup c (shrink k ids m)) ≡ (if k == c then ids else members (lookup c m))
unfolding shrink
members-shrink k c [] m = elim (Bool-cases (k == c)) [
  | inl same ↦ rw (lookup-remove k c m, same)
  | inr other ↦ rw (lookup-remove k c m, other)
]
members-shrink k c (j ∷ ids) m = elim (Bool-cases (k == c)) [
  | inl same ↦ rw (lookup-put k c (j ∷ ids) m, same)
  | inr other ↦ rw (lookup-put k c (j ∷ ids) m, other)
]

Unique-shrink :
    (k : Bytes) (ids : List ℕ) (m : Table Bytes (List ℕ)) → Unique m → Unique (shrink k ids m)
unfolding shrink
Unique-shrink k [] m u = Unique-remove k m u
Unique-shrink k (j ∷ ids) m u = Unique-put k (j ∷ ids) m u

-- What holds of the shrunk set at its key and of all others at theirs holds everywhere.
shrunk :
    (P : Bytes → ℕ → Type 0) (k : Bytes) (ids : List ℕ) (m : Table Bytes (List ℕ))
    → All (P k) ids
    → ((c : Bytes) → k ≢ c → All (P c) (members (lookup c m)))
    → (c : Bytes) → All (P c) (members (lookup c (shrink k ids m)))
shrunk P k ids m here others c =
    subst (λ l. All (P c) l) (sym (members-shrink k c ids m))
      (elim (Bool-cases (k == c)) [
        | inl same ↦ rw same (subst (λ d. All (P d) ids) ((bytes_beq_iff k c).0 same) here)
        | inr other ↦ rw other (others c (ground (arith, bytes_beq_iff k c)))
      ])

At-table :
    (h : Hub) (by_channel : Table Bytes (List ℕ)) (home : ℕ → Option Bytes) (place : Option Bytes)
    (j : ℕ)
    → At h home place j
    → At (record h { by_channel = by_channel }) home place j
At-table h by_channel home place j a = record {
  live = a.live;
  lives_at = a.lives_at;
  allocated = a.allocated;
}

leave-IsSound :
    (channel_id : Bytes) (id : ℕ) (o : Option (List ℕ)) (h : Hub)
    → lookup channel_id h.by_channel ≡ o
    → IsSound h
    → (h' : Hub) × (leave channel_id id o h ≡ some h') × IsSound h'
unfolding leave
leave-IsSound channel_id id none h found s = (h, refl, s)
leave-IsSound channel_id id (some ids) h found s =
    let mine =
      subst (λ o. All (At h s.home (some channel_id)) (members o)) found (s.channels channel_id) in
    elim (Bool-cases (contains id ids)) [
      | inr absent ↦
          let h' : Hub = record h { by_channel = shrink channel_id ids h.by_channel } in
          let same_subs = At-table h (shrink channel_id ids h.by_channel) s.home in
          (
            h',
            rw absent,
            record {
              home = s.home;
              channels =
                  shrunk (λ c j. At h' s.home (some c) j) channel_id ids h.by_channel
                    (All-map ids (same_subs (some channel_id)) mine)
                    (λ c ne. All-map _ (same_subs (some c)) (s.channels c));
              globals = All-map _ (same_subs none) s.globals;
              unique = Unique-shrink channel_id ids h.by_channel s.unique;
            },
          )
      | inl present ↦
          let here = contains-All _ id ids mine present in
          let l = here.live in
          let table = shrink channel_id (without id ids) h.by_channel in
          (
            closed id l.sub (record h { by_channel = table }),
            rw present (close_channel-Live id (record h { by_channel = table }) l),
            unfold closed in
                record {
                  home = s.home;
                  channels =
                      shrunk
                        (λ c j.
                          At (closed id l.sub (record h { by_channel = table })) s.home (some c) j)
                        channel_id (without id ids) h.by_channel
                        (All-map _
                          (λ j p.
                            At-closed h table h.global id l.sub s.home (some channel_id) j p.0 p.1)
                          (All-without _ id ids mine))
                        (λ c ne.
                          All-map _
                            (λ j a. At-closed h table h.global id l.sub s.home (some c) j a (
                              ne_of_places h s.home (some c) (some channel_id) j id (λ e. ne (cc)) a
                                here))
                            (s.channels c));
                  globals =
                      All-map _
                        (λ j a.
                          At-closed h table h.global id l.sub s.home none j a
                            (ne_of_places h s.home none (some channel_id) j id (cc) a here))
                        s.globals;
                  unique = Unique-shrink channel_id (without id ids) h.by_channel s.unique;
                },
          )
    ]

pub unsubscribe-IsSound :
    (channel_id : Bytes) (id : ℕ) (h : Hub)
    → IsSound h
    → (h' : Hub) × (unsubscribe channel_id id h ≡ some h') × IsSound h'
unfolding unsubscribe
unsubscribe-IsSound channel_id id h s =
    leave-IsSound channel_id id (lookup channel_id h.by_channel) h refl s
