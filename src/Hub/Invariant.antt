-- ===== src/Hub/Invariant.antt =====
-- The invariant of the hub: every subscription that is registered, under a channel or globally, has
-- an open channel, and it is registered at one place only.
use flx.Prelude.{
  ℕ, ◌≤◌, ◌<◌, ◌≡◌, refl, sym, ◌∙◌, false, List, [], ◌∷◌, Option, none, some, Bytes, nat_beq, ◌==◌,
  bytes_eq, nat_eq, length, Table, lookup, put, Unique, All-of_lookup, All, All-map, arith,
  lookup-put, length-append, Bool-cases, inl, inr,
}
use mathlib.Core.Path.{subst}
use flx.Types.{Event}
use flx.Hub.{
  Hub, Subscription, subscriber_buffer, deliver, publish_to, after_publish, publish_each, publish,
  gap_all, gap_each, gap_event, members,
}

-- The channel of the subscription exists, is open and holds at most 1024 events.
pub record Live (subs : Table ℕ Subscription) (id : ℕ) : Type 0 where
  pub sub : Subscription
  pub found : lookup id subs ≡ some sub
  pub is_open : sub.closed ≡ false
  pub fits : length sub.queue ≤ subscriber_buffer

-- The subscription is registered at `place` and nowhere else.
pub record At (h : Hub) (home : ℕ → Option Bytes) (place : Option Bytes) (id : ℕ) : Type 0 where
  pub live : Live h.subs id
  pub lives_at : home id ≡ place
  pub allocated : id < h.next

pub record IsSound (h : Hub) : Type 0 where
  pub home : ℕ → Option Bytes
  pub channels :
      (channel_id : Bytes)
      → All (At h home (some channel_id)) (members (lookup channel_id h.by_channel))
  pub globals : All (At h home none) h.global
  pub unique : Unique h.by_channel

pub Live-put :
    (subs : Table ℕ Subscription) (id : ℕ) (s : Subscription)
    → s.closed ≡ false
    → length s.queue ≤ subscriber_buffer
    → (j : ℕ) → Live subs j
    → Live (put id s subs) j
Live-put subs id s o fits j l = elim (Bool-cases (nat_beq id j)) [
  | inl same ↦ record {
    sub = s;
    found = rw (lookup-put id j s subs, same);
    is_open = o;
    fits = fits;
  }
  | inr other ↦ record {
    sub = l.sub;
    found = rw (lookup-put id j s subs, other) (l.found);
    is_open = l.is_open;
    fits = l.fits;
  }
]

-- What a step that only touches channels of live subscriptions keeps.
pub record Keeps (h h' : Hub) : Type 0 where
  pub channels_eq : h'.by_channel ≡ h.by_channel
  pub global_eq : h'.global ≡ h.global
  pub next_eq : h'.next ≡ h.next
  pub lives : (j : ℕ) → Live h.subs j → Live h'.subs j

pub Keeps-refl : (h : Hub) → Keeps h h
Keeps-refl h = record { channels_eq = refl; global_eq = refl; next_eq = refl; lives = λ j l. l }

pub Keeps-trans : (a b c : Hub) → Keeps a b → Keeps b c → Keeps a c
Keeps-trans a b c k l = record {
  channels_eq = l.channels_eq ∙ k.channels_eq;
  global_eq = l.global_eq ∙ k.global_eq;
  next_eq = l.next_eq ∙ k.next_eq;
  lives = λ j live. l.lives j (k.lives j live);
}

At-Keeps :
    (h h' : Hub) (home : ℕ → Option Bytes) (place : Option Bytes)
    → Keeps h h'
    → (id : ℕ) → At h home place id
    → At h' home place id
At-Keeps h h' home place k id a = record {
  live = k.lives id a.live;
  lives_at = a.lives_at;
  allocated = rw k.next_eq (a.allocated);
}

pub IsSound-Keeps : (h h' : Hub) → Keeps h h' → IsSound h → IsSound h'
IsSound-Keeps h h' k s = record {
  home = s.home;
  channels = λ c.
      subst (λ t. All (At h' s.home (some c)) (members (lookup c t))) (sym k.channels_eq)
        (All-map _ (At-Keeps h h' s.home (some c) k) (s.channels c));
  globals =
      subst (λ ids. All (At h' s.home none) ids) (sym k.global_eq)
        (All-map _ (At-Keeps h h' s.home none k) s.globals);
  unique = subst (λ t. Unique t) (sym k.channels_eq) s.unique;
}

deliver-fits :
    (event : Event) (s : Subscription)
    → length s.queue ≤ subscriber_buffer
    → (length (deliver event s).queue ≤ subscriber_buffer) × ((deliver event s).closed ≡ s.closed)
unfolding deliver
deliver-fits event s fits = ground (arith, length-append s.queue (event ∷ []))

-- A send to a live subscription does not panic.
pub publish_to-Live :
    (id : ℕ) (event : Event) (h : Hub)
    → (l : Live h.subs id)
    → (h' : Hub) × (publish_to id event h ≡ some h')
      × (h'.subs ≡ put id (deliver event l.sub) h.subs)
      × Keeps h h'
unfolding publish_to
publish_to-Live id event h l =
    let (fits, same) = deliver-fits event l.sub l.fits in
    (
      after_publish id event l.sub h,
      rw (l.found, l.is_open),
      refl,
      record {
        channels_eq = refl;
        global_eq = refl;
        next_eq = refl;
        lives = Live-put h.subs id (deliver event l.sub) (same ∙ l.is_open) fits;
      },
    )

pub publish_each-Live :
    (ids : List ℕ) (event : Event) (h : Hub)
    → All (Live h.subs) ids
    → (h' : Hub) × (publish_each ids event h ≡ some h') × Keeps h h'
unfolding publish_each
publish_each-Live [] event h ls = (h, refl, Keeps-refl h)
publish_each-Live (id ∷ ids) event h (l, ls) =
    let (h1, step, _, k1) = publish_to-Live id event h l in
    let (h2, rest, k2) = publish_each-Live ids event h1 (All-map ids k1.lives ls) in
    (h2, rw step rest, Keeps-trans h h1 h2 k1 k2)

pub At-Live :
    (h : Hub) (home : ℕ → Option Bytes) (place : Option Bytes) (ids : List ℕ)
    → All (At h home place) ids
    → All (Live h.subs) ids
At-Live h home place ids a = All-map ids (λ id x. x.live) a

-- Publishing an event does not panic and keeps the invariant.
pub publish_sound :
    (event : Event) (h : Hub) → IsSound h → (h' : Hub) × (publish event h ≡ some h') × Keeps h h'
unfolding publish
publish_sound event h s = elim (Bool-cases (event.channel_id == [])) [
  | inl e ↦ (h, rw e, Keeps-refl h)
  | inr e ↦
      let ids = members (lookup event.channel_id h.by_channel) in
      let (h1, first, k1) =
        publish_each-Live ids event h (At-Live h s.home _ ids (s.channels event.channel_id)) in
      let s1 = IsSound-Keeps h h1 k1 s in
      let (h2, second, k2) =
        publish_each-Live h1.global event h1 (At-Live h1 s1.home _ h1.global s1.globals) in
      (h2, rw e (rw first second), Keeps-trans h h1 h2 k1 k2)
]

gap_each-Live :
    (entries : Table Bytes (List ℕ)) (now : ℕ) (reason : Bytes) (h : Hub)
    → All (λ entry. All (Live h.subs) entry.1) entries
    → (h' : Hub) × (gap_each entries now reason h ≡ some h') × Keeps h h'
unfolding gap_each
gap_each-Live [] now reason h a = (h, refl, Keeps-refl h)
gap_each-Live ((c, ids) ∷ rest) now reason h (a, as') =
    let (h1, first, k1) = publish_each-Live ids (gap_event c now reason) h a in
    let kept = All-map rest (λ entry b. All-map entry.1 k1.lives b) as' in
    let (h2, second, k2) = gap_each-Live rest now reason h1 kept in
    (h2, rw first second, Keeps-trans h h1 h2 k1 k2)

entries-Live : (h : Hub) → IsSound h → All (λ entry. All (Live h.subs) entry.1) h.by_channel
entries-Live h s =
    All-of_lookup (λ c ids. All (Live h.subs) ids) h.by_channel s.unique
      (λ c ids found.
        At-Live h s.home _ ids
          (subst (λ o. All (At h s.home (some c)) (members o)) found (s.channels c)))

-- Announcing a gap does not panic and keeps the invariant.
pub gap_all_sound :
    (reason : Bytes) (now : ℕ) (h : Hub)
    → IsSound h
    → (h' : Hub) × (gap_all reason now h ≡ some h') × Keeps h h'
unfolding gap_all
gap_all_sound reason now h s =
    let (h1, first, k1) = gap_each-Live h.by_channel now reason h (entries-Live h s) in
    let s1 = IsSound-Keeps h h1 k1 s in
    let (h2, second, k2) =
      publish_each-Live h1.global (gap_event [] now reason) h1
        (At-Live h1 s1.home _ h1.global s1.globals) in
    (h2, rw first second, Keeps-trans h h1 h2 k1 k2)
