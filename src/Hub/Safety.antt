-- ===== src/Hub/Safety.antt =====
-- Whatever its clients do, the hub does not panic.
use mathlib.Core.Path.{subst}
use flx.Prelude.{
  ℕ, ◌≤◌, ◌≡◌, refl, ap, ◌∙◌, Bool, List, [], ◌∷◌, Option, none, some, Bytes, nat_beq, nat_beq_iff,
  bytes_eq, nat_eq, length, Table, lookup, lookup-nil, put, arith, lookup-put, Bool-cases,
  Option-cases, inl, inr,
}
use flx.Types.{Event}
use flx.Hub.{
  Hub, Subscription, new_hub, subscribe_all, subscribe, unsubscribe_all, unsubscribe, publish,
  gap_all, take_dropped, receive, receive_sub, ◌>>=◌,
}
use flx.Hub.Invariant.{
  Live, IsSound, IsSound-Keeps, Keeps, Keeps-refl, publish_sound, gap_all_sound,
}
use flx.Hub.Members.{subscribe-IsSound, subscribe_all-IsSound}
use flx.Hub.Leave.{unsubscribe-IsSound, unsubscribe_all-IsSound}

-- A call of the hub or of one of its subscriptions, by whatever client.
pub data Call : Type 0 where
  call_subscribe : Bytes → Call
  call_subscribe_all : Call
  call_unsubscribe : Bytes → ℕ → Call
  call_unsubscribe_all : ℕ → Call
  call_publish : Event → Call
  call_gap_all : Bytes → ℕ → Call
  call_take_dropped : ℕ → Call
  call_receive : ℕ → Call

pub perform : Call → Hub → Option Hub
perform (call_subscribe channel_id) h = some (subscribe channel_id h).0
perform call_subscribe_all h = some (subscribe_all h).0
perform (call_unsubscribe channel_id id) h = unsubscribe channel_id id h
perform (call_unsubscribe_all id) h = unsubscribe_all id h
perform (call_publish event) h = publish event h
perform (call_gap_all reason now) h = gap_all reason now h
perform (call_take_dropped id) h = some (take_dropped id h).0
perform (call_receive id) h = some (receive id h).0

pub perform_all : List Call → Hub → Option Hub
perform_all [] h = some h
perform_all (c ∷ cs) h = perform c h >>= perform_all cs

-- A reader's step on its own channel.
Live-update :
    (subs : Table ℕ Subscription) (id : ℕ) (s s' : Subscription)
    → lookup id subs ≡ some s
    → s'.closed ≡ s.closed
    → length s'.queue ≤ length s.queue
    → (j : ℕ) → Live subs j
    → Live (put id s' subs) j
Live-update subs id s s' found same shorter j l = elim (Bool-cases (nat_beq id j)) [
  | inl e ↦
      let at_j : lookup j subs ≡ some s =
        subst (λ k. lookup k subs ≡ some s) ((nat_beq_iff id j).0 e) found in
      let it : s ≡ l.sub = cc (at_j, l.found) in
      record {
        sub = s';
        found = rw (lookup-put id j s' subs, e);
        is_open = same ∙ (ap (λ (t : Subscription). t.closed) it ∙ l.is_open);
        fits =
            (let len = ap (λ (t : Subscription). length t.queue) it in
              let bound = l.fits in omega arith);
      }
  | inr e ↦ record {
    sub = l.sub;
    found = rw (lookup-put id j s' subs, e) (l.found);
    is_open = l.is_open;
    fits = l.fits;
  }
]

read-Keeps :
    (h : Hub) (id : ℕ) (s s' : Subscription)
    → lookup id h.subs ≡ some s
    → s'.closed ≡ s.closed
    → length s'.queue ≤ length s.queue
    → Keeps h (record h { subs = put id s' h.subs })
read-Keeps h id s s' found same shorter = record {
  channels_eq = refl;
  global_eq = refl;
  next_eq = refl;
  lives = Live-update h.subs id s s' found same shorter;
}

take_dropped-Keeps : (id : ℕ) (h : Hub) → Keeps h (take_dropped id h).0
unfolding take_dropped
take_dropped-Keeps id h = elim (Option-cases (lookup id h.subs)) [
  | inl e ↦ rw (e, take_dropped) (Keeps-refl h)
  | inr (s, e) ↦
      rw (e, take_dropped) (read-Keeps h id s (record s { dropped = 0 }) e refl (omega arith))
]

receive_sub-Keeps :
    (id : ℕ) (s : Subscription) (h : Hub) (queue : List Event)
    → lookup id h.subs ≡ some s
    → s.queue ≡ queue
    → Keeps h (receive_sub id s queue h).0
unfolding receive_sub
receive_sub-Keeps id s h [] found e = Keeps-refl h
receive_sub-Keeps id s h (event ∷ queue) found e =
    let len = ap (λ (q : List Event). length q) e in
    read-Keeps h id s (record s { queue = queue }) found refl (omega arith)

receive-Keeps : (id : ℕ) (h : Hub) → Keeps h (receive id h).0
unfolding receive
receive-Keeps id h = elim (Option-cases (lookup id h.subs)) [
  | inl e ↦ rw (e, receive) (Keeps-refl h)
  | inr (s, e) ↦ rw (e, receive) (receive_sub-Keeps id s h s.queue e refl)
]

-- Every call of the hub succeeds and keeps the invariant.
pub perform-IsSound :
    (c : Call) (h : Hub) → IsSound h → (h' : Hub) × (perform c h ≡ some h') × IsSound h'
unfolding perform
perform-IsSound (call_subscribe channel_id) h s = (_, refl, subscribe-IsSound channel_id h s)
perform-IsSound call_subscribe_all h s = (_, refl, subscribe_all-IsSound h s)
perform-IsSound (call_unsubscribe channel_id id) h s = unsubscribe-IsSound channel_id id h s
perform-IsSound (call_unsubscribe_all id) h s = unsubscribe_all-IsSound id h s
perform-IsSound (call_publish event) h s =
    let (h', e, k) = publish_sound event h s in (h', e, IsSound-Keeps h h' k s)
perform-IsSound (call_gap_all reason now) h s =
    let (h', e, k) = gap_all_sound reason now h s in (h', e, IsSound-Keeps h h' k s)
perform-IsSound (call_take_dropped id) h s =
    (_, refl, IsSound-Keeps h _ (take_dropped-Keeps id h) s)
perform-IsSound (call_receive id) h s = (_, refl, IsSound-Keeps h _ (receive-Keeps id h) s)

performed :
    (cs : List Call) (h : Hub) → IsSound h → (h' : Hub) × (perform_all cs h ≡ some h') × IsSound h'
unfolding perform_all
performed [] h s = (h, refl, s)
performed (c ∷ cs) h s =
    let (h1, first, s1) = perform-IsSound c h s in
    let (h2, rest, s2) = performed cs h1 s1 in (h2, rw first rest, s2)

pub new_hub-IsSound : (b : Bool) → IsSound (new_hub b)
unfolding new_hub
new_hub-IsSound b = record {
  home = λ id. none;
  channels = λ c. rw (lookup-nil c) tt;
  globals = tt;
  unique = tt;
}

-- From a new hub, whatever calls its clients make in whatever order, with whatever channels and
-- subscriptions, no call panics: nothing is sent on a closed channel, no channel is closed twice.
-- Afterwards every registered subscription is open, holds at most 1024 events and is registered at
-- one place only.
pub perform_all-IsSound :
    (has_overflow : Bool) (cs : List Call)
    → (h : Hub) × (perform_all cs (new_hub has_overflow) ≡ some h) × IsSound h
perform_all-IsSound has_overflow cs =
    performed cs (new_hub has_overflow) (new_hub-IsSound has_overflow)
