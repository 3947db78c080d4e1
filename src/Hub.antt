-- ===== src/Hub.antt =====
-- internal/core/hub.go. A subscription is a pointer: a number that names its buffered channel in
-- `subs`. A send on a closed channel, a close of a closed one and a nil subscription panic, which is
-- `none`. The loops range over sets of subscriptions, which are lists here.
pub mod Invariant
pub mod Members
pub mod Leave
pub mod Safety
use flx.Prelude.{
  ℕ, zero, suc, ◌+◌, ◌%◌, ◌^◌, Bool, true, false, not, ◌||◌, List, [], ◌∷◌, ◌++◌, Option, none,
  some, Bytes, codes, ℤ, pos, ltb, nat_beq, ◌==◌, bytes_eq, nat_eq, if◌then◌else◌, length, Table,
  lookup, put, remove,
}
use flx.Types.{Event}

abbrev pub subscriber_buffer : ℕ
subscriber_buffer = 1024

-- The channel of a subscription, and the counter of dropped events.
pub record Subscription : Type 0 where
  pub queue : List Event
  pub closed : Bool
  pub dropped : ℕ

-- `next` is the name of the next allocation; `overflow_calls` counts the calls of `onOverflow`.
pub record Hub : Type 0 where
  pub by_channel : Table Bytes (List ℕ)
  pub global : List ℕ
  pub subs : Table ℕ Subscription
  pub next : ℕ
  pub has_overflow : Bool
  pub overflow_calls : ℕ

unfoldable pub new_hub : Bool → Hub
new_hub has_overflow = record {
  by_channel = [];
  global = [];
  subs = [];
  next = 0;
  has_overflow = has_overflow;
  overflow_calls = 0;
}

infixl 5 ◌>>=◌
abbrev pub ◌>>=◌ {ℓ} : {A B : Type ℓ} → Option A → (A → Option B) → Option B
none >>= f = none
some a >>= f = f a

-- The members of a set that may be nil.
abbrev pub members : Option (List ℕ) → List ℕ
members none = []
members (some ids) = ids

unfoldable pub contains : ℕ → List ℕ → Bool
contains id [] = false
contains id (j ∷ ids) = nat_beq j id || contains id ids

unfoldable pub without : ℕ → List ℕ → List ℕ
without id [] = []
without id (j ∷ ids) = let rest = without id ids in if nat_beq j id then rest else j ∷ rest

abbrev pub fresh : Subscription
fresh = record { queue = []; closed = false; dropped = 0 }

unfoldable pub subscribe_all : Hub → Hub × ℕ
subscribe_all h = (
  record h { global = h.next ∷ h.global; subs = put h.next fresh h.subs; next = h.next + 1 },
  h.next,
)

unfoldable pub subscribe : Bytes → Hub → Hub × ℕ
subscribe channel_id h = (
  record h {
    by_channel = put channel_id (h.next ∷ members (lookup channel_id h.by_channel)) h.by_channel;
    subs = put h.next fresh h.subs;
    next = h.next + 1;
  },
  h.next,
)

close_sub : ℕ → Option Subscription → Table ℕ Subscription → Option (Table ℕ Subscription)
close_sub id none subs = none
close_sub id (some s) subs =
    if s.closed then none else some (put id (record s { closed = true }) subs)

-- close(s.channel)
unfoldable pub close_channel : ℕ → Hub → Option Hub
unfolding close_sub
close_channel id h = do
  subs ← close_sub id (lookup id h.subs) h.subs
  some (record h { subs = subs })

unfoldable pub unsubscribe_all : ℕ → Hub → Option Hub
unsubscribe_all id h =
    if contains id h.global
    then close_channel id (record h { global = without id h.global })
    else some h

-- The set of a channel without the subscription, which is dropped when it is empty.
shrink : Bytes → List ℕ → Table Bytes (List ℕ) → Table Bytes (List ℕ)
shrink channel_id [] by_channel = remove channel_id by_channel
shrink channel_id (j ∷ ids) by_channel = put channel_id (j ∷ ids) by_channel

leave : Bytes → ℕ → Option (List ℕ) → Hub → Option Hub
unfolding shrink
leave channel_id id none h = some h
leave channel_id id (some ids) h =
    if contains id ids
    then close_channel id
        (record h { by_channel = shrink channel_id (without id ids) h.by_channel })
    else some (record h { by_channel = shrink channel_id ids h.by_channel })

unfoldable pub unsubscribe : Bytes → ℕ → Hub → Option Hub
unfolding leave
unsubscribe channel_id id h = leave channel_id id (lookup channel_id h.by_channel) h

-- `dropped` is an atomic uint64.
unfoldable pub deliver : Event → Subscription → Subscription
deliver event s =
    if ltb (length s.queue) subscriber_buffer
    then record s { queue = s.queue ++ event ∷ [] }
    else record s { dropped = (s.dropped + 1) % 2 ^ 64 }

overflows : Subscription → Bool
overflows s = not (ltb (length s.queue) subscriber_buffer)

after_publish : ℕ → Event → Subscription → Hub → Hub
unfolding overflows
after_publish id event s h = record h {
  subs = put id (deliver event s) h.subs;
  overflow_calls =
      if overflows s
      then (if h.has_overflow then h.overflow_calls + 1 else h.overflow_calls)
      else h.overflow_calls;
}

publish_sub : ℕ → Event → Option Subscription → Hub → Option Hub
unfolding after_publish
publish_sub id event none h = none
publish_sub id event (some s) h = if s.closed then none else some (after_publish id event s h)

-- Hub.publish
unfoldable pub publish_to : ℕ → Event → Hub → Option Hub
unfolding publish_sub
publish_to id event h = publish_sub id event (lookup id h.subs) h

unfoldable pub publish_each : List ℕ → Event → Hub → Option Hub
publish_each [] event h = some h
publish_each (id ∷ ids) event h = do h' ← publish_to id event h; publish_each ids event h'

-- Hub.Publish
unfoldable pub publish : Event → Hub → Option Hub
publish event h = if event.channel_id == [] then some h else do
  h' ← publish_each (members (lookup event.channel_id h.by_channel)) event h
  publish_each h'.global event h'

unfoldable pub gap_event : Bytes → ℕ → Bytes → Event
gap_event channel_id now reason = record {
  kind = codes "GAP";
  sequence = pos 0;
  channel_id = channel_id;
  message = none;
  message_id = [];
  occurred_at = now;
  payload = [];
  dropped = 0;
  reason = reason;
}

gap_each : Table Bytes (List ℕ) → ℕ → Bytes → Hub → Option Hub
gap_each [] now reason h = some h
gap_each ((channel_id, ids) ∷ rest) now reason h = do
  h' ← publish_each ids (gap_event channel_id now reason) h
  gap_each rest now reason h'

-- Hub.GapAll
unfoldable pub gap_all : Bytes → ℕ → Hub → Option Hub
unfolding gap_each
gap_all reason now h = do
  h' ← gap_each h.by_channel now reason h
  publish_each h'.global (gap_event [] now reason) h'

-- Subscription.TakeDropped
unfoldable pub take_dropped : ℕ → Hub → Hub × ℕ
take_dropped id h = elim (lookup id h.subs) [
  | none ↦ (h, 0)
  | some s ↦ (record h { subs = put id (record s { dropped = 0 }) h.subs }, s.dropped)
]

-- What a receive from the channel finds: an event, the end of a closed channel, or nothing yet.
pub data Received : Type 0 where
  received : Event → Received
  ended waiting : Received

unfoldable pub receive_sub : ℕ → Subscription → List Event → Hub → Hub × Received
receive_sub id s [] h = (h, if s.closed then ended else waiting)
receive_sub id s (event ∷ queue) h =
    (record h { subs = put id (record s { queue = queue }) h.subs }, received event)

-- <-s.C, for a reader that does not block
unfoldable pub receive : ℕ → Hub → Hub × Received
unfolding receive_sub
receive id h = elim (lookup id h.subs) [ none ↦ (h, waiting) | some s ↦ receive_sub id s s.queue h ]
