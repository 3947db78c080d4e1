-- ===== src/File/Live/Backlog.antt =====
-- internal/p9fs/files.go, liveFile. What a subscription still has to tell, and what a round of the read
-- loop takes of it.
use flx.Prelude.{
  ℕ, ◌≡◌, ◌≢◌, refl, Bool, true, false, List, [], ◌∷◌, ◌++◌, Option, none, some, Bytes, codes, ltb,
  nat_eq, if◌then◌else◌, lookup, put, lookup-put_self, Bool-cases, Option-cases, inl, inr, ◌==◌,
  bytes_eq,
}
use flx.Types.{Event, Message}
use flx.Hub.{Hub, Subscription, take_dropped, receive, waiting, receive_sub}
use flx.Render.{Formats, event_record, message_record, render_event, render_inbox_event, render_gap}
use flx.File.Live.{
  LiveFile, render_received, from_received, from_dropped, Filled, filled, finished, nothing_yet,
  fill,
}

-- Every record begins with a bracket or ends in a line feed.
pub append-ne-nil : (s : Bytes) (b : ℕ) → s ++ b ∷ [] ≢ []
append-ne-nil [] b h = cc
append-ne-nil (c ∷ s) b h = cc

pub message_record_nonempty :
    (formats : Formats) (include_channel : Bool) (event : Event) (o : Option Message)
    → message_record formats include_channel event o ≢ []
unfolding message_record
message_record_nonempty formats include_channel event none h = cc
message_record_nonempty formats include_channel event (some m) h = cc

pub record_nonempty :
    (formats : Formats) (event : Event) (json_lines include_channel : Bool)
    → event_record formats event json_lines include_channel ≢ []
unfolding event_record
record_nonempty formats event true include_channel h =
    append-ne-nil (formats.json_event (record event { payload = [] })) 0x0a h
record_nonempty formats event false include_channel h =
    elim (Bool-cases (event.kind == codes "GAP")) [
      | inl e ↦ let h' = rw e at h in cc
      | inr e ↦ message_record_nonempty formats include_channel event event.message (rw e at h)
    ]

-- The channel operations at a subscription that is there, or is not.
pub receive_found :
    (id : ℕ) (h : Hub) (s : Subscription)
    → lookup id h.subs ≡ some s
    → receive id h ≡ receive_sub id s s.queue h
unfolding receive
receive_found id h s e = rw (e, receive) refl

pub receive_missing : (id : ℕ) (h : Hub) → lookup id h.subs ≡ none → receive id h ≡ (h, waiting)
unfolding receive
receive_missing id h e = rw (e, receive) refl

pub take_dropped_found :
    (id : ℕ) (h : Hub) (s : Subscription)
    → lookup id h.subs ≡ some s
    → take_dropped id h ≡ (record h { subs = put id (record s { dropped = 0 }) h.subs }, s.dropped)
unfolding take_dropped
take_dropped_found id h s e = rw (e, take_dropped) refl

pub take_dropped_missing : (id : ℕ) (h : Hub) → lookup id h.subs ≡ none → take_dropped id h ≡ (h, 0)
unfolding take_dropped
take_dropped_missing id h e = rw (e, take_dropped) refl

-- Whether the channel of a subscription is closed.
unfoldable pub is_closed : Option Subscription → Bool
is_closed none = false
is_closed (some s) = s.closed

module _ (formats : Formats) (now : ℕ) (f : LiveFile) where
  pub received_nonempty : (event : Event) → render_received formats now f event ≢ []
  unfolding render_received render_event render_inbox_event
  received_nonempty event h = elim (Bool-cases f.global) [
    | inl e ↦ record_nonempty formats event f.json_lines true (rw e at h)
    | inr e ↦ record_nonempty formats event f.json_lines false (rw e at h)
  ]

  pub gap_nonempty : (dropped : ℕ) → render_gap formats now dropped f.json_lines ≢ []
  unfolding render_gap render_event
  gap_nonempty dropped h = record_nonempty formats _ f.json_lines false h

  -- The records of the queued events.
  unfoldable pub render_all : List Event → Bytes
  render_all [] = []
  render_all (event ∷ events) = render_received formats now f event ++ render_all events

  -- What a subscription still has to tell: the gap of what it dropped, and its queue.
  unfoldable pub backlog : Option Subscription → Bytes
  backlog none = []
  backlog (some s) =
      (if ltb 0 s.dropped then render_gap formats now s.dropped f.json_lines else [])
      ++ render_all s.queue

  -- What is filled in comes off the backlog; where nothing is, there is none, and the subscription is
  -- closed where its end is reported, and open where the read has to wait.
  unfoldable pub Fills : ℕ → Bytes → Bool → Filled → Type 0
  Fills sub before closed (filled pending h) =
      (pending ≢ []) × (pending ++ backlog (lookup sub h.subs) ≡ before)
  Fills sub before closed (finished h) =
      (before ≡ []) × (backlog (lookup sub h.subs) ≡ []) × (closed ≡ true)
  Fills sub before closed (nothing_yet h) =
      (before ≡ []) × (backlog (lookup sub h.subs) ≡ []) × (closed ≡ false)

  pub received-Fills :
      (sub : ℕ) (s : Subscription) (queue : List Event) (h : Hub)
      → s.dropped ≡ 0
      → s.queue ≡ queue
      → lookup sub h.subs ≡ some s
      → Fills sub
          (render_all queue)
          s.closed
          (from_received formats now f (receive_sub sub s queue h))
  unfolding Fills from_received receive_sub render_all backlog
  received-Fills sub s [] h none_lost e found = elim (Bool-cases s.closed) [
    | inl c ↦ rw c (refl, rw (found, none_lost, e) refl, refl)
    | inr c ↦ rw c (refl, rw (found, none_lost, e) refl, refl)
  ]
  received-Fills sub s (event ∷ queue) h none_lost e found = (
    received_nonempty event,
    rw (lookup-put_self sub (record s { queue = queue }) h.subs, none_lost) refl,
  )

  pub dropped-Fills :
      (sub : ℕ) (s : Subscription) (h : Hub)
      → lookup sub h.subs ≡ some s
      → Fills sub (backlog (some s)) s.closed (
          from_dropped formats now f sub
            (record h { subs = put sub (record s { dropped = 0 }) h.subs }, s.dropped))
  unfolding Fills from_dropped backlog
  dropped-Fills sub s h found =
      let emptied = record h { subs = put sub (record s { dropped = 0 }) h.subs } in
      let kept = lookup-put_self sub (record s { dropped = 0 }) h.subs in
      elim (Bool-cases (ltb 0 s.dropped)) [
        | inl e ↦ rw e (gap_nonempty s.dropped, rw kept refl)
        | inr e ↦
            rw (e, receive_found sub emptied (record s { dropped = 0 }) kept)
              (received-Fills sub (record s { dropped = 0 }) s.queue emptied refl refl kept)
      ]

  pub fill-Fills :
      (sub : ℕ) (h : Hub)
      → Fills sub
          (backlog (lookup sub h.subs))
          (is_closed (lookup sub h.subs))
          (fill formats now f sub h)
  unfolding fill is_closed
  fill-Fills sub h = elim (Option-cases (lookup sub h.subs)) [
    | inl e ↦
        rw (e, take_dropped_missing sub h e)
          (unfold from_dropped in
            rw (receive_missing sub h e)
              (unfold from_received Fills backlog in (refl, rw e refl, refl)))
    | inr (s, e) ↦ rw (e, take_dropped_found sub h s e) (dropped-Fills sub s h e)
  ]
