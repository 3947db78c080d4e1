-- ===== src/File/Live.antt =====
-- internal/p9fs/files.go: liveFile. A reader holds a subscription of the hub and the rest of the
-- record that it is reading. A read that finds no event waits, which is `blocks`: it is repeated when
-- the hub has changed.
pub mod Stream
pub mod Backlog
use flx.Prelude.{
  ℕ, zero, suc, ◌+◌, ◌^◌, ◌||◌, Bool, true, false, List, [], ◌∷◌, Option, none, some, Bytes, ltb,
  leb, nat_eq, nat_beq, if◌then◌else◌, length, take, drop, Table, lookup, put, remove,
}
use flx.Types.{Event}
use flx.Hub.{
  Hub, subscribe, subscribe_all, unsubscribe, unsubscribe_all, take_dropped, receive, Received,
  received, ended, waiting,
}
use flx.Render.{Formats, render_event, render_inbox_event, render_gap}
use flx.File.Modes.{Modes, access}

pub record LiveReader : Type 0 where
  pub channel_id : Bytes
  pub sub : ℕ
  pub pending : Bytes

pub record LiveFile : Type 0 where
  pub readers : Table ℕ LiveReader
  pub json_lines : Bool
  pub global : Bool

unfoldable pub new_live_file : Bool → LiveFile
new_live_file json_lines = record { readers = []; json_lines = json_lines; global = false }

unfoldable pub new_global_live_file : Bool → LiveFile
new_global_live_file json_lines = record { readers = []; json_lines = json_lines; global = true }

pub data LiveResult (A : Type 0) : Type 0 where
  done : A → LiveResult A
  blocks : LiveResult A
  panics : LiveResult A
  read_only no_channel not_open : LiveResult A

add_reader : ℕ → Bytes → LiveFile → Hub × ℕ → LiveResult (Unit {0}) × (LiveFile × Hub)
add_reader fid id f (h, sub) = (
  done tt,
  (
    record f { readers = put fid (record { channel_id = id; sub = sub; pending = [] }) f.readers },
    h,
  ),
)

subscribed : ℕ → Option Bytes → LiveFile → Hub → LiveResult (Unit {0}) × (LiveFile × Hub)
unfolding add_reader
subscribed fid none f h = (no_channel, (f, h))
subscribed fid (some id) f h = add_reader fid id f (subscribe id h)

-- `channel` is what the function of the conversation answers.
unfoldable pub open_live :
    Modes → Option Bytes → LiveFile → ℕ → ℕ → Hub → LiveResult (Unit {0}) × (LiveFile × Hub)
unfolding subscribed add_reader
open_live modes channel f fid mode h =
    if nat_beq (access mode) modes.owrite || nat_beq (access mode) modes.ordwr
    then (read_only, (f, h))
    else if f.global
    then add_reader fid [] f (subscribe_all h)
    else subscribed fid channel f h

-- The next record, the end of a closed subscription, or nothing yet.
pub data Filled : Type 0 where
  filled : Bytes → Hub → Filled
  finished nothing_yet : Hub → Filled

module _ (formats : Formats) (now : ℕ) where
  unfoldable pub render_received : LiveFile → Event → Bytes
  render_received f event =
      if f.global
      then render_inbox_event formats event f.json_lines
      else render_event formats event f.json_lines

  unfoldable pub from_received : LiveFile → Hub × Received → Filled
  from_received f (h, received event) = filled (render_received f event) h
  from_received f (h, ended) = finished h
  from_received f (h, waiting) = nothing_yet h

  unfoldable pub from_dropped : LiveFile → ℕ → Hub × ℕ → Filled
  unfolding from_received
  from_dropped f sub (h, dropped) =
      if ltb 0 dropped
      then filled (render_gap formats now dropped f.json_lines) h
      else from_received f (receive sub h)

  -- One round of the loop of Read with nothing pending.
  unfoldable pub fill : LiveFile → ℕ → Hub → Filled
  unfolding from_dropped
  fill f sub h = from_dropped f sub (take_dropped sub h)

  -- n := int(count), which is negative from 2 ^ 63 on
  unfoldable pub cut_pending :
      LiveFile → ℕ → LiveReader → Bytes → ℕ → Hub → LiveResult Bytes × (LiveFile × Hub)
  cut_pending f fid reader pending count h =
      let kept = record f { readers = put fid (record reader { pending = pending }) f.readers } in
      if leb (2 ^ 63) count then (panics, (kept, h)) else (
        done (take count pending),
        (
          record f { readers = put fid (record reader { pending = drop count pending }) f.readers },
          h,
        ),
      )

  unfoldable pub after_fill :
      LiveFile
      → Filled
      → (Bytes → Hub → Option (LiveResult Bytes × (LiveFile × Hub)))
      → Option (LiveResult Bytes × (LiveFile × Hub))
  after_fill f (filled pending h) next = next pending h
  after_fill f (finished h) next = some (done [], (f, h))
  after_fill f (nothing_yet h) next = some (blocks, (f, h))

  -- The loop of Read on a bound of its rounds; `none` if the bound is reached.
  unfoldable pub read_loop :
      ℕ → LiveFile → ℕ → LiveReader → ℕ → Bytes → Hub → Option (LiveResult Bytes × (LiveFile × Hub))
  unfolding after_fill cut_pending
  read_loop zero f fid reader count pending h = none
  read_loop (suc rounds) f fid reader count [] h =
      after_fill f (fill f reader.sub h)
        (λ pending h'. read_loop rounds f fid reader count pending h')
  read_loop (suc rounds) f fid reader count (b ∷ pending) h =
      some (cut_pending f fid reader (b ∷ pending) count h)

  unfoldable pub with_reader :
      Option LiveReader → LiveFile → ℕ → ℕ → Hub → Option (LiveResult Bytes × (LiveFile × Hub))
  with_reader none f fid count h = some (not_open, (f, h))
  with_reader (some reader) f fid count h = read_loop 2 f fid reader count reader.pending h

  -- The offset is not looked at.
  unfoldable pub read_live :
      LiveFile → ℕ → ℕ → ℕ → Hub → Option (LiveResult Bytes × (LiveFile × Hub))
  unfolding with_reader
  read_live f fid offset count h = with_reader (lookup fid f.readers) f fid count h

unfoldable pub write_live : LiveFile → ℕ → ℕ → Bytes → LiveResult ℕ
write_live f fid offset input = read_only

leave_hub : LiveFile → Option LiveReader → Hub → Option Hub
leave_hub f none h = some h
leave_hub f (some reader) h =
    if f.global then unsubscribe_all reader.sub h else unsubscribe reader.channel_id reader.sub h

-- `none` is a panic of the hub.
unfoldable pub close_live : LiveFile → ℕ → Hub → Option (LiveFile × Hub)
unfolding leave_hub
close_live f fid h = elim (leave_hub f (lookup fid f.readers) h) [
  | none ↦ none
  | some h' ↦ some (record f { readers = remove fid f.readers }, h')
]
