-- ===== src/Gateway/Connection.antt =====
-- internal/fluxer/gateway.go: the read loop of connect, one function for each operation code. The
-- payloads that arrive are a list, at whose end the read fails. The heartbeat goroutine appears as
-- the effects that start it, count a heartbeat and acknowledge one; its time-out is left out.
-- OnEvent and OnGap are callbacks that are set, as cmd/9flx/main.go sets them. Every HELLO has the
-- effect `start_heartbeat`; startHeartbeat itself ignores it when a heartbeat has already started.
pub mod Laws
use flx.Prelude.{
  ℕ, ◌+◌, ◌-◌, ◌*◌, Bool, true, false, not, ◌&&◌, List, [], ◌∷◌, ◌++◌, Option, none, some, Bytes,
  codes, ℤ, pos, ltb_ℤ, beq_ℤ, leb, ltb, ◌==◌, bytes_eq, if◌then◌else◌,
}
use flx.Types.{GatewayPayload, valid_presence}
use flx.Gateway.{
  Gateway, GatewayPresence, Effect, write_resume, write_identify, write_heartbeat, start_heartbeat,
  mark_heartbeat_sent, heartbeat_acked, on_event, on_gap, reported, state_effect, queue_presence,
  clone_custom_status,
}

-- Operation codes.
abbrev pub op_dispatch : ℤ
op_dispatch = pos 0

abbrev pub op_heartbeat : ℤ
op_heartbeat = pos 1

abbrev pub op_reconnect : ℤ
op_reconnect = pos 7

abbrev pub op_invalid_session : ℤ
op_invalid_session = pos 9

abbrev pub op_hello : ℤ
op_hello = pos 10

abbrev pub op_heartbeat_ack : ℤ
op_heartbeat_ack = pos 11

-- Why connect returns.
pub data Failure : Type 0 where
  bad_interval authenticate_failed bad_ready heartbeat_failed reconnect_requested : Failure
  session_invalidated : Bool → Failure
  read_failed : Failure

-- The payload decoders are parameters, `none` for a decoding error; `resumable` reads false where
-- the payload is no Boolean.
pub record Decoders : Type 0 where
  pub hello_interval : Bytes → Option ℤ
  pub ready_session : Bytes → Option Bytes
  pub resumable : Bytes → Bool

-- What the world answers to one payload: the clock, whether a write succeeds, and whether the event
-- handler succeeds.
pub record World : Type 0 where
  pub now : ℕ
  pub write_succeeds : Bool
  pub event_succeeds : Bool

-- The loop goes on with a new state, or connect returns a failure.
pub record Step : Type 0 where
  pub gateway : Gateway
  pub effects : List Effect
  pub failure : Option Failure

abbrev pub goes_on : Gateway → List Effect → Step
goes_on g effects = record { gateway = g; effects = effects; failure = none }

abbrev pub fails : Gateway → List Effect → Failure → Step
fails g effects failure = record { gateway = g; effects = effects; failure = some failure }

abbrev pub greater : Option ℤ → ℤ → ℤ
greater none sequence = sequence
greater (some s) sequence = if ltb_ℤ sequence s then s else sequence

-- What every payload does before its code is looked at.
unfoldable pub receive_payload : ℕ → GatewayPayload → Gateway → Gateway
receive_payload now p g = record g { last_activity = some now; sequence = greater p.s g.sequence }

-- Three minutes.
abbrev pub resume_window : ℕ
resume_window = 180000

-- !previousActivity.IsZero() && time.Since(previousActivity) <= 3*time.Minute
unfoldable pub recent : ℕ → Option ℕ → Bool
recent now none = false
recent now (some previous) = leb (now - previous) resume_window

unfoldable pub resumable : ℕ → Option ℕ → Gateway → Bool
unfolding recent
resumable now previous g = not (g.session_id == []) && recent now previous

-- if hadSession && !resumable
unfoldable pub forget_session : ℕ → Option ℕ → Gateway → Gateway
unfolding resumable
forget_session now previous g =
    if not (g.session_id == []) && not (resumable now previous g)
    then record g { session_id = []; sequence = pos 0; gap_pending = true }
    else g

identity_presence : Gateway → Option GatewayPresence
identity_presence g =
    if valid_presence g.presence
    then some (record { status = g.presence; custom_status = clone_custom_status g.custom_status })
    else none

-- The answer to HELLO: a resume of the session, or an identification.
unfoldable pub authentication : ℕ → Option ℕ → Gateway → Effect
unfolding resumable identity_presence
authentication now previous g =
    if resumable now previous g
    then write_resume g.session_id g.sequence
    else write_identify (identity_presence g)

hello_with : Option ℤ → World → Option ℕ → Gateway → Step
hello_with (some (pos n)) w previous g =
    if ltb 0 n
    then (let effects = start_heartbeat n ∷ authentication w.now previous g ∷ [] in
        let g' = forget_session w.now previous g in
        if w.write_succeeds then goes_on g' effects else fails g' effects authenticate_failed)
    else fails g [] bad_interval
hello_with _ w previous g = fails g [] bad_interval

-- activatePresence: the sink is the connection's channel, which is empty until the first activation.
unfoldable pub connection_sink : Option (List GatewayPresence) → List GatewayPresence
connection_sink none = []
connection_sink (some sink) = sink

unfoldable pub activate : Gateway → Gateway
unfolding connection_sink
activate g = queue_presence (record g { presence_sink = some (connection_sink g.presence_sink) })

-- OnEvent and the report of its error
event_effects : World → GatewayPayload → ℤ → List Effect
event_effects w p sequence =
    if w.event_succeeds
    then on_event p.t sequence p.d ∷ []
    else on_event p.t sequence p.d ∷ reported ∷ []

ready_with : Option Bytes → World → GatewayPayload → Gateway → Step
unfolding activate event_effects
ready_with none w p g = fails g [] bad_ready
ready_with (some session_id) w p g =
    let g' =
      activate
        (record g { session_id = session_id; ready_since = some w.now; gap_pending = false }) in
    goes_on g' (
      (if g.gap_pending then on_gap ∷ [] else [])
      ++ (state_effect (codes "ready") true g' ∷ event_effects w p g.sequence))

unfoldable pub dispatch : Decoders → World → GatewayPayload → Gateway → Step
unfolding ready_with activate event_effects
dispatch decoders w p g =
    if p.t == codes "READY"
    then ready_with (decoders.ready_session p.d) w p g
    else if p.t == codes "RESUMED"
    then goes_on (activate g) (state_effect (codes "ready") true g ∷ event_effects w p g.sequence)
    else goes_on g (event_effects w p g.sequence ++ state_effect (codes "ready") true g ∷ [])

unfoldable pub invalid_session : Bool → Gateway → Step
invalid_session can_resume g =
    if can_resume
    then fails g [] (session_invalidated true)
    else fails (record g { session_id = []; sequence = pos 0; gap_pending = true }) []
        (session_invalidated false)

-- switch payload.Op
by_op : Decoders → World → GatewayPayload → Option ℕ → Gateway → Step
unfolding hello_with
by_op decoders w p previous g =
    if beq_ℤ p.op op_hello
    then hello_with (decoders.hello_interval p.d) w previous g
    else if beq_ℤ p.op op_dispatch
    then dispatch decoders w p g
    else if beq_ℤ p.op op_heartbeat
    then (if w.write_succeeds
        then goes_on g (write_heartbeat g.sequence ∷ mark_heartbeat_sent ∷ [])
        else fails g (write_heartbeat g.sequence ∷ []) heartbeat_failed)
    else if beq_ℤ p.op op_heartbeat_ack
    then goes_on g (heartbeat_acked ∷ [])
    else if beq_ℤ p.op op_reconnect
    then fails g [] reconnect_requested
    else if beq_ℤ p.op op_invalid_session
    then invalid_session (decoders.resumable p.d) g
    else goes_on g []

-- One payload of the read loop.
unfoldable pub handle_payload : Decoders → World → GatewayPayload → Gateway → Step
unfolding by_op
handle_payload decoders w p g = by_op decoders w p g.last_activity (receive_payload w.now p g)

unfoldable pub after : List Effect → Step → Step
after effects s = record s { effects = effects ++ s.effects }

continue_from : Option Failure → Step → (Gateway → Step) → Step
continue_from none s next = after s.effects (next s.gateway)
continue_from (some failure) s next = record s {
  gateway = record s.gateway { presence_sink = none };
}

continue_with : Step → (Gateway → Step) → Step
unfolding continue_from
continue_with s next = continue_from s.failure s next

-- The payloads of one connection, in order, until one of them ends it. The deferred call takes the
-- sink away.
unfoldable pub run_payloads : Decoders → List (World × GatewayPayload) → Gateway → Step
unfolding continue_with
run_payloads decoders [] g = fails (record g { presence_sink = none }) [] read_failed
run_payloads decoders ((w, p) ∷ rest) g =
    continue_with (handle_payload decoders w p g) (λ g'. run_payloads decoders rest g')
