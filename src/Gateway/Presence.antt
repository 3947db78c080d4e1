-- ===== src/Gateway/Presence.antt =====
-- internal/fluxer/gateway.go: SetPresence, SetCustomStatus, the activation of the presence sink and
-- the goroutine of connect that writes presences, as calls in any order.
use flx.Prelude.{
  ◌≡◌, refl, ap, inl, inr, true, false, List, [], ◌∷◌, Option, none, some, arith, Bool-cases,
}
use flx.Types.{PresenceStatus, CustomStatus, valid_presence}
use flx.Gateway.{
  Gateway, GatewayPresence, offer, queue_into, queue_presence, set_presence, set_custom_status,
  clone_custom_status,
}
use flx.Gateway.Connection.{activate, connection_sink}

-- The gateway, and the presence that its writer wrote last on this connection.
pub record Writer : Type 0 where
  pub gateway : Gateway
  pub written : Option GatewayPresence

-- One turn of the goroutine that writes presences.
write_from : Option (List GatewayPresence) → Writer → Writer
write_from (some (p ∷ sink)) w = record {
  gateway = record w.gateway { presence_sink = some sink };
  written = some p;
}
write_from _ w = w

write_next : Writer → Writer
unfolding write_from
write_next w = write_from w.gateway.presence_sink w

pub data PresenceCall : Type 0 where
  call_set_presence : PresenceStatus → PresenceCall
  call_set_custom_status : Option CustomStatus → PresenceCall
  call_activate call_write call_disconnect : PresenceCall

refused_or : Option Gateway → Gateway → Gateway
refused_or none g = g
refused_or (some g') g = g'

unfoldable pub perform_presence : PresenceCall → Writer → Writer
unfolding refused_or write_next
perform_presence (call_set_presence status) w = record w {
  gateway = refused_or (set_presence status w.gateway) w.gateway;
}
perform_presence (call_set_custom_status status) w = record w {
  gateway = set_custom_status status w.gateway;
}
perform_presence call_activate w = record w { gateway = activate w.gateway }
perform_presence call_write w = write_next w
perform_presence call_disconnect w = record {
  gateway = record w.gateway { presence_sink = none };
  written = none;
}

unfoldable pub perform_presences : List PresenceCall → Writer → Writer
perform_presences [] w = w
perform_presences (c ∷ cs) w = perform_presences cs (perform_presence c w)

-- The presence that a gateway would send.
unfoldable pub presence_now : Gateway → GatewayPresence
presence_now g = record { status = g.presence; custom_status = g.custom_status }

-- With no connection there is nothing to say. On a connection the newest presence waits to be
-- written, or was written last, unless none was ever set.
pub data IsCurrent (g : Gateway) (written : Option GatewayPresence)
    : Option (List GatewayPresence) → Type 0 where
  disconnected : IsCurrent g written none
  unset : valid_presence g.presence ≡ false → IsCurrent g written (some [])
  sent : written ≡ some (presence_now g) → IsCurrent g written (some [])
  waiting :
      (p : GatewayPresence)
      → valid_presence g.presence ≡ true
      → p ≡ presence_now g
      → IsCurrent g written (some (p ∷ []))

WriterIsCurrent : Writer → Type 0
WriterIsCurrent w = IsCurrent w.gateway w.written w.gateway.presence_sink

clone_custom_status-same : (s : Option CustomStatus) → clone_custom_status s ≡ s
unfolding clone_custom_status
clone_custom_status-same none = refl
clone_custom_status-same (some s) = refl

-- The sink has room for one presence, and no more is in it.
data IsShort : Option (List GatewayPresence) → Type 0 where
  no_sink : IsShort none
  empty : IsShort (some [])
  single : (p : GatewayPresence) → IsShort (some (p ∷ []))

IsCurrent-IsShort :
    (g : Gateway) (written : Option GatewayPresence) (sink : Option (List GatewayPresence))
    → IsCurrent g written sink
    → IsShort sink
IsCurrent-IsShort g written _ disconnected = no_sink
IsCurrent-IsShort g written _ (unset e) = empty
IsCurrent-IsShort g written _ (sent e) = empty
IsCurrent-IsShort g written _ (waiting p v e) = single p

-- Queueing a valid presence makes it the one that waits.
queue_valid :
    (g : Gateway) (written : Option GatewayPresence) (sink : Option (List GatewayPresence))
    → valid_presence g.presence ≡ true
    → IsShort sink
    → g.presence_sink ≡ sink
    → IsCurrent (queue_into sink g) written (queue_into sink g).presence_sink
unfolding queue_into offer presence_now
queue_valid g written _ v no_sink e = rw e disconnected
queue_valid g written _ v empty e =
    rw (v, clone_custom_status-same g.custom_status) (waiting _ v refl)
queue_valid g written _ v (single p) e =
    rw (v, clone_custom_status-same g.custom_status) (waiting _ v refl)

data IsUnsent : Option (List GatewayPresence) → Type 0 where
  no_connection : IsUnsent none
  unused : IsUnsent (some [])

-- Where no presence was ever set, queueing changes nothing.
queue_unset :
    (g : Gateway) (written : Option GatewayPresence) (sink : Option (List GatewayPresence))
    → valid_presence g.presence ≡ false
    → IsUnsent sink
    → g.presence_sink ≡ sink
    → IsCurrent (queue_into sink g) written (queue_into sink g).presence_sink
unfolding queue_into
queue_unset g written _ v no_connection e = rw e disconnected
queue_unset g written _ v unused e = rw (v, e) (unset v)

unsent :
    (g : Gateway) (written : Option GatewayPresence) (sink : Option (List GatewayPresence))
    → IsCurrent g written sink
    → valid_presence g.presence ≡ false
    → IsUnsent sink
unsent g written _ disconnected v = no_connection
unsent g written _ (unset e) v = unused
unsent g written _ (sent e) v = unused
unsent g written _ (waiting p valid e) v = ground arith

-- Queueing where the presence, if it is not valid, is the one of before.
queue-IsCurrent :
    (g g' : Gateway) (written : Option GatewayPresence)
    → IsCurrent g written g'.presence_sink
    → (valid_presence g'.presence ≡ false → valid_presence g.presence ≡ false)
    → IsCurrent (queue_presence g') written (queue_presence g').presence_sink
unfolding queue_presence
queue-IsCurrent g g' written current same = elim (Bool-cases (valid_presence g'.presence)) [
  | inl v ↦ queue_valid g' written g'.presence_sink v (IsCurrent-IsShort g written _ current) refl
  | inr v ↦ queue_unset g' written g'.presence_sink v (unsent g written _ current (same v)) refl
]

set_current :
    (status : PresenceStatus) (w : Writer)
    → WriterIsCurrent w
    → WriterIsCurrent (record w { gateway = refused_or (set_presence status w.gateway) w.gateway })
unfolding WriterIsCurrent set_presence refused_or
set_current status w current = elim (Bool-cases (valid_presence status)) [
  | inl v ↦ rw v (
      queue-IsCurrent w.gateway (record w.gateway { presence = status }) w.written current
        (λ e. ground arith))
  | inr v ↦ rw v current
]

written_current :
    (w : Writer) (sink : Option (List GatewayPresence))
    → w.gateway.presence_sink ≡ sink
    → IsCurrent w.gateway w.written sink
    → WriterIsCurrent (write_from sink w)
unfolding WriterIsCurrent write_from presence_now
written_current w _ e disconnected = rw e disconnected
written_current w _ e (unset v) = rw e (unset v)
written_current w _ e (sent last) = rw e (sent last)
written_current w _ e (waiting p v newest) = sent (ap some newest)

activated :
    (g : Gateway) (written : Option GatewayPresence) (sink : Option (List GatewayPresence))
    → IsCurrent g written sink
    → IsShort (some (connection_sink sink))
unfolding connection_sink
activated g written _ disconnected = empty
activated g written _ (unset v) = empty
activated g written _ (sent last) = empty
activated g written _ (waiting p v newest) = single p

activate_unset :
    (g : Gateway) (written : Option GatewayPresence) (sink : Option (List GatewayPresence))
    → IsCurrent g written sink
    → valid_presence g.presence ≡ false
    → IsUnsent (some (connection_sink sink))
unfolding connection_sink
activate_unset g written _ disconnected v = unused
activate_unset g written _ (unset e) v = unused
activate_unset g written _ (sent e) v = unused
activate_unset g written _ (waiting p valid e) v = ground arith

activate_current :
    (w : Writer) → WriterIsCurrent w → WriterIsCurrent (record w { gateway = activate w.gateway })
unfolding WriterIsCurrent activate queue_presence
activate_current w current =
    let sink = some (connection_sink w.gateway.presence_sink) in
    let g' = record w.gateway { presence_sink = sink } in
    elim (Bool-cases (valid_presence w.gateway.presence)) [
      | inl v ↦ queue_valid g' w.written sink v (activated w.gateway w.written _ current) refl
      | inr v ↦
          queue_unset g' w.written sink v (activate_unset w.gateway w.written _ current v) refl
    ]

perform_presence_current :
    (c : PresenceCall) (w : Writer) → WriterIsCurrent w → WriterIsCurrent (perform_presence c w)
unfolding perform_presence WriterIsCurrent write_next set_custom_status
perform_presence_current (call_set_presence status) w current = set_current status w current
perform_presence_current (call_set_custom_status status) w current =
    queue-IsCurrent w.gateway (record w.gateway { custom_status = clone_custom_status status })
      w.written current (λ v. v)
perform_presence_current call_activate w current = activate_current w current
perform_presence_current call_write w current =
    written_current w w.gateway.presence_sink refl current
perform_presence_current call_disconnect w current = disconnected

-- Whatever calls set presences and custom statuses, activate and drop connections and let the writer
-- write, in whatever order, what held before holds after: at most one presence waits, and on a
-- connection the newest presence is the one that waits or, if none waits, the one that was written
-- last, unless no valid presence was set.
pub perform_presences-IsCurrent :
    (cs : List PresenceCall) (w : Writer)
    → IsCurrent w.gateway w.written w.gateway.presence_sink
    → IsCurrent
        (perform_presences cs w).gateway
        (perform_presences cs w).written
        (perform_presences cs w).gateway.presence_sink
unfolding perform_presences WriterIsCurrent
perform_presences-IsCurrent [] w current = current
perform_presences-IsCurrent (c ∷ cs) w current =
    perform_presences-IsCurrent cs (perform_presence c w) (perform_presence_current c w current)
