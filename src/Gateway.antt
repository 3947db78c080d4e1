-- ===== src/Gateway.antt =====
-- internal/fluxer/gateway.go: the session with the gateway. Each operation returns the new state
-- and the effects that it had, in order. Times are milliseconds of a clock that an operation reads
-- once; the zero time is `none`.
pub mod Connection
pub mod Reconnect
pub mod Presence
use flx.Prelude.{
  ℕ, ◌+◌, ◌-◌, ◌*◌, ◌≡◌, Bool, true, false, not, ◌&&◌, List, [], ◌∷◌, ◌++◌, Option, none, some,
  Bytes, codes, ℤ, pos, ltb_ℤ, leb, ltb, ◌==◌, bytes_eq, if◌then◌else◌, length,
}
use flx.Types.{PresenceStatus, CustomStatus, valid_presence}

pub record GatewayPresence : Type 0 where
  pub status : PresenceStatus
  pub custom_status : Option CustomStatus

-- The fields that the mutex guards. The presence sink is a channel of one place.
pub record Gateway : Type 0 where
  pub session_id : Bytes
  pub sequence : ℤ
  pub last_activity : Option ℕ
  pub ready_since : Option ℕ
  pub gap_pending : Bool
  pub presence : PresenceStatus
  pub custom_status : Option CustomStatus
  pub presence_sink : Option (List GatewayPresence)

unfoldable pub new_gateway : Gateway
new_gateway = record {
  session_id = [];
  sequence = pos 0;
  last_activity = none;
  ready_since = none;
  gap_pending = false;
  presence = [];
  custom_status = none;
  presence_sink = none;
}

-- A copy shares nothing with the original; as values they are the same.
unfoldable pub clone_custom_status : Option CustomStatus → Option CustomStatus
clone_custom_status none = none
clone_custom_status (some status) = some (record {
  text = status.text;
  expires_at = status.expires_at;
  emoji_id = status.emoji_id;
  emoji_name = status.emoji_name;
  emoji_animated = status.emoji_animated;
})

-- A send in a select with a default, on a channel of one place.
abbrev pub try_send : GatewayPresence → List GatewayPresence → List GatewayPresence
try_send p [] = p ∷ []
try_send p (q ∷ qs) = q ∷ qs

-- A receive in a select with a default.
abbrev pub try_receive : List GatewayPresence → List GatewayPresence
try_receive [] = []
try_receive (q ∷ qs) = qs

-- The send, and if the place is taken a receive and a second send.
unfoldable pub offer : GatewayPresence → List GatewayPresence → List GatewayPresence
offer p [] = try_send p []
offer p (q ∷ qs) = try_send p (try_receive (q ∷ qs))

unfoldable pub queue_into : Option (List GatewayPresence) → Gateway → Gateway
unfolding offer
queue_into none g = g
queue_into (some sink) g =
    if valid_presence g.presence
    then record g {
      presence_sink = some (
          offer
            (record { status = g.presence; custom_status = clone_custom_status g.custom_status })
            sink);
    }
    else g

unfoldable pub queue_presence : Gateway → Gateway
unfolding queue_into
queue_presence g = queue_into g.presence_sink g

-- The error is `invalid presence status`.
unfoldable pub set_presence : PresenceStatus → Gateway → Option Gateway
set_presence status g =
    if valid_presence status then some (queue_presence (record g { presence = status })) else none

unfoldable pub set_custom_status : Option CustomStatus → Gateway → Gateway
set_custom_status status g =
    queue_presence (record g { custom_status = clone_custom_status status })

-- What the gateway does to the world.
pub data Effect : Type 0 where
  write_resume : Bytes → ℤ → Effect
  write_identify : Option GatewayPresence → Effect
  write_heartbeat : ℤ → Effect
  start_heartbeat : ℕ → Effect
  mark_heartbeat_sent : Effect
  heartbeat_acked : Effect
  on_event : Bytes → ℤ → Bytes → Effect
  on_state : Bytes → Bool → ℤ → Effect
  on_gap reported : Effect

-- Gateway.state
abbrev pub state_effect : Bytes → Bool → Gateway → Effect
state_effect name connected g = on_state name connected g.sequence
