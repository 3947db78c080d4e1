-- ===== src/Tests/Gateways.antt =====
-- The gateway at concrete inputs.
use flx.Prelude.{◌≡◌, refl, true, false, List, [], ◌∷◌, codes, none, some, pos, All}
use flx.Prelude.Keys.{bytes_beq}
use flx.Types.{valid_presence, GatewayPayload, presence_online, presence_idle}
use flx.Gateway.{Gateway, new_gateway, queue_presence}
use flx.Gateway.Connection.{
  Decoders, World, handle_payload, run_payloads, dispatch, after, receive_payload, op_dispatch,
  op_invalid_session,
}
use flx.Gateway.Connection.Laws.{Outcome, reports_gap, handle_payload-Outcome, run_payloads-reports}
use flx.Gateway.Presence.{
  Writer, IsCurrent, disconnected, PresenceCall, call_set_presence, call_activate, call_write,
  perform_presences, perform_presences-IsCurrent,
}
use flx.Gateway.Reconnect.{
  Attempt, failed, IsRandom, IsWait, Doubles, run_gateway, run_gateway-waits, run_gateway-Doubles,
}

abbrev decoders : Decoders
decoders = record {
  hello_interval = λ d. some (pos 41250);
  ready_session = λ d. some (codes "session");
  resumable = λ d. false;
}

abbrev world : World
world = record { now = 1000; write_succeeds = true; event_succeeds = true }

abbrev invalid : GatewayPayload
invalid = record { op = op_invalid_session; d = codes "false"; s = none; t = [] }

abbrev ready : GatewayPayload
ready = record { op = op_dispatch; d = []; s = some (pos 1); t = codes "READY" }

handle_payload-Outcome_example :
    Outcome new_gateway
      (handle_payload decoders world invalid new_gateway).gateway
      (handle_payload decoders world invalid new_gateway).effects
handle_payload-Outcome_example = handle_payload-Outcome decoders world invalid new_gateway

abbrev gapped : Gateway
gapped = record {
  session_id = [];
  sequence = pos 0;
  last_activity = none;
  ready_since = none;
  gap_pending = true;
  presence = presence_online;
  custom_status = none;
  presence_sink = none;
}

gap_cleared : (run_payloads decoders ((world, ready) ∷ []) gapped).gateway.gap_pending ≡ false
unfolding run_payloads handle_payload dispatch bytes_beq after queue_presence valid_presence
    receive_payload
gap_cleared = refl

run_payloads-reports_example :
    reports_gap (run_payloads decoders ((world, ready) ∷ []) gapped).effects ≡ true
run_payloads-reports_example =
    run_payloads-reports decoders ((world, ready) ∷ []) gapped refl gap_cleared

abbrev writer : Writer
writer = record { gateway = gapped; written = none }

abbrev presence_calls : List PresenceCall
presence_calls =
    call_activate
    ∷ call_set_presence presence_idle
    ∷ call_write
    ∷ call_set_presence presence_online
    ∷ []

perform_presences-IsCurrent_example :
    IsCurrent
      (perform_presences presence_calls writer).gateway
      (perform_presences presence_calls writer).written
      (perform_presences presence_calls writer).gateway.presence_sink
perform_presences-IsCurrent_example = perform_presences-IsCurrent presence_calls writer disconnected

abbrev attempts : List Attempt
attempts =
    record { was_ready = false; ending = failed; int63n = λ n. 0 }
    ∷ record { was_ready = false; ending = failed; int63n = λ n. 0 }
    ∷ []

attempts-IsRandom : All IsRandom attempts
unfolding IsRandom
attempts-IsRandom = ((λ n h. h), ((λ n h. h), tt))

run_gateway-waits_example : All IsWait (run_gateway attempts).waits
run_gateway-waits_example = run_gateway-waits attempts attempts-IsRandom

run_gateway-Doubles_example : Doubles 0 (run_gateway attempts).waits
run_gateway-Doubles_example = run_gateway-Doubles attempts (refl, (refl, tt))
