-- ===== src/File/Actions/Sending.antt =====
-- What the close of a send file asks the API client to do.
use flx.Prelude.{◌≡◌, ◌≢◌, Bytes, Result, ok}
use flx.File.Send.{SendPayload, parse_send}
use flx.File.Send.Safety.{IsSendable}
use flx.File.Actions.{Client, ActionError, send_payload}

-- It refused what was written and called nothing; or it failed to resolve its channel; or it got no
-- nonce; or it sent the message that was written, which is one that may be sent.
pub data Sending {E W : Type 0} (detect : Bytes → Bytes) (api : Client E W) (input : Bytes) (w : W)
    : Result (ActionError E) (Unit {0}) × W → Type 0 where
  not_called :
      (r : Result (ActionError E) (Unit {0}) × W)
      → r.0 ≢ ok tt
      → r.1 ≡ w
      → Sending detect api input w r
  not_resolved :
      (r : Result (ActionError E) (Unit {0}) × W)
      → r.0 ≢ ok tt
      → r.1 ≡ (api.resolve w).1
      → Sending detect api input w r
  no_nonce :
      (r : Result (ActionError E) (Unit {0}) × W)
      → r.0 ≢ ok tt
      → r.1 ≡ (api.message_nonce (api.resolve w).1).1
      → Sending detect api input w r
  sent :
      (p : SendPayload) (channel_id nonce : Bytes) (w1 w2 : W)
      → parse_send detect input ≡ ok p
      → IsSendable p
      → api.resolve w ≡ (ok channel_id, w1)
      → api.message_nonce w1 ≡ (ok nonce, w2)
      → Sending detect api input w (send_payload api channel_id nonce p.content p.attachment w2)
