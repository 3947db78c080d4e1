-- ===== src/Client.antt =====
-- internal/fluxer/client.go: the request loop. HTTP, timers and the decoding of JSON are parameters
-- over a state `W` of the world.
pub mod Retry
pub mod Guilds
pub mod Upload
pub mod Avatar
pub mod Endpoints
pub mod Actions
pub mod Download
use flx.Prelude.{
  ℕ, zero, suc, ◌≤◌, ◌<◌, ◌+◌, Bool, true, false, ◌||◌, List, [], ◌∷◌, Option, none, some, Bytes, ℤ,
  pos, negsuc, ltb, leb, nat_beq, ◌==◌, bytes_eq, Result, ok, err, panic, if◌then◌else◌,
}
use flx.Text.Space.{trim_space}
use flx.Json.{Json}

-- Only the values that the program uses; what is sent of `body` is its encoding.
pub record Request : Type 0 where
  pub method : Bytes
  pub path : Bytes
  pub body : Option Json

pub record Response : Type 0 where
  pub status : ℕ
  pub status_text : Bytes
  pub payload : Bytes
  pub retry_after : Bytes

-- Durations are nanoseconds.
pub record ApiError : Type 0 where
  pub status_code : ℕ
  pub code : Bytes
  pub message : Bytes
  pub retry_after : ℤ

-- `exhausted` stands for a loop that is still running.
pub data ClientError : Type 0 where
  api_error : ApiError → ClientError
  request_failed response_unreadable context_ended decode_failed exhausted : ClientError
  invalid_argument bad_plan ranges_unsupported : ClientError
  upload_failed : ℕ → ClientError

-- What http.Client.Do and the read of at most 16 MiB of the body come to.
pub data Sent : Type 0 where
  not_sent unreadable : Sent
  replied : Response → Sent

-- The fields of the JSON of an error; the duration of `retry_after` is zero unless the number is
-- positive.
pub record ErrorBody : Type 0 where
  pub code : Bytes
  pub message : Bytes
  pub retry_after : ℤ

-- `wait` is the select of a timer and the context: whether the timer came first. `observe` is the
-- request observer, which gets the error of each request.
pub record Http (W : Type 0) : Type 0 where
  pub send : Request → W → Sent × W
  pub wait : ℕ → W → Bool × W
  pub observe : Option ClientError → W → W
  pub error_body : Bytes → Option ErrorBody
  pub parse_seconds : Bytes → Option ℤ
  pub max_rate_wait : ℕ

module _ {W : Type 0} (http : Http W) where
  with_body : Option ErrorBody → ApiError → ApiError
  with_body none e = e
  with_body (some b) e = record e {
    code = b.code;
    message = b.message;
    retry_after = b.retry_after;
  }

  with_status : Response → ApiError → ApiError
  with_status r e = record e { message = if e.message == [] then r.status_text else e.message }

  with_header : Response → ApiError → ApiError
  with_header r e = record e {
    retry_after = elim e.retry_after [
      | pos zero ↦ (elim (http.parse_seconds r.retry_after) [ some n ↦ n | none ↦ pos 0 ])
      | other ↦ other
    ];
  }

  unfoldable pub decode_api_error : Response → ApiError
  unfolding with_body with_status with_header
  decode_api_error r = with_header r (
      with_status r (
        with_body (http.error_body r.payload) (record {
          status_code = r.status;
          code = [];
          message = trim_space r.payload;
          retry_after = pos 0;
        })))

  -- Neither zero, nor negative, nor longer than the client waits.
  unfoldable pub wait_allowed : ℤ → Option ℕ
  wait_allowed (pos zero) = none
  wait_allowed (pos (suc n)) = if leb (suc n) http.max_rate_wait then some (suc n) else none
  wait_allowed (negsuc n) = none

  -- The value of a successful response, if one is asked for and there is one.
  answer : {A : Type 0} → Option (Bytes → Option A) → Response → Result ClientError (Option A)
  answer none r = ok none
  answer (some decode) r =
      if nat_beq r.status 204 || r.payload == []
      then ok none
      else elim (decode r.payload) [ none ↦ err decode_failed | some a ↦ ok (some a) ]

  waited :
      {A : Type 0}
      → Bool × W
      → (W → Result ClientError (Option A) × W)
      → Result ClientError (Option A) × W
  waited (true, w) again = again w
  waited (false, w) again = (err context_ended, w)

  rate_limited :
      {A : Type 0}
      → ApiError
      → Option ℕ
      → W
      → (W → Result ClientError (Option A) × W)
      → Result ClientError (Option A) × W
  unfolding waited
  rate_limited e none w again = (err (api_error e), w)
  rate_limited e (some n) w again = waited (http.wait n w) again

  handle_sent :
      {A : Type 0}
      → Option (Bytes → Option A)
      → Sent × W
      → (W → Result ClientError (Option A) × W)
      → Result ClientError (Option A) × W
  unfolding rate_limited answer
  handle_sent out (not_sent, w) again = (err request_failed, w)
  handle_sent out (unreadable, w) again = (err response_unreadable, w)
  handle_sent out (replied r, w) again =
      if nat_beq r.status 429
      then rate_limited (decode_api_error r) (wait_allowed (decode_api_error r).retry_after) w again
      else if ltb r.status 200 || leb 300 r.status
      then (err (api_error (decode_api_error r)), w)
      else (answer out r, w)

  -- The loop of do on a bound of its rounds.
  unfoldable pub do_loop :
      {A : Type 0} → ℕ → Option (Bytes → Option A) → Request → W → Result ClientError (Option A) × W
  unfolding handle_sent
  do_loop zero out req w = (err exhausted, w)
  do_loop (suc rounds) out req w =
      handle_sent out (http.send req w) (λ w'. do_loop rounds out req w')

  observed : {A : Type 0} → Result ClientError A × W → Result ClientError A × W
  observed (ok a, w) = (ok a, http.observe none w)
  observed (err e, w) = (err e, http.observe (some e) w)
  observed (panic, w) = (panic, w)

  -- Client.do, whose deferred call is the observer.
  unfoldable pub do_request :
      {A : Type 0} → ℕ → Option (Bytes → Option A) → Request → W → Result ClientError (Option A) × W
  unfolding observed
  do_request rounds out req w = observed (do_loop rounds out req w)
