-- ===== src/Client/Download/Ranged.antt =====
-- internal/fluxer/client.go, OpenAttachment: a download at an offset gives the content from there on.
use flx.Prelude.{
  ℕ, ◌≤◌, ◌<◌, ◌≡◌, ◌≢◌, ◌⊎◌, [], codes, Option, none, some, Bytes, drop, Result, ok, err, panic,
  bytes_eq,
}
use flx.Client.{
  Http, Response, ClientError, api_error, request_failed, invalid_argument, ranges_unsupported,
  decode_api_error,
}
use flx.Client.Download.{ParsedUrl, Fetched, not_fetched, fetched, Transfer, range_header}

module _ {B W : Type 0} (http : Http W) (transfer : Transfer B W) (content : Bytes)
    (remaining : B → W → Bytes) where
  -- What a server that may or may not serve ranges sends: the whole content with each status
  -- from 200 to 299 when no range is asked for, and with status 206 the content from the offset of the
  -- range that was asked for. Nothing is known of the body of another status.
  unfoldable pub Sends : ℕ → Fetched B × W → Type 0
  Sends offset (not_fetched, w) = Unit
  Sends offset (fetched r body, w) =
      (offset ≡ 0 → 200 ≤ r.status → r.status < 300 → remaining body w ≡ content)
      × (r.status ≡ 206 → remaining body w ≡ drop offset content)

  pub record IsRanged : Type 0 where
    pub sends :
        (text : Bytes) (offset : ℕ) (w : W)
        → Sends offset (transfer.fetch text (range_header offset) w)
    pub observes :
        (e : Option ClientError) (body : B) (w : W)
        → remaining body (http.observe e w) ≡ remaining body w

  -- Why a download at an address and an offset is refused.
  pub data Refusal : Bytes → ℕ → W → ClientError → Type 0 where
    unparsed :
        (url : Bytes) (offset : ℕ) (w : W)
        → transfer.parse_url url ≡ none
        → Refusal url offset w invalid_argument
    without_host :
        (url : Bytes) (offset : ℕ) (w : W) (u : ParsedUrl)
        → transfer.parse_url url ≡ some u
        → u.host ≡ []
        → Refusal url offset w invalid_argument
    other_scheme :
        (url : Bytes) (offset : ℕ) (w : W) (u : ParsedUrl)
        → transfer.parse_url url ≡ some u
        → u.scheme ≢ codes "http"
        → u.scheme ≢ codes "https"
        → Refusal url offset w invalid_argument
    unanswered :
        (url : Bytes) (offset : ℕ) (w : W) (u : ParsedUrl)
        → transfer.parse_url url ≡ some u
        → (transfer.fetch u.text (range_header offset) w).0 ≡ not_fetched
        → Refusal url offset w request_failed
    no_success :
        (url : Bytes) (offset : ℕ) (w : W) (u : ParsedUrl) (r : Response) (body : B)
        → transfer.parse_url url ≡ some u
        → (transfer.fetch u.text (range_header offset) w).0 ≡ fetched r body
        → (r.status < 200) ⊎ (300 ≤ r.status)
        → Refusal url offset w (api_error (decode_api_error http r))
    no_range :
        (url : Bytes) (offset : ℕ) (w : W) (u : ParsedUrl) (r : Response) (body : B)
        → transfer.parse_url url ≡ some u
        → (transfer.fetch u.text (range_header offset) w).0 ≡ fetched r body
        → 0 < offset
        → r.status ≢ 206
        → Refusal url offset w ranges_unsupported

  -- There is no panic, a body that is returned gives the content from the offset on, and a download
  -- that returns none is refused for a reason.
  pub Gives : Bytes → ℕ → W → Result ClientError B × W → Type 0
  Gives url offset start (ok body, w) = remaining body w ≡ drop offset content
  Gives url offset start (err e, w) = Refusal url offset start e
  Gives url offset start (panic, w) = ⊥
