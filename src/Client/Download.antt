-- ===== src/Client/Download.antt =====
-- internal/fluxer/client.go, OpenAttachment. The request that leaves the body open is a parameter.
pub mod Ranged
use flx.Prelude.{
  ℕ, zero, suc, ◌++◌, Bool, true, false, ◌||◌, ◌&&◌, not, [], Option, none, some, Bytes, codes,
  ◌==◌, bytes_eq, ltb, leb, nat_beq, Result, ok, err, panic, if◌then◌else◌,
}
use flx.Text.Decimal.{decimal}
use flx.Client.{
  Http, Response, ClientError, api_error, request_failed, invalid_argument, ranges_unsupported,
  decode_api_error,
}

pub record ParsedUrl : Type 0 where
  pub scheme : Bytes
  pub host : Bytes
  pub text : Bytes

-- The response to a download: its body stays open. The payload of the response is what is read of the
-- body of an error.
pub data Fetched (B : Type 0) : Type 0 where
  not_fetched : Fetched B
  fetched : Response → B → Fetched B

-- `fetch` gets the address and the Range header.
pub record Transfer (B W : Type 0) : Type 0 where
  pub parse_url : Bytes → Option ParsedUrl
  pub fetch : Bytes → Option Bytes → W → Fetched B × W
  pub close_body : B → W → W

valid_url : ParsedUrl → Bool
valid_url u = (u.scheme == codes "http" || u.scheme == codes "https") && not (u.host == [])

unfoldable pub range_header : ℕ → Option Bytes
range_header zero = none
range_header (suc n) = some (codes "bytes=" ++ (decimal (suc n) ++ codes "-"))

module _ {B W : Type 0} (http : Http W) (transfer : Transfer B W) where
  unfoldable pub fetch_outcome : ℕ → Fetched B × W → Result ClientError B × W
  fetch_outcome offset (not_fetched, w) = (err request_failed, w)
  fetch_outcome offset (fetched r body, w) =
      if ltb r.status 200 || leb 300 r.status
      then (err (api_error (decode_api_error http r)), transfer.close_body body w)
      else if ltb 0 offset && not (nat_beq r.status 206)
      then (err ranges_unsupported, transfer.close_body body w)
      else (ok body, w)

  download_parsed : ℕ → W → Option ParsedUrl → Result ClientError B × W
  unfolding valid_url range_header fetch_outcome
  download_parsed offset w none = (err invalid_argument, w)
  download_parsed offset w (some u) =
      if valid_url u
      then fetch_outcome offset (transfer.fetch u.text (range_header offset) w)
      else (err invalid_argument, w)

  unfoldable pub download : Bytes → ℕ → W → Result ClientError B × W
  unfolding download_parsed
  download url offset w = download_parsed offset w (transfer.parse_url url)

  download_observed : Result ClientError B × W → Result ClientError B × W
  download_observed (ok body, w) = (ok body, http.observe none w)
  download_observed (err e, w) = (err e, http.observe (some e) w)
  download_observed (panic, w) = (panic, w)

  unfoldable pub open_attachment : Bytes → ℕ → W → Result ClientError B × W
  unfolding download_observed
  open_attachment url offset w = download_observed (download url offset w)
