-- ===== src/Client/Upload.antt =====
-- internal/fluxer/client.go, uploadAttachment and putAttachment. The request of a part is a parameter.
pub mod Whole
pub mod Message
use flx.Prelude.{
  ℕ, zero, suc, ◌+◌, ◌-◌, ◌*◌, ◌%◌, ◌^◌, Bool, true, false, ◌||◌, List, [], ◌∷◌, Bytes, codes, ◌==◌,
  bytes_eq, ltb, leb, ℤ, pos, negsuc, length, take, drop, min, Option, none, some, Result, ok, err,
  panic, if◌then◌else◌,
}
use flx.Client.{
  ClientError, Sent, not_sent, unreadable, replied, request_failed, response_unreadable,
  upload_failed, bad_plan,
}

pub record Part : Type 0 where
  pub part_number : ℤ
  pub upload_url : Bytes

-- The fields of attachmentUploadPlan that the upload reads.
pub record UploadPlan : Type 0 where
  pub upload_filename : Bytes
  pub upload_mode : Bytes
  pub upload_url : Bytes
  pub upload_id : Bytes
  pub part_size : ℤ
  pub parts : List Part

-- The value of a 64-bit word that is read as signed.
unfoldable pub int64 : ℕ → ℤ
int64 n = if ltb (n % 2 ^ 64) (2 ^ 63) then pos (n % 2 ^ 64) else negsuc (2 ^ 64 - 1 - n % 2 ^ 64)

-- data[start:end], from the part's start to its end or that of the data. A negative start, and an end
-- that has wrapped, are out of range.
unfoldable pub slice_to : Bytes → ℕ → ℤ → Result ClientError Bytes
slice_to content start (pos end) = ok (take (min end (length content) - start) (drop start content))
slice_to content start (negsuc end) = panic

unfoldable pub slice_from : Bytes → ℕ → ℤ → Result ClientError Bytes
unfolding slice_to
slice_from content part_size (pos start) =
    if leb (length content) start
    then err bad_plan
    else slice_to content start (int64 (start + part_size))
slice_from content part_size (negsuc start) = panic

-- The bytes of a part; `part_size` is positive.
unfoldable pub part_slice : Bytes → ℕ → Part → Result ClientError Bytes
unfolding slice_from
part_slice content part_size part = elim part.part_number [
  | pos (suc n) ↦
      if part.upload_url == []
      then err bad_plan
      else slice_from content part_size (int64 (n * part_size))
  | other ↦ err bad_plan
]

unfoldable pub error_of : Result ClientError (Unit {0}) → Option ClientError
error_of (ok _) = none
error_of (err e) = some e
error_of panic = none

module _ {W : Type 0} (put : Bytes → Bytes → W → Sent × W)
    (observe : Option ClientError → W → W) where
  unfoldable pub put_outcome : Sent → Result ClientError (Unit {0})
  put_outcome not_sent = err request_failed
  put_outcome unreadable = err response_unreadable
  put_outcome (replied r) =
      if ltb r.status 200 || leb 300 r.status then err (upload_failed r.status) else ok tt

  unfoldable pub put_attachment : Bytes → Bytes → W → Result ClientError (Unit {0}) × W
  unfolding put_outcome error_of
  put_attachment url content w =
      let (sent, w') = put url content w in
      (put_outcome sent, observe (error_of (put_outcome sent)) w')

  -- The upload of a part, and of those behind it when it succeeds.
  unfoldable pub put_next :
      Result ClientError (Unit {0}) × W
      → (W → Result ClientError (Unit {0}) × W)
      → Result ClientError (Unit {0}) × W
  put_next (ok _, w) next = next w
  put_next (err e, w) next = (err e, w)
  put_next (panic, w) next = (panic, w)

  unfoldable pub put_slice :
      Bytes → Result ClientError Bytes → W → Result ClientError (Unit {0}) × W
  unfolding put_attachment
  put_slice url (ok content) w = put_attachment url content w
  put_slice url (err e) w = (err e, w)
  put_slice url panic w = (panic, w)

  unfoldable pub put_parts : Bytes → ℕ → List Part → W → Result ClientError (Unit {0}) × W
  unfolding put_next put_slice part_slice
  put_parts content part_size [] w = (ok tt, w)
  put_parts content part_size (part ∷ parts) w =
      put_next (put_slice part.upload_url (part_slice content part_size part) w)
        (λ w'. put_parts content part_size parts w')

  unfoldable pub multipart : Bytes → UploadPlan → W → Result ClientError (Unit {0}) × W
  unfolding put_parts
  multipart content plan w = elim plan.part_size [
    | pos (suc n) ↦ if plan.upload_id == [] then (err bad_plan, w) else elim plan.parts [
      | [] ↦ (err bad_plan, w)
      | part ∷ parts ↦ put_parts content (suc n) (part ∷ parts) w
    ]
    | other ↦ (err bad_plan, w)
  ]

  unfoldable pub upload_attachment : Bytes → UploadPlan → W → Result ClientError (Unit {0}) × W
  unfolding multipart put_attachment
  upload_attachment content plan w =
      if plan.upload_mode == codes "singlepart"
      then (if plan.upload_url == []
          then (err bad_plan, w)
          else put_attachment plan.upload_url content w)
      else if plan.upload_mode == codes "multipart"
      then multipart content plan w
      else (err bad_plan, w)
