-- ===== src/Client/Upload/Whole.antt =====
-- internal/fluxer/client.go, uploadAttachment: a multipart upload stores the whole content.
use flx.Prelude.{
  ℕ, suc, ◌+◌, ◌-◌, ◌*◌, ◌%◌, ◌^◌, ◌≤◌, ◌<◌, ◌≡◌, ◌≢◌, refl, sym, ap, ◌∙◌, List, [], ◌∷◌, ◌++◌,
  append_assoc, append-nil, Bytes, codes, bytes_eq, beq_ne, leb, pos, length, take, drop,
  length-drop, take-append-drop, drop-drop, take_of_length_le, drop_of_length_le, min, Option,
  Result, ok, err, panic, arith, Bool-cases, inl, inr,
}
use mathlib.Core.Path.{subst}
use flx.Prelude.Keys.{bytes_beq}
use flx.Client.{ClientError, Sent}
use flx.Client.Upload.{
  Part, UploadPlan, int64, slice_to, slice_from, part_slice, put_outcome, put_attachment, put_next,
  put_slice, put_parts, multipart, upload_attachment,
}
use native.Mathlib.Nat.{mod-eq_of_lt, suc-mul, zero-mul}

-- The numbers of the parts go on from `n`, each part starts within the content, and the last one
-- reaches its end.
unfoldable pub Covers : Bytes → ℕ → ℕ → List Part → Type 0
Covers content part_size n [] = length content ≤ n * part_size
Covers content part_size n (part ∷ parts) =
    (part.part_number ≡ pos (suc n))
    × (part.upload_url ≢ [])
    × (n * part_size < length content)
    × Covers content part_size (suc n) parts

int64_small : (n : ℕ) → n < 2 ^ 63 → int64 n ≡ pos n
unfolding int64
int64_small n h = let e : n % 2 ^ 64 ≡ n = mod-eq_of_lt (omega arith) in rw e (ground arith)

take-min : (n : ℕ) (xs : Bytes) → take (min n (length xs)) xs ≡ take n xs
take-min n xs = elim (Bool-cases (leb n (length xs))) [
  | inl e ↦ let m : min n (length xs) ≡ n = ground arith in rw m refl
  | inr e ↦
      let m : min n (length xs) ≡ length xs = ground arith in
      rw m (
        take_of_length_le (length xs) xs (omega arith)
        ∙ sym (take_of_length_le n xs (ground arith)))
]

-- A part of the content between two offsets, and what is behind it.
chunk_rest :
    (content : Bytes) (start part_size : ℕ)
    → start < length content
    → take (min (start + part_size) (length content) - start) (drop start content)
        ++ drop (start + part_size) content
      ≡ drop start content
chunk_rest content start part_size h =
    let same : min (start + part_size) (length content) - start
        ≡ min part_size (length (drop start content)) =
      omega (arith, length-drop start content) in
    rw same (
      rw (take-min part_size (drop start content)) (
        rw (sym (drop-drop start part_size content))
          (take-append-drop part_size (drop start content))))

whole_slice :
    (content : Bytes) (start part_size : ℕ)
    → start < length content
    → length content + part_size ≤ 2 ^ 63
    → slice_from content part_size (int64 start)
      ≡ ok (take (min (start + part_size) (length content) - start) (drop start content))
unfolding slice_from slice_to
whole_slice content start part_size h small =
    rw (int64_small start (omega arith))
      (rw (int64_small (start + part_size) (omega arith)) (ground arith))

numbered_slice :
    (content : Bytes) (part_size n : ℕ) (part : Part)
    → part.part_number ≡ pos (suc n)
    → part.upload_url ≢ []
    → n * part_size < length content
    → length content + part_size ≤ 2 ^ 63
    → part_slice content part_size part
      ≡ ok (
          take
            (min (n * part_size + part_size) (length content) - n * part_size)
            (drop (n * part_size) content))
unfolding part_slice bytes_beq
numbered_slice content part_size n part number url within small = rw number (
    rw (beq_ne part.upload_url [] url) (whole_slice content (n * part_size) part_size within small))

module _ {W : Type 0} (put : Bytes → Bytes → W → Sent × W) (observe : Option ClientError → W → W)
    (stored : W → Bytes) where
  -- The server accepts every request and stores its content behind what it has.
  unfoldable pub Stores : Type 0
  Stores =
      ((url content : Bytes) (w : W)
        → (put_outcome put observe (put url content w).0 ≡ ok tt)
          × (stored (put url content w).1 ≡ stored w ++ content))
      × ((e : Option ClientError) (w : W) → stored (observe e w) ≡ stored w)

  -- The call succeeds, and the server has the content behind what it had.
  pub Uploads : Bytes → W → Result ClientError (Unit {0}) × W → Type 0
  Uploads content w r = (r.0 ≡ ok tt) × (stored r.1 ≡ stored w ++ content)

  put_attachment-Uploads :
      (url content : Bytes) (w : W)
      → Stores
      → Uploads content w (put_attachment put observe url content w)
  unfolding put_attachment Uploads Stores
  put_attachment-Uploads url content w (accepts, silent) =
      let (accepted, kept) = accepts url content w in (accepted, silent _ _ ∙ kept)

  next-Uploads :
      (content rest : Bytes) (w : W) (r : Result ClientError (Unit {0}) × W)
      (next : W → Result ClientError (Unit {0}) × W)
      → Uploads content w r
      → ((w' : W) → Uploads rest w' (next w'))
      → Uploads (content ++ rest) w (put_next put observe r next)
  unfolding put_next Uploads
  next-Uploads content rest w (ok tt, w') next (_, kept) more =
      let (fine, stored_rest) = more w' in
      (fine, stored_rest ∙ (ap (λ t. t ++ rest) kept ∙ append_assoc (stored w) content rest))
  next-Uploads content rest w (err e, w') next (fine, _) more = cc
  next-Uploads content rest w (panic, w') next (fine, _) more = cc

  parts_upload :
      (content : Bytes) (part_size n : ℕ) (parts : List Part) (w : W)
      → Stores
      → Covers content part_size n parts
      → length content + part_size ≤ 2 ^ 63
      → Uploads (drop (n * part_size) content) w (put_parts put observe content part_size parts w)
  unfolding put_parts put_slice Covers Uploads
  parts_upload content part_size n [] w stores covered small =
      (refl, rw (drop_of_length_le (n * part_size) content covered) (sym (append-nil (stored w))))
  parts_upload content part_size n (part ∷ parts) w stores (number, url, within, covered) small =
      let chunk =
        take (min (n * part_size + part_size) (length content) - n * part_size)
          (drop (n * part_size) content) in
      let whole : chunk ++ drop (suc n * part_size) content ≡ drop (n * part_size) content =
        ap (λ t. chunk ++ drop t content) (suc-mul n part_size)
        ∙ chunk_rest content (n * part_size) part_size within in
      rw (numbered_slice content part_size n part number url within small) (
        subst
          (λ t. Uploads t w (
            put_next put observe (put_attachment put observe part.upload_url chunk w)
              (λ w'. put_parts put observe content part_size parts w')))
          whole
          (next-Uploads chunk (drop (suc n * part_size) content) w
            (put_attachment put observe part.upload_url chunk w)
            (λ w'. put_parts put observe content part_size parts w')
            (put_attachment-Uploads part.upload_url chunk w stores)
            (λ w'. parts_upload content part_size (suc n) parts w' stores covered small)))

  multipart_upload :
      (content : Bytes) (plan : UploadPlan) (part_size : ℕ) (part : Part) (parts : List Part)
      (w : W)
      → Stores
      → plan.upload_id ≢ []
      → plan.part_size ≡ pos (suc part_size)
      → plan.parts ≡ part ∷ parts
      → Covers content (suc part_size) 0 (part ∷ parts)
      → length content + suc part_size ≤ 2 ^ 63
      → Uploads content w (multipart put observe content plan w)
  unfolding multipart bytes_beq
  multipart_upload content plan part_size part parts w stores id size listing covered small =
      rw (size, beq_ne plan.upload_id [] id)
        (rw listing (
          subst
            (λ t.
              Uploads (drop t content) w
                (put_parts put observe content (suc part_size) (part ∷ parts) w))
            (zero-mul (suc part_size))
            (parts_upload content (suc part_size) 0 (part ∷ parts) w stores covered small)))

  -- A multipart plan with an upload identifier that is not empty, a positive part size and at least
  -- one part, whose parts are numbered from one, have addresses, each start within the content and
  -- together reach its end, where the length of the content and the part size add up to at most
  -- 2 ^ 63: against a server that accepts and stores each part, the upload succeeds and stores the
  -- content, whole and in order.
  pub upload_attachment-Uploads :
      (content : Bytes) (plan : UploadPlan) (part_size : ℕ) (part : Part) (parts : List Part)
      (w : W)
      → Stores
      → plan.upload_mode ≡ codes "multipart"
      → plan.upload_id ≢ []
      → plan.part_size ≡ pos (suc part_size)
      → plan.parts ≡ part ∷ parts
      → Covers content (suc part_size) 0 (part ∷ parts)
      → length content + suc part_size ≤ 2 ^ 63
      → Uploads content w (upload_attachment put observe content plan w)
  unfolding upload_attachment bytes_beq
  upload_attachment-Uploads content plan part_size part parts w stores mode id size listing covered
        small =
      rw mode
        (multipart_upload content plan part_size part parts w stores id size listing covered small)
