-- ===== src/File/Attachment/Pieces.antt =====
-- internal/p9fs/attachments.go, attachmentFile.Read: what one read of an attachment gives.
use flx.Prelude.{
  ℕ, ◌+◌, ◌%◌, ◌^◌, ◌<◌, ◌≤◌, ◌≢◌, ◌⊎◌, ◌≡◌, refl, sym, ap, ◌∙◌, [], ◌++◌, Option, none, some,
  Bytes, bytes_eq, ltb, leb, nat_beq, nat_eq, length, take, drop, take_left, drop_left, drop-drop,
  length-drop, length-append, ok, err, panic, lookup, put, lookup-put_self, arith, Bool-cases, inl,
  inr,
}
use mathlib.Core.Path.{subst}
use native.Mathlib.Nat.{mod-eq_of_lt}
use flx.File.Attachment.{
  AttachmentError, offset_too_large, read_failed, ReadEnd, no_error, end_of_file, broken,
  read_result, Reader, AttachmentFile, Downloads, Outcome, set_reader, after_read, read_from,
  reopened, read_reader, read_found, read_attachment,
}
use flx.File.Attachment.Opening.{OpenFault, OpenPanic, IsFaithful, Opens, body-Opens}

module _ {B W : Type 0} (downloads : Downloads B W) (content : Bytes)
    (remaining : B → W → Bytes) where
  -- The body of the reader gives the content from the reader's offset on.
  unfoldable pub HasContent : ℕ → AttachmentFile B × W → Type 0
  HasContent fid (f, w) =
      (reader : Reader B) × (lookup fid f.readers ≡ some reader)
      × ((body : B) → reader.body ≡ some body → remaining body w ≡ drop reader.offset content)

  -- What a read of that many bytes returns stands in the content at its offset; it is not longer than
  -- asked for, and it is empty only if nothing was asked for or the content ends at the offset.
  pub IsPiece : ℕ → ℕ → Bytes → Type 0
  IsPiece offset count piece =
      (piece ≡ take (length piece) (drop offset content))
      × (length piece ≤ count)
      × ((count ≡ 0) ⊎ (piece ≢ []) ⊎ (drop offset content ≡ []))

  -- Why a read fails: the offset is not an int64, no body could be opened, or the read of a body
  -- broke off.
  pub data ReadFault : ℕ → ℕ → AttachmentError → Type 0 where
    too_far : (offset count : ℕ) → 2 ^ 63 ≤ offset → ReadFault offset count offset_too_large
    not_opened :
        (offset count : ℕ) (e : AttachmentError)
        → OpenFault downloads offset e
        → ReadFault offset count e
    broken_off :
        (offset count : ℕ) (body : B) (w : W)
        → (downloads.read_body body count w).0.1 ≡ broken
        → ReadFault offset count read_failed

  -- Why a read panics: its buffer is too large, or what it calls panics.
  pub IsPanic : ℕ → ℕ → Type 0
  IsPanic offset count = (downloads.max_alloc < count) ⊎ OpenPanic downloads offset

  -- What a read returns is a piece of the content, and the next read goes on behind it.
  unfoldable pub Reads : ℕ → ℕ → ℕ → Outcome B W Bytes → Type 0
  Reads fid offset count (ok piece, s) = IsPiece offset count piece × HasContent fid s
  Reads fid offset count (err e, s) = ReadFault offset count e
  Reads fid offset count (panic, s) = IsPanic offset count

  next_offset :
      (offset : ℕ) (piece rest : Bytes)
      → offset < 2 ^ 63
      → length content < 2 ^ 63
      → drop offset content ≡ piece ++ rest
      → rest ≡ drop ((offset + length piece) % 2 ^ 64) content
  next_offset offset piece rest small fits e =
      let sizes : length (drop offset content) ≡ length piece + length rest =
        ap (λ t. length t) e ∙ length-append piece rest in
      let left = length-drop offset content in
      let no_wrap : (offset + length piece) % 2 ^ 64 ≡ offset + length piece =
        mod-eq_of_lt (omega arith) in
      rw no_wrap (
        sym (drop_left piece rest)
        ∙ (ap (λ t. drop (length piece) t) (sym e) ∙ drop-drop offset (length piece) content))

  set_reader-HasContent :
      (fid offset : ℕ) (body : B) (f : AttachmentFile B) (w : W)
      → remaining body w ≡ drop offset content
      → HasContent fid (set_reader downloads fid body offset f, w)
  unfolding HasContent set_reader
  set_reader-HasContent fid offset body f w e = (
    record { body = some body; offset = offset },
    lookup-put_self fid (record { body = some body; offset = offset }) f.readers,
    λ body' at.
        let same : body ≡ body' = cc in subst (λ b. remaining b w ≡ drop offset content) same e,
  )

  -- The contract of a read, at the outcome of a body that has the content from the offset on.
  Contract : ℕ → ℕ → B → (Bytes × ReadEnd) × W → Type 0
  Contract offset count body r =
      (drop offset content ≡ r.0.0 ++ remaining body r.1)
      × (length r.0.0 ≤ count)
      × ((count ≡ 0) ⊎ (r.0.0 ≢ []) ⊎ (r.0.1 ≡ broken) ⊎ (drop offset content ≡ []))

  prefix-IsPiece :
      (offset count : ℕ) (piece : Bytes) (end : ReadEnd) (rest : Bytes)
      → end ≢ broken
      → drop offset content ≡ piece ++ rest
      → length piece ≤ count
      → (count ≡ 0) ⊎ (piece ≢ []) ⊎ (end ≡ broken) ⊎ (drop offset content ≡ [])
      → IsPiece offset count piece
  unfolding IsPiece
  prefix-IsPiece offset count piece end rest fine e short advances = (
    rw (e, take_left piece rest) refl,
    short,
    elim advances [
      | inl z ↦ inl z
      | inr (inl ne) ↦ inr (inl ne)
      | inr (inr (inl failed)) ↦ absurd (fine failed)
      | inr (inr (inr none_left)) ↦ inr (inr none_left)
    ],
  )

  after-Reads :
      (fid offset count : ℕ) (body : B) (f : AttachmentFile B) (w0 : W) (r : (Bytes × ReadEnd) × W)
      → downloads.read_body body count w0 ≡ r
      → offset < 2 ^ 63
      → length content < 2 ^ 63
      → Contract offset count body r
      → Reads fid offset count (after_read downloads fid body offset f r)
  unfolding after_read Reads Contract read_result
  after-Reads fid offset count body f w0 ((piece, broken), w) same small fits contract =
      broken_off offset count body w0 (ap (λ t. t.0.1) same)
  after-Reads fid offset count body f w0 ((piece, no_error), w) same small fits
        (e, short, advances) =
      (
        prefix-IsPiece offset count piece no_error (remaining body w) (λ h. cc) e short advances,
        set_reader-HasContent fid _ body f w
            (next_offset offset piece (remaining body w) small fits e),
      )
  after-Reads fid offset count body f w0 ((piece, end_of_file), w) same small fits
        (e, short, advances) =
      (
        prefix-IsPiece offset count piece end_of_file (remaining body w) (λ h. cc) e short advances,
        set_reader-HasContent fid _ body f w
            (next_offset offset piece (remaining body w) small fits e),
      )

  from-Reads :
      (fid offset count : ℕ) (body : B) (f : AttachmentFile B) (w : W)
      → IsFaithful downloads content remaining
      → offset < 2 ^ 63
      → length content < 2 ^ 63
      → remaining body w ≡ drop offset content
      → Reads fid offset count (read_from downloads fid body offset count f w)
  unfolding read_from Reads Contract IsPanic
  from-Reads fid offset count body f w faithful small fits e =
      elim (Bool-cases (ltb downloads.max_alloc count)) [
        | inl h ↦ rw h (inl (ground arith))
        | inr h ↦ rw h (
            after-Reads fid offset count body f w _ refl small fits (
              sym e ∙ faithful.reads body count w,
              faithful.bounded body count w,
              subst
                  (λ left.
                    (count ≡ 0)
                    ⊎ ((downloads.read_body body count w).0.0 ≢ [])
                    ⊎ ((downloads.read_body body count w).0.1 ≡ broken)
                    ⊎ (left ≡ []))
                  e (faithful.advances body count w),
            ))
      ]

  reopened-Reads :
      (fid offset count : ℕ) (r : Outcome B W B)
      → IsFaithful downloads content remaining
      → offset < 2 ^ 63
      → length content < 2 ^ 63
      → Opens downloads content remaining offset r
      → Reads fid offset count (reopened downloads fid offset count r)
  unfolding reopened Reads Opens IsPanic
  reopened-Reads fid offset count (ok body, (f, w)) faithful small fits e =
      from-Reads fid offset count body f w faithful small fits e
  reopened-Reads fid offset count (err x, (f, w)) faithful small fits fault =
      not_opened offset count x fault
  reopened-Reads fid offset count (panic, (f, w)) faithful small fits panics = inr panics

  reader-Reads :
      (fid offset count : ℕ) (f : AttachmentFile B) (w : W) (at : ℕ) (o : Option B)
      → IsFaithful downloads content remaining
      → offset < 2 ^ 63
      → length content < 2 ^ 63
      → ((body : B) → o ≡ some body → remaining body w ≡ drop at content)
      → Reads fid offset count (read_reader downloads fid offset count f w at o)
  unfolding read_reader
  reader-Reads fid offset count f w at none faithful small fits has =
      reopened-Reads fid offset count _ faithful small fits
        (body-Opens downloads content remaining offset f w faithful)
  reader-Reads fid offset count f w at (some body) faithful small fits has =
      elim (Bool-cases (nat_beq at offset)) [
        | inl h ↦
            let same : at ≡ offset = ground arith in
            rw h (
              from-Reads fid offset count body f w faithful small fits
                (has body refl ∙ ap (λ n. drop n content) same))
        | inr h ↦ rw h (
            reopened-Reads fid offset count _ faithful small fits
              (body-Opens downloads content remaining offset f _ faithful))
      ]

  pub read_attachment-Reads :
      (f : AttachmentFile B) (fid offset count : ℕ) (w : W)
      → IsFaithful downloads content remaining
      → length content < 2 ^ 63
      → HasContent fid (f, w)
      → Reads fid offset count (read_attachment downloads f fid offset count w)
  unfolding read_attachment Reads HasContent IsPiece read_found
  read_attachment-Reads f fid offset count w faithful fits (reader, found, at) =
      elim (Bool-cases (nat_beq count 0)) [
        | inl z ↦
            let none_asked : count ≡ 0 = ground arith in
            rw z ((refl, omega arith, inl none_asked), (reader, found, at))
        | inr z ↦ rw z (elim (Bool-cases (leb (2 ^ 63) offset)) [
          | inl h ↦ rw h (too_far offset count (ground arith))
          | inr h ↦ rw h (
              rw found (
                reader-Reads fid offset count f w reader.offset reader.body faithful (ground arith)
                  fits at))
        ])
      ]

  pub opened_has :
      (fid : ℕ) (f : AttachmentFile B) (w : W)
      → HasContent fid
          (record f { readers = put fid (record { body = none; offset = 0 }) f.readers }, w)
  unfolding HasContent
  opened_has fid f w = (
    record { body = none; offset = 0 },
    lookup-put_self fid (record { body = none; offset = 0 }) f.readers,
    λ body at. cc,
  )
