-- ===== src/File/Attachment/Content.antt =====
-- internal/p9fs/attachments.go: what a reader of an attachment gets from its reads.
use flx.Prelude.{
  Result, ℕ, ◌^◌, ◌<◌, ◌≡◌, true, List, [], ◌∷◌, Bytes, bytes_eq, nat_beq, nat_eq, length, ok, err,
  panic, arith,
}
use flx.File.Modes.{Modes, access}
use flx.File.Attachment.{
  AttachmentError, AttachmentFile, Downloads, Outcome, open_file, read_attachment,
}
use flx.File.Attachment.Opening.{IsFaithful}
use flx.File.Attachment.Pieces.{
  IsPiece, HasContent, ReadFault, IsPanic, Reads, read_attachment-Reads, opened_has,
}

module _ {B W : Type 0} (downloads : Downloads B W) (content : Bytes)
    (remaining : B → W → Bytes) where
  -- What a read returns is a piece of the content, and the session goes on; it ends with a read that
  -- fails, for a reason.
  pub Continues : ℕ → ℕ → Result AttachmentError Bytes → Type 0 → Type 0
  Continues offset count (ok piece) Rest =
      IsPiece downloads content remaining offset count piece × Rest
  Continues offset count (err e) Rest = ReadFault downloads content remaining offset count e
  Continues offset count panic Rest = IsPanic downloads content remaining offset count

  -- A session of reads at offsets and counts.
  pub Session : ℕ → List (ℕ × ℕ) → AttachmentFile B × W → Type 0
  Session fid [] s = Unit
  Session fid (request ∷ requests) s =
      let r = read_attachment downloads s.0 fid request.0 request.1 s.1 in
      Continues request.0 request.1 r.0 (Session fid requests r.1)

  Continues-of_Reads :
      (fid offset count : ℕ) (r : Outcome B W Bytes) (Rest : Type 0)
      → Reads downloads content remaining fid offset count r
      → (HasContent downloads content remaining fid r.1 → Rest)
      → Continues offset count r.0 Rest
  unfolding Reads Continues
  Continues-of_Reads fid offset count (ok piece, s) Rest (at, has) next = (at, next has)
  Continues-of_Reads fid offset count (err x, s) Rest fault next = fault
  Continues-of_Reads fid offset count (panic, s) Rest panics next = panics

  Session-reads :
      (fid : ℕ) (requests : List (ℕ × ℕ)) (s : AttachmentFile B × W)
      → IsFaithful downloads content remaining
      → length content < 2 ^ 63
      → HasContent downloads content remaining fid s
      → Session fid requests s
  unfolding Session
  Session-reads fid [] s faithful fits has = tt
  Session-reads fid (request ∷ requests) s faithful fits has =
      let r = read_attachment downloads s.0 fid request.0 request.1 s.1 in
      Continues-of_Reads fid request.0 request.1 r (Session fid requests r.1)
        (read_attachment-Reads downloads content remaining s.0 fid request.0 request.1 s.1 faithful
          fits has)
        (λ kept. Session-reads fid requests r.1 faithful fits kept)

  -- A client opens the file of an attachment for reading, and then reads at any offsets, in any order,
  -- while the file is refreshed as needed, until a read fails. Each read before returns bytes of the
  -- content at its offset, at most as many as were asked for, and at least one if any were and the
  -- content does not end before. A read fails only if its offset is at least 2 ^ 63, if something that
  -- it calls fails (a download, the fetch of the message, or the read of a body), if the file has no
  -- channel, or if a fetched message has no such attachment or one without an address; and it panics
  -- only if it asks for more bytes than can be allocated or something that it calls panics. This holds
  -- if the content is shorter than 2 ^ 63 bytes, a download at an offset gives the content from there
  -- on, and a read of a body takes its bytes from the front of what is left, at most as many as were
  -- asked for and at least one if any were and some are left, unless it fails.
  pub open_file-Session :
      (modes : Modes) (f : AttachmentFile B) (fid mode : ℕ) (w : W) (requests : List (ℕ × ℕ))
      → IsFaithful downloads content remaining
      → length content < 2 ^ 63
      → access mode ≡ modes.oread
      → Session fid requests ((open_file downloads modes f fid mode).1, w)
  unfolding open_file
  open_file-Session modes f fid mode w requests faithful fits opens =
      let test : nat_beq (access mode) modes.oread ≡ true = ground arith in
      rw test (
        Session-reads fid requests _ faithful fits (opened_has downloads content remaining fid f w))
