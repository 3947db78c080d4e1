-- ===== src/File/Attachment.antt =====
-- internal/p9fs/attachments.go: the file of an attachment. Its content is read from the body of a
-- download, at the offset where the last read ended; a read elsewhere opens another body. The
-- contexts of the readers are not modelled, and the bytes that come with an error are left out.
pub mod Opening
pub mod Pieces
pub mod Content
use flx.Prelude.{
  ℕ, zero, suc, ◌+◌, ◌%◌, ◌^◌, Bool, true, false, ◌||◌, ◌&&◌, not, List, [], ◌∷◌, Option, none,
  some, Bytes, ◌==◌, bytes_eq, ltb, leb, nat_beq, nat_eq, ℤ, pos, negsuc, length, Result, ok, err,
  panic, if◌then◌else◌, Table, lookup, put, remove,
}
use flx.Types.{Attachment, Message}
use flx.Client.{ClientError, api_error, ApiError}
use flx.File.Modes.{Modes, access}

pub data AttachmentError : Type 0 where
  read_only offset_too_large not_open no_url no_channel gone read_failed : AttachmentError
  refresh_failed download_failed : ClientError → AttachmentError

-- attachmentRead, without its context.
pub record Reader (B : Type 0) : Type 0 where
  pub body : Option B
  pub offset : ℕ

-- The fields of attachmentFile that change, with those of its stat, and the identifiers.
pub record AttachmentFile (B : Type 0) : Type 0 where
  pub name : Bytes
  pub size : ℕ
  pub version : ℕ
  pub message_id : Bytes
  pub attachment : Attachment
  pub readers : Table ℕ (Reader B)

-- The error of the Read of a body: none, io.EOF or another one.
pub data ReadEnd : Type 0 where
  no_error end_of_file broken : ReadEnd

-- What the file calls. `read_body` returns bytes and an error, which can come together;
-- `same_attachment` compares two records, the pointers in them by their addresses; `max_alloc` is the
-- largest buffer that the run time makes.
pub record Downloads (B W : Type 0) : Type 0 where
  pub channel : W → Option Bytes × W
  pub fetch_message : Bytes → Bytes → W → Result ClientError Message × W
  pub open_attachment : Bytes → ℕ → W → Result ClientError B × W
  pub read_body : B → ℕ → W → (Bytes × ReadEnd) × W
  pub close_body : B → W → W
  pub same_attachment : Attachment → Attachment → Bool
  pub max_alloc : ℕ

unfoldable pub attachment_length : ℤ → ℕ
attachment_length (pos n) = n
attachment_length (negsuc n) = 0

pub find_attachment : Bytes → List Attachment → Option Attachment
find_attachment id [] = none
find_attachment id (a ∷ attachments) =
    let others = find_attachment id attachments in if a.id == id then some a else others

abbrev pub Outcome : Type 0 → Type 0 → Type 0 → Type 0
Outcome B W A = Result AttachmentError A × (AttachmentFile B × W)

module _ {B W : Type 0} (downloads : Downloads B W) where
  unfoldable pub new_attachment_file : Bytes → Bytes → Attachment → AttachmentFile B
  unfolding attachment_length
  new_attachment_file name message_id attachment = record {
    name = name;
    size = attachment_length attachment.size;
    version = 0;
    message_id = message_id;
    attachment = attachment;
    readers = [];
  }

  -- The version of a qid has 32 bits.
  unfoldable pub update : Bytes → Attachment → AttachmentFile B → AttachmentFile B
  unfolding attachment_length
  update name attachment f =
      if f.name == name
        && (nat_beq f.size (attachment_length attachment.size)
            && downloads.same_attachment f.attachment attachment)
      then record f { attachment = attachment }
      else record f {
        name = name;
        size = attachment_length attachment.size;
        version = (f.version + 1) % 2 ^ 32;
        attachment = attachment;
      }

  unfoldable pub open_file :
      Modes → AttachmentFile B → ℕ → ℕ → Result AttachmentError (Unit {0}) × AttachmentFile B
  open_file modes f fid mode =
      if nat_beq (access mode) modes.oread
      then (ok tt, record f { readers = put fid (record { body = none; offset = 0 }) f.readers })
      else (err read_only, f)

  -- The statuses 401, 403 and 404 of the API.
  unfoldable pub is_stale : ClientError → Bool
  is_stale (api_error e) =
      nat_beq e.status_code 401 || (nat_beq e.status_code 403 || nat_beq e.status_code 404)
  is_stale _ = false

  -- The outcome of a download; `again` is the refresh, if there has been none.
  unfoldable pub opened_body :
      Option (AttachmentFile B → W → Outcome B W B)
      → AttachmentFile B
      → Result ClientError B × W
      → Outcome B W B
  unfolding is_stale
  opened_body again f (ok body, w) = (ok body, (f, w))
  opened_body none f (err e, w) = (err (download_failed e), (f, w))
  opened_body (some refresh) f (err e, w) =
      if is_stale e then refresh f w else (err (download_failed e), (f, w))
  opened_body again f (panic, w) = (panic, (f, w))

  no_address : Option (AttachmentFile B → W → Outcome B W B) → AttachmentFile B → W → Outcome B W B
  no_address none f w = (err no_url, (f, w))
  no_address (some refresh) f w = refresh f w

  open_address :
      Option (AttachmentFile B → W → Outcome B W B)
      → ℕ
      → AttachmentFile B
      → W
      → Option Bytes
      → Outcome B W B
  unfolding opened_body no_address
  open_address again offset f w none = no_address again f w
  open_address again offset f w (some url) =
      if url == []
      then no_address again f w
      else opened_body again f (downloads.open_attachment url offset w)

  -- open, which is refreshed when there is no `again`.
  unfoldable pub open_url :
      Option (AttachmentFile B → W → Outcome B W B) → ℕ → AttachmentFile B → W → Outcome B W B
  unfolding open_address
  open_url again offset f w = open_address again offset f w f.attachment.url

  open_found : ℕ → AttachmentFile B → W → Option Attachment → Outcome B W B
  unfolding open_url update
  open_found offset f w none = (err gone, (f, w))
  open_found offset f w (some a) = open_url none offset (update f.name a f) w

  unfoldable pub refreshed_message :
      ℕ → AttachmentFile B → Result ClientError Message × W → Outcome B W B
  unfolding find_attachment open_found
  refreshed_message offset f (ok message, w) =
      open_found offset f w (find_attachment f.attachment.id message.attachments)
  refreshed_message offset f (err e, w) = (err (refresh_failed e), (f, w))
  refreshed_message offset f (panic, w) = (panic, (f, w))

  refresh_channel : ℕ → AttachmentFile B → Option Bytes × W → Outcome B W B
  unfolding refreshed_message
  refresh_channel offset f (none, w) = (err no_channel, (f, w))
  refresh_channel offset f (some channel_id, w) =
      refreshed_message offset f (downloads.fetch_message channel_id f.message_id w)

  unfoldable pub refresh_and_open : ℕ → AttachmentFile B → W → Outcome B W B
  unfolding refresh_channel
  refresh_and_open offset f w = refresh_channel offset f (downloads.channel w)

  unfoldable pub open_body : ℕ → AttachmentFile B → W → Outcome B W B
  unfolding open_url refresh_and_open
  open_body offset f w = open_url (some (refresh_and_open offset)) offset f w

  -- The read of the body, and the offset behind it, which has 64 bits.
  set_reader : ℕ → B → ℕ → AttachmentFile B → AttachmentFile B
  set_reader fid body offset f = record f {
    readers = put fid (record { body = some body; offset = offset }) f.readers;
  }

  -- if errors.Is(err, io.EOF) { err = nil }
  unfoldable pub read_result : Bytes → ReadEnd → Result AttachmentError Bytes
  read_result content no_error = ok content
  read_result content end_of_file = ok content
  read_result content broken = err read_failed

  after_read : ℕ → B → ℕ → AttachmentFile B → (Bytes × ReadEnd) × W → Outcome B W Bytes
  unfolding set_reader read_result
  after_read fid body offset f ((content, end), w) =
      (read_result content end, (set_reader fid body ((offset + length content) % 2 ^ 64) f, w))

  unfoldable pub read_from : ℕ → B → ℕ → ℕ → AttachmentFile B → W → Outcome B W Bytes
  unfolding set_reader after_read
  read_from fid body offset count f w =
      if ltb downloads.max_alloc count
      then (panic, (set_reader fid body offset f, w))
      else after_read fid body offset f (downloads.read_body body count w)

  unfoldable pub reopened : ℕ → ℕ → ℕ → Outcome B W B → Outcome B W Bytes
  unfolding read_from
  reopened fid offset count (ok body, (f, w)) = read_from fid body offset count f w
  reopened fid offset count (err e, (f, w)) = (err e, (f, w))
  reopened fid offset count (panic, (f, w)) = (panic, (f, w))

  -- The read of a reader with the body and the offset.
  read_reader : ℕ → ℕ → ℕ → AttachmentFile B → W → ℕ → Option B → Outcome B W Bytes
  unfolding reopened read_from open_body
  read_reader fid offset count f w at none = reopened fid offset count (open_body offset f w)
  read_reader fid offset count f w at (some body) =
      if nat_beq at offset
      then read_from fid body offset count f w
      else reopened fid offset count (open_body offset f (downloads.close_body body w))

  read_found : ℕ → ℕ → ℕ → AttachmentFile B → W → Option (Reader B) → Outcome B W Bytes
  unfolding read_reader
  read_found fid offset count f w none = (err not_open, (f, w))
  read_found fid offset count f w (some reader) =
      read_reader fid offset count f w reader.offset reader.body

  unfoldable pub read_attachment : AttachmentFile B → ℕ → ℕ → ℕ → W → Outcome B W Bytes
  unfolding read_found
  read_attachment f fid offset count w =
      if nat_beq count 0
      then (ok [], (f, w))
      else if leb (2 ^ 63) offset
      then (err offset_too_large, (f, w))
      else read_found fid offset count f w (lookup fid f.readers)

  close_reader : Option (Reader B) → W → W
  close_reader none w = w
  close_reader (some reader) w = elim reader.body [
    | none ↦ w
    | some body ↦ downloads.close_body body w
  ]

  unfoldable pub close_attachment : AttachmentFile B → ℕ → W → AttachmentFile B × W
  unfolding close_reader
  close_attachment f fid w =
      (record f { readers = remove fid f.readers }, close_reader (lookup fid f.readers) w)
