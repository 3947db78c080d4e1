-- ===== src/File/Attachment/Opening.antt =====
-- internal/p9fs/attachments.go, open and refreshAndOpen: what a body gives when it is opened, and why
-- none is opened.
use flx.Prelude.{
  ℕ, ◌≤◌, ◌≢◌, ◌⊎◌, length, ◌≡◌, refl, ap, [], ◌++◌, Option, none, some, Bytes, ◌==◌, bytes_eq,
  nat_eq, drop, Result, ok, err, panic, Bool-cases, inl, inr, arith,
}
use mathlib.Core.Path.{subst}
use flx.Prelude.Keys.{bytes_beq_iff}
use flx.Types.{Attachment, Message}
use flx.Client.{ClientError}
use flx.File.Attachment.{
  AttachmentError, download_failed, refresh_failed, no_channel, gone, no_url, broken,
  AttachmentFile, Downloads, Outcome, update, find_attachment, is_stale, opened_body, no_address,
  open_address, open_url, open_found, refreshed_message, refresh_channel, refresh_and_open,
  open_body,
}

-- There is no address, or an empty one.
unfoldable pub IsUnaddressed : Option Bytes → Type 0
IsUnaddressed o = (o ≡ none) ⊎ (o ≡ some [])

module _ {B W : Type 0} (downloads : Downloads B W) where
  -- Why no body is opened at an offset: the download failed, the message could not be fetched, the file
  -- has no channel, or the fetched message has no such attachment or one without an address.
  pub data OpenFault : ℕ → AttachmentError → Type 0 where
    no_download :
        (offset : ℕ) (url : Bytes) (w : W) (e : ClientError)
        → (downloads.open_attachment url offset w).0 ≡ err e
        → OpenFault offset (download_failed e)
    no_message :
        (offset : ℕ) (channel message : Bytes) (w : W) (e : ClientError)
        → (downloads.fetch_message channel message w).0 ≡ err e
        → OpenFault offset (refresh_failed e)
    without_channel :
        (offset : ℕ) (w : W) → (downloads.channel w).0 ≡ none → OpenFault offset no_channel
    not_listed :
        (offset : ℕ) (channel message : Bytes) (w : W) (m : Message) (id : Bytes)
        → (downloads.fetch_message channel message w).0 ≡ ok m
        → find_attachment id m.attachments ≡ none
        → OpenFault offset gone
    not_addressed :
        (offset : ℕ) (channel message : Bytes) (w : W) (m : Message) (id : Bytes) (a : Attachment)
        → (downloads.fetch_message channel message w).0 ≡ ok m
        → find_attachment id m.attachments ≡ some a
        → IsUnaddressed a.url
        → OpenFault offset no_url

  -- Why an opening panics: what it calls panics.
  pub data OpenPanic : ℕ → Type 0 where
    download_panics :
        (offset : ℕ) (url : Bytes) (w : W)
        → (downloads.open_attachment url offset w).0 ≡ panic
        → OpenPanic offset
    fetch_panics :
        (offset : ℕ) (channel message : Bytes) (w : W)
        → (downloads.fetch_message channel message w).0 ≡ panic
        → OpenPanic offset

  update_attachment :
      (name : Bytes) (a : Attachment) (f : AttachmentFile B)
      → (update downloads name a f).attachment ≡ a
  unfolding update
  update_attachment name a f = ground arith

module _ {B W : Type 0} (downloads : Downloads B W) (content : Bytes)
    (remaining : B → W → Bytes) where
  -- A download at an offset gives the content from there on. A read of a body takes what it returns
  -- from the front of what is left, at most as many bytes as were asked for, and at least one if any
  -- were and some are left, unless it fails.
  pub record IsFaithful : Type 0 where
    pub opens :
        (url : Bytes) (offset : ℕ) (w : W) (body : B)
        → (downloads.open_attachment url offset w).0 ≡ ok body
        → remaining body (downloads.open_attachment url offset w).1 ≡ drop offset content
    pub reads :
        (body : B) (count : ℕ) (w : W)
        → remaining body w
          ≡ (downloads.read_body body count w).0.0
            ++ remaining body (downloads.read_body body count w).1
    pub bounded :
        (body : B) (count : ℕ) (w : W) → length (downloads.read_body body count w).0.0 ≤ count
    pub advances :
        (body : B) (count : ℕ) (w : W)
        → (count ≡ 0)
          ⊎ ((downloads.read_body body count w).0.0 ≢ [])
          ⊎ ((downloads.read_body body count w).0.1 ≡ broken)
          ⊎ (remaining body w ≡ [])

  -- A body that was opened gives the content from the offset on, and one that was not has a reason.
  unfoldable pub Opens : ℕ → Outcome B W B → Type 0
  Opens offset (ok body, (f, w)) = remaining body w ≡ drop offset content
  Opens offset (err e, (f, w)) = OpenFault downloads offset e
  Opens offset (panic, (f, w)) = OpenPanic downloads offset

  -- A refresh that opens a body.
  Refreshes : ℕ → Option (AttachmentFile B → W → Outcome B W B) → Type 0
  Refreshes offset none = Unit
  Refreshes offset (some refresh) = (f : AttachmentFile B) (w : W) → Opens offset (refresh f w)

  opened-Opens :
      (offset : ℕ) (again : Option (AttachmentFile B → W → Outcome B W B)) (f : AttachmentFile B)
      (url : Bytes) (w0 : W) (r : Result ClientError B × W)
      → downloads.open_attachment url offset w0 ≡ r
      → IsFaithful
      → Refreshes offset again
      → Opens offset (opened_body downloads again f r)
  unfolding opened_body Opens Refreshes
  opened-Opens offset none f url w0 (ok body, w) same faithful refreshes =
      subst (λ t. remaining body t.1 ≡ drop offset content) same
        (faithful.opens url offset w0 body (ap (λ t. t.0) same))
  opened-Opens offset (some refresh) f url w0 (ok body, w) same faithful refreshes =
      subst (λ t. remaining body t.1 ≡ drop offset content) same
        (faithful.opens url offset w0 body (ap (λ t. t.0) same))
  opened-Opens offset none f url w0 (err e, w) same faithful refreshes =
      no_download offset url w0 e (ap (λ t. t.0) same)
  opened-Opens offset (some refresh) f url w0 (err e, w) same faithful refreshes =
      elim (Bool-cases (is_stale downloads e)) [
        | inl s ↦ rw s (refreshes f w)
        | inr s ↦ rw s (no_download offset url w0 e (ap (λ t. t.0) same))
      ]
  opened-Opens offset none f url w0 (panic, w) same faithful refreshes =
      download_panics offset url w0 (ap (λ t. t.0) same)
  opened-Opens offset (some refresh) f url w0 (panic, w) same faithful refreshes =
      download_panics offset url w0 (ap (λ t. t.0) same)

  address-Opens :
      (again : Option (AttachmentFile B → W → Outcome B W B)) (offset : ℕ) (f : AttachmentFile B)
      (w : W) (o : Option Bytes)
      → IsFaithful
      → Refreshes offset again
      → (IsUnaddressed o → Opens offset (no_address downloads again f w))
      → Opens offset (open_address downloads again offset f w o)
  unfolding open_address IsUnaddressed
  address-Opens again offset f w none faithful refreshes missing = missing (inl refl)
  address-Opens again offset f w (some url) faithful refreshes missing =
      elim (Bool-cases (url == [])) [
        | inl e ↦ rw e (missing (inr (ap some ((bytes_beq_iff url []).0 e))))
        | inr e ↦ rw e (opened-Opens offset again f url w _ refl faithful refreshes)
      ]

  -- The attachment that was found in a fetched message.
  found-Opens :
      (offset : ℕ) (f : AttachmentFile B) (w : W) (channel id : Bytes) (w0 : W) (m : Message)
      (o : Option Attachment)
      → (downloads.fetch_message channel f.message_id w0).0 ≡ ok m
      → find_attachment id m.attachments ≡ o
      → IsFaithful
      → Opens offset (open_found downloads offset f w o)
  unfolding open_found open_url Opens Refreshes no_address IsUnaddressed
  found-Opens offset f w channel id w0 m none fetched found faithful =
      not_listed offset channel f.message_id w0 m id fetched found
  found-Opens offset f w channel id w0 m (some a) fetched found faithful =
      let f' = update downloads f.name a f in
      address-Opens none offset f' w f'.attachment.url faithful tt (λ h.
        not_addressed offset channel f.message_id w0 m id a fetched found (
          subst (λ (t : Attachment). IsUnaddressed t.url) (update_attachment downloads f.name a f)
            h))

  message-Opens :
      (offset : ℕ) (f : AttachmentFile B) (channel : Bytes) (w0 : W)
      (r : Result ClientError Message × W)
      → downloads.fetch_message channel f.message_id w0 ≡ r
      → IsFaithful
      → Opens offset (refreshed_message downloads offset f r)
  unfolding refreshed_message Opens
  message-Opens offset f channel w0 (ok message, w) same faithful =
      found-Opens offset f w channel _ w0 message _ (ap (λ t. t.0) same) refl faithful
  message-Opens offset f channel w0 (err e, w) same faithful =
      no_message offset channel f.message_id w0 e (ap (λ t. t.0) same)
  message-Opens offset f channel w0 (panic, w) same faithful =
      fetch_panics offset channel f.message_id w0 (ap (λ t. t.0) same)

  channel-Opens :
      (offset : ℕ) (f : AttachmentFile B) (w0 : W) (r : Option Bytes × W)
      → downloads.channel w0 ≡ r
      → IsFaithful
      → Opens offset (refresh_channel downloads offset f r)
  unfolding refresh_channel Opens
  channel-Opens offset f w0 (none, w) same faithful = without_channel offset w0 (ap (λ t. t.0) same)
  channel-Opens offset f w0 (some channel_id, w) same faithful =
      message-Opens offset f channel_id w _ refl faithful

  pub body-Opens :
      (offset : ℕ) (f : AttachmentFile B) (w : W)
      → IsFaithful
      → Opens offset (open_body downloads offset f w)
  unfolding open_body open_url Refreshes refresh_and_open no_address
  body-Opens offset f w faithful =
      address-Opens (some (refresh_and_open downloads offset)) offset f w f.attachment.url faithful
        (λ f' w'. channel-Opens offset f' w' (downloads.channel w') refl faithful)
        (λ h. channel-Opens offset f w (downloads.channel w) refl faithful)
