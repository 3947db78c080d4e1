-- ===== src/Tests/Attachments.antt =====
-- The file of an attachment at a concrete input.
use flx.Prelude.{
  ℕ, ◌+◌, ◌≡◌, refl, ap, sym, ◌∙◌, true, false, List, [], ◌∷◌, ◌++◌, none, some, Bytes, codes, pos,
  ok, err, nat_beq, if◌then◌else◌, drop, take, take-append-drop, drop-drop, arith, zero, suc, ◌⊎◌,
  inl, inr, ◌≢◌, length-take,
}
use mathlib.Core.Path.{subst}
use flx.Types.{Attachment}
use flx.Client.{request_failed}
use flx.File.Modes.{protocol_modes}
use flx.File.Attachment.{no_error, broken, AttachmentFile, Downloads, open_file}
use flx.File.Attachment.Opening.{IsFaithful}
use flx.File.Attachment.Content.{Session, open_file-Session}

abbrev content : Bytes
content = codes "abcdef"

-- A body is the offset where it was opened; the world counts what was read of each.
abbrev downloads : Downloads ℕ (ℕ → ℕ)
downloads = record {
  channel = λ w. (some (codes "900"), w);
  fetch_message = λ channel message w. (err request_failed, w);
  open_attachment = λ url offset w. (ok offset, λ body. if nat_beq body offset then 0 else w body);
  read_body = λ body count w. (
    (take count (drop (body + w body) content), no_error),
    λ b. if nat_beq b body then w body + count else w b,
  );
  close_body = λ body w. w;
  same_attachment = λ a b. false;
  max_alloc = 4096;
}

abbrev left : ℕ → (ℕ → ℕ) → Bytes
left body w = drop (body + w body) content

opened_left :
    (offset : ℕ) (w : ℕ → ℕ)
    → left offset (downloads.open_attachment [] offset w).1 ≡ drop offset content
opened_left offset w =
    let test : nat_beq offset offset ≡ true = ground arith in
    let none_read : offset + 0 ≡ offset = omega arith in rw (test, none_read) refl

read_left :
    (body count : ℕ) (w : ℕ → ℕ)
    → left body w
      ≡ (downloads.read_body body count w).0.0 ++ left body (downloads.read_body body count w).1
read_left body count w =
    let test : nat_beq body body ≡ true = ground arith in
    let further : body + (w body + count) ≡ (body + w body) + count = omega arith in
    rw (test, further)
      (sym (
        ap (λ t. take count (drop (body + w body) content) ++ t)
          (sym (drop-drop (body + w body) count content))
        ∙ take-append-drop count (drop (body + w body) content)))

take_advances :
    (count : ℕ) (xs : Bytes) → (count ≡ 0) ⊎ (take count xs ≢ []) ⊎ (no_error ≡ broken) ⊎ (xs ≡ [])
take_advances zero xs = inl refl
take_advances (suc n) [] = inr (inr (inr refl))
take_advances (suc n) (x ∷ xs) = inr (inl (λ e. cc))

faithful : IsFaithful downloads content left
faithful = record {
  opens = λ url offset w body e.
      let same : offset ≡ body = cc in
      subst (λ b. left b (downloads.open_attachment url offset w).1 ≡ drop offset content) same
        (opened_left offset w);
  reads = read_left;
  bounded = λ body count w. omega (arith, length-take count (left body w));
  advances = λ body count w. take_advances count (left body w);
}

abbrev attachment : Attachment
attachment = record {
  id = codes "5";
  filename = codes "a.txt";
  title = none;
  description = none;
  content_type = none;
  content_hash = none;
  size = pos 6;
  url = some (codes "https://cdn/a");
  proxy_url = none;
  width = none;
  height = none;
  placeholder = none;
  flags = pos 0;
  nsfw = none;
  duration = none;
  waveform = none;
  expires_at = none;
  expired = none;
}

abbrev file : AttachmentFile ℕ
file = record {
  name = codes "a.txt";
  size = 6;
  version = 0;
  message_id = codes "1";
  attachment = attachment;
  readers = [];
}

abbrev requests : List (ℕ × ℕ)
requests = (0, 2) ∷ (2, 2) ∷ (1, 9) ∷ []

open_file-Session_example :
    Session downloads content left 3 requests
      ((open_file downloads protocol_modes file 3 0).1, λ b. 0)
open_file-Session_example =
    open_file-Session downloads content left protocol_modes file 3 0 (λ b. 0) requests faithful
      (omega arith) (omega arith)
