-- ===== src/Tests/Clients.antt =====
-- The API client at concrete inputs.
use flx.Prelude.{
  ℕ, ◌-◌, ◌≡◌, ◌≢◌, refl, ap, true, false, List, [], ◌∷◌, ◌++◌, Option, none, some, Bytes, codes,
  pos, Result, ok, err, length, take, leb, arith, nat_eq, bytes_eq, if◌then◌else◌, Bool-cases, inl,
  inr,
}
use flx.Types.{User, Guild}
use flx.Client.{Http, Request, Response, Sent, replied, ClientError, exhausted, do_loop}
use flx.Client.Retry.{IsBounded, do_loop-Stops}
use flx.Client.Guilds.{guilds, page_size}
use flx.Client.Guilds.Complete.{communities_after, guilds_complete, IsListed, Serves}
use flx.Client.Upload.{Part, UploadPlan, put_outcome, upload_attachment}
use flx.Client.Upload.Whole.{Covers, Stores, Uploads, upload_attachment-Uploads}
use flx.Client.Avatar.{Assets, avatar_url}
use flx.Client.Avatar.Address.{Addresses, avatar_url-Addresses}
use flx.Client.Download.{Transfer, fetched}

abbrev user : User
user = record {
  id = codes "17";
  username = codes "ann";
  discriminator = codes "0001";
  global_name = none;
  avatar = none;
  bot = false;
  system = false;
}

abbrev response : ℕ → Response
response status = record {
  status = status;
  status_text = codes "status";
  payload = codes "{}";
  retry_after = codes "2";
}

abbrev request : Request
request = record { method = codes "GET"; path = codes "/users/@me"; body = none }

-- A server that always limits the rate, and the seconds that are left.
abbrev limiting : Http ℕ
limiting = record {
  send = λ r w. (replied (response 429), w);
  wait = λ n w. if leb n w then (true, w - n) else (false, 0);
  observe = λ e w. w;
  error_body = λ s. none;
  parse_seconds = λ s. some (pos 2);
  max_rate_wait = 10;
}

limiting-IsBounded : IsBounded limiting (λ w. w)
limiting-IsBounded = record {
  sends = λ r w. omega arith;
  waits = λ n w h. elim (Bool-cases (leb n w)) [
    | inl e ↦ rw e (ground arith)
    | inr e ↦ absurd (ground arith)
  ];
}

do_loop-Stops_example : (do_loop limiting {A = Bytes} 6 none request 5).0 ≢ err exhausted
do_loop-Stops_example =
    do_loop-Stops limiting (λ w. w) limiting-IsBounded 6 none request 5 (omega arith)

abbrev guild : Bytes → Guild
guild id = record {
  id = id;
  name = codes "g";
  owner_id = codes "1";
  channels = none;
  unavailable = false;
}

abbrev communities : List Guild
communities = guild (codes "5") ∷ guild (codes "19") ∷ []

abbrev serve : Bytes → Unit {0} → Result ClientError (List Guild) × Unit {0}
serve before w = (ok (take page_size (communities_after before communities)), w)

served : Serves serve communities
unfolding Serves
served before w = refl

communities-IsListed : IsListed communities
unfolding IsListed
communities-IsListed =
    ((λ e. cc), ((λ e. let sizes = ap (λ t. length t) e in cc), tt), ((λ e. cc), tt, tt))

guilds_complete_example : (guilds serve 3 tt).0 ≡ ok communities
guilds_complete_example =
    guilds_complete serve communities 3 tt served communities-IsListed (omega arith)

abbrev part : ℕ → Part
part n = record { part_number = pos n; upload_url = codes "u" }

abbrev plan : UploadPlan
plan = record {
  upload_filename = codes "f";
  upload_mode = codes "multipart";
  upload_url = [];
  upload_id = codes "id";
  part_size = pos 2;
  parts = part 1 ∷ part 2 ∷ [];
}

abbrev accepting : Bytes → Bytes → Bytes → Sent × Bytes
accepting url content w = (replied (response 200), w ++ content)

abbrev silent : Option ClientError → Bytes → Bytes
silent e w = w

accepted : Stores accepting silent (λ w. w)
unfolding Stores put_outcome
accepted = ((λ url content w. (refl, refl)), λ e w. refl)

covered : Covers (codes "abc") 2 0 (part 1 ∷ part 2 ∷ [])
unfolding Covers
covered = (refl, (λ e. cc), omega arith, (refl, (λ e. cc), omega arith, omega arith))

upload_attachment-Uploads_example :
    Uploads accepting silent
      (λ w. w)
      (codes "abc")
      []
      (upload_attachment accepting silent (codes "abc") plan [])
upload_attachment-Uploads_example =
    upload_attachment-Uploads accepting silent (λ w. w) (codes "abc") plan 1 (part 1) (part 2 ∷ [])
      [] accepted refl (λ e. cc) refl refl covered (omega arith)

abbrev assets : Assets
assets = record { media_base = codes "m"; static_base = codes "s" }

avatar_url-Addresses_example :
    Addresses (λ s. s) assets user (avatar_url (λ s. s) (λ s. some (pos 17)) assets user (pos 0))
avatar_url-Addresses_example =
    avatar_url-Addresses (λ s. s) (λ s. some (pos 17)) assets user (pos 0)

-- A server without ranges.
abbrev transfer : Transfer Bytes ℕ
transfer = record {
  parse_url = λ s. some (record { scheme = codes "https"; host = codes "cdn"; text = s });
  fetch = λ text range w. (fetched (response 200) (codes "abc"), w);
  close_body = λ body w. w;
}
