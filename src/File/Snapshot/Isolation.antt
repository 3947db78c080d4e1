-- ===== src/File/Snapshot/Isolation.antt =====
-- What a reader of a snapshot file sees while other fids of the same file are in use.
use flx.Prelude.{
  ℕ, ◌+◌, ◌<◌, ◌≡◌, ◌≢◌, refl, ◌||◌, [], Bytes, some, Result, ok, err, panic, lookup, nat_eq,
  nat_beq, List, ◌∷◌, All, take, drop, lookup-put_ne, lookup-remove_ne, lookup-put_self,
  lookup-remove_self, ◌∙◌, arith, Bool-cases, inl, inr,
}
use flx.File.Modes.{Modes, access}
use flx.File.Errors.{FileError, read_only, not_open}
use flx.File.Buffer.{u64_mod}
use flx.File.Buffer.Laws.{slice-eq-take}
use flx.File.Snapshot.{SnapshotFile, open_snapshot, read_snapshot, close_snapshot, keep}

-- The requests that a client can make of a file.
pub data Request : Type 0 where
  open_fid : ℕ → ℕ → Request
  read_fid : ℕ → ℕ → ℕ → Request
  write_fid : ℕ → ℕ → Bytes → Request
  close_fid : ℕ → Request

abbrev pub fid_of : Request → ℕ
fid_of (open_fid fid mode) = fid
fid_of (read_fid fid offset count) = fid
fid_of (write_fid fid offset input) = fid
fid_of (close_fid fid) = fid

module _ {E W : Type 0} (modes : Modes) (generate : W → Result E Bytes × W) where
  abbrev pub handle : SnapshotFile × W → Request → SnapshotFile × W
  handle (f, w) (open_fid fid mode) = (open_snapshot modes generate f fid mode w).1
  handle (f, w) (read_fid fid offset count) = (f, w)
  handle (f, w) (write_fid fid offset input) = (f, w)
  handle (f, w) (close_fid fid) = (close_snapshot f fid, w)

  abbrev pub serve : SnapshotFile × W → List Request → SnapshotFile × W
  serve s [] = s
  serve s (r ∷ rs) = serve (handle s r) rs

  keep_other :
      (f : SnapshotFile) (fid j : ℕ) (r : Result E Bytes × W)
      → j ≢ fid
      → lookup fid (keep modes generate f j r).1.0.content ≡ lookup fid f.content
  unfolding keep
  keep_other f fid j (ok input, w) h = lookup-put_ne j fid input f.content h
  keep_other f fid j (err e, w) h = refl
  keep_other f fid j (panic, w) h = refl

  open_other :
      (f : SnapshotFile) (fid j mode : ℕ) (w : W)
      → j ≢ fid
      → lookup fid (open_snapshot modes generate f j mode w).1.0.content ≡ lookup fid f.content
  unfolding open_snapshot
  open_other f fid j mode w h =
      elim (Bool-cases (nat_beq (access mode) modes.owrite || nat_beq (access mode) modes.ordwr)) [
        | inl e ↦ rw e
        | inr e ↦ rw e (keep_other f fid j (generate w) h)
      ]

  handle_other :
      (s : SnapshotFile × W) (fid : ℕ) (r : Request)
      → fid_of r ≢ fid
      → lookup fid (handle s r).0.content ≡ lookup fid s.0.content
  handle_other (f, w) fid (open_fid j mode) h = open_other f fid j mode w h
  handle_other (f, w) fid (read_fid j offset count) h = refl
  handle_other (f, w) fid (write_fid j offset input) h = refl
  handle_other (f, w) fid (close_fid j) h =
      unfold close_snapshot in lookup-remove_ne j fid f.content h

  serve_other :
      (s : SnapshotFile × W) (fid : ℕ) (rs : List Request)
      → All (λ r. fid_of r ≢ fid) rs
      → lookup fid (serve s rs).0.content ≡ lookup fid s.0.content
  serve_other s fid [] h = refl
  serve_other s fid (r ∷ rs) (h, hs) = serve_other (handle s r) fid rs hs ∙ handle_other s fid r h

  keep_opened :
      (f : SnapshotFile) (fid : ℕ) (r : Result E Bytes × W) {s : SnapshotFile × W}
      → keep modes generate f fid r ≡ (ok tt, s)
      → (input : Bytes) × (r.0 ≡ ok input) × (lookup fid s.0.content ≡ some input)
  unfolding keep
  keep_opened f fid (ok input, w) h =
      (input, refl, ground (arith, lookup-put_self fid input f.content))
  keep_opened f fid (err e, w) h = cc
  keep_opened f fid (panic, w) h = cc

  open_generated :
      (f : SnapshotFile) (fid mode : ℕ) (w : W) {s : SnapshotFile × W}
      → open_snapshot modes generate f fid mode w ≡ (ok tt, s)
      → (input : Bytes) × ((generate w).0 ≡ ok input) × (lookup fid s.0.content ≡ some input)
  unfolding open_snapshot
  open_generated f fid mode w h =
      elim (Bool-cases (nat_beq (access mode) modes.owrite || nat_beq (access mode) modes.ordwr)) [
        | inl e ↦ absurd (refused (rw e at h))
        | inr e ↦ keep_opened f fid (generate w) (rw e at h)
      ]
    where
      refused :
          {s s' : SnapshotFile × W}
          → ¬ (
              ◌≡◌ {A = Result (FileError E) (Unit {0}) × (SnapshotFile × W)}
                (err read_only, s)
                (ok tt, s'))
      refused h = cc

  -- If a snapshot file is opened without an error, then `generate` returned some content, and while only
  -- other fids of the file are used a read through this one returns the part of that content that is
  -- asked for, if offset and count do not wrap.
  pub read_snapshot-open :
      (f : SnapshotFile) (fid mode : ℕ) (w : W) (s : SnapshotFile × W) (rs : List Request)
      (offset count : ℕ)
      → open_snapshot modes generate f fid mode w ≡ (ok tt, s)
      → All (λ r. fid_of r ≢ fid) rs
      → offset + count < u64_mod
      → (input : Bytes) × ((generate w).0 ≡ ok input)
        × (read_snapshot {E = E} (serve s rs).0 fid offset count
            ≡ ok (take count (drop offset input)))
  unfolding read_snapshot
  read_snapshot-open f fid mode w s rs offset count h others no_wrap =
      let (input, generated, stored) = open_generated f fid mode w h in
      (
        input,
        generated,
        rw (serve_other s fid rs others ∙ stored) (slice-eq-take input offset count no_wrap),
      )

-- A fid that was closed, or never opened, reads nothing.
pub read_snapshot-close :
    {E : Type 0} (f : SnapshotFile) (fid offset count : ℕ)
    → read_snapshot {E = E} (close_snapshot f fid) fid offset count ≡ err not_open
unfolding read_snapshot close_snapshot
read_snapshot-close f fid offset count = rw (lookup-remove_self fid f.content)
