-- ===== src/File/Live/Stream.antt =====
-- internal/p9fs/files.go, liveFile: what a reader of a live file gets.
use flx.Prelude.{
  ℕ, zero, suc, ◌^◌, ◌≤◌, ◌<◌, Bool, true, false, ◌≡◌, ◌≢◌, ◌⊎◌, refl, sym, ap, ◌∙◌, [], ◌∷◌, ◌++◌,
  append_assoc, Option, some, Bytes, leb, nat_eq, length, take, drop, take-append-drop, length-take,
  Table, lookup, put, lookup-put_self, arith, Bool-cases, inl, inr, bytes_eq,
}
use mathlib.Core.Path.{subst}
use flx.Hub.{Hub}
use flx.Render.{Formats}
use flx.File.Live.{
  LiveReader, LiveFile, LiveResult, done, blocks, panics, Filled, filled, finished, nothing_yet,
  fill, cut_pending, after_fill, read_loop, read_live,
}
use flx.File.Live.Backlog.{backlog, is_closed, Fills, fill-Fills}

-- What a read of a reader does.
pub data ReadOutcome (formats : Formats) (now : ℕ) (f : LiveFile) (fid : ℕ) (count : ℕ) (sub : ℕ)
    (stream : Bytes) (closed : Bool) : Option (LiveResult Bytes × (LiveFile × Hub)) → Type 0 where
  got :
      (out : Bytes) (reader : LiveReader) (readers : Table ℕ LiveReader) (h : Hub)
      → lookup fid readers ≡ some reader
      → reader.sub ≡ sub
      → out ++ (reader.pending ++ backlog formats now f (lookup sub h.subs)) ≡ stream
      → length out ≤ count
      → (count ≡ 0) ⊎ (out ≢ [])
      → stream ≢ []
      → count < 2 ^ 63
      → ReadOutcome formats now f fid count sub stream closed
          (some (done out, (record f { readers = readers }, h)))
  at_end :
      (h : Hub)
      → stream ≡ []
      → backlog formats now f (lookup sub h.subs) ≡ []
      → closed ≡ true
      → ReadOutcome formats now f fid count sub stream closed (some (done [], (f, h)))
  waits :
      (h : Hub)
      → stream ≡ []
      → backlog formats now f (lookup sub h.subs) ≡ []
      → closed ≡ false
      → ReadOutcome formats now f fid count sub stream closed (some (blocks, (f, h)))
  too_large :
      (s : LiveFile × Hub)
      → stream ≢ []
      → 2 ^ 63 ≤ count
      → ReadOutcome formats now f fid count sub stream closed (some (panics, s))

module _ (formats : Formats) (now : ℕ) (f : LiveFile) (fid count : ℕ) where
  take_nonempty : (n : ℕ) (b : ℕ) (s : Bytes) → (n ≡ 0) ⊎ (take n (b ∷ s) ≢ [])
  take_nonempty zero b s = inl refl
  take_nonempty (suc n) b s = inr (λ h. cc)

  joined : (n : ℕ) (s rest : Bytes) → take n s ++ (drop n s ++ rest) ≡ s ++ rest
  joined n s rest =
      sym (append_assoc (take n s) (drop n s) rest) ∙ ap (λ x. x ++ rest) (take-append-drop n s)

  cut_outcome :
      (reader : LiveReader) (b : ℕ) (pending : Bytes) (closed : Bool) (h : Hub)
      → ReadOutcome formats now f fid count reader.sub
          ((b ∷ pending) ++ backlog formats now f (lookup reader.sub h.subs))
          closed
          (some (cut_pending formats now f fid reader (b ∷ pending) count h))
  unfolding cut_pending
  cut_outcome reader b pending closed h = elim (Bool-cases (leb (2 ^ 63) count)) [
    | inl e ↦ rw e (too_large _ (λ none_left. cc) (ground arith))
    | inr e ↦ rw e (
        got (take count (b ∷ pending)) (record reader { pending = drop count (b ∷ pending) })
          (put fid (record reader { pending = drop count (b ∷ pending) }) f.readers) h
          (lookup-put_self fid _ f.readers) refl (joined count (b ∷ pending) _)
          (omega (arith, length-take count (b ∷ pending))) (take_nonempty count b pending)
          (λ none_left. cc) (ground arith))
  ]

  -- With something pending, one round is enough.
  pending_outcome :
      (rounds : ℕ) (reader : LiveReader) (pending : Bytes) (closed : Bool) (h : Hub)
      → pending ≢ []
      → ReadOutcome formats now f fid count reader.sub
          (pending ++ backlog formats now f (lookup reader.sub h.subs))
          closed
          (read_loop formats now (suc rounds) f fid reader count pending h)
  unfolding read_loop
  pending_outcome rounds reader [] closed h ne = absurd (ne refl)
  pending_outcome rounds reader (b ∷ pending) closed h ne = cut_outcome reader b pending closed h

  after_fill_outcome :
      (rounds : ℕ) (reader : LiveReader) (before : Bytes) (closed : Bool) (found : Filled)
      → Fills formats now f reader.sub before closed found
      → ReadOutcome formats now f fid count reader.sub before closed (
          after_fill formats now f found
            (λ pending h. read_loop formats now (suc rounds) f fid reader count pending h))
  unfolding after_fill Fills
  after_fill_outcome rounds reader before closed (filled pending h) (ne, e) =
      subst
        (λ x.
          ReadOutcome formats now f fid count reader.sub x closed
            (read_loop formats now (suc rounds) f fid reader count pending h))
        e (pending_outcome rounds reader pending closed h ne)
  after_fill_outcome rounds reader before closed (finished h) (none_left, e, c) =
      at_end h none_left e c
  after_fill_outcome rounds reader before closed (nothing_yet h) (none_left, e, c) =
      waits h none_left e c

  loop_outcome :
      (reader : LiveReader) (pending : Bytes) (h : Hub)
      → ReadOutcome formats now f fid count reader.sub
          (pending ++ backlog formats now f (lookup reader.sub h.subs))
          (is_closed (lookup reader.sub h.subs))
          (read_loop formats now 2 f fid reader count pending h)
  unfolding read_loop
  loop_outcome reader [] h =
      after_fill_outcome 0 reader _ _ (fill formats now f reader.sub h)
        (fill-Fills formats now f reader.sub h)
  loop_outcome reader (b ∷ pending) h = cut_outcome reader b pending _ h

  -- A read returns after at most two rounds of its loop. Let the stream of a reader be what it has
  -- pending, then the gap of the events that were dropped, then the records of the queued events. If
  -- the stream is not empty, a read of less than 2 ^ 63 bytes returns its beginning, at most as many
  -- bytes as were asked for and at least one if any were, and leaves the rest as the stream of the
  -- reader, and a read of 2 ^ 63 bytes or more panics. If it is empty, the read returns nothing if the
  -- subscription is closed, and blocks if it is not.
  pub read_live-ReadOutcome :
      (offset : ℕ) (reader : LiveReader) (h : Hub)
      → lookup fid f.readers ≡ some reader
      → ReadOutcome formats now f fid count reader.sub
          (reader.pending ++ backlog formats now f (lookup reader.sub h.subs))
          (is_closed (lookup reader.sub h.subs))
          (read_live formats now f fid offset count h)
  unfolding read_live
  read_live-ReadOutcome offset reader h found = rw found (loop_outcome reader reader.pending h)
