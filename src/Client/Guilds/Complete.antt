-- ===== src/Client/Guilds/Complete.antt =====
-- internal/fluxer/client.go, Guilds: against a server that pages as documented.
use flx.Prelude.{
  ℕ, zero, suc, ◌<◌, ◌≡◌, ◌≢◌, refl, sym, ap, ◌∙◌, true, false, List, [], ◌∷◌, ◌++◌, append_assoc,
  Bytes, ◌==◌, bytes_eq, beq_refl, beq_ne, ltb, length, take, drop, length-take, length-drop,
  take-append-drop, take_of_length_le, Result, ok, err, panic, if◌then◌else◌, All, All-split, arith,
  Bool-cases, inl, inr,
}
use mathlib.Core.Path.{subst}
use flx.Prelude.Keys.{bytes_beq}
use flx.Types.{Guild}
use flx.Client.{ClientError}
use flx.Client.Guilds.{page_size, last_id, guilds_loop, guilds, next_page}

-- The communities behind the one with the identifier; all of them for the empty one.
pub after_id : Bytes → List Guild → List Guild
after_id before [] = []
after_id before (g ∷ gs) = if g.id == before then gs else after_id before gs

pub communities_after : Bytes → List Guild → List Guild
communities_after before gs = if before == [] then gs else after_id before gs

-- No identifier is empty, and none occurs twice.
unfoldable pub IsListed : List Guild → Type 0
IsListed [] = Unit
IsListed (g ∷ gs) = (g.id ≢ []) × All (λ h. g.id ≢ h.id) gs × IsListed gs

after_id-split :
    (xs : List Guild) (g : Guild) (ys : List Guild)
    → IsListed (xs ++ g ∷ ys)
    → (g.id ≢ []) × (after_id g.id (xs ++ g ∷ ys) ≡ ys)
unfolding after_id IsListed
after_id-split [] g ys (ne, _, _) = (ne, rw (beq_refl g.id) refl)
after_id-split (x ∷ xs) g ys (_, apart, listed) =
    let (_, (differs, _)) = All-split (λ h. x.id ≢ h.id) xs (g ∷ ys) apart in
    let (ne, e) = after_id-split xs g ys listed in (ne, rw (beq_ne x.id g.id differs) e)

-- The end of a page that is not empty.
last_split :
    (page : List Guild)
    → page ≢ []
    → (init : List Guild) × (g : Guild) × (page ≡ init ++ g ∷ []) × (last_id page ≡ g.id)
unfolding last_id
last_split [] ne = absurd (ne refl)
last_split (g ∷ []) ne = ([], g, refl, refl)
last_split (g ∷ h ∷ page) ne =
    let (init, l, e, i) = last_split (h ∷ page) (λ x. cc) in (g ∷ init, l, ap (λ x. g ∷ x) e, i)

module _ {W : Type 0} (fetch : Bytes → W → Result ClientError (List Guild) × W)
    (gs : List Guild) where
  -- What the server answers: the first 200 of the communities behind the identifier.
  unfoldable pub Serves : Type 0
  Serves =
      (before : Bytes) (w : W)
      → (fetch before w).0 ≡ ok (take page_size (communities_after before gs))

  abbrev Completes : Result ClientError (List Guild) × W → Type 0
  Completes r = r.0 ≡ ok gs

  next-Completes :
      (collected page : List Guild) (r : Result ClientError (List Guild) × W)
      (next : Bytes → List Guild → W → Result ClientError (List Guild) × W)
      → r.0 ≡ ok page
      → (ltb (length page) page_size ≡ true → collected ++ page ≡ gs)
      → (ltb (length page) page_size ≡ false
          → (w : W) → Completes (next (last_id page) (collected ++ page) w))
      → Completes (next_page fetch collected r next)
  unfolding next_page
  next-Completes collected page (ok p, w) next e short long =
      let same : p ≡ page = ground arith in
      rw same (elim (Bool-cases (ltb (length page) page_size)) [
        | inl s ↦ rw s (ap ok (short s))
        | inr s ↦ rw s (long s w)
      ])
  next-Completes collected page (err x, w) next e short long = cc
  next-Completes collected page (panic, w) next e short long = cc

  whole_page :
      (ys : List Guild) → ltb (length (take page_size ys)) page_size ≡ true → take page_size ys ≡ ys
  whole_page ys short =
      let e = length-take page_size ys in take_of_length_le page_size ys (ground arith)

  long_rest :
      (ys : List Guild)
      → ltb (length (take page_size ys)) page_size ≡ false
      → (rounds : ℕ) → length ys < suc rounds
      → length (drop page_size ys) < rounds
  long_rest ys long rounds h =
      let e = length-take page_size ys in let f = length-drop page_size ys in ground arith

  page_nonempty :
      (ys : List Guild)
      → ltb (length (take page_size ys)) page_size ≡ false
      → take page_size ys ≢ []
  page_nonempty ys long e = let l = ap (λ t. length t) e in ground arith

  behind_page :
      (xs ys : List Guild)
      → IsListed gs
      → xs ++ ys ≡ gs
      → ltb (length (take page_size ys)) page_size ≡ false
      → (last_id (take page_size ys) ≢ [])
        × (after_id (last_id (take page_size ys)) gs ≡ drop page_size ys)
  behind_page xs ys listed whole long =
      let (init, g, e, i) = last_split (take page_size ys) (page_nonempty ys long) in
      let spelled : (xs ++ init) ++ g ∷ drop page_size ys ≡ gs =
        append_assoc xs init (g ∷ drop page_size ys)
        ∙ (ap (λ t. xs ++ t)
              (sym (append_assoc init (g ∷ []) (drop page_size ys))
                ∙ (ap (λ t. t ++ drop page_size ys) (sym e) ∙ take-append-drop page_size ys))
            ∙ whole) in
      let (ne, rest) =
        after_id-split (xs ++ init) g (drop page_size ys) (subst IsListed (sym spelled) listed) in
      (
        subst (λ t. t ≢ []) (sym i) ne,
        subst (λ t. after_id t gs ≡ drop page_size ys) (sym i)
            (subst (λ t. after_id g.id t ≡ drop page_size ys) spelled rest),
      )

  -- What is collected and what is still behind the last identifier are all the communities.
  loop-Completes :
      (rounds : ℕ) (before : Bytes) (xs ys : List Guild) (w : W)
      → Serves
      → IsListed gs
      → xs ++ ys ≡ gs
      → communities_after before gs ≡ ys
      → length ys < rounds
      → Completes (guilds_loop fetch rounds before xs w)
  unfolding guilds_loop Serves
  loop-Completes zero before xs ys w serves listed whole behind enough = absurd (omega arith)
  loop-Completes (suc rounds) before xs ys w serves listed whole behind enough =
      next-Completes xs (take page_size ys) (fetch before w) _
        (serves before w ∙ ap (λ t. ok (take page_size t)) behind)
        (λ short. ap (λ t. xs ++ t) (whole_page ys short) ∙ whole)
        (λ long w'.
          let (ends, rest) = behind_page xs ys listed whole long in
          loop-Completes rounds (last_id (take page_size ys)) (xs ++ take page_size ys)
            (drop page_size ys) w' serves listed
            (append_assoc xs (take page_size ys) (drop page_size ys)
              ∙ (ap (λ t. xs ++ t) (take-append-drop page_size ys) ∙ whole))
            (unfold communities_after in rw (beq_ne (last_id (take page_size ys)) [] ends) rest)
            (long_rest ys long rounds enough))

  -- With a server that answers every identifier with the first 200 communities behind it, and with
  -- identifiers that are not empty and all different, the loop ends after at most as many rounds as
  -- there are communities and one more, and returns all of them in order.
  pub guilds_complete :
      (rounds : ℕ) (w : W)
      → Serves
      → IsListed gs
      → length gs < rounds
      → (guilds fetch rounds w).0 ≡ ok gs
  unfolding guilds communities_after bytes_beq
  guilds_complete rounds w serves listed enough =
      loop-Completes rounds [] [] gs w serves listed refl refl enough
