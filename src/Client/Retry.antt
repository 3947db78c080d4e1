-- ===== src/Client/Retry.antt =====
-- internal/fluxer/client.go, do: the loop ends with its context.
use flx.Prelude.{
  ℕ, zero, suc, ◌+◌, ◌≤◌, ◌<◌, ◌≡◌, ◌≢◌, refl, Bool, true, false, Option, none, some, Bytes, Result,
  err, nat_beq, ltb, leb, ◌||◌, arith, Bool-cases, Option-cases, [], ◌==◌, bytes_eq, inl, inr, ℤ,
  pos, negsuc,
}
use flx.Client.{
  Request, Response, Sent, not_sent, unreadable, replied, Http, ApiError, ClientError, exhausted,
  decode_api_error, wait_allowed, answer, waited, rate_limited, handle_sent, do_loop,
}

-- A context with a deadline: what is left of it does not grow, and a timer that comes first takes
-- its duration from it.
pub record IsBounded {W : Type 0} (http : Http W) (left : W → ℕ) : Type 0 where
  pub sends : (req : Request) (w : W) → left (http.send req w).1 ≤ left w
  pub waits : (n : ℕ) (w : W) → (http.wait n w).0 ≡ true → left (http.wait n w).1 + n ≤ left w

module _ {W : Type 0} (http : Http W) where
  allowed_pos : (z : ℤ) (n : ℕ) → wait_allowed http z ≡ some n → 0 < n
  unfolding wait_allowed
  allowed_pos (pos zero) n h = cc
  allowed_pos (pos (suc m)) n h = ground arith
  allowed_pos (negsuc m) n h = cc

module _ {W : Type 0} (http : Http W) (left : W → ℕ) (bounded : IsBounded http left)
    {A : Type 0} where
  -- The loop stopped by itself.
  abbrev Stops : Result ClientError (Option A) × W → Type 0
  Stops r = r.0 ≢ err exhausted

  waited-Stops :
      (b : Bool) (w : W) (again : W → Result ClientError (Option A) × W)
      → (b ≡ true → Stops (again w))
      → Stops (waited http (b, w) again)
  unfolding waited
  waited-Stops true w again h = h refl
  waited-Stops false w again h = λ e. cc

  limited-Stops :
      (e : ApiError) (o : Option ℕ) (w : W) (again : W → Result ClientError (Option A) × W)
      → ((n : ℕ) → o ≡ some n → (http.wait n w).0 ≡ true → Stops (again (http.wait n w).1))
      → Stops (rate_limited http e o w again)
  unfolding rate_limited
  limited-Stops e none w again h = λ x. cc
  limited-Stops e (some n) w again h =
      waited-Stops (http.wait n w).0 (http.wait n w).1 again (h n refl)

  answer_stops :
      (out : Option (Bytes → Option A)) (r : Response) → answer http out r ≢ err exhausted
  unfolding answer
  answer_stops none r h = cc
  answer_stops (some decode) r h = elim (Bool-cases (nat_beq r.status 204 || r.payload == [])) [
    | inl e ↦ let h' = rw e at h in cc
    | inr e ↦ elim (Option-cases (decode r.payload)) [
      | inl f ↦ let h' = rw (e, f) at h in cc
      | inr (a, f) ↦ let h' = rw (e, f) at h in cc
    ]
  ]

  sent-Stops :
      (out : Option (Bytes → Option A)) (s : Sent) (w : W)
      (again : W → Result ClientError (Option A) × W)
      → ((n : ℕ) → 0 < n → (http.wait n w).0 ≡ true → Stops (again (http.wait n w).1))
      → Stops (handle_sent http out (s, w) again)
  unfolding handle_sent
  sent-Stops out not_sent w again h = λ x. cc
  sent-Stops out unreadable w again h = λ x. cc
  sent-Stops out (replied r) w again h = elim (Bool-cases (nat_beq r.status 429)) [
    | inl e ↦ rw e (
        limited-Stops (decode_api_error http r) _ w again (λ n allowed first.
          h n (allowed_pos http (decode_api_error http r).retry_after n allowed) first))
    | inr e ↦ elim (Bool-cases (ltb r.status 200 || leb 300 r.status)) [
      | inl f ↦ rw (e, f) (λ x. cc)
      | inr f ↦ rw (e, f) (answer_stops out r)
    ]
  ]

  -- With a deadline the request loop ends: a number of rounds above the nanoseconds that are left is
  -- enough, however often the server answers that the rate is limited.
  pub do_loop-Stops :
      (rounds : ℕ) (out : Option (Bytes → Option A)) (req : Request) (w : W)
      → left w < rounds
      → (do_loop http rounds out req w).0 ≢ err exhausted
  unfolding do_loop
  do_loop-Stops zero out req w h = absurd (omega arith)
  do_loop-Stops (suc rounds) out req w h =
      let s = http.send req w in
      sent-Stops out s.0 s.1 (λ w'. do_loop http rounds out req w')
        (λ n positive first.
          do_loop-Stops rounds out req (http.wait n s.1).1
            (omega (arith, bounded.sends req w, bounded.waits n s.1 first)))
