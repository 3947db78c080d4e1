-- ===== src/Gateway/Reconnect.antt =====
-- internal/fluxer/gateway.go, Run: the attempts to connect and the waits between them. Durations are
-- nanoseconds. A context that has ended before an attempt makes it `finished`. The callbacks
-- OnReconnect, OnState and OnError, which Run calls between these steps, are left out.
use native.Mathlib.Nat.{pow-succ'}
use flx.Prelude.{
  ℕ, suc, ◌+◌, ◌*◌, ◌/◌, ◌^◌, ◌≤◌, ◌<◌, min, ◌≡◌, Bool, true, false, List, [], ◌∷◌, ltb,
  if◌then◌else◌, All, arith,
}

abbrev pub second : ℕ
second = 1000000000

-- How connect comes back: with nothing or a cancelled context, with a fatal error, or with another
-- error, and then whether the context ends during the wait.
pub data Ending : Type 0 where
  finished fatal failed cancelled_wait : Ending

-- One attempt: whether it reached READY, how it ended, and what rand.Int63n answers after it.
pub record Attempt : Type 0 where
  pub was_ready : Bool
  pub ending : Ending
  pub int63n : ℕ → ℕ

-- Int63n answers a number below its argument, which has to be positive.
unfoldable pub IsRandom : Attempt → Type 0
IsRandom a = (n : ℕ) → 0 < n → a.int63n n < n

pub data RunEnd : Type 0 where
  run_nil run_fatal still_running : RunEnd

-- The waits in order, and how Run returns.
pub record Run : Type 0 where
  pub waits : List ℕ
  pub returned : RunEnd

-- if backoff < 60*time.Second { backoff *= 2; if backoff > 60*time.Second { ... } }
unfoldable pub next_backoff : ℕ → ℕ
next_backoff backoff =
    if ltb backoff (60 * second)
    then (if ltb (60 * second) (2 * backoff) then 60 * second else 2 * backoff)
    else backoff

unfoldable pub reset_backoff : Bool → ℕ → ℕ
reset_backoff true backoff = second
reset_backoff false backoff = backoff

unfoldable pub wait : Attempt → ℕ → ℕ
wait a backoff = backoff + a.int63n (backoff / 4 + 1)

ended : Ending → Attempt → ℕ → Run → Run
unfolding wait
ended finished a backoff rest = record { waits = []; returned = run_nil }
ended fatal a backoff rest = record { waits = []; returned = run_fatal }
ended failed a backoff rest = record rest { waits = wait a backoff ∷ rest.waits }
ended cancelled_wait a backoff rest = record { waits = wait a backoff ∷ []; returned = run_nil }

-- The loop of Run on the attempts that the world answers with, from a backoff.
unfoldable pub run_attempts : List Attempt → ℕ → Run
unfolding ended
run_attempts [] backoff = record { waits = []; returned = still_running }
run_attempts (a ∷ attempts) backoff =
    let reset = reset_backoff a.was_ready backoff in
    ended a.ending a reset (run_attempts attempts (next_backoff reset))

unfoldable pub run_gateway : List Attempt → Run
run_gateway attempts = run_attempts attempts second

-- The backoff stays between a second and a minute.
IsBackoff : ℕ → Type 0
IsBackoff n = (second ≤ n) × (n ≤ 60 * second)

-- A wait is a backoff and at most a quarter more.
unfoldable pub IsWait : ℕ → Type 0
IsWait n = (second ≤ n) × (n ≤ 75 * second)

reset_bounds : (b : Bool) (n : ℕ) → IsBackoff n → IsBackoff (reset_backoff b n)
unfolding reset_backoff IsBackoff
reset_bounds true n h = (omega arith, omega arith)
reset_bounds false n h = h

next_bounds : (n : ℕ) → IsBackoff n → IsBackoff (next_backoff n)
unfolding next_backoff IsBackoff
next_bounds n (low, high) = (ground arith, ground arith)

wait_bounds : (a : Attempt) (n : ℕ) → IsRandom a → IsBackoff n → IsWait (wait a n)
unfolding IsBackoff IsWait wait IsRandom
wait_bounds a n random (low, high) =
    let drawn : a.int63n (n / 4 + 1) < n / 4 + 1 = random (n / 4 + 1) (omega arith) in
    (omega arith, omega arith)

ended_waits :
    (ending : Ending) (a : Attempt) (n : ℕ) (rest : Run)
    → IsWait (wait a n)
    → All IsWait rest.waits
    → All IsWait (ended ending a n rest).waits
unfolding ended
ended_waits finished a n rest h hs = tt
ended_waits fatal a n rest h hs = tt
ended_waits failed a n rest h hs = (h, hs)
ended_waits cancelled_wait a n rest h hs = (h, tt)

waits_from :
    (attempts : List Attempt) (n : ℕ)
    → All IsRandom attempts
    → IsBackoff n
    → All IsWait (run_attempts attempts n).waits
unfolding run_attempts
waits_from [] n h k = tt
waits_from (a ∷ attempts) n (h, hs) k =
    let r = reset_backoff a.was_ready n in
    let rk = reset_bounds a.was_ready n k in
    ended_waits a.ending a r _ (wait_bounds a r h rk)
      (waits_from attempts (next_backoff r) hs (next_bounds r rk))

-- Every wait between two attempts is at least one second and at most 75 seconds, however the
-- attempts end, where the random source keeps its range.
pub run_gateway-waits :
    (attempts : List Attempt) → All IsRandom attempts → All IsWait (run_gateway attempts).waits
unfolding run_gateway IsBackoff
run_gateway-waits attempts random = waits_from attempts second random (omega arith, omega arith)

-- The k-th wait of the list is at least 2 to the k seconds, or a minute.
unfoldable pub Doubles : ℕ → List ℕ → Type 0
Doubles k [] = Unit
Doubles k (n ∷ ns) = (min (2 ^ k * second) (60 * second) ≤ n) × Doubles (suc k) ns

next_capped :
    (m : ℕ) → next_backoff (min (m * second) (60 * second)) ≡ min (2 * m * second) (60 * second)
unfolding next_backoff
next_capped m = ground arith

next_doubles :
    (k : ℕ)
    → next_backoff (min (2 ^ k * second) (60 * second)) ≡ min (2 ^ suc k * second) (60 * second)
next_doubles k = rw (pow-succ' 2 k) (next_capped (2 ^ k))

ended-Doubles :
    (ending : Ending) (a : Attempt) (k : ℕ) (rest : Run)
    → Doubles (suc k) rest.waits
    → Doubles k (ended ending a (min (2 ^ k * second) (60 * second)) rest).waits
unfolding ended Doubles wait
ended-Doubles finished a k rest h = tt
ended-Doubles fatal a k rest h = tt
ended-Doubles failed a k rest h = (omega arith, h)
ended-Doubles cancelled_wait a k rest h = (omega arith, tt)

IsNeverReady : Attempt → Type 0
IsNeverReady a = a.was_ready ≡ false

reset_unready : (b : Bool) (n : ℕ) → b ≡ false → reset_backoff b n ≡ n
unfolding reset_backoff
reset_unready b n h = ground arith

Doubles-from :
    (attempts : List Attempt) (k : ℕ)
    → All IsNeverReady attempts
    → Doubles k (run_attempts attempts (min (2 ^ k * second) (60 * second))).waits
unfolding Doubles run_attempts IsNeverReady
Doubles-from [] k h = tt
Doubles-from (a ∷ attempts) k (h, hs) =
    rw (reset_unready a.was_ready _ h, next_doubles k)
      (ended-Doubles a.ending a k _ (Doubles-from attempts (suc k) hs))

-- While no attempt gets ready, the wait after the k-th attempt, counted from zero, is at least
-- 2 to the k seconds, or at least a minute where that is less.
pub run_gateway-Doubles :
    (attempts : List Attempt)
    → All (λ (a : Attempt). a.was_ready ≡ false) attempts
    → Doubles 0 (run_gateway attempts).waits
unfolding run_gateway IsNeverReady
run_gateway-Doubles attempts h = Doubles-from attempts 0 h
