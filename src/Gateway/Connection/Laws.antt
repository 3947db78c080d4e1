-- ===== src/Gateway/Connection/Laws.antt =====
-- internal/fluxer/gateway.go, connect: what one payload, and then a whole connection, does to the
-- session, to its sequence and to the pending gap.
use flx.Prelude.{
  ℕ, ◌||◌, ◌&&◌, ◌≡◌, refl, sym, ◌∙◌, ◌⊎◌, inl, inr, Bool, true, false, not, List, [], ◌∷◌, ◌++◌,
  Option, none, some, Bytes, bytes_eq, codes, ℤ, pos, negsuc, ltb_ℤ, beq_ℤ, ltb, Bool-cases,
  if◌then◌else◌, arith, ◌==◌,
}
use mathlib.Core.Path.{subst}
use flx.Types.{GatewayPayload}
use flx.Gateway.{
  Gateway, Effect, write_heartbeat, mark_heartbeat_sent, on_gap, queue_presence, queue_into,
}
use flx.Gateway.Connection.{
  Decoders, World, Step, Failure, handle_payload, receive_payload, by_op, goes_on, fails, op_hello,
  op_dispatch, op_heartbeat, op_heartbeat_ack, op_reconnect, op_invalid_session, heartbeat_failed,
  hello_with, forget_session, resumable, dispatch, ready_with, activate, event_effects,
  invalid_session, run_payloads, continue_with, continue_from, after, greater, authentication,
}

-- a is not below b.
pub Reaches : ℤ → ℤ → Type 0
Reaches a b = ltb_ℤ a b ≡ false

Reaches-refl : (a : ℤ) → Reaches a a
unfolding Reaches
Reaches-refl (pos a) = ground arith
Reaches-refl (negsuc a) = ground arith

Reaches-greater : (s : Option ℤ) (a : ℤ) → Reaches (greater s a) a
unfolding Reaches
Reaches-greater none a = Reaches-refl a
Reaches-greater (some (pos s)) (pos a) = ground arith
Reaches-greater (some (pos s)) (negsuc a) = ground arith
Reaches-greater (some (negsuc s)) (pos a) = ground arith
Reaches-greater (some (negsuc s)) (negsuc a) = ground arith

is_gap : Effect → Bool
is_gap on_gap = true
is_gap _ = false

unfoldable pub reports_gap : List Effect → Bool
unfolding is_gap
reports_gap [] = false
reports_gap (e ∷ effects) = is_gap e || reports_gap effects

-- What a payload can do to the session: keep it; lose it, and remember that events may be missing;
-- or start one, and report the gap that was pending.
pub data Outcome (g : Gateway) : Gateway → List Effect → Type 0 where
  kept :
      (g' : Gateway) (effects : List Effect)
      → g'.session_id ≡ g.session_id
      → g'.gap_pending ≡ g.gap_pending
      → Reaches g'.sequence g.sequence
      → reports_gap effects ≡ false
      → Outcome g g' effects
  lost :
      (g' : Gateway) (effects : List Effect)
      → g'.session_id ≡ []
      → g'.sequence ≡ pos 0
      → g'.gap_pending ≡ true
      → reports_gap effects ≡ false
      → Outcome g g' effects
  started :
      (g' : Gateway) (effects : List Effect)
      → g'.gap_pending ≡ false
      → reports_gap effects ≡ g.gap_pending
      → Reaches g'.sequence g.sequence
      → Outcome g g' effects

StepOutcome : Gateway → Step → Type 0
StepOutcome g s = Outcome g s.gateway s.effects

-- The fields that an activation of the presence sink leaves alone.
activate_keeps :
    (g : Gateway)
    → ((activate g).session_id ≡ g.session_id)
      × ((activate g).gap_pending ≡ g.gap_pending)
      × ((activate g).sequence ≡ g.sequence)
unfolding activate queue_presence queue_into
activate_keeps g = (ground arith, ground arith, ground arith)

kept_all : (g : Gateway) (effects : List Effect) → reports_gap effects ≡ false → Outcome g g effects
kept_all g effects quiet = kept g effects refl refl (Reaches-refl g.sequence) quiet

forgotten :
    (now : ℕ) (previous : Option ℕ) (g : Gateway) (effects : List Effect)
    → reports_gap effects ≡ false
    → Outcome g (forget_session now previous g) effects
unfolding forget_session
forgotten now previous g effects quiet =
    elim (Bool-cases (not (g.session_id == []) && not (resumable now previous g))) [
      | inl e ↦ rw e (lost _ effects refl refl refl quiet)
      | inr e ↦ rw e (kept_all g effects quiet)
    ]

auth_quiet :
    (now : ℕ) (previous : Option ℕ) (g : Gateway)
    → reports_gap (authentication now previous g ∷ []) ≡ false
unfolding authentication reports_gap is_gap
auth_quiet now previous g = elim (Bool-cases (resumable now previous g)) [
  | inl e ↦ rw e refl
  | inr e ↦ rw e refl
]

hello_outcome :
    (interval : Option ℤ) (w : World) (previous : Option ℕ) (g : Gateway)
    → StepOutcome g (hello_with interval w previous g)
unfolding StepOutcome hello_with reports_gap is_gap
hello_outcome none w previous g = kept_all g [] refl
hello_outcome (some (negsuc n)) w previous g = kept_all g [] refl
hello_outcome (some (pos n)) w previous g = elim (Bool-cases (ltb 0 n)) [
  | inl e ↦ elim (Bool-cases w.write_succeeds) [
    | inl succeeds ↦ rw (e, succeeds) (forgotten w.now previous g _ (auth_quiet w.now previous g))
    | inr failed ↦ rw (e, failed) (forgotten w.now previous g _ (auth_quiet w.now previous g))
  ]
  | inr e ↦ rw e (kept_all g [] refl)
]

event_quiet : (w : World) (p : GatewayPayload) (s : ℤ) → reports_gap (event_effects w p s) ≡ false
unfolding event_effects reports_gap
event_quiet w p s = elim (Bool-cases w.event_succeeds) [ inl e ↦ rw e refl | inr e ↦ rw e refl ]

reports_gap-append :
    (xs ys : List Effect) → reports_gap (xs ++ ys) ≡ (reports_gap xs || reports_gap ys)
unfolding reports_gap
reports_gap-append [] ys = refl
reports_gap-append (x ∷ xs) ys = elim (Bool-cases (is_gap x)) [
  | inl e ↦ rw e refl
  | inr e ↦ rw e (reports_gap-append xs ys)
]

ready_effects :
    (gap : Bool) (w : World) (p : GatewayPayload) (e : Effect) (sequence : ℤ)
    → is_gap e ≡ false
    → reports_gap ((if gap then on_gap ∷ [] else []) ++ (e ∷ event_effects w p sequence)) ≡ gap
unfolding reports_gap is_gap
ready_effects true w p e sequence quiet = refl
ready_effects false w p e sequence quiet = rw quiet (event_quiet w p sequence)

-- A payload that starts or resumes a session reports a gap only where one is pending.
ready_outcome :
    (session : Option Bytes) (w : World) (p : GatewayPayload) (g : Gateway)
    → StepOutcome g (ready_with session w p g)
unfolding StepOutcome ready_with is_gap reports_gap
ready_outcome none w p g = kept_all g [] refl
ready_outcome (some id) w p g =
    let g1 = record g { session_id = id; ready_since = some w.now; gap_pending = false } in
    let (same_session, same_gap, same_sequence) = activate_keeps g1 in
    started (activate g1) _ same_gap (ready_effects g.gap_pending w p _ g.sequence refl)
      (subst (λ s. Reaches s g.sequence) (sym same_sequence) (Reaches-refl g.sequence))

dispatch_outcome :
    (decoders : Decoders) (w : World) (p : GatewayPayload) (g : Gateway)
    → StepOutcome g (dispatch decoders w p g)
unfolding StepOutcome dispatch reports_gap is_gap
dispatch_outcome decoders w p g = elim (Bool-cases (p.t == codes "READY")) [
  | inl ready ↦ rw ready (ready_outcome (decoders.ready_session p.d) w p g)
  | inr other ↦ elim (Bool-cases (p.t == codes "RESUMED")) [
    | inl resumed ↦
        let (same_session, same_gap, same_sequence) = activate_keeps g in
        rw (other, resumed)
          (kept (activate g) _ same_session same_gap
            (subst (λ s. Reaches s g.sequence) (sym same_sequence) (Reaches-refl g.sequence))
            (event_quiet w p g.sequence))
    | inr dispatched ↦
        rw (other, dispatched)
          (kept_all g _ (
            reports_gap-append (event_effects w p g.sequence) _
            ∙ rw (event_quiet w p g.sequence) refl))
  ]
]

invalid_outcome : (can_resume : Bool) (g : Gateway) → StepOutcome g (invalid_session can_resume g)
unfolding StepOutcome invalid_session reports_gap
invalid_outcome true g = kept_all g [] refl
invalid_outcome false g = lost _ [] refl refl refl refl

StepOutcome-if :
    (g : Gateway) (b : Bool) (s t : Step)
    → StepOutcome g s
    → StepOutcome g t
    → StepOutcome g (if b then s else t)
StepOutcome-if g true s t first second = first
StepOutcome-if g false s t first second = second

by_op_outcome :
    (decoders : Decoders) (w : World) (p : GatewayPayload) (previous : Option ℕ) (g : Gateway)
    → StepOutcome g (by_op decoders w p previous g)
unfolding by_op StepOutcome reports_gap is_gap
by_op_outcome decoders w p previous g =
    let beat = λ (b : Bool).
      StepOutcome-if g b (goes_on g (write_heartbeat g.sequence ∷ mark_heartbeat_sent ∷ []))
        (fails g (write_heartbeat g.sequence ∷ []) heartbeat_failed) (kept_all g _ refl)
        (kept_all g _ refl) in
    StepOutcome-if g (beq_ℤ p.op op_hello) _ _
      (hello_outcome (decoders.hello_interval p.d) w previous g)
      (StepOutcome-if g (beq_ℤ p.op op_dispatch) _ _ (dispatch_outcome decoders w p g) (
        StepOutcome-if g (beq_ℤ p.op op_heartbeat) _ _ (beat w.write_succeeds) (
          StepOutcome-if g (beq_ℤ p.op op_heartbeat_ack) _ _ (kept_all g _ refl) (
            StepOutcome-if g (beq_ℤ p.op op_reconnect) _ _ (kept_all g _ refl) (
              StepOutcome-if g (beq_ℤ p.op op_invalid_session) _ _
                (invalid_outcome (decoders.resumable p.d) g) (kept_all g _ refl))))))

Reaches-trans : (a b c : ℤ) → Reaches a b → Reaches b c → Reaches a c
unfolding Reaches
Reaches-trans (pos a) (pos b) (pos c) h k = ground arith
Reaches-trans (pos a) (pos b) (negsuc c) h k = refl
Reaches-trans (pos a) (negsuc b) (pos c) h k = ground arith
Reaches-trans (pos a) (negsuc b) (negsuc c) h k = refl
Reaches-trans (negsuc a) (pos b) (pos c) h k = ground arith
Reaches-trans (negsuc a) (pos b) (negsuc c) h k = ground arith
Reaches-trans (negsuc a) (negsuc b) (pos c) h k = ground arith
Reaches-trans (negsuc a) (negsuc b) (negsuc c) h k = ground arith

received :
    (now : ℕ) (p : GatewayPayload) (g g' : Gateway) (effects : List Effect)
    → Outcome (receive_payload now p g) g' effects
    → Outcome g g' effects
unfolding receive_payload
received now p g g' effects (kept _ _ session gap above quiet) =
    kept g' effects session gap
      (Reaches-trans g'.sequence _ g.sequence above (Reaches-greater p.s g.sequence)) quiet
received now p g g' effects (lost _ _ session sequence gap quiet) =
    lost g' effects session sequence gap quiet
received now p g g' effects (started _ _ gap reported above) =
    started g' effects gap reported
      (Reaches-trans g'.sequence _ g.sequence above (Reaches-greater p.s g.sequence))

-- Whatever payload arrives, whether or not it decodes and whether or not the writes and the event
-- handler succeed, the gateway keeps its session, its pending gap and a sequence that is not below
-- the old one; or it forgets the session, resets the sequence to zero and has a gap pending; or it
-- clears the pending gap, and the gap is reported exactly if one was pending. In the first two cases
-- no gap is reported.
pub handle_payload-Outcome :
    (decoders : Decoders) (w : World) (p : GatewayPayload) (g : Gateway)
    → Outcome g (handle_payload decoders w p g).gateway (handle_payload decoders w p g).effects
unfolding handle_payload StepOutcome
handle_payload-Outcome decoders w p g =
    received w.now p g _ _ (by_op_outcome decoders w p g.last_activity (receive_payload w.now p g))

reports_after :
    (xs ys : List Effect)
    → (reports_gap xs ≡ true) ⊎ (reports_gap ys ≡ true)
    → reports_gap (xs ++ ys) ≡ true
reports_after xs ys h = reports_gap-append xs ys ∙ ground arith

pending_or_reported :
    (g g' : Gateway) (effects : List Effect)
    → Outcome g g' effects
    → g.gap_pending ≡ true
    → (g'.gap_pending ≡ true) ⊎ (reports_gap effects ≡ true)
pending_or_reported g g' effects (kept _ _ session gap above quiet) pending = inl (gap ∙ pending)
pending_or_reported g g' effects (lost _ _ session sequence gap quiet) pending = inl gap
pending_or_reported g g' effects (started _ _ gap reported above) pending = inr (reported ∙ pending)

continue_reports :
    (failure : Option Failure) (s : Step) (next : Gateway → Step)
    → (s.gateway.gap_pending ≡ true
        → (next s.gateway).gateway.gap_pending ≡ false
        → reports_gap (next s.gateway).effects ≡ true)
    → (s.gateway.gap_pending ≡ true) ⊎ (reports_gap s.effects ≡ true)
    → (continue_from failure s next).gateway.gap_pending ≡ false
    → reports_gap (continue_from failure s next).effects ≡ true
unfolding continue_from after
continue_reports none s next rest (inl pending) cleared =
    reports_after s.effects _ (inr (rest pending cleared))
continue_reports none s next rest (inr reported) cleared = reports_after s.effects _ (inl reported)
continue_reports (some failure) s next rest (inl pending) cleared = ground arith
continue_reports (some failure) s next rest (inr reported) cleared = reported

-- A pending gap is not lost: a connection that begins with a gap pending and ends with none has
-- reported it, whatever payloads came.
pub run_payloads-reports :
    (decoders : Decoders) (ps : List (World × GatewayPayload)) (g : Gateway)
    → g.gap_pending ≡ true
    → (run_payloads decoders ps g).gateway.gap_pending ≡ false
    → reports_gap (run_payloads decoders ps g).effects ≡ true
unfolding run_payloads continue_with
run_payloads-reports decoders [] g pending cleared = ground arith
run_payloads-reports decoders ((w, p) ∷ rest) g pending cleared =
    let step = handle_payload decoders w p g in
    continue_reports step.failure step (run_payloads decoders rest)
      (run_payloads-reports decoders rest step.gateway)
      (pending_or_reported g step.gateway step.effects (handle_payload-Outcome decoders w p g)
        pending)
      cleared
