-- ===== src/Sla/Engine/States.antt =====
-- What an SLA state means, and how it moves as time goes on.
use kb_partners.Prelude.{
  ℕ, ◌+◌, ◌≤◌, ◌≡◌, ◌↔◌, true, Option, none, some, arith, Option-cases, inl, inr, sym, ◌∙◌,
}
use kb_partners.Requests.Models.{Sla}
use kb_partners.Sla.Engine.{
  SlaPolicy, SlaState, on_track, at_risk, breached, met, Stage, deadline_of, paused_seconds,
  past_fraction, stage_start, evaluate_deadline, evaluate,
}

-- The state without a deadline, and with one.
evaluate-none :
    (p : SlaPolicy) (s : Sla) (stage : Stage) (now : ℕ)
    → deadline_of stage s ≡ none
    → evaluate p (some s) stage now ≡ on_track
unfolding evaluate
evaluate-none p s stage now e = rw (e, evaluate)

evaluate-some :
    (p : SlaPolicy) (s : Sla) (stage : Stage) (now deadline : ℕ)
    → deadline_of stage s ≡ some deadline
    → evaluate p (some s) stage now ≡ evaluate_deadline p s stage deadline now
unfolding evaluate
evaluate-some p s stage now deadline e = rw (e, evaluate)

breached→late :
    (p : SlaPolicy) (s : Sla) (stage : Stage) (deadline now : ℕ)
    → evaluate_deadline p s stage deadline now ≡ breached
    → deadline + paused_seconds s.paused_intervals ≤ now
unfolding evaluate_deadline
breached→late p s stage deadline now h = ground arith

late→breached :
    (p : SlaPolicy) (s : Sla) (stage : Stage) (deadline now : ℕ)
    → deadline + paused_seconds s.paused_intervals ≤ now
    → evaluate_deadline p s stage deadline now ≡ breached
unfolding evaluate_deadline
late→breached p s stage deadline now h = ground arith

-- A stage is breached exactly when it has a deadline and the clock has reached that deadline moved
-- later by the whole length of the pauses.
pub evaluate-breached :
    (p : SlaPolicy) (s : Sla) (stage : Stage) (now : ℕ)
    → (evaluate p (some s) stage now ≡ breached) ↔ (
        (deadline : ℕ) × (deadline_of stage s ≡ some deadline)
        × (deadline + paused_seconds s.paused_intervals ≤ now))
evaluate-breached p s stage now = (
  λ h. elim (Option-cases (deadline_of stage s)) [
    | inl e ↦ absurd (cc (evaluate-none p s stage now e))
    | inr (deadline, e) ↦ (
      deadline,
      e,
      breached→late p s stage deadline now (sym (evaluate-some p s stage now deadline e) ∙ h),
    )
  ],
  λ (deadline, e, late).
      evaluate-some p s stage now deadline e ∙ late→breached p s stage deadline now late,
)

-- How bad a state is.
abbrev pub severity : SlaState → ℕ
severity met = 0
severity on_track = 1
severity at_risk = 2
severity breached = 3

fraction_mono :
    (fraction start effective now later : ℕ)
    → now ≤ later
    → past_fraction fraction start effective now ≡ true
    → past_fraction fraction start effective later ≡ true
unfolding past_fraction
fraction_mono fraction start effective now later h e = ground arith

deadline_mono :
    (p : SlaPolicy) (s : Sla) (stage : Stage) (deadline now later : ℕ)
    → now ≤ later
    → severity (evaluate_deadline p s stage deadline now)
      ≤ severity (evaluate_deadline p s stage deadline later)
unfolding evaluate_deadline
deadline_mono p s stage deadline now later h = ground (
  arith,
  fraction_mono p.at_risk_fraction (stage_start s stage deadline)
      (deadline + paused_seconds s.paused_intervals) now later h,
)

-- As the clock goes on, with the stored SLA unchanged, a stage never gets better: on track, at
-- risk, breached, in this order.
pub evaluate_mono :
    (p : SlaPolicy) (sla : Option Sla) (stage : Stage) (now later : ℕ)
    → now ≤ later
    → severity (evaluate p sla stage now) ≤ severity (evaluate p sla stage later)
evaluate_mono p none stage now later h = unfold evaluate in omega arith
evaluate_mono p (some s) stage now later h = elim (Option-cases (deadline_of stage s)) [
  | inl e ↦ rw (evaluate-none p s stage now e, evaluate-none p s stage later e) (omega arith)
  | inr (deadline, e) ↦
      rw (evaluate-some p s stage now deadline e, evaluate-some p s stage later deadline e)
        (deadline_mono p s stage deadline now later h)
]
