-- ===== src/Sla/Engine.antt =====
-- backend/src/api/sla/engine.py: deadlines put on a request, and its state evaluated on reading.
-- The stored ISO texts are read back as the instants that they stand for; the float fraction is a
-- number of millionths.
pub mod States
use kb_partners.Prelude.{
  ℕ, zero, suc, ◌+◌, ◌-◌, ◌*◌, Bool, true, false, ◌&&◌, Option, none, some, List, [], ◌∷◌, ltb, leb,
  is_some, or_else, not, if◌then◌else◌, Result, ok, err,
}
use kb_partners.Errors.{internal}
use kb_partners.Config.{Settings}
use kb_partners.Sla.Calendar.{BusinessCalendar, day, add_business_seconds}
use kb_partners.Requests.Models.{Sla, Pause, span, malformed}

pub data SlaState : Type 0 where
  on_track at_risk breached met : SlaState

pub record SlaPolicy : Type 0 where
  pub calendar : BusinessCalendar
  pub accept_hours : ℕ
  pub perform_hours : ℕ
  pub at_risk_fraction : ℕ

unfoldable pub from_settings : Settings → SlaPolicy
from_settings s = record {
  calendar = record {
    timezone = s.sla_timezone;
    open_hour = s.sla_business_open_hour;
    close_hour = s.sla_business_close_hour;
    business_days = s.sla_business_days;
  };
  accept_hours = s.sla_accept_hours;
  perform_hours = s.sla_perform_hours;
  at_risk_fraction = s.sla_at_risk_fraction;
}

-- `{}`
abbrev pub no_sla : Sla
no_sla = record {
  accept_deadline = none;
  accept_started_at = none;
  perform_deadline = none;
  perform_started_at = none;
  paused_intervals = none;
}

-- `setdefault("paused_intervals", [])`
abbrev pub default_pauses : Option (List Pause) → Option (List Pause)
default_pauses none = some []
default_pauses (some l) = some l

-- The two deadline setters end alike: the deadline, or the ValueError of the calendar.
abbrev pub with_deadline : Option ℕ → (ℕ → Sla) → Result Sla
with_deadline none f = err internal
with_deadline (some deadline) f = ok (f deadline)

unfoldable pub set_accept_deadline : SlaPolicy → Option Sla → ℕ → Result Sla
set_accept_deadline p sla dispatched_at =
    let updated = or_else sla no_sla in
    with_deadline (add_business_seconds p.calendar dispatched_at p.accept_hours) (λ deadline.
      record updated {
        accept_deadline = some deadline;
        paused_intervals = default_pauses updated.paused_intervals;
      })

unfoldable pub set_perform_deadline : SlaPolicy → Option Sla → ℕ → Result Sla
set_perform_deadline p sla accepted_at =
    let updated = or_else sla no_sla in
    with_deadline (add_business_seconds p.calendar accepted_at p.perform_hours) (λ deadline.
      record updated {
        perform_deadline = some deadline;
        paused_intervals = default_pauses updated.paused_intervals;
      })

-- `deadline_key`
pub data Stage : Type 0 where
  accept perform : Stage

abbrev pub deadline_of : Stage → Sla → Option ℕ
deadline_of accept s = s.accept_deadline
deadline_of perform s = s.perform_deadline

abbrev pub started_at_of : Stage → Sla → Option ℕ
started_at_of accept s = s.accept_started_at
started_at_of perform s = s.perform_started_at

-- `max(0.0, end - start)` of each interval that parses
unfoldable pub sum_pauses : List Pause → ℕ
sum_pauses [] = 0
sum_pauses (span start end ∷ rest) = (end - start) + sum_pauses rest
sum_pauses (malformed ∷ rest) = sum_pauses rest

unfoldable pub paused_seconds : Option (List Pause) → ℕ
paused_seconds none = 0
paused_seconds (some intervals) = sum_pauses intervals

unfoldable pub stage_start : Sla → Stage → ℕ → ℕ
stage_start s stage deadline = or_else (started_at_of stage s) (deadline - day)

-- `total > 0 and elapsed / total >= fraction`
unfoldable pub past_fraction : (fraction start effective now : ℕ) → Bool
past_fraction fraction start effective now =
    ltb start effective
    && (leb start now && leb (fraction * (effective - start)) ((now - start) * 1000000))

unfoldable pub evaluate_deadline : SlaPolicy → Sla → Stage → ℕ → ℕ → SlaState
evaluate_deadline p s stage deadline now =
    let effective = deadline + paused_seconds s.paused_intervals in
    if leb effective now
    then breached
    else if past_fraction p.at_risk_fraction (stage_start s stage deadline) effective now
    then at_risk
    else on_track

unfoldable pub evaluate : SlaPolicy → Option Sla → Stage → ℕ → SlaState
evaluate p none stage now = on_track
evaluate p (some s) stage now = elim (deadline_of stage s) [
  | none ↦ on_track
  | some deadline ↦ evaluate_deadline p s stage deadline now
]

pub record SlaView : Type 0 where
  pub sla : Sla
  pub accept_state : SlaState
  pub perform_state : SlaState

-- `not sla` for a dict: it has no key.
abbrev pub is_empty_sla : Sla → Bool
is_empty_sla s =
    not (is_some s.accept_deadline)
    && (not (is_some s.accept_started_at)
        && (not (is_some s.perform_deadline)
            && (not (is_some s.perform_started_at) && not (is_some s.paused_intervals))))

unfoldable pub sla_view :
    Option Sla → (accepted_at done_at : Option ℕ) → SlaPolicy → (now : ℕ) → Option SlaView
sla_view none accepted_at done_at p now = none
sla_view (some s) accepted_at done_at p now =
    if is_empty_sla s
    then none
    else some (record {
      sla = s;
      accept_state = if is_some accepted_at then met else evaluate p (some s) accept now;
      perform_state =
          if is_some done_at
          then met
          else if is_some accepted_at
          then evaluate p (some s) perform now
          else on_track;
    })
