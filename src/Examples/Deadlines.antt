-- ===== src/Examples/Deadlines.antt =====
-- Runs of the business calendar and of the SLA on a Thursday.
use kb_partners.Prelude.{
  ℕ, ◌-◌, ◌≤◌, ◌≡◌, refl, inl, inr, none, some, [], ◌∷◌, select, sort_by, insert_by, arith,
}
use kb_partners.Sla.Calendar.{
  BusinessCalendar, search_day, add_business_seconds, finish, segment_start, has_segment, close_of,
}
use kb_partners.Sla.Calendar.Hours.{working}
use kb_partners.Sla.Calendar.Deadline.{HasHours, add_business_seconds-working}
use kb_partners.Sla.Calendar.Horizon.{add_business_seconds-total}
use kb_partners.Sla.Engine.{
  from_settings, accept, evaluate, evaluate_deadline, paused_seconds, sum_pauses,
}
use kb_partners.Requests.Enums.{dispatched}
use kb_partners.Requests.Models.{ServiceRequest}
use kb_partners.Automation.Timers.{list_accept_overdue}
use kb_partners.Automation.Timers.Overdue.{Holds, list_accept_overdue_complete}
use kb_partners.Sla.Engine.States.{severity, evaluate_mono}
use kb_partners.Requests.Models.{Sla, span}
use kb_partners.Examples.{settings, request_at}

abbrev weekdays : BusinessCalendar
weekdays = (from_settings settings).calendar

pub weekdays-HasHours : HasHours weekdays
unfolding from_settings
weekdays-HasHours = record { ordered = omega arith; in_day = omega arith }

add_business_seconds-total_example :
    (deadline : ℕ) × (add_business_seconds weekdays 43200000000 7200000000 ≡ some deadline)
unfolding from_settings
add_business_seconds-total_example =
    add_business_seconds-total weekdays 3 43200000000 7200000000 weekdays-HasHours (omega arith)
      refl (omega arith)

-- From 12:00, two hours of work end at 14:00.
add_business_seconds-working_example :
    (wall : ℕ) × (50400000000 ≡ weekdays.timezone.to_utc wall)
    × (weekdays.timezone.to_wall 43200000000 ≤ wall)
    × (working weekdays
          (weekdays.timezone.to_wall 43200000000)
          (wall - weekdays.timezone.to_wall 43200000000)
        ≡ 7200000000)
unfolding from_settings add_business_seconds search_day finish segment_start has_segment close_of
add_business_seconds-working_example =
    add_business_seconds-working weekdays 43200000000 7200000000 50400000000 weekdays-HasHours refl

abbrev running : Sla
running = record {
  accept_deadline = some 100;
  accept_started_at = some 0;
  perform_deadline = none;
  perform_started_at = none;
  paused_intervals = some (span 10 30 ∷ []);
}

evaluate_mono_example :
    severity (evaluate (from_settings settings) (some running) accept 50)
    ≤ severity (evaluate (from_settings settings) (some running) accept 130)
evaluate_mono_example =
    evaluate_mono (from_settings settings) (some running) accept 50 130 (omega arith)

abbrev waiting : ServiceRequest
waiting = record (request_at dispatched) { sla = some running }

list_accept_overdue_complete_example :
    Holds waiting (list_accept_overdue 120 1 (request_at dispatched ∷ waiting ∷ []))
unfolding list_accept_overdue select sort_by insert_by evaluate evaluate_deadline from_settings
    paused_seconds sum_pauses
list_accept_overdue_complete_example =
    list_accept_overdue_complete (from_settings settings) 120 1
      (request_at dispatched ∷ waiting ∷ []) waiting (omega arith) (inr (inl refl)) refl refl
      (λ e. ground arith)
