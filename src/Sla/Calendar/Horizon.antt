-- ===== src/Sla/Calendar/Horizon.antt =====
-- The horizon of the deadline search is far enough: it never raises for amounts up to 260 windows.
use kb_partners.Prelude.{
  ℕ, zero, suc, ◌+◌, ◌-◌, ◌*◌, ◌%◌, ◌<◌, ◌≤◌, ◌≡◌, true, none, some, arith, Option-cases, inl, inr,
}
use kb_partners.Sla.Calendar.{
  BusinessCalendar, day, hour, weekday, midnight, day_in, segment_start, has_segment, finish, left,
  search_day, add_business_seconds,
}
use kb_partners.Sla.Calendar.Hours.{close_of_lem}
use kb_partners.Sla.Calendar.Deadline.{HasHours}

-- The length of a full window.
abbrev pub window : BusinessCalendar → ℕ
window c = (c.close_hour - c.open_hour) * hour

left-le : (c : BusinessCalendar) (cursor amount : ℕ) → left c cursor amount ≤ amount
unfolding left
left-le c cursor amount = ground arith

-- At midnight of a working day the whole window is there.
full_window :
    (c : BusinessCalendar) (v : HasHours c) (cursor amount : ℕ)
    → cursor ≡ midnight cursor
    → day_in (weekday cursor) c.business_days ≡ true
    → finish c cursor amount ≡ none
    → (window c < amount) × (left c cursor amount ≡ amount - window c)
unfolding finish left has_segment segment_start
full_window c v cursor amount m d h = ground (arith, close_of_lem c cursor, v.ordered, v.in_day)

module _ (c : BusinessCalendar) (v : HasHours c) (d : ℕ)
    (working_day : day_in d c.business_days ≡ true) where
  -- `wait` days before a working day, `n` windows and as many weeks are enough.
  reach :
      (days n wait cursor amount : ℕ)
      → cursor ≡ midnight cursor
      → wait < 7
      → (weekday cursor + wait) % 7 ≡ d
      → amount ≤ suc n * window c
      → 7 * n + wait < days
      → (deadline : ℕ) × (search_day c days cursor amount ≡ some deadline)
  unfolding search_day
  reach zero n wait cursor amount m w e a b = absurd (omega arith)
  reach (suc days) zero zero cursor amount m w e a b =
      elim (Option-cases (finish c cursor amount)) [
        | inr (deadline, found) ↦ (deadline, rw (found, search_day))
        | inl missing ↦
            let today : weekday cursor ≡ d = omega arith in
            let full = full_window c v cursor amount m (rw today working_day) missing in
            absurd (omega (arith, full.0))
      ]
  reach (suc days) (suc n) zero cursor amount m w e a b =
      elim (Option-cases (finish c cursor amount)) [
        | inr (deadline, found) ↦ (deadline, rw (found, search_day))
        | inl missing ↦
            let today : weekday cursor ≡ d = omega arith in
            let full = full_window c v cursor amount m (rw today working_day) missing in
            rw (missing, search_day)
              (reach days n 6 (midnight (cursor + day)) (left c cursor amount) (omega arith)
                (omega arith) (omega arith) (omega (arith, full.0, full.1)) (omega arith))
      ]
  reach (suc days) n (suc wait) cursor amount m w e a b =
      elim (Option-cases (finish c cursor amount)) [
        | inr (deadline, found) ↦ (deadline, rw (found, search_day))
        | inl missing ↦
            rw (missing, search_day)
              (reach days n wait (midnight (cursor + day)) (left c cursor amount) (omega arith)
                (omega arith) (omega arith) (omega (arith, left-le c cursor amount)) (omega arith))
      ]

-- From any instant, with the rest of its day on top.
reach_any :
    (c : BusinessCalendar) (d : ℕ) (days cursor amount : ℕ)
    → HasHours c
    → d < 7
    → day_in d c.business_days ≡ true
    → amount ≤ 260 * window c
    → 7 * 259 + 6 < days
    → (deadline : ℕ) × (search_day c (suc days) cursor amount ≡ some deadline)
unfolding search_day
reach_any c d days cursor amount v lt7 works enough far =
    elim (Option-cases (finish c cursor amount)) [
      | inr (deadline, found) ↦ (deadline, rw (found, search_day))
      | inl missing ↦
          let next = midnight (cursor + day) in
          rw (missing, search_day)
            (reach c v d works days 259 ((d + 7 - weekday next) % 7) next (left c cursor amount)
              (omega arith) (omega arith) (omega arith) (omega (arith, left-le c cursor amount))
              (omega arith))
    ]

-- With valid hours and a working weekday the deadline of any amount of at most 260 full windows
-- exists: the loop ends before its horizon of 1830 days, and no ValueError is raised.
pub add_business_seconds-total :
    (c : BusinessCalendar) (d start amount : ℕ)
    → HasHours c
    → d < 7
    → day_in d c.business_days ≡ true
    → amount ≤ 260 * window c
    → (deadline : ℕ) × (add_business_seconds c start amount ≡ some deadline)
unfolding add_business_seconds
add_business_seconds-total c d start amount v lt7 works enough =
    let found =
      reach_any c d 1829 (c.timezone.to_wall start) amount v lt7 works enough (omega arith) in
    (c.timezone.to_utc found.0, rw found.1)
