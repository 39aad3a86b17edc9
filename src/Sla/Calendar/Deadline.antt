-- ===== src/Sla/Calendar/Deadline.antt =====
-- The deadline search hands out exactly the working time that was asked for.
use kb_partners.Prelude.{
  ℕ, zero, suc, ◌+◌, ◌-◌, ◌<◌, ◌≤◌, ◌≡◌, refl, true, false, none, some, arith, Bool-cases,
  Option-cases, inl, inr, ◌∙◌,
}
use kb_partners.Sla.Calendar.{
  BusinessCalendar, day, weekday, midnight, at_hour, day_in, close_of, segment_start, has_segment,
  finish, left, search_day, add_business_seconds, max_days,
}
use kb_partners.Sla.Calendar.Hours.{
  working, working-add, working_closed, working_open, close_of_lem, open_at-day,
}

-- The part of `valid` that the search needs.
pub record HasHours (c : BusinessCalendar) : Type 0 where
  pub ordered : c.open_hour < c.close_hour
  pub in_day : c.close_hour ≤ 24

-- Working time adds up along the wall clock.
split_working :
    (c : BusinessCalendar) (t m u : ℕ)
    → t ≤ m
    → m ≤ u
    → working c t (u - t) ≡ working c t (m - t) + working c m (u - m)
split_working c t m u h k =
    let total : u - t ≡ (m - t) + (u - m) = omega arith in
    let middle : t + (m - t) ≡ m = omega arith in
    rw total (working-add c t (m - t) (u - m) ∙ rw middle refl)

module _ (c : BusinessCalendar) (v : HasHours c) (cursor : ℕ) where
  pub segment_bounds :
      (midnight cursor ≤ segment_start c cursor)
      × (cursor ≤ segment_start c cursor)
      × (at_hour cursor c.open_hour ≤ segment_start c cursor)
      × (close_of c cursor ≤ midnight cursor + day)
  unfolding segment_start
  segment_bounds = ground (arith, close_of_lem c cursor)

  pub segment_end :
      has_segment c cursor ≡ true
      → (segment_start c cursor < close_of c cursor)
        × (day_in (weekday cursor) c.business_days ≡ true)
  unfolding has_segment
  segment_end h = ground arith

  pub next_midnight : midnight (cursor + day) ≡ midnight cursor + day
  next_midnight = omega arith

  -- Before the window of the day nothing is open.
  before_segment : (n : ℕ) → cursor + n ≤ segment_start c cursor → working c cursor n ≡ 0
  unfolding segment_start
  before_segment n k = working_closed c cursor n (λ i lo hi.
      let in_day : i < midnight cursor + day = ground (arith, v.ordered, v.in_day) in
      rw (open_at-day c cursor i (omega arith) in_day) (ground arith))

  in_segment :
      (n : ℕ)
      → has_segment c cursor ≡ true
      → segment_start c cursor + n ≤ close_of c cursor
      → working c (segment_start c cursor) n ≡ n
  in_segment n h k =
      let e = segment_end h in
      let b = segment_bounds in
      working_open c (segment_start c cursor) n (λ i lo hi.
        rw (open_at-day c cursor i (omega arith) (omega arith), e.1)
          (ground (arith, close_of_lem c cursor)))

  -- After the window nothing is open until midnight.
  after_segment :
      (t n : ℕ)
      → close_of c cursor ≤ t
      → midnight cursor ≤ t
      → t + n ≤ midnight cursor + day
      → working c t n ≡ 0
  after_segment t n h lo k = working_closed c t n (λ i a b.
      rw (open_at-day c cursor i (omega arith) (omega arith))
        (ground (arith, close_of_lem c cursor)))

  -- On a day with no window left nothing is open until midnight.
  no_segment :
      (n : ℕ)
      → has_segment c cursor ≡ false
      → cursor + n ≤ midnight cursor + day
      → working c cursor n ≡ 0
  unfolding has_segment segment_start
  no_segment n h k = working_closed c cursor n (λ i a b.
      rw (open_at-day c cursor i (omega arith) (omega arith))
        (ground (arith, close_of_lem c cursor)))

  pub finish_lem :
      (amount deadline : ℕ)
      → finish c cursor amount ≡ some deadline
      → (cursor ≤ deadline) × (working c cursor (deadline - cursor) ≡ amount)
  unfolding finish
  finish_lem amount deadline h =
      let now : has_segment c cursor ≡ true = ground arith in
      let at : deadline ≡ segment_start c cursor + amount = ground arith in
      let fits : segment_start c cursor + amount ≤ close_of c cursor =
        ground (arith, segment_end now) in
      let b = segment_bounds in
      let early = before_segment (segment_start c cursor - cursor) (omega arith) in
      let window = in_segment amount now fits in
      let parts =
        split_working c cursor (segment_start c cursor) (segment_start c cursor + amount) b.1
          (omega arith) in
      let rest : segment_start c cursor + amount - segment_start c cursor ≡ amount = omega arith in
      (omega arith, rw at (parts ∙ rw (rest, early, window) (omega arith)))

  full_day :
      has_segment c cursor ≡ true
      → working c cursor (midnight (cursor + day) - cursor)
        ≡ close_of c cursor - segment_start c cursor
  full_day now =
      let b = segment_bounds in
      let e = segment_end now in
      let early = before_segment (segment_start c cursor - cursor) (omega arith) in
      let window = in_segment (close_of c cursor - segment_start c cursor) now (omega arith) in
      let late =
        after_segment (close_of c cursor) (midnight (cursor + day) - close_of c cursor)
          (omega arith) (omega arith) (omega (arith, next_midnight)) in
      let outer =
        split_working c cursor (segment_start c cursor) (midnight (cursor + day)) b.1
          (omega (arith, next_midnight)) in
      let inner =
        split_working c (segment_start c cursor) (close_of c cursor) (midnight (cursor + day))
          (omega arith) (omega (arith, next_midnight)) in
      omega (arith, outer, inner, early, window, late)

  left_lem :
      (amount : ℕ)
      → finish c cursor amount ≡ none
      → working c cursor (midnight (cursor + day) - cursor) + left c cursor amount ≡ amount
  unfolding finish left
  left_lem amount h = elim (Bool-cases (has_segment c cursor)) [
    | inl now ↦
        let whole = full_day now in
        let over : close_of c cursor - segment_start c cursor < amount = ground arith in
        rw now (omega (arith, whole))
    | inr closed ↦
        rw closed
          (omega (arith, no_segment (midnight (cursor + day) - cursor) closed (omega arith)))
  ]

-- A deadline that the search finds lies at or after the start, and exactly the asked amount of
-- working time lies between them.
search_day-working :
    (c : BusinessCalendar) (v : HasHours c) (days cursor amount deadline : ℕ)
    → search_day c days cursor amount ≡ some deadline
    → (cursor ≤ deadline) × (working c cursor (deadline - cursor) ≡ amount)
unfolding search_day
search_day-working c v zero cursor amount deadline h = cc
search_day-working c v (suc days) cursor amount deadline h =
    elim (Option-cases (finish c cursor amount)) [
      | inl missing ↦
          let ih =
            search_day-working c v days (midnight (cursor + day)) (left c cursor amount) deadline
              (rw (missing, search_day) at h) in
          let later = next_midnight c v cursor in
          let parts =
            split_working c cursor (midnight (cursor + day)) deadline (omega arith) ih.0 in
          (omega (arith, ih.0), omega (arith, parts, ih.1, left_lem c v cursor amount missing))
      | inr (d, found) ↦
          finish_lem c v cursor amount deadline (found ∙ (rw (found, search_day) at h))
    ]

-- On a calendar with valid hours, the business deadline of a start and an amount of working time
-- is the conversion of a wall-clock instant at or after the start, and the working time between the
-- two, counted instant by instant, is exactly that amount.
pub add_business_seconds-working :
    (c : BusinessCalendar) (start amount deadline : ℕ)
    → HasHours c
    → add_business_seconds c start amount ≡ some deadline
    → (wall : ℕ) × (deadline ≡ c.timezone.to_utc wall)
      × (c.timezone.to_wall start ≤ wall)
      × (working c (c.timezone.to_wall start) (wall - c.timezone.to_wall start) ≡ amount)
unfolding add_business_seconds
add_business_seconds-working c start amount deadline v h =
    elim (Option-cases (search_day c max_days (c.timezone.to_wall start) amount)) [
      | inl missing ↦ cc
      | inr (wall, found) ↦
          let r = search_day-working c v max_days (c.timezone.to_wall start) amount wall found in
          (wall, cc, r.0, r.1)
    ]
