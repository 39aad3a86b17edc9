-- ===== src/Sla/Calendar.antt =====
-- backend/src/api/sla/calendar.py. An instant is a number of microseconds; on the wall clock of a
-- zone it counts from 1970-01-01 00:00 there, a Thursday. Two datetimes of one zone are subtracted
-- and moved by wall-clock time in Python, and so they are here. The zone's rules (`zoneinfo`) are a
-- parameter: the conversions to the wall clock and back.
pub mod Hours
pub mod Deadline
pub mod Horizon
use kb_partners.Prelude.{
  ℕ, zero, suc, ◌+◌, ◌-◌, ◌*◌, ◌/◌, ◌%◌, ◌<◌, ◌≤◌, Bool, true, false, ◌&&◌, ◌||◌, Option, none,
  some, List, [], ◌∷◌, ltb, leb, eqb, if◌then◌else◌,
}
use mathlib.Core.Option

abbrev pub second : ℕ
second = 1000000

abbrev pub hour : ℕ
hour = 3600000000

abbrev pub day : ℕ
day = 86400000000

pub record Zone : Type 0 where
  pub to_wall : ℕ → ℕ
  pub to_utc : ℕ → ℕ

pub record BusinessCalendar : Type 0 where
  pub timezone : Zone
  pub open_hour : ℕ
  pub close_hour : ℕ
  pub business_days : List ℕ

abbrev pub max_days : ℕ
max_days = 366 * 5

-- `n in set`
abbrev pub day_in : ℕ → List ℕ → Bool
day_in n [] = false
day_in n (m ∷ set) = eqb n m || day_in n set

-- What `__post_init__` demands.
unfoldable pub valid : BusinessCalendar → Bool
valid c = has_day c.business_days && (ltb c.open_hour c.close_hour && leb c.close_hour 24)
  where
    has_day : List ℕ → Bool
    has_day [] = false
    has_day (d ∷ days) = true

-- `datetime.weekday()`
abbrev pub weekday : ℕ → ℕ
weekday t = (t / day + 3) % 7

-- `t.replace(hour=0, minute=0, second=0, microsecond=0)`
abbrev pub midnight : ℕ → ℕ
midnight t = t / day * day

-- `t.replace(hour=h, minute=0, second=0, microsecond=0)`
abbrev pub at_hour : ℕ → ℕ → ℕ
at_hour t h = midnight t + h * hour

-- `_close_of`
unfoldable pub close_of : BusinessCalendar → ℕ → ℕ
close_of c t = if eqb c.close_hour 24 then midnight (t + day) else at_hour t c.close_hour

abbrev pub max : ℕ → ℕ → ℕ
max a b = if ltb a b then b else a

unfoldable pub segment_start : BusinessCalendar → ℕ → ℕ
segment_start c cursor = max cursor (at_hour cursor c.open_hour)

-- Some of the day's window is left at `cursor`.
unfoldable pub has_segment : BusinessCalendar → ℕ → Bool
unfolding segment_start close_of
has_segment c cursor =
    day_in (weekday cursor) c.business_days && ltb (segment_start c cursor) (close_of c cursor)

-- The deadline, if it falls on the day of `cursor`.
unfoldable pub finish : BusinessCalendar → ℕ → ℕ → Option ℕ
unfolding has_segment
finish c cursor remaining =
    if has_segment c cursor && leb remaining (close_of c cursor - segment_start c cursor)
    then some (segment_start c cursor + remaining)
    else none

-- What remains after the day of `cursor`.
unfoldable pub left : BusinessCalendar → ℕ → ℕ → ℕ
unfolding has_segment
left c cursor remaining =
    if has_segment c cursor
    then remaining - (close_of c cursor - segment_start c cursor)
    else remaining

-- The loop over the days; `none` is the ValueError past the horizon.
unfoldable pub search_day : BusinessCalendar → ℕ → ℕ → ℕ → Option ℕ
unfolding finish left
search_day c zero cursor remaining = none
search_day c (suc days) cursor remaining = elim (finish c cursor remaining) [
  | some deadline ↦ some deadline
  | none ↦ search_day c days (midnight (cursor + day)) (left c cursor remaining)
]

unfoldable pub add_business_seconds : BusinessCalendar → ℕ → ℕ → Option ℕ
add_business_seconds c start amount =
    Option.map c.timezone.to_utc (search_day c max_days (c.timezone.to_wall start) amount)
