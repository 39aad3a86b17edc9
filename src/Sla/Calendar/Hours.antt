-- ===== src/Sla/Calendar/Hours.antt =====
-- Working time counted independently of the deadline search: the open microseconds of an interval
-- of the wall clock.
use kb_partners.Prelude.{
  ℕ, zero, suc, ◌+◌, ◌/◌, ◌<◌, ◌≤◌, ◌≡◌, refl, Bool, true, false, ◌&&◌, arith, ltb, leb,
}
use native.Mathlib.Nat.{zero-add, add-zero, add-suc, suc-add}
use kb_partners.Sla.Calendar.{BusinessCalendar, day, weekday, midnight, at_hour, day_in, close_of}

-- The instant `t` lies in a working window.
unfoldable pub open_at : BusinessCalendar → ℕ → Bool
open_at c t =
    day_in (weekday t) c.business_days
    && (leb (at_hour t c.open_hour) t && ltb t (at_hour t c.close_hour))

abbrev pub count_open : Bool → ℕ
count_open true = 1
count_open false = 0

-- The open instants among `t`, `t + 1`, ..., `t + n - 1`.
unfoldable pub working : BusinessCalendar → ℕ → ℕ → ℕ
working c t zero = 0
working c t (suc n) = count_open (open_at c t) + working c (suc t) n

module _ (c : BusinessCalendar) where
  pub working-add : (t m n : ℕ) → working c t (m + n) ≡ working c t m + working c (t + m) n
  unfolding working
  working-add t zero n = rw (zero-add, add-zero) (omega arith)
  working-add t (suc m) n =
      rw (suc-add, add-suc) (rw (← suc-add) (omega (arith, working-add (suc t) m n)))

  pub working_closed :
      (t n : ℕ) → ((i : ℕ) → t ≤ i → i < t + n → open_at c i ≡ false) → working c t n ≡ 0
  unfolding working
  working_closed t zero h = refl
  working_closed t (suc n) h =
      let here = h t (omega arith) (omega arith) in
      let rest = working_closed (suc t) n (λ i a b. h i (omega arith) (omega arith)) in ground arith

  pub working_open :
      (t n : ℕ) → ((i : ℕ) → t ≤ i → i < t + n → open_at c i ≡ true) → working c t n ≡ n
  unfolding working
  working_open t zero h = refl
  working_open t (suc n) h =
      let here = h t (omega arith) (omega arith) in
      let rest = working_open (suc t) n (λ i a b. h i (omega arith) (omega arith)) in ground arith

-- Both branches of `_close_of` are the closing hour of the same day.
pub close_of_lem : (c : BusinessCalendar) (t : ℕ) → close_of c t ≡ at_hour t c.close_hour
unfolding close_of
close_of_lem c t = ground arith

-- On the day of `cursor` the calendar is open between its hours, if that day is a working day.
pub open_at-day :
    (c : BusinessCalendar) (cursor i : ℕ)
    → midnight cursor ≤ i
    → i < midnight cursor + day
    → open_at c i ≡ (
        day_in (weekday cursor) c.business_days
        && (leb (at_hour cursor c.open_hour) i && ltb i (at_hour cursor c.close_hour)))
unfolding open_at
open_at-day c cursor i lo hi = let same : i / day ≡ cursor / day = omega arith in rw same
