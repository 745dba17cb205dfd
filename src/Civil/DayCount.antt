-- ===== src/Civil/DayCount.antt =====
-- The civil calendar, written without reference to src/PqUtils.cpp: the leap years, the lengths of
-- the months, and day numbers as counts of the days before.
use rpostgres.Prelude.{
  ℕ, zero, suc, ◌+◌, ◌-◌, ◌*◌, ◌/◌, ◌%◌, ◌≤◌, ◌≡◌, arith, ◌==◌, if◌then◌else◌, ◌&&◌, ◌||◌, not,
}

-- The days that a leap year has more.
unfoldable pub leap_days : ℕ → ℕ
leap_days y = if (y % 4 == 0 && not (y % 100 == 0)) || y % 400 == 0 then 1 else 0

unfoldable pub days_in_month : ℕ → ℕ → ℕ
unfolding leap_days
days_in_month y m =
    let has_thirty = (m == 11) || (m == 9) || (m == 6) || (m == 4) in
    if has_thirty then 30 else if m == 2 then leap_days y + 28 else if m == 0 then 0 else 31

-- Days before the first of month m, counted month by month; there is no month 0.
unfoldable pub days_before_month : ℕ → ℕ → ℕ
unfolding days_in_month
days_before_month y zero = 0
days_before_month y (suc m) = days_in_month y m + days_before_month y m

-- Days from the first of January of year 0 to that of year y, counted year by year.
unfoldable pub days_before_year : ℕ → ℕ
unfolding days_before_month
days_before_year zero = 0
days_before_year (suc y) = days_before_year y + days_before_month y 13

-- The number of the day in the calendar that begins with year 0; 0000-01-01 is day 1.
unfoldable pub day_count : ℕ → ℕ → ℕ → ℕ
unfolding days_before_month days_before_year
day_count y m d = days_before_year y + days_before_month y m + d

year_length : (y : ℕ) → days_before_month y 13 ≡ 365 + leap_days y
unfolding days_before_month days_in_month
year_length y = omega arith

-- The count in closed form.
pub days_before_year-eq :
    (y : ℕ) → days_before_year y + (y + 99) / 100 ≡ 365 * y + (y + 3) / 4 + (y + 399) / 400
unfolding days_before_year leap_days
days_before_year-eq zero = omega arith
days_before_year-eq (suc y) = ground (arith, days_before_year-eq y, year_length y)

-- The months from March on, in the closed form that the code uses.
pub days_before_month-eq :
    (y k : ℕ)
    → k ≤ 9
    → days_before_month y (suc (suc (suc k))) ≡ 59 + leap_days y + (153 * k + 2) / 5
unfolding days_before_month days_in_month
days_before_month-eq y zero h = omega arith
days_before_month-eq y (suc zero) h = omega arith
days_before_month-eq y (suc (suc zero)) h = omega arith
days_before_month-eq y (suc (suc (suc zero))) h = omega arith
days_before_month-eq y (suc (suc (suc (suc zero)))) h = omega arith
days_before_month-eq y (suc (suc (suc (suc (suc zero))))) h = omega arith
days_before_month-eq y (suc (suc (suc (suc (suc (suc zero)))))) h = omega arith
days_before_month-eq y (suc (suc (suc (suc (suc (suc (suc zero))))))) h = omega arith
days_before_month-eq y (suc (suc (suc (suc (suc (suc (suc (suc zero)))))))) h = omega arith
days_before_month-eq y (suc (suc (suc (suc (suc (suc (suc (suc (suc zero))))))))) h = omega arith
days_before_month-eq y (suc (suc (suc (suc (suc (suc (suc (suc (suc (suc k)))))))))) h =
    absurd (omega arith)

-- A year is a leap year just when the closed form counts one day more from it to the next.
pub leap_days-eq :
    (y : ℕ)
    → leap_days y + (y + 3) / 4 + (y + 399) / 400 + y / 100
      ≡ y / 4 + 1 + (y / 400 + 1) + (y + 99) / 100 - 1
unfolding leap_days
leap_days-eq y = ground arith
