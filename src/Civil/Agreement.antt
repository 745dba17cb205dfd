-- ===== src/Civil/Agreement.antt =====
-- `days_from_civil` against the calendar of DayCount.
use rpostgres.Prelude.{ℕ, true, false, zero, suc, ◌+◌, ◌-◌, ◌*◌, ◌/◌, ◌%◌, ◌≤◌, ◌≡◌, refl, arith}
use rpostgres.Prelude.Int.{
  pos, negsuc, ◌+ℤ◌, ◌-ℤ◌, ◌*ℤ◌, ◌/ℤ◌, ltb_ℤ, pos-add, pos-mul, pos-div, int_laws,
}
use rpostgres.Civil.{days_from_civil}
use rpostgres.Civil.DayCount.{
  days_in_month, days_before_month, days_before_year, day_count, days_before_year-eq,
  days_before_month-eq, leap_days-eq,
}

big : (k : ℕ) → ltb_ℤ (pos 2) (pos (suc (suc (suc k)))) ≡ true
big k = ground arith

nonneg : (y : ℕ) → ltb_ℤ (pos y) (pos 0) ≡ false
nonneg y = ground arith

-- The closed form that the code computes, over a year that begins in March.
abbrev pub era_days : ℕ → ℕ
era_days z = z / 400 * 146097 + (z % 400 * 365 + z % 400 / 4 - z % 400 / 100)

era_days-eq : (z : ℕ) → era_days z + z / 100 ≡ 365 * z + z / 4 + z / 400
era_days-eq z = omega arith

-- The days before a month, counted from March.
abbrev pub march_days : ℕ → ℕ
march_days k = (153 * k + 2) / 5

year_of_era : (z : ℕ) → pos z -ℤ pos z /ℤ 400 *ℤ pos 400 ≡ pos (z % 400)
year_of_era z = rw (pos-div z 400, pos-mul (z / 400) 400) (omega int_laws)

-- The last four lines of the code at a year from March that is not negative.
assemble :
    (z q d : ℕ)
    → 1 ≤ d
    → (let era = pos z /ℤ 400 in
        let yoe = pos z -ℤ era *ℤ pos 400 in
        era *ℤ pos 146097
        +ℤ (yoe *ℤ pos 365 +ℤ yoe /ℤ 4 -ℤ yoe /ℤ 100 +ℤ (pos q +ℤ pos d -ℤ pos 1))
        -ℤ pos 719468)
      ≡ pos (era_days z + q + d) -ℤ pos 719469
assemble z q d h = rw (year_of_era z) (simp (pos-div, pos-mul, pos-add) (omega int_laws))

from_three : (k : ℕ) → pos (suc (suc (suc k))) +ℤ negsuc 2 ≡ pos k
from_three k = omega int_laws

-- From March on.
pub from_march :
    (y k d : ℕ)
    → 1 ≤ d
    → days_from_civil (pos y) (pos (suc (suc (suc k)))) (pos d)
      ≡ pos (era_days y + march_days k + d) -ℤ pos 719469
unfolding days_from_civil
from_march y k d h =
    rw (big k, nonneg y, from_three k, pos-mul 153 k, pos-add (153 * k) 2, pos-div (153 * k + 2) 5)
      (assemble y (march_days k) d h)

small : (m : ℕ) → m ≤ 2 → ltb_ℤ (pos 2) (pos m) ≡ false
small m h = ground arith

year_before : (z : ℕ) → pos (suc z) -ℤ pos 1 ≡ pos z
year_before z = omega int_laws

-- January and February of any year but year 0.
pub before_march :
    (z m d : ℕ)
    → m ≤ 2
    → 1 ≤ d
    → days_from_civil (pos (suc z)) (pos m) (pos d)
      ≡ pos (era_days z + march_days (m + 9) + d) -ℤ pos 719469
unfolding days_from_civil
before_march z m d hm h =
    rw
      (
        small m hm,
        year_before z,
        nonneg z,
        pos-add m 9,
        pos-mul 153 (m + 9),
        pos-add (153 * (m + 9)) 2,
        pos-div (153 * (m + 9) + 2) 5,
      )
      (assemble z (march_days (m + 9)) d h)

first_of_year : (y d : ℕ) → day_count y 1 d ≡ days_before_year y + d
unfolding day_count days_before_month
first_of_year y d = omega arith

second_of_year : (y d : ℕ) → day_count y 2 d ≡ days_before_year y + 31 + d
unfolding day_count days_before_month days_in_month
second_of_year y d = omega arith

-- Year 0 begins in the era before.
borrowed : pos 0 -ℤ pos 1 ≡ negsuc 0
unfolding ◌-ℤ◌
borrowed = refl

last_era : (negsuc 0 -ℤ pos 399) /ℤ 400 ≡ negsuc 0
unfolding ◌-ℤ◌ ◌/ℤ◌
last_era = refl

last_year : negsuc 0 -ℤ negsuc 0 *ℤ pos 400 ≡ pos 399
unfolding ◌-ℤ◌ ◌*ℤ◌
last_year = refl

era_start : negsuc 0 *ℤ pos 146097 ≡ negsuc 146096
unfolding ◌*ℤ◌
era_start = refl

year_zero :
    (m d : ℕ)
    → m ≤ 2
    → 1 ≤ d
    → days_from_civil (pos 0) (pos m) (pos d) ≡ pos (march_days (m + 9) + d) -ℤ pos 719835
unfolding days_from_civil
year_zero m d hm h =
    rw
      (
        small m hm,
        borrowed,
        last_era,
        last_year,
        era_start,
        pos-add m 9,
        pos-mul 153 (m + 9),
        pos-add (153 * (m + 9)) 2,
        pos-div (153 * (m + 9) + 2) 5,
      )
      (simp (pos-div, pos-mul, pos-add) (omega int_laws))

-- The day number that `days_from_civil` gives is the count of days in the civil calendar, with
-- 1970-01-01 as day 0, for every year from 0 on.
pub days_from_civil-eq :
    (y m d : ℕ)
    → 1 ≤ m
    → m ≤ 12
    → 1 ≤ d
    → days_from_civil (pos y) (pos m) (pos d) ≡ pos (day_count y m d) -ℤ pos 719529
days_from_civil-eq y zero d lo hi h = elim lo [ ]
days_from_civil-eq zero (suc zero) d lo hi h =
    rw (year_zero 1 d (omega arith) h, first_of_year 0 d)
      (unfold days_before_year in omega int_laws)
days_from_civil-eq zero (suc (suc zero)) d lo hi h =
    rw (year_zero 2 d (omega arith) h, second_of_year 0 d)
      (unfold days_before_year in omega int_laws)
days_from_civil-eq (suc z) (suc zero) d lo hi h =
    rw (before_march z 1 d (omega arith) h, first_of_year (suc z) d)
      (omega (int_laws, era_days-eq z, days_before_year-eq (suc z)))
days_from_civil-eq (suc z) (suc (suc zero)) d lo hi h =
    rw (before_march z 2 d (omega arith) h, second_of_year (suc z) d)
      (omega (int_laws, era_days-eq z, days_before_year-eq (suc z)))
days_from_civil-eq y (suc (suc (suc k))) d lo hi h = rw (from_march y k d h) (
    unfold day_count in
    omega
      (int_laws, era_days-eq y, days_before_year-eq y, days_before_month-eq y k, leap_days-eq y))
