-- ===== src/Civil/Machine.antt =====
-- src/PqUtils.cpp with the arithmetic of the machine: an `int` has 32 bits, `time_t` 64, and a result
-- out of range is undefined behaviour. Division by a positive number stays in range.
use rpostgres.Prelude.{ℕ, ltb, leb, ◌&&◌, if◌then◌else◌}
use rpostgres.Prelude.Int.{ℤ, pos, negsuc, pos_part, neg_part, ◌+ℤ◌, ◌-ℤ◌, ◌*ℤ◌, ◌/ℤ◌, ltb_ℤ}
use rpostgres.Prelude.Outcome.{Outcome, ok, undefined, ◌>>=◌}
use rpostgres.Civil.{Tm}

-- A value of a signed type whose least value is `- bound`.
unfoldable pub in_range : ℕ → ℤ → Outcome ℤ
in_range bound z = if ltb (pos_part z) bound && leb (neg_part z) bound then ok z else undefined

abbrev pub int_bound : ℕ
int_bound = 2147483648

abbrev pub time_bound : ℕ
time_bound = 9223372036854775808

unfoldable pub add_int : ℤ → ℤ → Outcome ℤ
unfolding in_range
add_int a b = in_range int_bound (a +ℤ b)

unfoldable pub sub_int : ℤ → ℤ → Outcome ℤ
unfolding in_range
sub_int a b = in_range int_bound (a -ℤ b)

unfoldable pub mul_int : ℤ → ℤ → Outcome ℤ
unfolding in_range
mul_int a b = in_range int_bound (a *ℤ b)

-- `era` and `yoe` of a year that begins in March.
unfoldable pub era_int : ℤ → Outcome ℤ
unfolding sub_int
era_int y = (if ltb_ℤ y (pos 0) then sub_int y (pos 399) else ok y) >>= λ first. ok (first /ℤ 400)

unfoldable pub yoe_int : ℤ → ℤ → Outcome ℤ
unfolding mul_int sub_int
yoe_int y era = mul_int era (pos 400) >>= λ start. sub_int y start

-- `doy`
unfoldable pub doy_int : ℤ → ℤ → Outcome ℤ
unfolding add_int sub_int mul_int
doy_int m d = add_int m (if ltb_ℤ (pos 2) m then negsuc 2 else pos 9) >>= λ from_march.
    mul_int (pos 153) from_march >>= λ days.
    add_int days (pos 2) >>= λ rounded. add_int (rounded /ℤ 5) d >>= λ day. sub_int day (pos 1)

-- `doe`
unfoldable pub doe_int : ℤ → ℤ → Outcome ℤ
unfolding add_int sub_int mul_int
doe_int yoe doy = mul_int yoe (pos 365) >>= λ days. add_int days (yoe /ℤ 4) >>= λ with_leap.
    sub_int with_leap (yoe /ℤ 100) >>= λ before. add_int before doy

-- `y -= m <= 2`
unfoldable pub year_int : ℤ → ℤ → Outcome ℤ
unfolding sub_int
year_int y m = if ltb_ℤ (pos 2) m then ok y else sub_int y (pos 1)

-- The rest of the function.
unfoldable pub from_year_int : ℤ → ℤ → ℤ → Outcome ℤ
unfolding era_int yoe_int doy_int doe_int
from_year_int y m d = era_int y >>= λ era. yoe_int y era >>= λ yoe. doy_int m d >>= λ doy.
    doe_int yoe doy >>= λ doe.
    mul_int era (pos 146097) >>= λ start. add_int start doe >>= λ day. sub_int day (pos 719468)

unfoldable pub days_from_civil_int : ℤ → ℤ → ℤ → Outcome ℤ
unfolding year_int from_year_int
days_from_civil_int y m d = year_int y m >>= λ y'. from_year_int y' m d

-- A sum of `time_t`.
unfoldable pub add_time : ℤ → ℤ → Outcome ℤ
unfolding in_range
add_time a b = in_range time_bound (a +ℤ b)

-- The sum of `tm_to_time_t`.
unfoldable pub seconds_int : ℤ → Tm → Outcome ℤ
unfolding in_range add_time mul_int
seconds_int days tm = in_range time_bound (days *ℤ pos 86400) >>= λ start.
    mul_int tm.tm_hour (pos 60) >>= λ minutes. mul_int minutes (pos 60) >>= λ hours.
    mul_int tm.tm_min (pos 60) >>= λ seconds. add_time start hours >>= λ at_hour.
    add_time at_hour seconds >>= λ at_minute. add_time at_minute tm.tm_sec

unfoldable pub tm_to_time_t_int : Tm → Outcome ℤ
unfolding days_from_civil_int seconds_int add_int
tm_to_time_t_int tm = add_int tm.tm_year (pos 1900) >>= λ year.
    add_int tm.tm_mon (pos 1) >>= λ month.
    days_from_civil_int year month tm.tm_mday >>= λ days. seconds_int days tm
