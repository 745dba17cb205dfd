-- ===== src/DataSource/Examples.antt =====
-- Runs of src/PqColumnDataSource.cpp, and the theorems at concrete texts.
use rpostgres.Prelude.{◌+◌, ◌*◌, ◌≡◌, refl, arith, true, false, [], ◌∷◌, ◌++◌}
use rpostgres.Prelude.Int.{pos, ◌+ℤ◌, ◌-ℤ◌, ◌*ℤ◌, ◌/ℤ◌}
use rpostgres.Prelude.Outcome.{ok, undefined}
use rpostgres.Sample.{sample}
use rpostgres.Civil.{days_from_civil, tm_to_time_t}
use rpostgres.DataSource.{
  char_at, digit_at, two_digits, four_digits, text_from, zone_minutes, utc_offset, fetch_date,
  fetch_time, convert_datetime,
}
use rpostgres.DataSource.Text.{print_two, print_date, print_minute}
use rpostgres.DataSource.Dates.{
  IsDate, IsMinute, epoch_days, epoch_seconds, stamp, seconds, minutes, print_zone, zone_offset,
  utc_offset-print_zone, fetch_date-print_date, fetch_time-print_minute, tm_to_time_t-eq,
  convert_datetime-print,
}

short_text : fetch_date sample (50 ∷ 48 ∷ []) ≡ undefined
unfolding fetch_date four_digits digit_at char_at
short_text = refl

-- 2001-09-09 03:46:40+02 is a thousand million seconds after the epoch.
billennium :
    convert_datetime sample (stamp 2001 9 9 3 46 (print_two 40 (43 ∷ print_two 2 [])))
    ≡ ok (pos 1000000000)
unfolding convert_datetime four_digits two_digits digit_at char_at text_from utc_offset zone_minutes
    tm_to_time_t days_from_civil ◌+ℤ◌ ◌-ℤ◌ ◌*ℤ◌ ◌/ℤ◌
billennium = refl

leap_day : IsDate 2024 2 29
leap_day = omega arith

early : IsMinute 3 46
early = omega arith

utc_offset-print_zone_example : utc_offset (print_zone (seconds true 0 53 28)) ≡ ok (pos 3180)
utc_offset-print_zone_example = utc_offset-print_zone (seconds true 0 53 28) (omega arith)

fetch_date-print_date_example :
    fetch_date sample (print_date 2024 2 29 (32 ∷ 66 ∷ 67 ∷ [])) ≡ ok (epoch_days 2024 2 29)
fetch_date-print_date_example = fetch_date-print_date sample 2024 2 29 (32 ∷ 66 ∷ 67 ∷ []) leap_day

fetch_time-print_minute_example :
    fetch_time sample (print_minute 3 46 (print_two 40 []))
    ≡ ok (pos (3 * 3600 + 46 * 60) +ℤ pos 40)
fetch_time-print_minute_example = fetch_time-print_minute sample 3 46 (print_two 40 []) early

tm_to_time_t-eq_example :
    tm_to_time_t (record {
      tm_year = pos 2024 -ℤ pos 1900;
      tm_mon = pos 2 -ℤ pos 1;
      tm_mday = pos 29;
      tm_hour = pos 3;
      tm_min = pos 46;
      tm_sec = pos 40;
    })
    ≡ epoch_seconds 2024 2 29 3 46 (pos 40)
tm_to_time_t-eq_example = tm_to_time_t-eq 2024 2 29 3 46 (pos 40) leap_day

convert_datetime-print_example :
    convert_datetime sample
      (stamp 2024 2 29 3 46 (print_two 40 [] ++ print_zone (minutes false 3 30)))
    ≡ ok (
        epoch_seconds 2024 2 29 3 46 (pos 40)
        +ℤ (pos 40 -ℤ pos 40)
        -ℤ zone_offset (minutes false 3 30))
convert_datetime-print_example =
    convert_datetime-print sample 2024 2 29 3 46 (print_two 40 []) (pos 40) (minutes false 3 30)
      leap_day early (omega arith) refl
