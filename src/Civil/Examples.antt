-- ===== src/Civil/Examples.antt =====
-- Runs of src/PqUtils.cpp, and the theorem at a leap day.
use rpostgres.Prelude.{◌≡◌, refl, arith}
use rpostgres.Prelude.Int.{pos, negsuc, ◌+ℤ◌, ◌-ℤ◌, ◌*ℤ◌, ◌/ℤ◌}
use rpostgres.Prelude.Outcome.{ok}
use rpostgres.Civil.Machine.{tm_to_time_t_int}
use rpostgres.Civil.Seconds.{broken_down, tm_to_time_t_int-tm_to_time_t}
use rpostgres.Civil.{days_from_civil, tm_to_time_t}
use rpostgres.Civil.DayCount.{day_count}
use rpostgres.Civil.Agreement.{days_from_civil-eq}

epoch : days_from_civil (pos 1970) (pos 1) (pos 1) ≡ pos 0
unfolding days_from_civil ◌+ℤ◌ ◌-ℤ◌ ◌*ℤ◌ ◌/ℤ◌
epoch = refl

year_one : days_from_civil (pos 1) (pos 1) (pos 1) ≡ negsuc 719161
unfolding days_from_civil ◌+ℤ◌ ◌-ℤ◌ ◌*ℤ◌ ◌/ℤ◌
year_one = refl

billennium :
    tm_to_time_t (record {
      tm_year = pos 101;
      tm_mon = pos 8;
      tm_mday = pos 9;
      tm_hour = pos 1;
      tm_min = pos 46;
      tm_sec = pos 40;
    })
    ≡ pos 1000000000
unfolding tm_to_time_t days_from_civil ◌+ℤ◌ ◌-ℤ◌ ◌*ℤ◌ ◌/ℤ◌
billennium = refl

days_from_civil-eq_example :
    days_from_civil (pos 2024) (pos 2) (pos 29) ≡ pos (day_count 2024 2 29) -ℤ pos 719529
days_from_civil-eq_example = days_from_civil-eq 2024 2 29 (omega arith) (omega arith) (omega arith)

-- The first second after 32 bits of seconds.
tm_to_time_t_int-tm_to_time_t_example :
    tm_to_time_t_int (broken_down 2038 1 19 3 14 8)
    ≡ ok (tm_to_time_t (broken_down 2038 1 19 3 14 8))
tm_to_time_t_int-tm_to_time_t_example =
    tm_to_time_t_int-tm_to_time_t 2038 1 19 3 14 8 (omega arith) (omega arith) (omega arith)
      (omega arith) (omega arith) (omega arith)
