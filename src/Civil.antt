-- ===== src/Civil.antt =====
-- src/PqUtils.cpp over integers without bounds; Civil/Machine has the same functions in the integers of
-- the machine, and Civil/Bounds and Civil/Seconds compare them. The cast to `unsigned` leaves `yoe` as
-- it is, since `y - era * 400` is from 0 to 399.
pub mod DayCount
pub mod Agreement
pub mod Machine
pub mod Bounds
pub mod Seconds
mod Examples
use rpostgres.Prelude.{ℕ, if◌then◌else◌}
use rpostgres.Prelude.Int.{ℤ, pos, negsuc, ◌+ℤ◌, ◌-ℤ◌, ◌*ℤ◌, ◌/ℤ◌, ltb_ℤ}

unfoldable pub days_from_civil : ℤ → ℤ → ℤ → ℤ
days_from_civil y m d =
    let y' = if ltb_ℤ (pos 2) m then y else y -ℤ pos 1 in
    let era = (if ltb_ℤ y' (pos 0) then y' -ℤ pos 399 else y') /ℤ 400 in
    let yoe = y' -ℤ era *ℤ pos 400 in
    let doy =
      (pos 153 *ℤ (m +ℤ (if ltb_ℤ (pos 2) m then negsuc 2 else pos 9)) +ℤ pos 2) /ℤ 5
      +ℤ d
      -ℤ pos 1 in
    let doe = yoe *ℤ pos 365 +ℤ yoe /ℤ 4 -ℤ yoe /ℤ 100 +ℤ doy in
    era *ℤ pos 146097 +ℤ doe -ℤ pos 719468

-- The fields of `struct tm` that the code sets and reads.
pub record Tm : Type 0 where
  pub tm_year : ℤ
  pub tm_mon : ℤ
  pub tm_mday : ℤ
  pub tm_hour : ℤ
  pub tm_min : ℤ
  pub tm_sec : ℤ

unfoldable pub tm_to_time_t : Tm → ℤ
tm_to_time_t tm =
    let days = days_from_civil (tm.tm_year +ℤ pos 1900) (tm.tm_mon +ℤ pos 1) tm.tm_mday in
    days *ℤ pos 86400 +ℤ tm.tm_hour *ℤ pos 60 *ℤ pos 60 +ℤ tm.tm_min *ℤ pos 60 +ℤ tm.tm_sec
