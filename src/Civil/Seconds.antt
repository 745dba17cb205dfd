-- ===== src/Civil/Seconds.antt =====
-- The times for which `tm_to_time_t` of src/PqUtils.cpp stays within the machine's integers.
use rpostgres.Prelude.{ℕ, zero, suc, ◌+◌, ◌*◌, ◌≤◌, ◌<◌, ◌≡◌, refl, ◌∙◌, sym, ap, subst, arith}
use rpostgres.Prelude.Int.{ℤ, pos, pos_part, neg_part, ◌+ℤ◌, ◌-ℤ◌, ◌*ℤ◌, int_laws, pos-mul}
use rpostgres.Prelude.Outcome.{ok, ◌>>=◌}
use rpostgres.Civil.{days_from_civil, Tm, tm_to_time_t}
use rpostgres.Civil.Agreement.{era_days, march_days, from_march, before_march}
use rpostgres.Civil.Machine.{
  in_range, int_bound, time_bound, add_int, days_from_civil_int, add_time, seconds_int,
  tm_to_time_t_int,
}
use rpostgres.Civil.Bounds.{
  in_range-ok, mul-pos, difference-le, passed, days_from_civil_int-days_from_civil,
}

-- A day number that an `int` holds.
abbrev IsInt : ℤ → Type 0
IsInt z = (pos_part z < int_bound) × (neg_part z ≤ int_bound)

IsInt-difference : (a b : ℕ) → a < int_bound → b ≤ int_bound → IsInt (pos a -ℤ pos b)
IsInt-difference a b h k =
    (omega (arith, difference-le a b, h), omega (arith, difference-le a b, k))

days_from_civil-IsInt :
    (y m d : ℕ)
    → (1 ≤ y) × (y ≤ 5000000)
    → (1 ≤ m) × (m ≤ 12)
    → (1 ≤ d) × (d ≤ 31)
    → IsInt (days_from_civil (pos y) (pos m) (pos d))
days_from_civil-IsInt zero m d hy hm hd = absurd (omega (arith, hy.0))
days_from_civil-IsInt (suc z) zero d hy hm hd = absurd (omega (arith, hm.0))
days_from_civil-IsInt (suc z) (suc zero) d hy hm hd =
    subst IsInt (sym (before_march z 1 d (omega arith) hd.0)) (
      IsInt-difference (era_days z + march_days (1 + 9) + d) 719469 (omega (arith, hy.1, hd.1))
        (omega arith))
days_from_civil-IsInt (suc z) (suc (suc zero)) d hy hm hd =
    subst IsInt (sym (before_march z 2 d (omega arith) hd.0)) (
      IsInt-difference (era_days z + march_days (2 + 9) + d) 719469 (omega (arith, hy.1, hd.1))
        (omega arith))
days_from_civil-IsInt (suc z) (suc (suc (suc k))) d hy hm hd =
    subst IsInt (sym (from_march (suc z) k d hd.0)) (
      IsInt-difference (era_days (suc z) + march_days k + d) 719469
        (omega (arith, hy.1, hm.1, hd.1)) (omega arith))

product-le :
    (z : ℤ)
    → (pos_part (z *ℤ pos 86400) ≤ pos_part z * 86400)
      × (neg_part (z *ℤ pos 86400) ≤ neg_part z * 86400)
unfolding ◌*ℤ◌
product-le z = ground arith

sum-le :
    (z : ℤ) (n : ℕ)
    → (pos_part (z +ℤ pos n) ≤ pos_part z + n) × (neg_part (z +ℤ pos n) ≤ neg_part z)
unfolding ◌+ℤ◌
sum-le z n = ground arith

there_and_back : (n k : ℕ) → pos n -ℤ pos k +ℤ pos k ≡ pos n
there_and_back n k = omega int_laws

again : (n k : ℕ) → n < int_bound → add_int (pos n -ℤ pos k) (pos k) ≡ ok (pos n)
unfolding add_int
again n k h =
    ap (in_range int_bound) (there_and_back n k) ∙ in_range-ok int_bound (pos n) h (omega arith)

-- A sum that stays within `time_t`, and how far it goes.
add_time-pos :
    (z : ℤ) (n top : ℕ)
    → (pos_part z + n ≤ top) × (neg_part z < time_bound)
    → top < time_bound
    → (add_time z (pos n) ≡ ok (z +ℤ pos n))
      × (pos_part (z +ℤ pos n) ≤ top)
      × (neg_part (z +ℤ pos n) < time_bound)
unfolding add_time
add_time-pos z n top (h, l) k = (
  in_range-ok time_bound (z +ℤ pos n) (omega (arith, sum-le z n)) (omega (arith, sum-le z n)),
  omega (arith, sum-le z n),
  omega (arith, sum-le z n),
)

-- The broken-down time that the callers fill in.
abbrev pub broken_down : ℕ → ℕ → ℕ → ℕ → ℕ → ℕ → Tm
broken_down y m d h mi s = record {
  tm_year = pos y -ℤ pos 1900;
  tm_mon = pos m -ℤ pos 1;
  tm_mday = pos d;
  tm_hour = pos h;
  tm_min = pos mi;
  tm_sec = pos s;
}

seconds_int-IsInt :
    (days : ℤ) (y m d h mi s : ℕ)
    → IsInt days
    → h ≤ 24
    → mi ≤ 59
    → s ≤ 60
    → seconds_int days (broken_down y m d h mi s)
      ≡ ok (days *ℤ pos 86400 +ℤ pos (h * 60 * 60) +ℤ pos (mi * 60) +ℤ pos s)
unfolding seconds_int
seconds_int-IsInt days y m d h mi s small hh hmi hs =
    let start = days *ℤ pos 86400 in
    let top = 2147483648 * 86400 in
    let hour =
      add_time-pos start (h * 60 * 60) (top + 90000)
        (omega (arith, product-le days, small.0), omega (arith, product-le days, small.1))
        (omega arith) in
    let minute =
      add_time-pos (start +ℤ pos (h * 60 * 60)) (mi * 60) (top + 100000)
        (omega (arith, hour.1), hour.2) (omega arith) in
    let second =
      add_time-pos (start +ℤ pos (h * 60 * 60) +ℤ pos (mi * 60)) s (top + 200000)
        (omega (arith, minute.1), minute.2) (omega arith) in
    rw
      (
        in_range-ok time_bound start (omega (arith, product-le days, small.0))
            (omega (arith, product-le days, small.1)),
        mul-pos h 60 (omega arith),
        mul-pos (h * 60) 60 (omega arith),
        mul-pos mi 60 (omega arith),
        hour.0,
        minute.0,
      )
      second.0

-- For a date in the years from 1 to 5000000 and a time of day up to 24:59:60, `tm_to_time_t` in 32-bit
-- integers and a 64-bit `time_t` does not overflow, and is what it is without bounds.
pub tm_to_time_t_int-tm_to_time_t :
    (y m d h mi s : ℕ)
    → (1 ≤ y) × (y ≤ 5000000)
    → (1 ≤ m) × (m ≤ 12)
    → (1 ≤ d) × (d ≤ 31)
    → h ≤ 24
    → mi ≤ 59
    → s ≤ 60
    → tm_to_time_t_int (broken_down y m d h mi s) ≡ ok (tm_to_time_t (broken_down y m d h mi s))
unfolding tm_to_time_t_int tm_to_time_t
tm_to_time_t_int-tm_to_time_t y m d h mi s hy hm hd hh hmi hs =
    let days = days_from_civil (pos y) (pos m) (pos d) in
    let t = broken_down y m d h mi s in
    passed
      (λ year. add_int (pos m -ℤ pos 1) (pos 1) >>= λ month.
        days_from_civil_int year month (pos d) >>= λ days. seconds_int days t)
      (again y 1900 (omega (arith, hy.1)))
    ∙ passed (λ month. days_from_civil_int (pos y) month (pos d) >>= λ days. seconds_int days t)
        (again m 1 (omega (arith, hm.1)))
    ∙ passed (λ days. seconds_int days t) (days_from_civil_int-days_from_civil y m d hy hm hd)
    ∙ seconds_int-IsInt days y m d h mi s (days_from_civil-IsInt y m d hy hm hd) hh hmi hs
    ∙ rw
        (
          there_and_back y 1900,
          there_and_back m 1,
          pos-mul h 60,
          pos-mul (h * 60) 60,
          pos-mul mi 60,
        )
        refl
