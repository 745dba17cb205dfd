-- ===== src/Civil/Bounds.antt =====
-- The dates for which src/PqUtils.cpp stays within the machine's integers.
use rpostgres.Prelude.{
  ℕ, suc, true, false, ◌+◌, ◌-◌, ◌*◌, ◌/◌, ◌%◌, ◌≤◌, ◌<◌, ◌≡◌, refl, ◌∙◌, sym, ap, zero, arith,
}
use rpostgres.Prelude.Int.{
  ℤ, pos, negsuc, pos_part, neg_part, ◌+ℤ◌, ◌-ℤ◌, ◌/ℤ◌, ltb_ℤ, pos-add, pos-mul, pos-div, pos-sub,
  int_laws,
}
use rpostgres.Prelude.Outcome.{Outcome, ok, ◌>>=◌}
use rpostgres.Civil.{days_from_civil}
use rpostgres.Civil.Agreement.{era_days, march_days, from_march, before_march}
use rpostgres.Civil.Machine.{
  in_range, int_bound, year_int, from_year_int, add_int, sub_int, mul_int, era_int, yoe_int,
  doy_int, doe_int, days_from_civil_int,
}

pub in_range-ok :
    (bound : ℕ) (z : ℤ) → pos_part z < bound → neg_part z ≤ bound → in_range bound z ≡ ok z
unfolding in_range
in_range-ok bound z h k = ground (arith, h, k)

pub add-pos : (a b : ℕ) → a + b < int_bound → add_int (pos a) (pos b) ≡ ok (pos (a + b))
unfolding add_int
add-pos a b h = rw (pos-add a b) (in_range-ok int_bound (pos (a + b)) h (omega arith))

pub mul-pos : (a b : ℕ) → a * b < int_bound → mul_int (pos a) (pos b) ≡ ok (pos (a * b))
unfolding mul_int
mul-pos a b h = rw (pos-mul a b) (in_range-ok int_bound (pos (a * b)) h (omega arith))

sub-pos : (a b : ℕ) → b ≤ a → a < int_bound → sub_int (pos a) (pos b) ≡ ok (pos (a - b))
unfolding sub_int
sub-pos a b h k =
    rw (pos-sub a b h) (in_range-ok int_bound (pos (a - b)) (omega arith) (omega arith))

pub difference-le : (a b : ℕ) → (pos_part (pos a -ℤ pos b) ≤ a) × (neg_part (pos a -ℤ pos b) ≤ b)
unfolding ◌-ℤ◌
difference-le a b = ground arith

sub-near : (a b : ℕ) → a < int_bound → b < int_bound → sub_int (pos a) (pos b) ≡ ok (pos a -ℤ pos b)
unfolding sub_int
sub-near a b h k =
    in_range-ok int_bound (pos a -ℤ pos b) (omega (arith, difference-le a b, h))
      (omega (arith, difference-le a b, k))

-- A check that succeeds.
pub passed : {A B : Type 0} {x : Outcome A} {v : A} (f : A → Outcome B) → x ≡ ok v → (x >>= f) ≡ f v
passed f e = ap (λ o. o >>= f) e

big : (k : ℕ) → ltb_ℤ (pos 2) (pos (suc (suc (suc k)))) ≡ true
big k = ground arith

small : (m : ℕ) → m ≤ 2 → ltb_ℤ (pos 2) (pos m) ≡ false
small m h = ground arith

nonneg : (y : ℕ) → ltb_ℤ (pos y) (pos 0) ≡ false
nonneg y = ground arith

era-pos : (z : ℕ) → era_int (pos z) ≡ ok (pos (z / 400))
unfolding era_int
era-pos z = rw (nonneg z, pos-div z 400) refl

yoe-pos : (z : ℕ) → z < int_bound → yoe_int (pos z) (pos (z / 400)) ≡ ok (pos (z % 400))
unfolding yoe_int
yoe-pos z h =
    passed (sub_int (pos z)) (mul-pos (z / 400) 400 (omega arith))
    ∙ sub-pos z (z / 400 * 400) (omega arith) h
    ∙ ap (λ n. ok (pos n)) (omega arith)

-- `doy` once the months are counted from March.
march_day :
    (k d : ℕ)
    → k ≤ 11
    → (1 ≤ d) × (d ≤ 31)
    → (mul_int (pos 153) (pos k) >>= λ days. add_int days (pos 2) >>= λ rounded.
        add_int (rounded /ℤ 5) (pos d) >>= λ day. sub_int day (pos 1))
      ≡ ok (pos ((153 * k + 2) / 5 + d - 1))
march_day k d h (l, u) =
    passed
      (λ days. add_int days (pos 2) >>= λ rounded.
        add_int (rounded /ℤ 5) (pos d) >>= λ day. sub_int day (pos 1))
      (mul-pos 153 k (omega arith))
    ∙ passed (λ rounded. add_int (rounded /ℤ 5) (pos d) >>= λ day. sub_int day (pos 1))
        (add-pos (153 * k) 2 (omega arith))
    ∙ ap (λ q. add_int q (pos d) >>= λ day. sub_int day (pos 1)) (pos-div (153 * k + 2) 5)
    ∙ passed (λ day. sub_int day (pos 1)) (add-pos ((153 * k + 2) / 5) d (omega arith))
    ∙ sub-pos ((153 * k + 2) / 5 + d) 1 (omega arith) (omega arith)

doe-pos :
    (yoe doy : ℕ)
    → yoe < 400
    → doy ≤ 400
    → doe_int (pos yoe) (pos doy) ≡ ok (pos (yoe * 365 + yoe / 4 - yoe / 100 + doy))
unfolding doe_int
doe-pos yoe doy h k =
    passed
      (λ days. add_int days (pos yoe /ℤ 4) >>= λ with_leap.
        sub_int with_leap (pos yoe /ℤ 100) >>= λ before. add_int before (pos doy))
      (mul-pos yoe 365 (omega arith))
    ∙ rw (pos-div yoe 4, pos-div yoe 100)
        (passed
            (λ with_leap.
              sub_int with_leap (pos (yoe / 100)) >>= λ before. add_int before (pos doy))
            (add-pos (yoe * 365) (yoe / 4) (omega arith))
          ∙ passed (λ before. add_int before (pos doy))
              (sub-pos (yoe * 365 + yoe / 4) (yoe / 100) (omega arith) (omega arith))
          ∙ add-pos (yoe * 365 + yoe / 4 - yoe / 100) doy (omega arith))

three_off : (k : ℕ) → pos (suc (suc (suc k))) +ℤ negsuc 2 ≡ pos k
three_off k = omega int_laws

minus_three : (k : ℕ) → k ≤ 9 → add_int (pos (suc (suc (suc k)))) (negsuc 2) ≡ ok (pos k)
unfolding add_int
minus_three k h =
    ap (in_range int_bound) (three_off k)
    ∙ in_range-ok int_bound (pos k) (omega arith) (omega arith)

doy-late :
    (k d : ℕ)
    → k ≤ 9
    → (1 ≤ d) × (d ≤ 31)
    → doy_int (pos (suc (suc (suc k)))) (pos d) ≡ ok (pos (march_days k + d - 1))
unfolding doy_int
doy-late k d h v = rw (big k, minus_three k h) (march_day k d (omega arith) v)

doy-early :
    (m d : ℕ)
    → m ≤ 2
    → (1 ≤ d) × (d ≤ 31)
    → doy_int (pos m) (pos d) ≡ ok (pos (march_days (m + 9) + d - 1))
unfolding doy_int
doy-early m d h v = rw (small m h, add-pos m 9 (omega arith)) (march_day (m + 9) d (omega arith) v)

from_year :
    (z q d : ℕ) (m : ℤ)
    → z ≤ 5000000
    → q ≤ 340
    → (1 ≤ d) × (d ≤ 31)
    → doy_int m (pos d) ≡ ok (pos (q + d - 1))
    → from_year_int (pos z) m (pos d) ≡ ok (pos (era_days z + q + d) -ℤ pos 719469)
unfolding from_year_int
from_year z q d m h k (l, u) e =
    let doe = z % 400 * 365 + z % 400 / 4 - z % 400 / 100 + (q + d - 1) in
    rw
      (
        era-pos z,
        yoe-pos z (omega arith),
        e,
        doe-pos (z % 400) (q + d - 1) (omega arith) (omega arith),
        mul-pos (z / 400) 146097 (omega arith),
        add-pos (z / 400 * 146097) doe (omega arith),
      )
      (sub-near (z / 400 * 146097 + doe) 719468 (omega arith) (omega arith)
        ∙ ap ok (omega int_laws))

year-late : (y k : ℕ) → year_int (pos y) (pos (suc (suc (suc k)))) ≡ ok (pos y)
unfolding year_int
year-late y k = rw (big k) refl

year-early : (z m : ℕ) → m ≤ 2 → z ≤ 5000000 → year_int (pos (suc z)) (pos m) ≡ ok (pos z)
unfolding year_int
year-early z m h k =
    rw (small m h)
      (sub-pos (suc z) 1 (omega arith) (omega arith) ∙ ap (λ n. ok (pos n)) (omega arith))

early :
    (z m d : ℕ)
    → m ≤ 2
    → z ≤ 5000000
    → (1 ≤ d) × (d ≤ 31)
    → days_from_civil_int (pos (suc z)) (pos m) (pos d)
      ≡ ok (days_from_civil (pos (suc z)) (pos m) (pos d))
unfolding days_from_civil_int
early z m d h k v =
    passed (λ y. from_year_int y (pos m) (pos d)) (year-early z m h k)
    ∙ from_year z (march_days (m + 9)) d (pos m) k (omega arith) v (doy-early m d h v)
    ∙ ap ok (sym (before_march z m d h v.0))

late :
    (y k d : ℕ)
    → k ≤ 9
    → y ≤ 5000000
    → (1 ≤ d) × (d ≤ 31)
    → days_from_civil_int (pos y) (pos (suc (suc (suc k)))) (pos d)
      ≡ ok (days_from_civil (pos y) (pos (suc (suc (suc k)))) (pos d))
unfolding days_from_civil_int
late y k d h l v =
    passed (λ y'. from_year_int y' (pos (suc (suc (suc k)))) (pos d)) (year-late y k)
    ∙ from_year y (march_days k) d (pos (suc (suc (suc k)))) l (omega arith) v (doy-late k d h v)
    ∙ ap ok (sym (from_march y k d v.0))

-- For a date in the years from 1 to 5000000, `days_from_civil` in 32-bit integers does not overflow, and
-- is what it is without bounds.
pub days_from_civil_int-days_from_civil :
    (y m d : ℕ)
    → (1 ≤ y) × (y ≤ 5000000)
    → (1 ≤ m) × (m ≤ 12)
    → (1 ≤ d) × (d ≤ 31)
    → days_from_civil_int (pos y) (pos m) (pos d) ≡ ok (days_from_civil (pos y) (pos m) (pos d))
days_from_civil_int-days_from_civil zero m d hy hm hd = absurd (omega (arith, hy.0))
days_from_civil_int-days_from_civil (suc z) zero d hy hm hd = absurd (omega (arith, hm.0))
days_from_civil_int-days_from_civil (suc z) (suc zero) d hy hm hd =
    early z 1 d (omega arith) (omega (arith, hy.1)) hd
days_from_civil_int-days_from_civil (suc z) (suc (suc zero)) d hy hm hd =
    early z 2 d (omega arith) (omega (arith, hy.1)) hd
days_from_civil_int-days_from_civil (suc z) (suc (suc (suc k))) d hy hm hd =
    late (suc z) k d (omega (arith, hm.1)) hy.1 hd
