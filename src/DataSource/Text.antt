-- ===== src/DataSource/Text.antt =====
-- How the server writes dates, times and offsets, and that the digits are read back.
use rpostgres.Prelude.{ℕ, ◌+◌, ◌/◌, ◌%◌, ◌<◌, ◌≡◌, ap, arith, some, get_elem?, [], ◌∷◌, ◌++◌}
use rpostgres.Prelude.Int.{pos, ◌-ℤ◌, pos-sub, pos-add, pos-mul}
use rpostgres.Prelude.Outcome.{ok}
use rpostgres.Runtime.{Bytes}
use rpostgres.DataSource.{char_at, digit_at, two_digits, four_digits}

-- A decimal digit as a byte.
abbrev pub digit : ℕ → ℕ
digit n = 48 + n % 10

-- A number below 100 in two digits, before a rest.
abbrev pub print_two : ℕ → Bytes → Bytes
print_two n rest = digit (n / 10) ∷ digit n ∷ rest

-- A number below 10000 in four digits.
abbrev pub print_four : ℕ → Bytes → Bytes
print_four n rest = digit (n / 1000) ∷ digit (n / 100) ∷ digit (n / 10) ∷ digit n ∷ rest

-- ISO 8601 as the server writes it under DateStyle ISO: YYYY-MM-DD.
abbrev pub print_date : ℕ → ℕ → ℕ → Bytes → Bytes
print_date y m d rest = print_four y (45 ∷ print_two m (45 ∷ print_two d rest))

-- hh:mm: before the seconds.
abbrev pub print_minute : ℕ → ℕ → Bytes → Bytes
print_minute h m rest = print_two h (58 ∷ print_two m (58 ∷ rest))

digit_value : (n : ℕ) → pos (digit n) -ℤ pos 48 ≡ pos (n % 10)
digit_value n = rw (pos-sub (digit n) 48 (omega arith)) (ap pos (omega arith))

pub char-read :
    (text : Bytes) (i c : ℕ) → get_elem? (text ++ 0 ∷ []) i ≡ some c → char_at text i ≡ ok c
unfolding char_at
char-read text i c e = rw (e, char_at)

digit-read :
    (text : Bytes) (i n : ℕ)
    → get_elem? (text ++ 0 ∷ []) i ≡ some (digit n)
    → digit_at text i ≡ ok (pos (n % 10))
unfolding digit_at
digit-read text i n e = rw (char-read text i (digit n) e) (ap ok (digit_value n))

-- Two digits in the text are read as their number.
pub two_digits-read :
    (text : Bytes) (i n : ℕ)
    → n < 100
    → get_elem? (text ++ 0 ∷ []) i ≡ some (digit (n / 10))
    → get_elem? (text ++ 0 ∷ []) (i + 1) ≡ some (digit n)
    → two_digits text i ≡ ok (pos n)
unfolding two_digits
two_digits-read text i n h a b =
    rw (digit-read text i (n / 10) a, digit-read text (i + 1) n b)
      (simp (pos-mul, pos-add) (ap (λ k. ok (pos k)) (omega arith)))

-- Four digits in the text are read as their number.
pub four_digits-read :
    (text : Bytes) (i n : ℕ)
    → n < 10000
    → get_elem? (text ++ 0 ∷ []) i ≡ some (digit (n / 1000))
    → get_elem? (text ++ 0 ∷ []) (i + 1) ≡ some (digit (n / 100))
    → get_elem? (text ++ 0 ∷ []) (i + 2) ≡ some (digit (n / 10))
    → get_elem? (text ++ 0 ∷ []) (i + 3) ≡ some (digit n)
    → four_digits text i ≡ ok (pos n)
unfolding four_digits
four_digits-read text i n h a b c d =
    rw
      (
        digit-read text i (n / 1000) a,
        digit-read text (i + 1) (n / 100) b,
        digit-read text (i + 2) (n / 10) c,
        digit-read text (i + 3) n d,
      )
      (simp (pos-mul, pos-add) (ap (λ k. ok (pos k)) (omega arith)))
