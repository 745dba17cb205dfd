-- ===== src/DataSource.antt =====
-- src/PqColumnDataSource.cpp: a cell of the current row, as the text that libpq gives, and its
-- conversions. The text is the bytes before the NUL of the C string; `j`, the column's position,
-- and the pointer to the current result are what chose the text, in `PQgetvalue(result, 0, j)`.
pub mod Text
pub mod Dates
mod Examples
use rpostgres.Prelude.{
  ℕ, ◌+◌, ◌*◌, ◌<◌, ◌≡◌, Bool, true, false, Option, none, some, List, [], ◌∷◌, ◌++◌, ltb, ◌==◌,
  if◌then◌else◌, ◌&&◌, ◌||◌, length, get_elem?, drop,
}
use rpostgres.Prelude.Int.{ℤ, pos, negsuc, ◌+ℤ◌, ◌-ℤ◌, ◌*ℤ◌}
use rpostgres.Prelude.Outcome.{Outcome, ok, stop, undefined, ◌>>=◌}
use rpostgres.Runtime.{Runtime, Bytes}
use rpostgres.Civil.{days_from_civil, Tm, tm_to_time_t}

-- `*(val + i)`: the NUL may be read, and nothing after it.
unfoldable pub char_at : Bytes → ℕ → Outcome ℕ
char_at text i = elim (get_elem? (text ++ 0 ∷ []) i) [ none ↦ undefined | some c ↦ ok c ]

-- `*(val + i) - 0x30`, with `char` taken as unsigned: where it is signed, a byte from 128 on, which
-- is in no date or time that the server writes, gives 256 less.
unfoldable pub digit_at : Bytes → ℕ → Outcome ℤ
unfolding char_at
digit_at text i = do c ← char_at text i; ok (pos c -ℤ pos 48)

-- Two digits from position i on, as `(d - 0x30) * 10` and `+= (d - 0x30)`.
unfoldable pub two_digits : Bytes → ℕ → Outcome ℤ
unfolding digit_at
two_digits text i = do a ← digit_at text i; b ← digit_at text (i + 1); ok (a *ℤ pos 10 +ℤ b)

-- The four digits of a year, each added after `year *= 10`.
unfoldable pub four_digits : Bytes → ℕ → Outcome ℤ
unfolding digit_at
four_digits text i = do
  a ← digit_at text i
  b ← digit_at text (i + 1)
  c ← digit_at text (i + 2)
  d ← digit_at text (i + 3)
  ok (((a *ℤ pos 10 +ℤ b) *ℤ pos 10 +ℤ c) *ℤ pos 10 +ℤ d)

-- The pointer moved on by i.
unfoldable pub text_from : Bytes → ℕ → Outcome Bytes
text_from text i = if ltb (length text) i then undefined else ok (drop i text)

-- `strcmp(a, b) == 0`
unfoldable pub text_eq : Bytes → Bytes → Bool
text_eq [] [] = true
text_eq [] (d ∷ ds) = false
text_eq (c ∷ cs) [] = false
text_eq (c ∷ cs) (d ∷ ds) = c == d && text_eq cs ds

abbrev pub plus_sign : ℕ
plus_sign = 43

abbrev pub minus_sign : ℕ
minus_sign = 45

abbrev pub colon : ℕ
colon = 58

-- The minutes of a time zone after its hours, and 0 with no colon there.
unfoldable pub zone_minutes : Bytes → Outcome ℤ
zone_minutes zone = do
  c ← char_at zone 3
  let minutes = two_digits zone 4
  if c == colon then minutes else ok (pos 0)

-- The offset in seconds that the text after the seconds gives: 0 if it begins with no sign.
unfoldable pub utc_offset : Bytes → Outcome ℤ
utc_offset zone = do
  c ← char_at zone 0
  let sign = if c == plus_sign then pos 1 else negsuc 0
  let offset = do
    tz_hours ← two_digits zone 1
    tz_minutes ← zone_minutes zone
    ok (sign *ℤ (tz_hours *ℤ pos 3600 +ℤ tz_minutes *ℤ pos 60))
  if c == plus_sign || c == minus_sign then offset else ok (pos 0)

module _ (r : Runtime) where
  open r use {Double, of_int, to_int, add, sub, infinity, minus_infinity, nan}
  open r use {atoi, atof, strtod, lexical_cast_int64, unescape_bytea}

  -- "t" is true; anything else is false.
  unfoldable pub fetch_bool : Bytes → ℤ
  unfolding text_eq
  fetch_bool text = if text_eq text (116 ∷ []) then pos 1 else pos 0

  unfoldable pub fetch_int : Bytes → ℤ
  fetch_int text = atoi text

  -- `boost::bad_lexical_cast` is an R error by the time that it leaves the package.
  unfoldable pub fetch_int64 : Bytes → Outcome ℤ
  fetch_int64 text = elim (lexical_cast_int64 text) [
    | none ↦ stop "bad lexical cast: source type value could not be interpreted as target"
    | some n ↦ ok n
  ]

  unfoldable pub fetch_real : Bytes → Double
  unfolding text_eq
  fetch_real text =
      if text_eq text (45 ∷ 73 ∷ 110 ∷ 102 ∷ 105 ∷ 110 ∷ 105 ∷ 116 ∷ 121 ∷ [])
      then minus_infinity
      else if text_eq text (73 ∷ 110 ∷ 102 ∷ 105 ∷ 110 ∷ 105 ∷ 116 ∷ 121 ∷ [])
      then infinity
      else if text_eq text (78 ∷ 97 ∷ 78 ∷ [])
      then nan
      else atof text

  unfoldable pub fetch_string : Bytes → Bytes
  fetch_string text = text

  -- `memcpy` reads what libpq returned, which may be NULL.
  unfoldable pub fetch_blob : Bytes → Outcome Bytes
  fetch_blob text = elim (unescape_bytea text) [ none ↦ undefined | some bytes ↦ ok bytes ]

  unfoldable pub fetch_date : Bytes → Outcome Double
  fetch_date text = do
    year ← four_digits text 0
    mon ← two_digits text 5
    mday ← two_digits text 8
    ok (of_int (days_from_civil year mon mday))

  unfoldable pub fetch_time : Bytes → Outcome Double
  fetch_time text = do
    hour ← two_digits text 0
    min ← two_digits text 3
    rest ← text_from text 6
    ok (add (of_int (hour *ℤ pos 3600 +ℤ min *ℤ pos 60)) (strtod rest).0)

  unfoldable pub convert_datetime : Bytes → Outcome Double
  convert_datetime text = do
    year ← four_digits text 0
    mon ← two_digits text 5
    mday ← two_digits text 8
    hour ← two_digits text 11
    min ← two_digits text 14
    rest ← text_from text 17
    let sec = (strtod rest).0
    let date : Tm = record {
      tm_year = year -ℤ pos 1900;
      tm_mon = mon -ℤ pos 1;
      tm_mday = mday;
      tm_hour = hour;
      tm_min = min;
      tm_sec = to_int sec;
    }
    utcoffset ← utc_offset (strtod rest).1
    ok (sub (add (of_int (tm_to_time_t date)) (sub sec (of_int date.tm_sec))) (of_int utcoffset))

  unfoldable pub fetch_datetime_local : Bytes → Outcome Double
  fetch_datetime_local text = convert_datetime text

  unfoldable pub fetch_datetime : Bytes → Outcome Double
  fetch_datetime text = convert_datetime text
