-- ===== src/DataSource/Dates.antt =====
-- Dates and timestamps that the server writes, read back.
use rpostgres.Prelude.{
  ℕ, ◌+◌, ◌*◌, ◌<◌, ◌≤◌, ◌≡◌, refl, ap, arith, length, drop, [], ◌∷◌, ◌++◌, Bool, true, false,
}
use rpostgres.Prelude.Int.{ℤ, pos, negsuc, ◌+ℤ◌, ◌-ℤ◌, ◌*ℤ◌, int_laws, +ℤ_parts, pos-add, pos-mul}
use rpostgres.Prelude.Outcome.{ok}
use rpostgres.Runtime.{Runtime, Bytes}
use rpostgres.Civil.{tm_to_time_t}
use rpostgres.Civil.DayCount.{day_count}
use rpostgres.Civil.Agreement.{days_from_civil-eq}
use rpostgres.DataSource.{
  char_at, two_digits, zone_minutes, utc_offset, text_from, plus_sign, minus_sign, colon,
  fetch_date, fetch_time, convert_datetime,
}
use rpostgres.DataSource.Text.{
  print_two, print_date, print_minute, two_digits-read, four_digits-read, char-read,
}

-- A date of the civil calendar with a year of four digits.
pub record IsDate (y m d : ℕ) : Type 0 where
  pub year_in : y < 10000
  pub month_in : (1 ≤ m) × (m ≤ 12)
  pub day_in : (1 ≤ d) × (d ≤ 31)

pub record IsMinute (h m : ℕ) : Type 0 where
  pub hour_in : h < 100
  pub min_in : m < 60

-- A timestamp up to its seconds, and the rest.
abbrev pub stamp : ℕ → ℕ → ℕ → ℕ → ℕ → Bytes → Bytes
stamp y m d h mi rest = print_date y m d (32 ∷ print_minute h mi rest)

-- Days from 1970-01-01 to the date.
abbrev pub epoch_days : ℕ → ℕ → ℕ → ℤ
epoch_days y m d = pos (day_count y m d) -ℤ pos 719529

-- The offset that the server writes after the seconds of a timestamp with time zone: none, hours,
-- hours and minutes, or hours, minutes and seconds. `true` is east.
pub data Zone : Type 0 where
  local : Zone
  hours : Bool → ℕ → Zone
  minutes : Bool → ℕ → ℕ → Zone
  seconds : Bool → ℕ → ℕ → ℕ → Zone

abbrev pub sign_char : Bool → ℕ
sign_char true = plus_sign
sign_char false = minus_sign

abbrev pub print_zone : Zone → Bytes
print_zone local = []
print_zone (hours east h) = sign_char east ∷ print_two h []
print_zone (minutes east h m) = sign_char east ∷ print_two h (colon ∷ print_two m [])
print_zone (seconds east h m s) =
    sign_char east ∷ print_two h (colon ∷ print_two m (colon ∷ print_two s []))

abbrev pub signed : Bool → ℕ → ℤ
signed true n = pos n
signed false n = pos 0 -ℤ pos n

-- The offset in seconds that the hours and minutes say; seconds of an offset do not count.
abbrev pub zone_offset : Zone → ℤ
zone_offset local = pos 0
zone_offset (hours east h) = signed east (h * 3600)
zone_offset (minutes east h m) = signed east (h * 3600 + m * 60)
zone_offset (seconds east h m s) = signed east (h * 3600 + m * 60)

abbrev pub IsZone : Zone → Type 0
IsZone local = Unit
IsZone (hours east h) = h < 100
IsZone (minutes east h m) = (h < 100) × (m < 100)
IsZone (seconds east h m s) = (h < 100) × (m < 100) × (s < 100)

zone-local : utc_offset [] ≡ ok (pos 0)
unfolding utc_offset char_at
zone-local = refl

east-offset : (n : ℕ) → pos 1 *ℤ pos n ≡ signed true n
east-offset n = rw (pos-mul 1 n) (ap pos (omega arith))

west-offset : (n : ℕ) → negsuc 0 *ℤ pos n ≡ signed false n
unfolding ◌*ℤ◌ ◌-ℤ◌
west-offset n = ground arith

-- The offset from its parts, once they are read.
signed_offset :
    (east : Bool) (zone : Bytes) (h m : ℕ)
    → char_at zone 0 ≡ ok (sign_char east)
    → two_digits zone 1 ≡ ok (pos h)
    → zone_minutes zone ≡ ok (pos m)
    → utc_offset zone ≡ ok (signed east (h * 3600 + m * 60))
unfolding utc_offset
signed_offset true zone h m s a b =
    rw (s, a, b, pos-mul h 3600, pos-mul m 60, pos-add (h * 3600) (m * 60)) (ap ok (east-offset _))
signed_offset false zone h m s a b =
    rw (s, a, b, pos-mul h 3600, pos-mul m 60, pos-add (h * 3600) (m * 60)) (ap ok (west-offset _))

no_minutes : (east : Bool) (h : ℕ) → zone_minutes (sign_char east ∷ print_two h []) ≡ ok (pos 0)
unfolding zone_minutes char_at
no_minutes east h = refl

some_minutes :
    (east : Bool) (h m : ℕ) (rest : Bytes)
    → m < 100
    → zone_minutes (sign_char east ∷ print_two h (colon ∷ print_two m rest)) ≡ ok (pos m)
unfolding zone_minutes char_at
some_minutes east h m rest hm =
    two_digits-read (sign_char east ∷ print_two h (colon ∷ print_two m rest)) 4 m hm refl refl

-- An offset that the server writes is read as its hours and minutes, east or west; the seconds
-- that it may have are passed over.
pub utc_offset-print_zone : (z : Zone) → IsZone z → utc_offset (print_zone z) ≡ ok (zone_offset z)
utc_offset-print_zone local h = zone-local
utc_offset-print_zone (hours east h) p =
    rw
      (signed_offset east (print_zone (hours east h)) h 0
        (char-read (print_zone (hours east h)) 0 (sign_char east) refl)
        (two_digits-read (print_zone (hours east h)) 1 h p refl refl) (no_minutes east h))
      (ap (λ n. ok (signed east n)) (omega arith))
utc_offset-print_zone (minutes east h m) p =
    signed_offset east (print_zone (minutes east h m)) h m
      (char-read (print_zone (minutes east h m)) 0 (sign_char east) refl)
      (two_digits-read (print_zone (minutes east h m)) 1 h p.0 refl refl)
      (some_minutes east h m [] p.1)
utc_offset-print_zone (seconds east h m s) p =
    signed_offset east (print_zone (seconds east h m s)) h m
      (char-read (print_zone (seconds east h m s)) 0 (sign_char east) refl)
      (two_digits-read (print_zone (seconds east h m s)) 1 h p.0 refl refl)
      (some_minutes east h m (colon ∷ print_two s []) p.1)

text_from-drop : (text : Bytes) (i : ℕ) → i ≤ length text → text_from text i ≡ ok (drop i text)
unfolding text_from
text_from-drop text i h = ground arith

there_and_back : (n k : ℕ) → pos n -ℤ pos k +ℤ pos k ≡ pos n
there_and_back n k = omega int_laws

-- The whole seconds since the epoch of a civil date and time.
abbrev pub epoch_seconds : ℕ → ℕ → ℕ → ℕ → ℕ → ℤ → ℤ
epoch_seconds y m d h mi s = epoch_days y m d *ℤ pos 86400 +ℤ pos (h * 3600 + mi * 60) +ℤ s

-- `tm_to_time_t` counts the seconds since the epoch.
pub tm_to_time_t-eq :
    (y m d h mi : ℕ) (s : ℤ)
    → IsDate y m d
    → tm_to_time_t (record {
      tm_year = pos y -ℤ pos 1900;
      tm_mon = pos m -ℤ pos 1;
      tm_mday = pos d;
      tm_hour = pos h;
      tm_min = pos mi;
      tm_sec = s;
    })
      ≡ epoch_seconds y m d h mi s
unfolding tm_to_time_t
tm_to_time_t-eq y m d h mi s v =
    rw
      (
        there_and_back y 1900,
        there_and_back m 1,
        days_from_civil-eq y m d v.month_in.0 v.month_in.1 v.day_in.0,
        pos-mul h 60,
        pos-mul (h * 60) 60,
        pos-mul mi 60,
      )
      (omega (int_laws, +ℤ_parts))

module _ (r : Runtime) where
  open r use {Double, of_int, to_int, add, sub, strtod}

  -- A date that the server writes becomes the number of days since 1970-01-01, whatever follows
  -- its ten characters.
  pub fetch_date-print_date :
      (y m d : ℕ) (rest : Bytes)
      → IsDate y m d
      → fetch_date r (print_date y m d rest) ≡ ok (of_int (epoch_days y m d))
  unfolding fetch_date
  fetch_date-print_date y m d rest v =
      rw
        (
          four_digits-read (print_date y m d rest) 0 y v.year_in refl refl refl refl,
          two_digits-read (print_date y m d rest) 5 m (omega arith) refl refl,
          two_digits-read (print_date y m d rest) 8 d (omega arith) refl refl,
        )
        (ap (λ n. ok (of_int n)) (days_from_civil-eq y m d v.month_in.0 v.month_in.1 v.day_in.0))

  -- A time of day that the server writes becomes its seconds since midnight.
  pub fetch_time-print_minute :
      (h m : ℕ) (sec_text : Bytes)
      → IsMinute h m
      → fetch_time r (print_minute h m sec_text)
        ≡ ok (add (of_int (pos (h * 3600 + m * 60))) (strtod sec_text).0)
  unfolding fetch_time text_from
  fetch_time-print_minute h m sec_text v = rw (
    two_digits-read (print_minute h m sec_text) 0 h v.hour_in refl refl,
    two_digits-read (print_minute h m sec_text) 3 m (omega arith) refl refl,
    pos-mul h 3600,
    pos-mul m 60,
    pos-add (h * 3600) (m * 60),
    text_from-drop (print_minute h m sec_text) 6 (omega arith),
  )

  -- A timestamp that the server writes becomes the whole seconds from the epoch to its civil date and
  -- time as they are written, with the fraction of a second added and the hours and minutes of the
  -- zone's offset taken off; the seconds that an offset may have as well are passed over, so a
  -- timestamp with such an offset does not become its seconds since the epoch.
  pub convert_datetime-print :
      (y m d h mi : ℕ) (sec_text : Bytes) (sec : Double) (z : Zone)
      → IsDate y m d
      → IsMinute h mi
      → IsZone z
      → strtod (sec_text ++ print_zone z) ≡ (sec, print_zone z)
      → convert_datetime r (stamp y m d h mi (sec_text ++ print_zone z))
        ≡ ok (
            sub
              (add (of_int (epoch_seconds y m d h mi (to_int sec))) (sub sec (of_int (to_int sec))))
              (of_int (zone_offset z)))
  unfolding convert_datetime
  convert_datetime-print y m d h mi sec_text sec z vd vm vz e = rw (
    four_digits-read (stamp y m d h mi (sec_text ++ print_zone z)) 0 y vd.year_in refl refl refl
        refl,
    two_digits-read (stamp y m d h mi (sec_text ++ print_zone z)) 5 m (omega arith) refl refl,
    two_digits-read (stamp y m d h mi (sec_text ++ print_zone z)) 8 d (omega arith) refl refl,
    two_digits-read (stamp y m d h mi (sec_text ++ print_zone z)) 11 h vm.hour_in refl refl,
    two_digits-read (stamp y m d h mi (sec_text ++ print_zone z)) 14 mi (omega arith) refl refl,
    text_from-drop (stamp y m d h mi (sec_text ++ print_zone z)) 17 (omega arith),
    e,
    utc_offset-print_zone z vz,
    tm_to_time_t-eq y m d h mi (to_int sec) vd,
  )
