-- ===== src/Runtime.antt =====
-- What the code takes from R, the C library, Boost and libpq, none of which is under src/: the
-- type of doubles with the operations used on it, and the functions that read and print numbers.
-- A theorem that relies on one of them has what it relies on among its hypotheses.
use rpostgres.Prelude.{ℕ, List, Bool, Option}
use rpostgres.Prelude.Int.{ℤ}

-- A `std::string` or a C string without its NUL: its bytes.
abbrev pub Bytes : Type 0
Bytes = List ℕ

pub record Runtime : Type 1 where
  pub Double : Type 0
  -- R_FINITE, ISNA, ISNAN, `value > 0`, and NA_REAL, INFINITY, -INFINITY, NAN
  pub r_finite : Double → Bool
  pub is_na : Double → Bool
  pub is_nan : Double → Bool
  pub is_positive : Double → Bool
  pub na_real : Double
  pub infinity : Double
  pub minus_infinity : Double
  pub nan : Double
  -- static_cast<double> of an integer, static_cast<int> of a double, + and -
  pub of_int : ℤ → Double
  pub to_int : Double → ℤ
  pub add : Double → Double → Double
  pub sub : Double → Double → Double
  -- the whole texts of printf for "%d" and "%.17g"
  pub format_int : ℤ → Bytes
  pub format_double : Double → Bytes
  -- a CHARSXP that is not NA_STRING, and Rf_translateCharUTF8
  pub CharSxp : Type 0
  pub translate_utf8 : CharSxp → Bytes
  -- atoi, atof, strtod with the rest of the text, boost::lexical_cast<int64_t> (none: it throws)
  pub atoi : Bytes → ℤ
  pub atof : Bytes → Double
  pub strtod : Bytes → Double × Bytes
  pub lexical_cast_int64 : Bytes → Option ℤ
  -- PQunescapeBytea
  pub unescape_bytea : Bytes → Option Bytes
