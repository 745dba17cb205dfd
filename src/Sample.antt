-- ===== src/Sample.antt =====
-- A runtime for examples, which meets the hypotheses of the theorems: whole numbers in place of
-- doubles, numbers printed and read as one or two digits, and text that is kept as it is.
use rpostgres.Prelude.{◌+◌, ◌-◌, ◌*◌, true, false, some, [], ◌∷◌}
use rpostgres.Prelude.Int.{ℤ, pos, negsuc, ◌+ℤ◌, ◌-ℤ◌, ltb_ℤ, pos_part}
use rpostgres.Runtime.{Runtime, Bytes}

-- One digit, as the texts of the examples have it.
abbrev pub print_digit : ℤ → Bytes
print_digit n = (48 + pos_part n) ∷ []

-- Two digits and the rest.
abbrev pub read_two : Bytes → ℤ × Bytes
read_two [] = (pos 0, [])
read_two (a ∷ []) = (pos (a - 48), [])
read_two (a ∷ b ∷ rest) = (pos ((a - 48) * 10 + (b - 48)), rest)

abbrev pub sample : Runtime
sample = record {
  Double = ℤ;
  r_finite = λ d. true;
  is_na = λ d. false;
  is_nan = λ d. false;
  is_positive = λ d. ltb_ℤ (pos 0) d;
  na_real = negsuc 0;
  infinity = pos 99;
  minus_infinity = negsuc 98;
  nan = negsuc 1;
  of_int = λ n. n;
  to_int = λ d. d;
  add = λ a b. a +ℤ b;
  sub = λ a b. a -ℤ b;
  format_int = print_digit;
  format_double = print_digit;
  CharSxp = Bytes;
  translate_utf8 = λ s. s;
  atoi = λ s. (read_two s).0;
  atof = λ s. (read_two s).0;
  strtod = read_two;
  lexical_cast_int64 = λ s. some (read_two s).0;
  unescape_bytea = λ s. some s;
}
