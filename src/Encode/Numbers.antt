-- ===== src/Encode/Numbers.antt =====
-- The buffer of 24 bytes in which `encode_in_buffer` prints a double.
use rpostgres.Prelude.{
  ◌≤◌, ◌≡◌, ap, ◌↔◌, true, ◌++◌, arith, length, take, length-append, length-take, take-all,
}
use rpostgres.Runtime.{Runtime, Bytes}
use rpostgres.Encode.{snprintf, encode_real}

module _ (r : Runtime) where
  open r use {Double, r_finite, format_double}

  printed :
      (v : Double) (buffer : Bytes)
      → r_finite v ≡ true
      → encode_real r v buffer ≡ buffer ++ take 23 (format_double v)
  unfolding encode_real snprintf
  printed v buffer h = rw h

  -- A finite double is appended as it prints under "%.17g" exactly if the text has at most 23
  -- characters: a longer one loses its end, though 17 digits, a sign, a point and an exponent of
  -- three digits make 24.
  pub encode_real-fits :
      (v : Double) (buffer : Bytes)
      → r_finite v ≡ true
      → (encode_real r v buffer ≡ buffer ++ format_double v) ↔ (length (format_double v) ≤ 23)
  encode_real-fits v buffer h = (
    λ e. omega (
      arith,
      ap length (rw (printed v buffer h) at e),
      length-append buffer (take 23 (format_double v)),
      length-append buffer (format_double v),
      length-take 23 (format_double v),
    ),
    λ fits. rw (printed v buffer h, take-all 23 (format_double v) fits),
  )
