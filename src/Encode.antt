-- ===== src/Encode.antt =====
-- src/encode.cpp and src/encode.h: the text form of COPY, written by `copy_data`.
pub mod Copy
pub mod Escape
pub mod RoundTrip
pub mod Vector
pub mod Numbers
mod Examples
use Prim.Native.String.{String, ◌++◌ as string_append}
use rpostgres.Prelude.{
  ℕ, zero, suc, ◌+◌, ◌-◌, not, Option, none, some, List, [], ◌∷◌, ◌++◌, ◌==◌, if◌then◌else◌, length,
  get_elem?, take,
}
use rpostgres.Prelude.Int.{ℤ, pos, negsuc, ◌==ℤ◌}
use rpostgres.Prelude.Outcome.{Outcome, ok, stop, undefined, ◌>>=◌}
use rpostgres.Runtime.{Runtime, Bytes}

abbrev pub tab : ℕ
tab = 9

abbrev pub newline : ℕ
newline = 10

abbrev pub backslash : ℕ
backslash = 92

-- `INT_MIN`, R's NA for integers and logicals.
abbrev pub na_integer : ℤ
na_integer = negsuc 2147483647

-- The text that stands for NULL, `\N`.
abbrev pub null_text : Bytes
null_text = backslash ∷ 78 ∷ []

abbrev pub true_text : Bytes
true_text = 116 ∷ 114 ∷ 117 ∷ 101 ∷ []

abbrev pub false_text : Bytes
false_text = 102 ∷ 97 ∷ 108 ∷ 115 ∷ 101 ∷ []

abbrev pub nan_text : Bytes
nan_text = 78 ∷ 97 ∷ 78 ∷ []

abbrev pub infinity_text : Bytes
infinity_text = 73 ∷ 110 ∷ 102 ∷ 105 ∷ 110 ∷ 105 ∷ 116 ∷ 121 ∷ []

abbrev pub minus : ℕ
minus = 45

-- The bytes of a C string, up to the first NUL: what `strlen` counts.
unfoldable pub c_string : Bytes → Bytes
c_string [] = []
c_string (c ∷ cs) = if c == 0 then [] else c ∷ c_string cs

-- The `switch` of `escape_in_buffer`.
unfoldable pub escape_char : ℕ → Bytes
escape_char c =
    if c == 8
    then backslash ∷ 98 ∷ []
    else if c == 12
    then backslash ∷ 102 ∷ []
    else if c == newline
    then backslash ∷ 110 ∷ []
    else if c == 13
    then backslash ∷ 114 ∷ []
    else if c == tab
    then backslash ∷ 116 ∷ []
    else if c == 11
    then backslash ∷ 118 ∷ []
    else if c == backslash
    then backslash ∷ backslash ∷ []
    else c ∷ []

-- Its loop, over the bytes that `strlen` counts.
unfoldable pub escape_loop : Bytes → Bytes → Bytes
escape_loop [] buffer = buffer
escape_loop (c ∷ cs) buffer = escape_loop cs (buffer ++ escape_char c)

unfoldable pub escape_in_buffer : Bytes → Bytes → Bytes
escape_in_buffer string buffer = escape_loop (c_string string) buffer

-- `snprintf(buf, size, ...)` and the C string in `buf`: at most `size - 1` characters of the text.
unfoldable pub snprintf : ℕ → Bytes → Bytes
snprintf size text = take (size - 1) text

-- An R vector by its type; an element of a character vector is `none` for NA_STRING, and
-- `other_sexp` has the type's name and the length.
pub data Sexp (Double CharSxp : Type 0) : Type 0 where
  lgl_sexp : List ℤ → Sexp Double CharSxp
  int_sexp : List ℤ → Sexp Double CharSxp
  real_sexp : List Double → Sexp Double CharSxp
  str_sexp : List (Option CharSxp) → Sexp Double CharSxp
  other_sexp : String → ℕ → Sexp Double CharSxp

-- `Rf_length`
abbrev pub sexp_length : {D C : Type 0} → Sexp D C → ℕ
sexp_length (lgl_sexp xs) = length xs
sexp_length (int_sexp xs) = length xs
sexp_length (real_sexp xs) = length xs
sexp_length (str_sexp xs) = length xs
sexp_length (other_sexp name n) = n

-- Writes an element of a vector to the buffer; past the end the read is undefined.
abbrev pub write_elem {ℓ} : {A : Type ℓ} → List A → ℕ → (A → Bytes → Bytes) → Bytes → Outcome Bytes
write_elem xs i write buffer = elim (get_elem? xs i) [
  | none ↦ undefined
  | some x ↦ ok (write x buffer)
]

module _ (r : Runtime) where
  open r use {Double, CharSxp, r_finite, is_na, is_nan, is_positive}
  open r use {format_int, format_double, translate_utf8}

  unfoldable pub encode_lgl : ℤ → Bytes → Bytes
  encode_lgl value buffer =
      buffer
      ++ (if value ==ℤ pos 1 then true_text else if value ==ℤ pos 0 then false_text else null_text)

  unfoldable pub encode_int : ℤ → Bytes → Bytes
  unfolding snprintf
  encode_int value buffer =
      buffer ++ (if value ==ℤ na_integer then null_text else snprintf 32 (format_int value))

  unfoldable pub encode_real : Double → Bytes → Bytes
  unfolding snprintf
  encode_real value buffer =
      buffer
      ++ (if not (r_finite value)
          then (if is_na value
              then null_text
              else if is_nan value
              then nan_text
              else if is_positive value
              then infinity_text
              else minus ∷ infinity_text)
          else snprintf (17 + 1 + 1 + 4 + 1) (format_double value))

  unfoldable pub encode_str : Option CharSxp → Bytes → Bytes
  unfolding escape_in_buffer escape_loop c_string escape_char
  encode_str none buffer = buffer ++ null_text
  encode_str (some s) buffer = escape_in_buffer (translate_utf8 s) buffer

  -- The `switch` on the vector's type.
  unfoldable pub encode_in_buffer : Sexp Double CharSxp → ℕ → Bytes → Outcome Bytes
  unfolding encode_lgl encode_int encode_real encode_str
  encode_in_buffer (lgl_sexp xs) i buffer = write_elem xs i encode_lgl buffer
  encode_in_buffer (int_sexp xs) i buffer = write_elem xs i encode_int buffer
  encode_in_buffer (real_sexp xs) i buffer = write_elem xs i encode_real buffer
  encode_in_buffer (str_sexp xs) i buffer = write_elem xs i encode_str buffer
  encode_in_buffer (other_sexp name n) i buffer =
      stop (string_append "Don't know how to handle vector of type " (string_append name "."))

  -- The loop of `encode_vector`, from element i with `left` elements to go.
  unfoldable pub encode_vector_loop : Sexp Double CharSxp → ℕ → ℕ → Bytes → Outcome Bytes
  unfolding encode_in_buffer
  encode_vector_loop x i zero buffer = ok buffer
  encode_vector_loop x i (suc left) buffer = do
    buffer' ← encode_in_buffer x i buffer
    encode_vector_loop x (i + 1) left (if left == 0 then buffer' else buffer' ++ newline ∷ [])

  unfoldable pub encode_vector : Sexp Double CharSxp → Outcome Bytes
  unfolding encode_vector_loop
  encode_vector x = encode_vector_loop x 0 (sexp_length x) []

  -- The loop of `encode_row_in_buffer` over the columns, with the delimiter between two of them.
  unfoldable pub encode_fields : List (Sexp Double CharSxp) → ℕ → Bytes → Bytes → Outcome Bytes
  unfolding encode_in_buffer
  encode_fields [] i buffer field_delim = ok buffer
  encode_fields (x ∷ []) i buffer field_delim = encode_in_buffer x i buffer
  encode_fields (x ∷ y ∷ rest) i buffer field_delim = do
    buffer' ← encode_in_buffer x i buffer
    encode_fields (y ∷ rest) i (buffer' ++ field_delim) field_delim

  unfoldable pub encode_row_in_buffer :
      List (Sexp Double CharSxp) → ℕ → Bytes → Bytes → Bytes → Outcome Bytes
  unfolding encode_fields
  encode_row_in_buffer x i buffer field_delim line_delim = do
    buffer' ← encode_fields x i buffer field_delim
    ok (buffer' ++ line_delim)

  -- The loop of `encode_data_frame` over the rows.
  unfoldable pub encode_rows : List (Sexp Double CharSxp) → ℕ → ℕ → Bytes → Outcome Bytes
  unfolding encode_row_in_buffer
  encode_rows x i zero buffer = ok buffer
  encode_rows x i (suc left) buffer = do
    buffer' ← encode_row_in_buffer x i buffer (tab ∷ []) (newline ∷ [])
    encode_rows x (i + 1) left buffer'

  unfoldable pub encode_data_frame : List (Sexp Double CharSxp) → Outcome Bytes
  unfolding encode_rows
  encode_data_frame [] = ok []
  encode_data_frame (x ∷ xs) = encode_rows (x ∷ xs) 0 (sexp_length x) []
