-- ===== src/Encode/Examples.antt =====
-- Runs of src/encode.cpp, and the theorems at concrete inputs.
use rpostgres.Prelude.{
  ℕ, ◌≤◌, ◌≡◌, refl, ◌↔◌, arith, Option, none, some, List, [], ◌∷◌, ◌++◌, length,
}
use rpostgres.Prelude.Int.{ℤ, pos}
use rpostgres.Prelude.Outcome.{ok, stop, ◌>>=◌}
use rpostgres.Runtime.{Bytes}
use rpostgres.Sample.{sample}
use rpostgres.Encode.{
  Sexp, int_sexp, str_sexp, other_sexp, na_integer, encode_data_frame, encode_vector, encode_real,
  c_string,
}
use rpostgres.Encode.Copy.{reading, read_copy}
use rpostgres.Encode.RoundTrip.{RowsAre, read_copy-encode_data_frame}
use rpostgres.Encode.Vector.{with_newline, encode_data_frame-encode_vector}
use rpostgres.Encode.Numbers.{encode_real-fits}

-- A tab, a backslash with an N after it, and NA_STRING.
abbrev texts : Sexp ℤ Bytes
texts = str_sexp (some (97 ∷ 9 ∷ []) ∷ some (92 ∷ 78 ∷ []) ∷ none ∷ [])

abbrev numbers : Sexp ℤ Bytes
numbers = int_sexp (pos 7 ∷ na_integer ∷ pos 3 ∷ [])

abbrev table : List (List (Option Bytes))
table =
    (some (97 ∷ 9 ∷ []) ∷ some (55 ∷ []) ∷ [])
    ∷ (some (92 ∷ 78 ∷ []) ∷ none ∷ [])
    ∷ (none ∷ some (51 ∷ []) ∷ [])
    ∷ []

encoded :
    encode_data_frame sample (texts ∷ numbers ∷ [])
    ≡ ok
        (97 ∷ 92 ∷ 116 ∷ 9 ∷ 55 ∷ 10 ∷ 92 ∷ 92 ∷ 78 ∷ 9 ∷ 92 ∷ 78 ∷ 10 ∷ 92 ∷ 78 ∷ 9 ∷ 51 ∷ 10 ∷ [])
unfolding encode_data_frame
encoded = refl

unsupported :
    encode_data_frame sample (numbers ∷ other_sexp "list" 3 ∷ [])
    ≡ stop "Don't know how to handle vector of type list."
unfolding encode_data_frame
unsupported = refl

cells : RowsAre sample (texts ∷ numbers ∷ []) 0 table
unfolding c_string
cells = (
  ((some (97 ∷ 9 ∷ []), refl, refl), ((pos 7, refl, refl, omega arith), tt)),
  (
    ((some (92 ∷ 78 ∷ []), refl, refl), ((na_integer, refl, refl, omega arith), tt)),
    (((none, refl, refl), ((pos 3, refl, refl, omega arith), tt)), tt),
  ),
)

read_copy-encode_data_frame_example :
    (out : Bytes) × (encode_data_frame sample (texts ∷ numbers ∷ []) ≡ ok out)
    × (read_copy out ≡ reading table [] [])
read_copy-encode_data_frame_example =
    read_copy-encode_data_frame sample texts (numbers ∷ []) table refl cells

encode_data_frame-encode_vector_example :
    encode_data_frame sample (numbers ∷ []) ≡ (encode_vector sample numbers >>= with_newline)
encode_data_frame-encode_vector_example =
    encode_data_frame-encode_vector sample numbers (omega arith)

encode_real-fits_example :
    (encode_real sample (pos 5) (9 ∷ []) ≡ (9 ∷ []) ++ (53 ∷ [])) ↔ (length {A = ℕ} (53 ∷ []) ≤ 23)
encode_real-fits_example = encode_real-fits sample (pos 5) (9 ∷ []) refl
