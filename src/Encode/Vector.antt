-- ===== src/Encode/Vector.antt =====
-- `encode_vector` against `encode_data_frame`.
use rpostgres.Prelude.{ℕ, false, zero, suc, ◌+◌, ◌<◌, ◌≡◌, refl, [], ◌∷◌, ◌++◌, arith, ◌==◌}
use rpostgres.Prelude.Outcome.{Outcome, ok, stop, undefined, ◌>>=◌}
use rpostgres.Runtime.{Runtime, Bytes}
use rpostgres.Encode.{
  Sexp, sexp_length, newline, encode_in_buffer, encode_fields, encode_row_in_buffer, encode_rows,
  encode_data_frame, encode_vector_loop, encode_vector,
}

-- Ends the last line.
abbrev pub with_newline : Bytes → Outcome Bytes
with_newline out = ok (out ++ newline ∷ [])

suc-ne-zero : (k : ℕ) → (suc k == 0) ≡ false
suc-ne-zero k = ground arith

module _ (r : Runtime) where
  open r use {Double, CharSxp}

  -- Two chains that go on alike after a first call that they share.
  chain :
      (o : Outcome Bytes) (f g h k : Bytes → Outcome Bytes)
      → ((b : Bytes) → (f b >>= g) ≡ (h b >>= k))
      → ((o >>= f) >>= g) ≡ ((o >>= h) >>= k)
  chain (ok b) f g h k e = e b
  chain (stop m) f g h k e = refl
  chain undefined f g h k e = refl

  encode_rows-encode_vector_loop :
      (x : Sexp Double CharSxp) (left i : ℕ) (buffer : Bytes)
      → encode_rows r (x ∷ []) i (suc left) buffer
        ≡ (encode_vector_loop r x i (suc left) buffer >>= with_newline)
  unfolding encode_rows encode_row_in_buffer encode_fields encode_vector_loop
  encode_rows-encode_vector_loop x zero i buffer =
      chain (encode_in_buffer r x i buffer) with_newline _ _ with_newline (λ b. refl)
  encode_rows-encode_vector_loop x (suc k) i buffer =
      chain (encode_in_buffer r x i buffer) with_newline _ _ with_newline
        (λ b. rw (suc-ne-zero k) (encode_rows-encode_vector_loop x k (i + 1) (b ++ newline ∷ [])))

  -- A vector with at least one element is encoded as the data frame of that one column is, but for
  -- the newline that ends the last line; where one of the two fails, the other fails in the same way.
  pub encode_data_frame-encode_vector :
      (x : Sexp Double CharSxp)
      → 0 < sexp_length x
      → encode_data_frame r (x ∷ []) ≡ (encode_vector r x >>= with_newline)
  unfolding encode_data_frame encode_vector
  encode_data_frame-encode_vector x h = counted (sexp_length x) h
    where
      counted :
          (n : ℕ)
          → 0 < n
          → encode_rows r (x ∷ []) 0 n [] ≡ (encode_vector_loop r x 0 n [] >>= with_newline)
      counted zero p = elim p [ ]
      counted (suc n) p = encode_rows-encode_vector_loop x n 0 []
