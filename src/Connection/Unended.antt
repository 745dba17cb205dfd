-- ===== src/Connection/Unended.antt =====
-- What `copy_data` of src/DbConnection.cpp leaves when a row fails.
use Prim.Native.String.{String}
use rpostgres.Prelude.{ℕ, zero, suc, ◌+◌, ◌≡◌, ◌∙◌, ap, Bool, true, List, [], ◌∷◌, arith}
use rpostgres.Prelude.Outcome.{Outcome, ok, stop, undefined}
use rpostgres.Prelude.Step.{Step, continue}
use rpostgres.Runtime.{Runtime, Bytes}
use rpostgres.Libpq.{Libpq}
use rpostgres.Encode.{Sexp, sexp_length, tab, newline, encode_row_in_buffer}
use rpostgres.Connection.Calls.{is_copy_in, require, copy_row, copy_rows, copy_data}
use rpostgres.Connection.Copying.{ended, require-ok}

module _ (r : Runtime) (L : Libpq) (in_copy : L.Conn → Bool) where
  open r use {Double, CharSxp}
  open L use {Conn, exec, put_copy_data}

  -- A step that leaves a COPY in progress where there is one.
  abbrev StaysIn : {A : Type 0} → Step Conn A → Type 0
  StaysIn m = (c : Conn) → in_copy c ≡ true → in_copy (m c).1 ≡ true

  continue-StaysIn :
      {A B : Type 0} (x : Outcome A × Conn) (next : A → Step Conn B)
      → in_copy x.1 ≡ true
      → ((a : A) → StaysIn (next a))
      → in_copy (continue x next).1 ≡ true
  continue-StaysIn (ok a, c) next h k = k a c h
  continue-StaysIn (stop message, c) next h k = h
  continue-StaysIn (undefined, c) next h k = h

  require-StaysIn :
      (msg : String) (f : Conn → Bool × Conn)
      → ((c : Conn) → in_copy c ≡ true → in_copy (f c).1 ≡ true)
      → StaysIn (require r L msg f)
  require-StaysIn msg f h c e = ground (arith, h c e)

  copy_row-StaysIn :
      ((line : Bytes) (c : Conn) → in_copy c ≡ true → in_copy (put_copy_data line c).1 ≡ true)
      → (df : List (Sexp Double CharSxp)) (i : ℕ) → StaysIn (copy_row r L df i)
  unfolding copy_row
  copy_row-StaysIn h df i c e =
      continue-StaysIn (encode_row_in_buffer r df i [] (tab ∷ []) (newline ∷ []), c)
        (λ buffer. require r L "Failed to put data" (put_copy_data buffer)) e
        (λ buffer. require-StaysIn "Failed to put data" (put_copy_data buffer) (h buffer))

  copy_rows-StaysIn :
      ((line : Bytes) (c : Conn) → in_copy c ≡ true → in_copy (put_copy_data line c).1 ≡ true)
      → (df : List (Sexp Double CharSxp)) (i left : ℕ) → StaysIn (copy_rows r L df i left)
  unfolding copy_rows
  copy_rows-StaysIn h df i zero c e = e
  copy_rows-StaysIn h df i (suc left) c e =
      continue-StaysIn (copy_row r L df i c) (λ _. copy_rows r L df (i + 1) left)
        (copy_row-StaysIn h df i c e) (λ _. copy_rows-StaysIn h df (i + 1) left)

  -- Where PQexec starts a COPY, and PQputCopyData leaves it in progress whether it succeeds or not: if
  -- the loop over the rows throws, because a row cannot be encoded or put, then `copy_data` throws the
  -- same error, and leaves the connection with the COPY in progress.
  pub copy_data-stops :
      (fuel : ℕ) (sql : Bytes) (x : Sexp Double CharSxp) (xs : List (Sexp Double CharSxp))
      (c : Conn) (message : String)
      → is_copy_in (exec sql c).0 ≡ true
      → in_copy (exec sql c).1 ≡ true
      → ((line : Bytes) (d : Conn) → in_copy d ≡ true → in_copy (put_copy_data line d).1 ≡ true)
      → (copy_rows r L (x ∷ xs) 0 (sexp_length x) (exec sql c).1).0 ≡ stop message
      → ((copy_data r L fuel sql (x ∷ xs) c).0 ≡ stop message)
        × (in_copy (copy_data r L fuel sql (x ∷ xs) c).1 ≡ true)
  unfolding copy_data
  copy_data-stops fuel sql x xs c message starts copy stays fails =
      let loop = copy_rows r L (x ∷ xs) 0 (sexp_length x) in
      let start : Conn → Bool × Conn = λ d. (is_copy_in (exec sql d).0, (exec sql d).1) in
      let eq : copy_data r L fuel sql (x ∷ xs) c ≡ (stop message, (loop (exec sql c).1).1) =
        ap (λ y. ended r L fuel (continue y (λ _. loop)))
          (require-ok r L "Failed to initialise COPY" start c starts)
        ∙ ap (λ o. ended r L fuel (o, (loop (exec sql c).1).1)) fails in
      (
        ap (λ y. y.0) eq,
        ap (λ y. in_copy y.1) eq
            ∙ copy_rows-StaysIn stays (x ∷ xs) 0 (sexp_length x) (exec sql c).1 copy,
      )
