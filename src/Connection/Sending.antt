-- ===== src/Connection/Sending.antt =====
-- What `copy_data` of src/DbConnection.cpp sends: each row of the data frame as one line of COPY.
use rpostgres.Prelude.{
  ℕ, ◌+◌, ◌≡◌, refl, sym, ◌∙◌, ap, true, Option, List, [], ◌∷◌, ◌++◌, append_assoc, append-nil,
  length,
}
use rpostgres.Prelude.Outcome.{Outcome, ok, stop, undefined, ◌>>=◌}
use rpostgres.Runtime.{Runtime, Bytes}
use rpostgres.Libpq.{Libpq}
use rpostgres.Encode.{Sexp, tab, newline, encode_row_in_buffer, encode_rows}
use rpostgres.Encode.Copy.{reading, read_copy, read_bytes}
use rpostgres.Encode.RoundTrip.{RowsAre, rows-read}
use rpostgres.Connection.Calls.{copy_row, copy_rows}

-- Each line is read by the server as the one row that stands at its place in the table.
unfoldable pub Lines : List (List (Option Bytes)) → List Bytes → Type 0
Lines [] [] = Unit
Lines [] (line ∷ lines) = ⊥
Lines (row ∷ table) [] = ⊥
Lines (row ∷ table) (line ∷ lines) = (read_copy line ≡ reading (row ∷ []) [] []) × Lines table lines

then_ok : (o : Outcome Bytes) (b : Bytes) → (o >>= λ x. ok x) ≡ ok b → o ≡ ok b
then_ok (ok a) b e = e
then_ok (stop message) b e = e
then_ok undefined b e = e

module _ (r : Runtime) (L : Libpq) where
  open r use {Double, CharSxp}
  open L use {Conn, put_copy_data}

  -- PQputCopyData succeeds, and the server has what was put behind what it had.
  pub record Puts (sent : Conn → List Bytes) : Type 0 where
    pub succeeds : (line : Bytes) (c : Conn) → (put_copy_data line c).0 ≡ true
    pub arrives : (line : Bytes) (c : Conn) → sent (put_copy_data line c).1 ≡ sent c ++ line ∷ []

  encode_one :
      (df : List (Sexp Double CharSxp)) (i : ℕ)
      → encode_rows r df i 1 []
        ≡ (encode_row_in_buffer r df i [] (tab ∷ []) (newline ∷ []) >>= λ line. ok line)
  unfolding encode_rows
  encode_one df i = refl

  one_row :
      (x : Sexp Double CharSxp) (xs : List (Sexp Double CharSxp)) (i : ℕ)
      (row : List (Option Bytes))
      → RowsAre r (x ∷ xs) i (row ∷ [])
      → (line : Bytes) × (encode_row_in_buffer r (x ∷ xs) i [] (tab ∷ []) (newline ∷ []) ≡ ok line)
        × (read_copy line ≡ reading (row ∷ []) [] [])
  one_row x xs i row h =
      let (line, e, reads) =
        rows-read r x xs i [] (row ∷ []) [] h (unfold read_copy read_bytes in refl) in
      (
        line,
        then_ok (encode_row_in_buffer r (x ∷ xs) i [] (tab ∷ []) (newline ∷ [])) line
            (sym (encode_one (x ∷ xs) i) ∙ e),
        reads,
      )

  copy_row-sends :
      (df : List (Sexp Double CharSxp)) (i : ℕ) (line : Bytes) (sent : Conn → List Bytes)
      → Puts sent
      → encode_row_in_buffer r df i [] (tab ∷ []) (newline ∷ []) ≡ ok line
      → (c : Conn) → copy_row r L df i c ≡ (ok tt, (put_copy_data line c).1)
  unfolding copy_row
  copy_row-sends df i line sent p h c = rw (h, p.succeeds line c)

  -- Where PQputCopyData succeeds and appends, and the cells of the rows are all there with numbers
  -- that print without being cut off, the loop of `copy_data` puts one line for each row, in order, and the server reads each line as
  -- exactly its row.
  pub copy_rows-Lines :
      (x : Sexp Double CharSxp) (xs : List (Sexp Double CharSxp)) (i : ℕ)
      (table : List (List (Option Bytes))) (sent : Conn → List Bytes)
      → Puts sent
      → RowsAre r (x ∷ xs) i table
      → (c : Conn)
      → ((copy_rows r L (x ∷ xs) i (length table) c).0 ≡ ok tt)
        × ((lines : List Bytes) × (sent (copy_rows r L (x ∷ xs) i (length table) c).1
              ≡ sent c ++ lines)
            × Lines table lines)
  unfolding copy_rows Lines
  copy_rows-Lines x xs i [] sent p h c = (refl, ([], sym (append-nil (sent c)), tt))
  copy_rows-Lines x xs i (row ∷ table) sent p h c =
      let (line, e, reads) = one_row x xs i row (h.0, tt) in
      let (o, (lines, s, rest)) =
        copy_rows-Lines x xs (i + 1) table sent p h.1 (put_copy_data line c).1 in
      rw (copy_row-sends (x ∷ xs) i line sent p e c) (
        o,
        (
          line ∷ lines,
          (s
              ∙ (ap (λ before. before ++ lines) (p.arrives line c)
                  ∙ append_assoc (sent c) (line ∷ []) lines)),
          (reads, rest),
        ),
      )
