-- ===== src/Connection/Copying.antt =====
-- `copy_data` of src/DbConnection.cpp from its first call of libpq to its last.
use rpostgres.Prelude.{
  ℕ, suc, ◌≡◌, sym, subst, ◌∙◌, ap, Bool, true, Option, none, List, [], ◌∷◌, ◌++◌, length, arith,
}
use Prim.Native.String.{String}
use rpostgres.Prelude.Outcome.{Outcome, ok}
use rpostgres.Prelude.Step.{continue}
use rpostgres.Runtime.{Runtime, Bytes}
use rpostgres.Libpq.{Libpq}
use rpostgres.Encode.{Sexp, sexp_length}
use rpostgres.Encode.RoundTrip.{RowsAre}
use rpostgres.Connection.{finish_query}
use rpostgres.Connection.Current.{finish_query-last}
use rpostgres.Connection.Calls.{is_copy_in, is_command_ok, require, copy_rows, copy_data}
use rpostgres.Connection.Sending.{Lines, Puts, copy_rows-Lines}

module _ (r : Runtime) (L : Libpq) where
  open r use {Double, CharSxp}
  open L use {Conn, exec, get_result, put_copy_end}

  -- What libpq documents of the end of a COPY that goes well: it is answered by PGRES_COMMAND_OK and
  -- then NULL, and what was sent stays.
  pub record Ends (sent : Conn → List Bytes) (d : Conn) : Type 0 where
    pub ends : (put_copy_end d).0 ≡ true
    pub completes : is_command_ok (get_result (put_copy_end d).1).0 ≡ true
    pub over : (get_result (get_result (put_copy_end d).1).1).0 ≡ none
    pub keeps : sent (get_result (get_result (put_copy_end d).1).1).1 ≡ sent d

  pub require-ok :
      (msg : String) (f : Conn → Bool × Conn) (c : Conn)
      → (f c).0 ≡ true
      → require r L msg f c ≡ (ok tt, (f c).1)
  require-ok msg f c e = ground arith

  ok_pair : {A S : Type 0} (x : Outcome A × S) (a : A) → x.0 ≡ ok a → x ≡ (ok a, x.1)
  ok_pair (o, s) a e = ap (λ o'. (o', s)) e

  -- The end of `copy_data`, after its loop.
  abbrev pub ended : ℕ → Outcome (Unit {0}) × Conn → Outcome (Unit {0}) × Conn
  ended fuel x =
      continue
        (continue (continue x (λ _. require r L "Failed to finish COPY" put_copy_end)) (λ _.
          require r L "COPY returned error"
            (λ c. (is_command_ok (get_result c).0, (get_result c).1))))
        (λ _. finish_query L fuel)

  ended-ok :
      (fuel : ℕ) (sent : Conn → List Bytes) (d : Conn)
      → Ends sent d
      → ended (suc fuel) (ok tt, d) ≡ (ok tt, (get_result (get_result (put_copy_end d).1).1).1)
  ended-ok fuel sent d v =
      let answer : Conn → Bool × Conn = λ c. (is_command_ok (get_result c).0, (get_result c).1) in
      let d1 = (put_copy_end d).1 in
      let d2 = (get_result d1).1 in
      ap
        (λ x.
          continue (continue x (λ _. require r L "COPY returned error" answer))
            (λ _. finish_query L (suc fuel)))
        (require-ok "Failed to finish COPY" put_copy_end d v.ends)
      ∙ ap (λ x. continue x (λ _. finish_query L (suc fuel)))
          (require-ok "COPY returned error" answer d1 v.completes)
      ∙ finish_query-last L fuel d2 v.over

  -- Where COPY starts with no line sent, PQputCopyData succeeds and appends, the end of what the loop
  -- has sent is answered by PGRES_COMMAND_OK and then NULL, and the cells of the rows are all there
  -- with numbers that print without being cut off: `copy_data` with fuel returns, and the server has
  -- one line for each row, in order, and reads each line as exactly its row.
  pub copy_data-Lines :
      (x : Sexp Double CharSxp) (xs : List (Sexp Double CharSxp))
      (table : List (List (Option Bytes))) (sent : Conn → List Bytes) (fuel : ℕ) (sql : Bytes)
      (c : Conn)
      → is_copy_in (exec sql c).0 ≡ true
      → sent (exec sql c).1 ≡ []
      → Puts r L sent
      → Ends sent (copy_rows r L (x ∷ xs) 0 (length table) (exec sql c).1).1
      → sexp_length x ≡ length table
      → RowsAre r (x ∷ xs) 0 table
      → ((copy_data r L (suc fuel) sql (x ∷ xs) c).0 ≡ ok tt)
        × Lines table (sent (copy_data r L (suc fuel) sql (x ∷ xs) c).1)
  unfolding copy_data
  copy_data-Lines x xs table sent fuel sql c starts empty puts ends n rows =
      let c1 = (exec sql c).1 in
      let start : Conn → Bool × Conn = λ d. (is_copy_in (exec sql d).0, (exec sql d).1) in
      let d = (copy_rows r L (x ∷ xs) 0 (length table) c1).1 in
      let (o, (lines, s, read)) = copy_rows-Lines r L x xs 0 table sent puts rows c1 in
      let eq : copy_data r L (suc fuel) sql (x ∷ xs) c
          ≡ (ok tt, (get_result (get_result (put_copy_end d).1).1).1) =
        ap (λ y. ended (suc fuel) (continue y (λ _. copy_rows r L (x ∷ xs) 0 (sexp_length x))))
          (require-ok "Failed to initialise COPY" start c starts)
        ∙ ap (λ m. ended (suc fuel) (copy_rows r L (x ∷ xs) 0 m c1)) n
        ∙ ap (ended (suc fuel)) (ok_pair (copy_rows r L (x ∷ xs) 0 (length table) c1) tt o)
        ∙ ended-ok fuel sent d ends in
      (
        ap (λ y. y.0) eq,
        subst (Lines table)
            (sym (ap (λ y. sent y.1) eq ∙ ends.keeps ∙ s ∙ ap (λ before. before ++ lines) empty))
            read,
      )
