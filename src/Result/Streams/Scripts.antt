-- ===== src/Result/Streams/Scripts.antt =====
-- The statements on immediate queries of src/PqResultImpl.cpp at scripts of two statements.
use rpostgres.Prelude.{
  ◌+◌, ◌≡◌, refl, Bool, true, false, Option, none, some, List, [], ◌∷◌, inl, inr, arith,
}
use rpostgres.Prelude.Int.{ℤ, negsuc}
use rpostgres.Prelude.Outcome.{ok}
use rpostgres.Runtime.{Bytes}
use rpostgres.Sample.{sample}
use rpostgres.Libpq.{Libpq, PgResult, command_ok}
use rpostgres.Libpq.Stream.{Stream, stream, row_result, end_result}
use rpostgres.Frame.Rows.{rows_of}
use rpostgres.Result.{Impl}
use rpostgres.Result.Run.{new_impl}
use rpostgres.Result.Fetch.{Fetched, fetch}
use rpostgres.Result.Waits.{there}
use rpostgres.Result.Reads.{at_once, after_wait}
use rpostgres.Result.Delivery.{a_row, a_statement, no_more}
use rpostgres.Result.Opening.{first_row, no_rows}
use rpostgres.Result.Query.{IsWhole}
use rpostgres.Result.Immediate.{Runs, new_impl_immediate-fetch}
use rpostgres.Result.Rowless.{new_impl_immediate-nothing}
use rpostgres.Result.Streams.{plain, bools, two_rows, with_column, column_types}

-- A row without cells stands for a statement without columns.
abbrev answer : List (Option Bytes) → PgResult
answer [] = record (row_result []) { status = command_ok }
answer (cell ∷ row) = with_column (row_result (cell ∷ row))

abbrev next_answer : List (List (Option Bytes)) → Bool → Option PgResult × Stream
next_answer [] false = (some (with_column end_result), record { rows = []; ended = true })
next_answer [] true = (none, record { rows = []; ended = true })
next_answer (row ∷ rows) ended = (some (answer row), record { rows = rows; ended = ended })

abbrev script : Libpq
script = record stream { get_result = λ c. next_answer c.rows c.ended }

-- A statement without columns, and one with two rows.
abbrev two_statements : Stream
two_statements = record { rows = [] ∷ (none ∷ []) ∷ (some (116 ∷ []) ∷ []) ∷ []; ended = false }

abbrev null_row : PgResult
null_row = with_column (row_result (none ∷ []))

two_statements-Runs :
    Runs script 9 11 true (65 ∷ []) two_statements null_row (rows_of sample 2 (bools ∷ []))
unfolding bools
two_statements-Runs = record {
  is_sent = record { put = two_statements; sent = two_statements; sends = refl; by_rows = refl };
  has_columns = refl;
  opens =
      no_rows {res = answer []} (after_wait (there refl refl) refl)
        (inr (refl, λ first. record { columns = inl (refl, refl); no_params = λ e. refl }))
        (first_row (after_wait (there refl refl) refl) refl (
          a_row {res = with_column (row_result (some (116 ∷ []) ∷ []))} (at_once refl) refl
            (λ e. ground arith)
            (a_statement {res = with_column end_result} (at_once refl) (inl refl) (omega arith) refl
              (no_more (after_wait (there refl refl) refl)))));
}

new_impl_immediate-fetch_example :
    (s t : Impl script) × (d : Fetched ℤ) × (new_impl script plain sample.atoi 9 11 two_statements
        true
        (65 ∷ [])
        true
      ≡ (ok tt, s))
    × (fetch sample script plain 9 11 3 (negsuc 0) s ≡ (ok d, t))
    × IsWhole sample script plain 9 11 (bools ∷ []) 2 ((97 ∷ []) ∷ []) d t
new_impl_immediate-fetch_example =
    new_impl_immediate-fetch sample script plain 9 11 bools [] 2 two_rows true null_row (65 ∷ [])
      two_statements 3 (omega arith) column_types two_statements-Runs

-- A query whose result has a column and no row.
abbrev no_row_left : Stream
no_row_left = record { rows = []; ended = false }

new_impl_immediate-nothing_example :
    (s t : Impl script) × (d : Fetched ℤ) × (new_impl script plain sample.atoi 9 11 no_row_left true
        (65 ∷ [])
        true
      ≡ (ok tt, s))
    × (fetch sample script plain 9 11 1 (negsuc 0) s ≡ (ok d, t))
    × (d.frame.vectors ≡ [])
    × (d.frame.names ≡ [])
    × (d.frame.row_count ≡ 0)
    × (t.complete ≡ true)
    × (t.warnings ≡ s.warnings + 1)
new_impl_immediate-nothing_example =
    new_impl_immediate-nothing sample script plain 9 11 true (65 ∷ []) no_row_left 0
      (record { put = no_row_left; sent = no_row_left; sends = refl; by_rows = refl })
      (a_statement {res = with_column end_result} (after_wait (there refl refl) refl) (inl refl)
        (omega arith) refl (no_more (after_wait (there refl refl) refl)))
