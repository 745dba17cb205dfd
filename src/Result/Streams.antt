-- ===== src/Result/Streams.antt =====
-- The statements on `fetch` of src/PqResultImpl.cpp at a query of two rows with a Boolean each.
mod Scripts
mod Interruptions
use Prim.Native.String.{String}
use rpostgres.Prelude.{
  ◌≡◌, refl, ◌+◌, ◌==◌, Bool, true, false, none, some, List, [], ◌∷◌, map, arith, inl, inr,
}
use rpostgres.Prelude.Int.{ℤ, pos, negsuc}
use rpostgres.Prelude.Outcome.{ok}
use rpostgres.Sample.{sample}
use rpostgres.Encode.{na_integer}
use rpostgres.DataSource.{fetch_bool}
use rpostgres.DataType.{dt_bool, same_type}
use rpostgres.Storage.{int_elem, default_value, fetch_value}
use rpostgres.Storage.Append.{IsKnown}
use rpostgres.Libpq.Stream.{Stream, stream, row_result, end_result, next_result}
use rpostgres.Frame.Rows.{Typed, HaveRows, rows_of}
use rpostgres.Result.{ParamColumn, Impl, row_params}
use rpostgres.Result.Fetch.{Fetched, fetch}
use rpostgres.Libpq.{Libpq, PgResult}
use rpostgres.Cache.{get_column_types, column_type, get_column_type_from_oid}
use rpostgres.Result.Run.{new_impl, bind, group_count}
use rpostgres.Result.Progress.{fetch-complete}
use rpostgres.Result.Start.{Answers}
use rpostgres.Result.Query.{IsWhole, new_impl-fetch, bind-fetch}
use rpostgres.Result.Waits.{unchecked, there}
use rpostgres.Result.Reads.{at_once, after_wait}
use rpostgres.Result.Bound.{Asks, used}
use rpostgres.Result.Delivery.{Holds, a_row, an_end, a_group}
use rpostgres.Result.Tables.{HasTable, Fetches, fetch-Fetches}
use rpostgres.Result.Pieces.{joined, fetch-pieces}

abbrev pub plain : String → List ℤ → String
plain message numbers = message

pub bool_known : IsKnown dt_bool
unfolding same_type
bool_known = refl

abbrev pub bools : Typed sample
unfolding default_value fetch_value fetch_bool
bools = record {
  dt = dt_bool;
  known = bool_known;
  default = int_elem na_integer;
  has_default = refl;
  cells = none ∷ some (116 ∷ []) ∷ [];
  vals = int_elem na_integer ∷ int_elem (pos 1) ∷ [];
  values_are = (refl, (refl, tt));
}

pub two_rows : HaveRows sample 2 (bools ∷ [])
unfolding HaveRows bools
two_rows = ((refl, refl), tt)

-- The query after its first step: the first row is current, the second one is on its way.
abbrev pub stepped : Impl stream
stepped = record {
  conn = record { rows = (some (116 ∷ []) ∷ []) ∷ []; ended = false };
  check_interrupts = false;
  warnings = 0;
  sql = [];
  immediate = false;
  cache = record {
    initialized = true;
    names = (97 ∷ []) ∷ [];
    oids = 16 ∷ [];
    types = dt_bool ∷ [];
    known = true ∷ [];
    ncols = 1;
    nparams = 0;
  };
  complete = false;
  ready = true;
  data_ready = true;
  nrows = 0;
  rows_affected = pos 0;
  params = [];
  group = 0;
  groups = 1;
  res = some (row_result (none ∷ []));
}

not_first : {A : Type 0} → false ≡ true → A
not_first e = ground arith

pub stepped-HasTable : HasTable sample stream plain 9 11 bools [] 2 two_rows stepped
unfolding Holds bools
stepped-HasTable = record {
  ready = refl;
  types = refl;
  rows = (
    refl,
    refl,
    refl,
    refl,
    a_row {res = row_result (some (116 ∷ []) ∷ [])} (at_once refl) refl not_first (
        an_end {res = end_result} (at_once refl) refl (omega arith) refl
          (after_wait unchecked refl)),
  );
}

fetch-Fetches_example :
    Fetches sample stream plain 9 11 bools [] 2 two_rows
      (negsuc 0)
      stepped
      (fetch sample stream plain 9 11 3 (negsuc 0) stepped)
fetch-Fetches_example =
    fetch-Fetches sample stream plain 9 11 bools [] 2 two_rows 3 (negsuc 0) stepped (omega arith)
      refl stepped-HasTable

fetch-pieces_example :
    (d1 d2 d : Fetched ℤ) × (t u v : Impl stream) × (fetch sample stream plain 9 11 3
        (pos 1)
        stepped
      ≡ (ok d1, t))
    × (fetch sample stream plain 9 11 3 (pos 1) t ≡ (ok d2, u))
    × (fetch sample stream plain 9 11 3 (pos 2) stepped ≡ (ok d, v))
    × (joined d1.frame.vectors d2.frame.vectors ≡ d.frame.vectors)
    × (d1.frame.row_count + d2.frame.row_count ≡ d.frame.row_count)
fetch-pieces_example =
    fetch-pieces sample stream plain 9 11 bools [] 2 two_rows 3 1 1 stepped (omega arith)
      (omega arith) stepped-HasTable

fetch-complete_example :
    (d : Fetched ℤ) × (t : Impl stream) × (fetch sample stream plain 9 11 3 (pos 2) stepped
      ≡ (ok d, t))
    × (t.complete ≡ (d.frame.row_count == 2))
    × (t.nrows ≡ 0 + d.frame.row_count)
fetch-complete_example =
    fetch-complete sample stream plain 9 11 bools [] 2 two_rows 3 (pos 2) stepped (omega arith) refl
      stepped-HasTable

-- A connection that describes the column `a` of type boolean, and delivers rows of it.
abbrev pub with_column : PgResult → PgResult
with_column res = record res { names = (97 ∷ []) ∷ []; oids = 16 ∷ [] }

abbrev pub bool_stream : Libpq
bool_stream = record stream {
  describe_prepared = λ c. (some (with_column end_result), c);
  get_result = λ c.
      let (o, d) = next_result c.rows c.ended in
      (elim o [ none ↦ none | some res ↦ some (with_column res) ], d);
}

abbrev pub start : Stream
start = record { rows = (none ∷ []) ∷ (some (116 ∷ []) ∷ []) ∷ []; ended = false }

abbrev drained : Bool → Stream
drained b = record { rows = []; ended = b }

pub start-Answers :
    Answers bool_stream 9 11 true
      (with_column end_result)
      (rows_of sample 2 (bools ∷ []))
      (65 ∷ [])
      start
unfolding bools
start-Answers = record {
  described = start;
  sent = start;
  prepares = refl;
  describes = refl;
  sends = refl;
  by_rows = refl;
  no_params = refl;
  has_columns = refl;
  coming =
      a_row {res = with_column (row_result (none ∷ []))} (after_wait (there refl refl) refl) refl
        (λ first. record { columns = inr (refl, refl, refl); no_params = λ e. refl })
        (a_row {res = with_column (row_result (some (116 ∷ []) ∷ []))} (at_once refl) refl not_first
          (an_end {res = with_column end_result} (at_once refl) refl (omega arith) refl
            (after_wait (there refl refl) refl)));
}

pub column_types : get_column_types (16 ∷ []) ≡ bools.dt ∷ []
unfolding bools get_column_types column_type same_type get_column_type_from_oid
column_types = refl

new_impl-fetch_example :
    (s t : Impl bool_stream) × (d : Fetched ℤ) × (new_impl bool_stream plain sample.atoi 9 11 start
        true
        (65 ∷ [])
        false
      ≡ (ok tt, s))
    × (fetch sample bool_stream plain 9 11 3 (negsuc 0) s ≡ (ok d, t))
    × IsWhole sample bool_stream plain 9 11 (bools ∷ []) 2 ((97 ∷ []) ∷ []) d t
new_impl-fetch_example =
    new_impl-fetch sample bool_stream plain 9 11 bools [] 2 two_rows true (with_column end_result)
      (65 ∷ []) start 3 (omega arith) column_types start-Answers

-- A connection that answers each row of parameters with a row of the same values.
abbrev echo : Libpq
echo = record bool_stream {
  send_query_prepared =
      λ row c. (true, record { rows = map (λ p. p.value) row ∷ []; ended = false });
}

abbrev asked : Impl echo
asked = record {
  conn = drained true;
  check_interrupts = true;
  warnings = 0;
  sql = 65 ∷ [];
  immediate = false;
  cache = record stepped.cache { nparams = 1 };
  complete = true;
  ready = true;
  data_ready = true;
  nrows = 5;
  rows_affected = pos 0;
  params = [];
  group = 3;
  groups = 3;
  res = none;
}

abbrev null_and_t : List ParamColumn
null_and_t = record { is_list = false; values = none ∷ some (116 ∷ []) ∷ [] } ∷ []

asked-Asks : Asks echo 9 11 (rows_of sample 2 (bools ∷ [])) null_and_t asked
unfolding bools group_count row_params
asked-Asks = record {
  puts = record {
    not_immediate = refl;
    as_many = refl;
    once = λ e. absurd (omega (arith, e));
    has_rows = omega arith;
    free = drained true;
    put = record { rows = (none ∷ []) ∷ []; ended = false };
    sent = record { rows = (none ∷ []) ∷ []; ended = false };
    row = record { value = none; binary = false } ∷ [];
    freed = used (omega arith) refl;
    row_is = refl;
    sends = refl;
    by_rows = refl;
  };
  coming =
      a_row {res = with_column (row_result (none ∷ []))} (after_wait (there refl refl) refl) refl
        (λ first. record { columns = inr (refl, refl, refl); no_params = λ e. refl })
        (a_group {res = with_column end_result} (at_once refl) (inl refl) (omega arith) refl
          (omega arith)
          (record {
            over = drained true;
            sent = record { rows = (some (116 ∷ []) ∷ []) ∷ []; ended = false };
            row = record { value = some (116 ∷ []); binary = false } ∷ [];
            ends = refl;
            row_is = refl;
            sends = refl;
            by_rows = refl;
          })
          (a_row {res = with_column (row_result (some (116 ∷ []) ∷ []))}
            (after_wait (there refl refl) refl) refl
            (λ first. record { columns = inr (refl, refl, refl); no_params = λ e. refl })
            (an_end {res = with_column end_result} (at_once refl) refl (omega arith) refl
              (after_wait (there refl refl) refl))));
}

bind-fetch_example :
    (t u : Impl echo) × (d : Fetched ℤ) × (bind echo plain sample.atoi 9 11 null_and_t asked
      ≡ (ok tt, t))
    × (fetch sample echo plain 9 11 3 (negsuc 0) t ≡ (ok d, u))
    × IsWhole sample echo plain 9 11 (bools ∷ []) 2 ((97 ∷ []) ∷ []) d u
unfolding bools
bind-fetch_example =
    bind-fetch sample echo plain 9 11 bools [] 2 two_rows null_and_t asked 3 (omega arith) refl
      asked-Asks
