-- ===== src/Session/Examples.antt =====
-- The statements on src/connection.cpp and src/result.cpp at concrete sessions.
use rpostgres.Prelude.{◌-◌, ◌==◌, ◌≡◌, refl, true, false, none, some, [], ◌∷◌, arith, map}
use rpostgres.Prelude.Int.{ℤ, pos, negsuc}
use rpostgres.Prelude.Outcome.{Outcome, ok, stop, undefined}
use rpostgres.Sample.{sample}
use rpostgres.Libpq.{Libpq}
use rpostgres.Libpq.Link.{Link, link}
use rpostgres.Libpq.Stream.{stream, end_result}
use rpostgres.Connection.{cleanup_query, is_current_result, same_result}
use rpostgres.Frame.Slices.{first_values, vector}
use rpostgres.Result.{Impl}
use rpostgres.Result.Fetch.{Fetched, fetch, current_row, columns_of}
use rpostgres.Result.Uses.{UsedBy}
use rpostgres.Libpq.Traced.{traced}
use rpostgres.Frame.{Frame, new_field, new_frame, set_field, set_fields, set_row}
use rpostgres.Column.{insert_type, with_next, new_column, set_col_value}
use rpostgres.Storage.{new_storage, allocate, append_null, append_col}
use rpostgres.DataType.{dt_bool, dt_unknown, same_type}
use rpostgres.Result.Streams.{
  plain, bools, two_rows, stepped, stepped-HasTable, with_column, bool_stream, start, start-Answers,
  column_types,
}
use rpostgres.Session.{find, is_complete, complete, is_live, is_active, result_create}
use rpostgres.Session.Results.{
  on_traced, result_release, result_valid, result_fetch, result_has_completed, result_rows_fetched,
}
use rpostgres.Session.Calls.{connection_create, connection_release}
use rpostgres.Session.Sound.{Session, IsSound, Post}
use rpostgres.Session.Create.{result_create-IsSound}
use rpostgres.Session.Reach.{
  Reach, here, next, create, release, close, run, hides_error, created-IsSound,
}
use rpostgres.Session.Hidden.{release-create}
use rpostgres.Session.Closed.{close-fetch}
use rpostgres.Session.Queries.{result_create-result_fetch}
use rpostgres.Session.Rows.{with_result, result_fetch-vectors}

-- A session with one result, which has two rows to give.
abbrev one_result : Session sample stream plain 9 11
one_result = record {
  connection = record {
    conn = some stepped.conn;
    current_result = some 7;
    transacting = false;
    check_interrupts = false;
    temp_schema = none ∷ [];
    warnings = 0;
  };
  held = true;
  results = (7, record { impl = some stepped }) ∷ [];
}

one_result-find : find 7 one_result.results ≡ some (record { impl = some stepped })
unfolding find
one_result-find = refl

one_result-active : is_active sample stream plain 9 11 7 one_result ≡ true
unfolding is_active is_current_result same_result
one_result-active = refl

result_fetch-vectors_example :
    (d : Fetched ℤ) × (impl' : Impl stream) × (result_fetch sample stream plain 9 11 7 3
        (negsuc 0)
        one_result
      ≡ (ok d, with_result sample stream plain 9 11 7 impl' one_result))
    × (d.frame.vectors ≡ map (first_values sample 2) (bools ∷ []))
    × (d.frame.row_count ≡ 2)
result_fetch-vectors_example =
    result_fetch-vectors sample stream plain 9 11 bools [] 2 two_rows 7 3 (negsuc 0) one_result
      stepped.conn stepped (omega arith) refl refl one_result-find one_result-active
      stepped-HasTable

abbrev first_row : Frame ℤ
first_row = record {
  n_max = negsuc 0;
  i = 0;
  names = (97 ∷ []) ∷ [];
  fields =
      (record {
        declared = dt_bool;
        column = record {
          storage = [];
          last = record { items = []; i = 1; dt = dt_unknown; n_max = negsuc 0 };
          n = 0;
          data_types_seen = dt_bool ∷ [];
        };
      })
      ∷ [];
}

first_row-set :
    set_row sample (columns_of sample stream plain stepped (negsuc 0)) (current_row stepped.res)
    ≡ ok first_row
unfolding set_row set_fields set_field set_col_value new_frame new_field new_column new_storage
    allocate append_col append_null insert_type with_next same_type
first_row-set = refl

close-fetch_example :
    ((connection_release sample stream plain 9 11 one_result).0 ≡ ok tt)
    × (result_valid sample stream plain 9 11 7
          (connection_release sample stream plain 9 11 one_result).1
        ≡ true)
    × UsedBy stream
        (fetch sample
          (traced stream)
          plain
          9
          11
          3
          (negsuc 0)
          (on_traced sample stream plain 9 11 stepped)).1
    × ((result_fetch sample stream plain 9 11 7 3
          (negsuc 0)
          (connection_release sample stream plain 9 11 one_result).1).0
        ≡ undefined)
close-fetch_example =
    close-fetch sample stream plain 9 11 7 3 (negsuc 0) one_result stepped first_row (omega arith)
      (omega arith) refl one_result-find one_result-active refl refl refl first_row-set

one_result-IsSound : IsSound sample stream plain 9 11 one_result
unfolding is_live find
one_result-IsSound = record { current_live = refl; built = λ a d e. ground arith; there = refl }

abbrev no_pointer : Outcome (Unit {0})
no_pointer = stop "no pointer"

result_create-IsSound_example :
    Post sample stream plain 9 11
      (IsSound sample stream plain 9 11)
      (result_create sample stream plain 9 11 no_pointer 8 (65 ∷ []) false one_result)
result_create-IsSound_example =
    result_create-IsSound sample stream plain 9 11 no_pointer 8 (65 ∷ []) false one_result
      one_result-IsSound

-- A connection that is lost, and that the second reset brings back.
abbrev flaky : Libpq
flaky = record link { reset = λ c. record c { up = c.waiting == 0; waiting = c.waiting - 1 } }

abbrev failing : Link
failing = record { up = false; waiting = 1; sent = [] }

abbrev failing_impl : Impl flaky
failing_impl = record {
  conn = failing;
  check_interrupts = false;
  warnings = 0;
  sql = [];
  immediate = false;
  cache = stepped.cache;
  complete = false;
  ready = true;
  data_ready = true;
  nrows = 0;
  rows_affected = pos 0;
  params = [];
  group = 0;
  groups = 1;
  res = none;
}

abbrev failing_session : Session sample flaky plain 9 11
failing_session = record {
  connection = record {
    conn = some failing;
    current_result = some 7;
    transacting = false;
    check_interrupts = false;
    temp_schema = none ∷ [];
    warnings = 0;
  };
  held = true;
  results = (7, record { impl = some failing_impl }) ∷ [];
}

failing-open : is_complete sample flaky plain 9 11 failing_session.results 7 ≡ false
unfolding is_complete complete find
failing-open = refl

release-create_example :
    ((result_release sample flaky plain 9 11 7 failing_session).0 ≡ ok tt)
    × ((result_release sample flaky plain 9 11 7 failing_session).1.connection.current_result
        ≡ some 7)
    × ((result_create sample flaky plain 9 11 no_pointer 8
          (65 ∷ [])
          false
          (result_release sample flaky plain 9 11 7 failing_session).1).0
        ≡ undefined)
release-create_example =
    release-create sample flaky plain 9 11 no_pointer 7 8 (65 ∷ []) false failing_session failing
      refl refl refl failing-open (record { down = refl; stays_down = refl }) refl refl

-- A connection is opened, a query is sent, its result is released, and the connection is closed.
abbrev opened_session : Session sample stream plain 9 11
opened_session = record {
  connection = record {
    conn = some (record { rows = []; ended = true });
    current_result = none;
    transacting = false;
    check_interrupts = false;
    temp_schema = none ∷ [];
    warnings = 0;
  };
  held = true;
  results = [];
}

opened-made : connection_create sample stream plain 9 11 [] [] false ≡ ok opened_session
unfolding connection_create
opened-made = refl

abbrev queried : Session sample stream plain 9 11
queried = (run sample stream plain 9 11 (create no_pointer 8 (65 ∷ []) false) opened_session).1

abbrev released : Session sample stream plain 9 11
released = (run sample stream plain 9 11 (release 8) queried).1

released-Reach :
    Reach sample stream plain 9 11 opened_session (run sample stream plain 9 11 close released).1
unfolding run hides_error result_create cleanup_query result_release connection_release
released-Reach =
    next released
      (next queried (next opened_session here (create no_pointer 8 (65 ∷ []) false) refl refl)
        (release 8) refl refl)
      close refl refl

created-IsSound_example :
    IsSound sample stream plain 9 11 (run sample stream plain 9 11 close released).1
created-IsSound_example =
    created-IsSound sample stream plain 9 11 [] [] false opened_session
      (run sample stream plain 9 11 close released).1 opened-made released-Reach

-- A session on a connection that has two rows for the query.
abbrev free_session : Session sample bool_stream plain 9 11
free_session = record {
  connection = record {
    conn = some start;
    current_result = none;
    transacting = false;
    check_interrupts = true;
    temp_schema = none ∷ [];
    warnings = 0;
  };
  held = true;
  results = [];
}

result_create-result_fetch_example :
    (w1 w2 : Session sample bool_stream plain 9 11) × (d : Fetched ℤ) × (result_create sample
        bool_stream plain 9 11 no_pointer 7
        (65 ∷ [])
        false
        free_session
      ≡ (ok tt, w1))
    × (result_fetch sample bool_stream plain 9 11 7 3 (negsuc 0) w1 ≡ (ok d, w2))
    × (d.frame.vectors ≡ map (vector sample) (bools ∷ []))
    × (d.frame.row_count ≡ 2)
    × (d.frame.names ≡ (97 ∷ []) ∷ [])
    × (result_has_completed sample bool_stream plain 9 11 7 w2 ≡ (ok true, w2))
    × (result_rows_fetched sample bool_stream plain 9 11 7 w2 ≡ (ok 2, w2))
result_create-result_fetch_example =
    result_create-result_fetch sample bool_stream plain 9 11 bools [] 2 two_rows
      (with_column end_result) (65 ∷ []) no_pointer 7 3 start free_session (omega arith)
      column_types (record { held = refl; conn = refl; up = refl; unused = refl }) start-Answers
