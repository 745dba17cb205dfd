-- ===== src/Session/Results.antt =====
-- src/result.cpp and src/DbResult.cpp: the calls on a result through R's pointer to it. A result works
-- on the PGconn that it shares with the connection; where that was finished, a method that passes it
-- to libpq is undefined.
use Prim.Native.String.{String}
use rpostgres.Prelude.{ℕ, Bool, Option, none, some, List, ◌&&◌, if◌then◌else◌}
use rpostgres.Prelude.Int.{ℤ}
use rpostgres.Prelude.Outcome.{Outcome, ok, stop, undefined}
use rpostgres.Prelude.Step.{Step, ◌>>◌, return, lift}
use rpostgres.Runtime.{Runtime}
use rpostgres.Libpq.{Libpq}
use rpostgres.Libpq.Traced.{traced, unused}
use rpostgres.Result.{ParamColumn, Impl, validate_params, n_rows_affected}
use rpostgres.Result.Run.{bind}
use rpostgres.Result.Fetch.{Fetched, ColumnInfo, fetch, get_column_info}
use rpostgres.Session.{find, put, World, DbResult, complete, is_live, is_active, delete_result}

module _ (r : Runtime) (L : Libpq) (format : String → List ℤ → String) (fuel rounds : ℕ) where
  open r use {Double, atoi}
  open L use {Conn}

  abbrev W : Type 0
  W = World r L format fuel rounds

  -- What work on a result comes to: the result and the PGconn, which it shares, are changed.
  unfoldable pub worked : {A : Type 0} → ℕ → W → Outcome A × Impl L → Outcome A × W
  unfolding put
  worked a w (o, impl) = (
    o,
    record w {
      connection = record w.connection { conn = some impl.conn };
      results = put a (record { impl = some impl }) w.results;
    },
  )

  -- A result whose PGconn was finished, and what it is after a method that did not use that.
  abbrev pub on_traced : Impl L → Impl (traced L)
  on_traced impl = record {
    conn = unused L impl.conn;
    check_interrupts = impl.check_interrupts;
    warnings = impl.warnings;
    sql = impl.sql;
    immediate = impl.immediate;
    cache = impl.cache;
    complete = impl.complete;
    ready = impl.ready;
    data_ready = impl.data_ready;
    nrows = impl.nrows;
    rows_affected = impl.rows_affected;
    params = impl.params;
    group = impl.group;
    groups = impl.groups;
    res = impl.res;
  }

  abbrev pub off_traced : Impl (traced L) → Impl L
  off_traced impl = record {
    conn = impl.conn.conn;
    check_interrupts = impl.check_interrupts;
    warnings = impl.warnings;
    sql = impl.sql;
    immediate = impl.immediate;
    cache = impl.cache;
    complete = impl.complete;
    ready = impl.ready;
    data_ready = impl.data_ready;
    nrows = impl.nrows;
    rows_affected = impl.rows_affected;
    params = impl.params;
    group = impl.group;
    groups = impl.groups;
    res = impl.res;
  }

  -- The same where the PGconn was finished: undefined if the method passed it to libpq.
  unfoldable pub worked_closed : {A : Type 0} → ℕ → W → Outcome A × Impl (traced L) → Outcome A × W
  unfolding put
  worked_closed a w (o, impl) =
      if impl.conn.used
      then (undefined, w)
      else (o, record w { results = put a (record { impl = some (off_traced impl) }) w.results })

  unfoldable pub on_impl_with :
      {A : Type 0}
      → ((L' : Libpq) → Step (Impl L') A)
      → ℕ
      → Impl L
      → W
      → Option Conn
      → Outcome A × W
  unfolding worked worked_closed
  on_impl_with m a impl w none = worked_closed a w (m (traced L) (on_traced impl))
  on_impl_with m a impl w (some c) = worked a w (m L (record impl { conn = c }))

  unfoldable pub on_impl : {A : Type 0} → ((L' : Libpq) → Step (Impl L') A) → ℕ → Impl L → Step W A
  unfolding on_impl_with
  on_impl m a impl w = on_impl_with m a impl w w.connection.conn

  -- `impl->...`
  unfoldable pub through : {A : Type 0} → (Impl L → Step W A) → W → Option (Impl L) → Outcome A × W
  through next w none = (undefined, w)
  through next w (some impl) = next impl w

  -- A method through R's pointer to a result.
  unfoldable pub with_found :
      {A : Type 0}
      → (Impl L → Step W A)
      → W
      → Option (DbResult r L format fuel rounds)
      → Outcome A × W
  unfolding through
  with_found next w none = (stop "Invalid result set", w)
  with_found next w (some d) = through next w d.impl

  unfoldable pub with_impl : {A : Type 0} → ℕ → (Impl L → Step W A) → Step W A
  unfolding with_found find
  with_impl a next w = with_found next w (find a w.results)

  unfoldable pub result_release : ℕ → Step W (Unit {0})
  unfolding delete_result is_live
  result_release a w =
      if is_live r L format fuel rounds (some a) w.results
      then delete_result r L format fuel rounds a w
      else (ok tt, w)

  unfoldable pub result_valid : ℕ → W → Bool
  unfolding is_live is_active
  result_valid a w =
      is_live r L format fuel rounds (some a) w.results && is_active r L format fuel rounds a w

  -- `DbResult::fetch`
  unfoldable pub fetch_active : ℕ → ℕ → ℤ → Impl L → Step W (Fetched Double)
  unfolding is_active on_impl fetch
  fetch_active a left n_max impl w =
      if is_active r L format fuel rounds a w
      then on_impl (λ L'. fetch r L' format fuel rounds left n_max) a impl w
      else (stop "Inactive result set", w)

  unfoldable pub result_fetch : ℕ → ℕ → ℤ → Step W (Fetched Double)
  unfolding with_impl fetch_active
  result_fetch a left n_max = with_impl a (fetch_active a left n_max)

  -- `DbResult::bind`
  unfoldable pub bind_impl : ℕ → List ParamColumn → Impl L → Step W (Unit {0})
  unfolding on_impl bind validate_params
  bind_impl a params impl =
      lift (validate_params format params)
      >> on_impl (λ L'. bind L' format atoi fuel rounds params) a impl

  unfoldable pub result_bind : ℕ → List ParamColumn → Step W (Unit {0})
  unfolding with_impl bind_impl
  result_bind a params = with_impl a (bind_impl a params)

  unfoldable pub result_has_completed : ℕ → Step W Bool
  unfolding complete find
  result_has_completed a w = elim (find a w.results) [
    | none ↦ (stop "Invalid result set", w)
    | some d ↦ (ok (complete r L format fuel rounds d), w)
  ]

  unfoldable pub result_rows_fetched : ℕ → Step W ℕ
  unfolding with_impl
  result_rows_fetched a = with_impl a (λ impl. return impl.nrows)

  unfoldable pub result_rows_affected : ℕ → Step W (Option ℤ)
  unfolding with_impl n_rows_affected
  result_rows_affected a = with_impl a (λ impl. return (n_rows_affected L impl))

  unfoldable pub result_column_info : ℕ → Step W ColumnInfo
  unfolding with_impl on_impl get_column_info
  result_column_info a =
      with_impl a (λ impl. on_impl (λ L'. get_column_info r L' format fuel rounds) a impl)
