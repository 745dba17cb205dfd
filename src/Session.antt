-- ===== src/Session.antt =====
-- src/connection.cpp, src/result.cpp, src/DbResult.cpp and src/PqResult.cpp: a connection and the
-- results that R holds on it. A result is known by its address, which the allocator chooses. All
-- results share the connection's PGconn. Undefined behaviour is the outcome `undefined`: to follow a
-- pointer to a result that was deleted, a NULL `impl`, or a PGconn that was finished.
pub mod Calls
pub mod Results
pub mod Sound
pub mod Keeps
pub mod Shared
pub mod Methods
pub mod Reach
pub mod Hidden
pub mod Closed
pub mod Rows
pub mod Queries
pub mod Errors
pub mod Create
mod Examples
mod Refusals
use Prim.Native.String.{String}
use rpostgres.Prelude.{
  ℕ, zero, suc, ◌+◌, Bool, true, false, not, Option, none, some, List, [], ◌∷◌, ◌==◌, ◌&&◌, ◌||◌,
  if◌then◌else◌, length, ltb, is_some,
}
use rpostgres.Prelude.Int.{ℤ, pos, ◌==ℤ◌}
use rpostgres.Prelude.Outcome.{Outcome, ok, stop, undefined}
use rpostgres.Prelude.Step.{Step, continue, ◌>>=◌, ◌>>◌, return, throw, get, modify, when, lift}
use rpostgres.Runtime.{Runtime, Bytes}
use rpostgres.Libpq.{Libpq}
use rpostgres.Connection.{
  Connection, check_connection, is_current_result, set_current_result, reset_current_result,
  same_result,
}
use rpostgres.Result.{ParamColumn, Impl, validate_params, n_rows_affected}
use rpostgres.Result.Run.{bind, new_impl, group_count}
use rpostgres.Result.Fetch.{Fetched, ColumnInfo, fetch, get_column_info}

-- The live objects by their addresses.
module _ {ℓ} {A : Type ℓ} where
  unfoldable pub find : ℕ → List (ℕ × A) → Option A
  find a [] = none
  find a ((b, x) ∷ xs) = if a == b then some x else find a xs

  unfoldable pub erase : ℕ → List (ℕ × A) → List (ℕ × A)
  erase a [] = []
  erase a ((b, x) ∷ xs) = if a == b then erase a xs else (b, x) ∷ erase a xs

  unfoldable pub put : ℕ → A → List (ℕ × A) → List (ℕ × A)
  unfolding erase
  put a x xs = (a, x) ∷ erase a xs

module _ (r : Runtime) (L : Libpq) (format : String → List ℤ → String) (fuel rounds : ℕ) where
  open r use {Double, atoi}
  open L use {Conn}

  -- A DbResult; `impl` is NULL until PqResult's constructor has set it.
  pub record DbResult : Type 0 where
    pub impl : Option (Impl L)

  -- `held` says that R's external pointer to the connection is not NULL.
  pub record World : Type 0 where
    pub connection : Connection L
    pub held : Bool
    pub results : List (ℕ × DbResult)

  -- `DbResult::complete`
  unfoldable pub complete : DbResult → Bool
  complete d = elim d.impl [ none ↦ true | some impl ↦ impl.complete ]

  unfoldable pub is_complete : List (ℕ × DbResult) → ℕ → Bool
  unfolding complete find
  is_complete results a = elim (find a results) [ none ↦ true | some d ↦ complete d ]

  -- Whether a pointer to a result can be followed.
  unfoldable pub is_live : Option ℕ → List (ℕ × DbResult) → Bool
  unfolding find
  is_live none results = true
  is_live (some a) results = elim (find a results) [ none ↦ false | some d ↦ true ]

  abbrev pub on_connection : {A : Type 0} → Step (Connection L) A → Step World A
  on_connection m w = let (o, s) = m w.connection in (o, record w { connection = s })

  -- `pCurrentResult_->complete()` in `cleanup_query`, which is left early if there is no PGconn.
  unfoldable pub follow_current : Step World (Unit {0})
  unfolding is_live
  follow_current w =
      if is_live w.connection.current_result w.results || not (is_some w.connection.conn)
      then (ok tt, w)
      else (undefined, w)

  -- `set_current_result(this)`
  unfoldable pub set_current : ℕ → Step World (Unit {0})
  unfolding follow_current set_current_result is_complete same_result
  set_current a w =
      (when (not (same_result (some a) w.connection.current_result)) follow_current
          >> on_connection (set_current_result L fuel (is_complete w.results) (some a)))
        w

  -- The constructor of DbResult.
  unfoldable pub new_result : ℕ → Step World (Unit {0})
  unfolding check_connection set_current
  new_result a = on_connection (check_connection L) >> set_current a

  -- `try { ... } catch (...) {}`
  abbrev pub caught : Outcome (Unit {0}) → Outcome (Unit {0})
  caught (ok u) = ok u
  caught (stop message) = ok tt
  caught undefined = undefined

  -- `DbResult::is_active`
  unfoldable pub is_active : ℕ → World → Bool
  unfolding is_current_result
  is_active a w = is_current_result L (some a) w.connection

  -- The destructor of DbResult, and the memory freed.
  unfoldable pub delete_result : ℕ → Step World (Unit {0})
  unfolding is_active reset_current_result is_complete erase
  delete_result a w =
      let (o, w') =
        when (is_active a w)
          (on_connection (reset_current_result L fuel (is_complete w.results) (some a))) w in
      (caught o, record w' { results = erase a w'.results })

  -- The end of PqResult's constructor: if its body throws, the destructor of DbResult is run.
  unfoldable pub constructed : ℕ → World → Outcome (Unit {0}) × Impl L → Outcome (Unit {0}) × World
  unfolding put delete_result
  constructed a w (ok u, impl) = (
    ok tt,
    record w {
      connection = record w.connection { conn = some impl.conn };
      results = put a (record { impl = some impl }) w.results;
    },
  )
  constructed a w (stop message, impl) =
      continue
        (delete_result a (record w {
          connection = record w.connection { conn = some impl.conn };
          results = put a (record { impl = none }) w.results;
        }))
        (λ _. throw message)
  constructed a w (undefined, impl) = (undefined, w)

  unfoldable pub construct_on : ℕ → Bytes → Bool → World → Option Conn → Outcome (Unit {0}) × World
  unfolding new_impl constructed
  construct_on a sql immediate w none = (undefined, w)
  construct_on a sql immediate w (some c) =
      constructed a w
        (new_impl L format atoi fuel rounds c w.connection.check_interrupts sql immediate)

  -- The body of PqResult's constructor.
  unfoldable pub construct : ℕ → Bytes → Bool → Step World (Unit {0})
  unfolding construct_on
  construct a sql immediate w = construct_on a sql immediate w w.connection.conn

  -- `result_create`; the new object is at `a`. `on_null` is what cpp11 makes of `*con` for NULL.
  unfoldable pub result_create : Outcome (Unit {0}) → ℕ → Bytes → Bool → Step World (Unit {0})
  unfolding check_connection new_result construct
  result_create on_null a sql immediate w =
      if w.held
      then (on_connection (check_connection L) >> (new_result a >> construct a sql immediate)) w
      else (on_null, w)
