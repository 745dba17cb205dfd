-- ===== src/Result.antt =====
-- src/PqResultImpl.cpp and src/DbResult.cpp: the binding of parameters, the waiting for data and the
-- loop over the results, on an open connection. Loops have fuel; out of it, the outcome is
-- `undefined`. `format` is the formatting of cpp11::stop, `atoi` the C library's.
pub mod Run
pub mod Waiting
pub mod Waits
pub mod Sends
pub mod Reads
pub mod Fetch
pub mod Delivery
pub mod Arrivals
pub mod Fetching
pub mod Tables
pub mod Pieces
pub mod Progress
pub mod Start
pub mod Failing
pub mod Bound
pub mod Thrown
pub mod Uses
pub mod Begun
pub mod Query
pub mod Opening
pub mod Immediate
pub mod Rowless
pub mod Guards
pub mod Params
pub mod Batch
pub mod Groups
pub mod Streams
mod Examples
use Prim.Native.String.{String}
use rpostgres.Prelude.{
  ℕ, zero, suc, ◌+◌, Bool, true, false, not, Option, none, some, List, [], ◌∷◌, ◌==◌, ◌&&◌, ◌||◌,
  if◌then◌else◌, length, get_elem?, ltb,
}
use rpostgres.Prelude.Int.{ℤ, pos, ◌+ℤ◌}
use rpostgres.Prelude.Outcome.{Outcome, ok, stop, undefined}
use rpostgres.Prelude.Step.{Step, continue, ◌>>=◌, ◌>>◌, return, throw, get, modify, when, lift}
use rpostgres.Runtime.{Bytes}
use rpostgres.Libpq.{
  Libpq, PgResult, Param, ExecStatus, command_ok, tuples_ok, single_tuple, copy_in, fatal_error,
  other_status, Waited, timeout, traffic, interrupted, failed,
}
use rpostgres.Connection.{conn_stop, call, cancel_open, finish_query}
use rpostgres.Cache.{Cache, new_cache, set}

-- A column of parameters: a list of raw vectors, or a character vector; none is NULL or NA.
pub record ParamColumn : Type 0 where
  pub is_list : Bool
  pub values : List (Option Bytes)

-- The loop of `validate_params` from column `j` on.
unfoldable pub validate_from :
    (String → List ℤ → String) → ℕ → ℕ → List ParamColumn → Outcome (Unit {0})
validate_from format n j [] = ok tt
validate_from format n j (col ∷ params) =
    let rest = validate_from format n (suc j) params in
    if length col.values == n
    then rest
    else stop (format "Parameter %i does not have length %d." (pos (j + 1) ∷ pos n ∷ []))

unfoldable pub validate_params : (String → List ℤ → String) → List ParamColumn → Outcome (Unit {0})
unfolding validate_from
validate_params format [] = ok tt
validate_params format (first_col ∷ params) =
    validate_from format (length first_col.values) 1 params

-- A NULL pointer stays for NULL and NA; a raw vector is sent in binary format. A read past the end
-- of the column is undefined.
unfoldable pub param_of : Bool → Option (Option Bytes) → Outcome Param
param_of is_list none = undefined
param_of is_list (some none) = ok record { value = none; binary = false }
param_of is_list (some (some bytes)) = ok record { value = some bytes; binary = is_list }

unfoldable pub param_at : ParamColumn → ℕ → Outcome Param
unfolding param_of
param_at col group = param_of col.is_list (get_elem? col.values group)

abbrev pub cons_param : Outcome Param → Outcome (List Param) → Outcome (List Param)
cons_param undefined row = undefined
cons_param (stop message) row = stop message
cons_param (ok p) undefined = undefined
cons_param (ok p) (stop message) = stop message
cons_param (ok p) (ok row) = ok (p ∷ row)

-- The loop of `bind_row` over the `nparams` parameters.
unfoldable pub row_params : ℕ → List ParamColumn → ℕ → Outcome (List Param)
unfolding param_at
row_params zero params group = ok []
row_params (suc n) [] group = undefined
row_params (suc n) (col ∷ params) group =
    cons_param (param_at col group) (row_params n params group)

module _ (L : Libpq) where
  open L use {
    Conn, prepare, describe_prepared, send_query, send_query_prepared, set_single_row_mode,
    get_result, consume_input, is_busy, socket, select, check_user_interrupt,
  }

  pub record Impl : Type 0 where
    pub conn : Conn
    pub check_interrupts : Bool
    pub warnings : ℕ
    pub sql : Bytes
    pub immediate : Bool
    pub cache : Cache
    pub complete : Bool
    pub ready : Bool
    pub data_ready : Bool
    pub nrows : ℕ
    pub rows_affected : ℤ
    pub params : List ParamColumn
    pub group : ℕ
    pub groups : ℕ
    pub res : Option PgResult

  -- Work on the connection of a result.
  abbrev pub on_conn : {A : Type 0} → Step Conn A → Step Impl A
  on_conn m s = let (o, c) = m s.conn in (o, record s { conn = c })

  -- `conn_stop(msg)` if a call of libpq failed.
  abbrev pub check : String → (Conn → Bool × Conn) → Step Impl (Unit {0})
  check msg f s = on_conn (call L f >>= λ success. when (not success) (conn_stop L msg)) s

  unfoldable pub init : Bool → Impl → Impl
  init params_have_rows s = record s { ready = true; nrows = 0; complete = not params_have_rows }

  -- `n_rows_affected`: none is NA.
  unfoldable pub n_rows_affected : Impl → Option ℤ
  n_rows_affected s =
      if not s.ready
      then none
      else if ltb 0 s.cache.ncols
      then some (pos 0)
      else some s.rows_affected

  -- What is sent for a row.
  unfoldable pub send_row : List Param → Step Impl (Unit {0})
  send_row row s =
      if s.immediate
      then check "Failed to send query" (send_query s.sql) s
      else check "Failed to set query parameters" (send_query_prepared row) s

  -- `bind_row` past the test of `group_`.
  unfoldable pub bind_group : ℕ → Step Impl Bool
  unfolding send_row finish_query row_params
  bind_group fuel s =
      (when (s.ready || ltb 0 s.group) (on_conn (finish_query L fuel)) >>= λ _.
      lift (row_params s.cache.nparams s.params s.group) >>= λ row.
      modify (λ t. record t { data_ready = false }) >>= λ _. send_row row >>= λ _.
      check "Failed to set single row mode" set_single_row_mode >> return true)
        s

  unfoldable pub bind_row : ℕ → Step Impl Bool
  unfolding bind_group
  bind_row fuel s =
      let bound = bind_group fuel s in if ltb s.group s.groups then bound else (ok s.immediate, s)
