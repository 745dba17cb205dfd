-- ===== src/Result/Run.antt =====
-- src/PqResultImpl.cpp: a query run to its end, from `prepare` and `bind` to the loop over results.
use Prim.Native.String.{String}
use rpostgres.Prelude.{
  ℕ, zero, suc, ◌+◌, Bool, true, false, not, Option, none, some, List, [], ◌∷◌, ◌==◌, ◌&&◌,
  if◌then◌else◌, length, ltb,
}
use rpostgres.Prelude.Int.{ℤ, pos, negsuc, ◌+ℤ◌}
use rpostgres.Prelude.Outcome.{Outcome, ok, stop, undefined}
use rpostgres.Prelude.Step.{Step, continue, ◌>>=◌, ◌>>◌, return, throw, get, modify, when}
use rpostgres.Runtime.{Bytes}
use rpostgres.Libpq.{
  Libpq, PgResult, command_ok, tuples_ok, single_tuple, copy_in, fatal_error, other_status, Waited,
  timeout, traffic, interrupted, failed,
}
use rpostgres.Connection.{conn_stop, cancel_open, consume}
use rpostgres.Cache.{new_cache, set}
use rpostgres.Result.{ParamColumn, Impl, on_conn, check, init, bind_row}

-- `length(params[0])`, or 1 if there are no parameters.
unfoldable pub group_count : List ParamColumn → ℕ
group_count [] = 1
group_count (first_col ∷ params) = length first_col.values

-- `socket < 0`
abbrev pub is_negative : ℤ → Bool
is_negative (pos n) = false
is_negative (negsuc n) = true

module _ (L : Libpq) (format : String → List ℤ → String) (atoi : Bytes → ℤ) where
  open L use {
    Conn, prepare, describe_prepared, get_result, is_busy, socket, select, check_user_interrupt,
  }

  -- What `select` returned: go on waiting, or stop with false because of an interrupt.
  unfoldable pub after_select : Waited → Step Conn Bool
  after_select timeout c = (ok (not (check_user_interrupt c).0), (check_user_interrupt c).1)
  after_select traffic c = (ok true, c)
  after_select interrupted c = (ok false, c)
  after_select (failed errno) c =
      (stop (format "select() failed with error code %d" (errno ∷ [])), c)

  -- The do-while loop; the result is false for an interrupt.
  unfoldable pub wait_loop : ℕ → Step Conn Bool
  unfolding after_select consume
  wait_loop zero c = (undefined, c)
  wait_loop (suc fuel) c =
      let rest = wait_loop fuel in
      continue (after_select (select c).0 (select c).1) (λ proceed c'.
        if not proceed
        then (ok false, c')
        else continue (consume L c') (λ _ c''. if is_busy c'' then rest c'' else (ok true, c'')))

  unfoldable pub wait_for_data : ℕ → Bool → Step Conn Bool
  unfolding wait_loop consume
  wait_for_data fuel check_interrupts c =
      if not check_interrupts
      then (ok true, c)
      else continue (consume L c) (λ _ c'.
        if not (is_busy c')
        then (ok true, c')
        else if is_negative (socket c')
        then (stop "Failed to get connection socket", c')
        else wait_loop fuel c')

  -- The loops over results have fuel for themselves, and for those that they call.
  module _ (fuel : ℕ) where
    -- `pConnPtr_->cancel_query()` and what follows it.
    unfoldable pub interrupt : Step (Impl L) (Unit {0})
    unfolding cancel_open
    interrupt = do
      n ← on_conn L (cancel_open L)
      modify (λ s. record s { warnings = s.warnings + n; complete = true })
      throw "Interrupted."

    -- The wait in `step_run`: whether the cache is to be set.
    unfoldable pub await : Step (Impl L) Bool
    unfolding interrupt wait_for_data
    await s =
        if s.data_ready
        then (ok false, s)
        else (on_conn L (wait_for_data fuel s.check_interrupts) >>= λ proceed.
              modify (λ t. record t { data_ready = true }) >>= λ _.
              when (not proceed) interrupt >> return true)
            s

    -- The sum of the rows affected has no bound here; in the source it is an `int`.
    unfoldable pub step_done : PgResult → Step (Impl L) Bool
    unfolding bind_row
    step_done res = do
      modify (λ s. record s {
        rows_affected = s.rows_affected +ℤ atoi res.cmd_tuples;
        group = s.group + 1;
        data_ready = false;
      })
      more_params ← bind_row L fuel
      when (not more_params) (modify (λ s. record s { complete = true }))
      return more_params

    -- `cache.set(pRes_)`
    unfoldable pub set_cache : PgResult → Step (Impl L) (Unit {0})
    unfolding set
    set_cache res s = let (o, c) = set res s.cache in (o, record s { cache = c })

    -- `step_run` after PQgetResult.
    unfoldable pub on_result : Bool → Option PgResult → Step (Impl L) Bool
    unfolding step_done set_cache
    on_result need_cache_reset none s = (ok false, record s { complete = true })
    on_result need_cache_reset (some res) s = elim res.status [
      | tuples_ok ↦ (step_done res >>= λ _. return true) s
      | fatal_error ↦ on_conn L (conn_stop L "Failed to fetch row") (record s { res = none })
      | single_tuple ↦ (when need_cache_reset (set_cache res) >> return false) s
      | command_ok ↦ (when need_cache_reset (set_cache res) >> step_done res) s
      | copy_in ↦ (when need_cache_reset (set_cache res) >> step_done res) s
      | other_status ↦ (when need_cache_reset (set_cache res) >> step_done res) s
    ]

    unfoldable pub read_result : Step (Impl L) (Option PgResult)
    read_result s =
        let (result, c) = get_result s.conn in (ok result, record s { conn = c; res = result })

    unfoldable pub step_run : Step (Impl L) Bool
    unfolding await on_result read_result
    step_run = do
      modify (λ s. record s { res = none })
      need_cache_reset ← await
      result ← read_result
      on_result need_cache_reset result

    -- `while (step_run());`
    unfoldable pub step : ℕ → Step (Impl L) (Unit {0})
    unfolding step_run
    step zero s = (undefined, s)
    step (suc rounds) s =
        let rest = step rounds in
        continue (step_run s) (λ again t. if again then rest t else (ok tt, t))

    unfoldable pub after_bind : ℕ → Bool → Step (Impl L) (Unit {0})
    unfolding init step
    after_bind rounds params_have_rows = do
      modify (init L params_have_rows)
      when params_have_rows (step rounds)

    -- `bind` past its guards.
    unfoldable pub bind_all : ℕ → List ParamColumn → Step (Impl L) (Unit {0})
    unfolding bind_row after_bind group_count
    bind_all rounds params = do
      modify (λ s. record s {
        params = params;
        groups = group_count params;
        group = 0;
        rows_affected = pos 0;
      })
      has_params ← bind_row L fuel
      after_bind rounds has_params

    unfoldable pub bind : ℕ → List ParamColumn → Step (Impl L) (Unit {0})
    unfolding bind_all
    bind rounds params s =
        let n = length params in
        let all = bind_all rounds params s in
        if s.immediate && ltb 0 n
        then (stop "Immediate query cannot be parameterized.", s)
        else if not (n == s.cache.nparams)
        then (
          stop (format "Query requires %i params; %i supplied." (pos s.cache.nparams ∷ pos n ∷ [])),
          s,
        )
        else if n == 0 && s.ready
        then (stop "Query does not require parameters.", s)
        else all

    -- `prepare` after PQdescribePrepared.
    unfoldable pub on_description : Option PgResult → Step (Impl L) (Unit {0})
    unfolding set_cache
    on_description none = on_conn L (conn_stop L "Failed to retrieve query result metadata")
    on_description (some res) = set_cache res

    unfoldable pub describe : Step (Impl L) (Unit {0})
    unfolding on_description
    describe s =
        let (spec, c) = describe_prepared s.conn in on_description spec (record s { conn = c })

    unfoldable pub prepare_query : Step (Impl L) (Unit {0})
    unfolding describe
    prepare_query s =
        if s.immediate
        then (ok tt, s)
        else (check L "Failed to prepare query" (prepare s.sql) >> describe) s

    -- The constructor.
    unfoldable pub new_impl : ℕ → Conn → Bool → Bytes → Bool → Outcome (Unit {0}) × Impl L
    unfolding prepare_query bind new_cache
    new_impl rounds c check_interrupts sql immediate =
        (prepare_query >>= λ _.
        get (λ s. s.cache.nparams == 0) >>= λ no_params. when no_params (bind rounds []))
          record {
            conn = c;
            check_interrupts = check_interrupts;
            warnings = 0;
            sql = sql;
            immediate = immediate;
            cache = new_cache;
            complete = false;
            ready = false;
            data_ready = false;
            nrows = 0;
            rows_affected = pos 0;
            params = [];
            group = 0;
            groups = 0;
            res = none;
          }
