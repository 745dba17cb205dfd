-- ===== src/Result/Uses/Loop.antt =====
-- What the loops of src/PqResultImpl.cpp, `while (step_run());` and `fetch_rows`, do with the PGconn of
-- a result.
use Prim.Native.String.{String}
use rpostgres.Prelude.{
  ℕ, zero, suc, ◌+◌, ◌<◌, refl, Bool, true, false, not, Option, none, some, List, arith,
  if◌then◌else◌,
}
use rpostgres.Prelude.Int.{ℤ, ◌+ℤ◌}
use rpostgres.Prelude.Outcome.{Outcome, ok}
use rpostgres.Prelude.Step.{Step, continue, return, when, modify}
use rpostgres.Prelude.Leaves.{
  Leaves, continue-Leaves, if-Leaves, when-Leaves, Fails, continue-anyhow, Leaves-Fails,
}
use rpostgres.Runtime.{Bytes}
use rpostgres.Libpq.{
  Libpq, PgResult, ExecStatus, command_ok, tuples_ok, single_tuple, copy_in, fatal_error,
  other_status,
}
use rpostgres.Libpq.Traced.{traced}
use rpostgres.Result.Uses.{UsedBy, waited-Used, interrupt-Used, bind_row-Used}
use rpostgres.Result.{Impl, on_conn, bind_row}
use rpostgres.Result.Run.{
  wait_for_data, interrupt, await, step_done, set_cache, on_result, read_result, step_run, step,
}

module _ (L : Libpq) (format : String → List ℤ → String) (atoi : Bytes → ℤ) where
  module _ (fuel : ℕ) where
    abbrev T : Libpq
    T = traced L

    abbrev Kept : Impl T → Type 0
    Kept = UsedBy L

    set_cache-Used :
        (res : PgResult) (s : Impl T) → Kept s → Leaves Kept (set_cache T format atoi fuel res s)
    unfolding set_cache
    set_cache-Used res s u = u

    step_done-Used :
        (res : PgResult) (s : Impl T) → Kept s → Leaves Kept (step_done T format atoi fuel res s)
    unfolding step_done
    step_done-Used res s u =
        let counted = record s {
          rows_affected = s.rows_affected +ℤ atoi res.cmd_tuples;
          group = s.group + 1;
          data_ready = false;
        } in
        let complete : Step (Impl T) (Unit {0}) = modify (λ t. record t { complete = true }) in
        continue-Leaves Kept (bind_row T fuel counted) _
          (bind_row-Used L format atoi fuel counted u)
          (λ more t v.
            continue-Leaves Kept (when (not more) complete t) (λ _ t1. (ok more, t1))
              (when-Leaves Kept (not more) complete t v v) (λ _ t1 v1. v1))

    cached-Used :
        {A : Type 0} (b : Bool) (res : PgResult) (next : Step (Impl T) A) (s : Impl T)
        → Kept s
        → ((t : Impl T) → Kept t → Leaves Kept (next t))
        → Leaves Kept (continue (when b (set_cache T format atoi fuel res) s) (λ _. next))
    cached-Used b res next s u h =
        continue-Leaves Kept (when b (set_cache T format atoi fuel res) s) _
          (when-Leaves Kept b (set_cache T format atoi fuel res) s u (set_cache-Used res s u))
          (λ _. h)

    status-Leaves :
        (st : ExecStatus) (ends fails row other : Outcome Bool × Impl T)
        → Leaves Kept ends
        → Leaves Kept fails
        → Leaves Kept row
        → Leaves Kept other
        → Leaves {A = Bool} Kept (elim st as (λ _. Outcome Bool × Impl T) [
          | tuples_ok ↦ ends
          | fatal_error ↦ fails
          | single_tuple ↦ row
          | command_ok ↦ other
          | copy_in ↦ other
          | other_status ↦ other
        ])
    status-Leaves tuples_ok ends fails row other e f r o = e
    status-Leaves fatal_error ends fails row other e f r o = f
    status-Leaves single_tuple ends fails row other e f r o = r
    status-Leaves command_ok ends fails row other e f r o = o
    status-Leaves copy_in ends fails row other e f r o = o
    status-Leaves other_status ends fails row other e f r o = o

    on_result-Used :
        (b : Bool) (o : Option PgResult) (s : Impl T)
        → Kept s
        → Leaves Kept (on_result T format atoi fuel b o s)
    unfolding on_result
    on_result-Used b none s u = u
    on_result-Used b (some res) s u =
        let done = step_done T format atoi fuel res in
        status-Leaves res.status _ _ _ _
          (continue-Leaves Kept (done s) (λ _ t. (ok true, t)) (step_done-Used res s u)
            (λ _ t v. v))
          u (cached-Used b res (return false) s u (λ t v. v))
          (cached-Used b res done s u (step_done-Used res))

    -- What `await` does with what the wait says.
    abbrev waited : Bool → Step (Impl T) Bool
    unfolding interrupt
    waited proceed s =
        continue
          (when (not proceed) (interrupt T format atoi fuel) (record s { data_ready = true }))
          (λ _ t. (ok true, t))

    waited-Fails :
        (b : Bool) (s : Impl T)
        → Fails Kept (continue (on_conn T (wait_for_data T format atoi fuel b) s) waited)
    unfolding wait_for_data Fails waited
    waited-Fails false s = tt
    waited-Fails true s =
        Leaves-Fails Kept (continue (on_conn T (wait_for_data T format atoi fuel true) s) waited) (
          continue-Leaves Kept (on_conn T (wait_for_data T format atoi fuel true) s) waited
            (waited-Used L format atoi fuel s.conn)
            (λ proceed t v.
              let ready = record t { data_ready = true } in
              continue-Leaves Kept (when (not proceed) (interrupt T format atoi fuel) ready)
                (λ _ t1. (ok true, t1))
                (when-Leaves Kept (not proceed) (interrupt T format atoi fuel) ready v
                  (interrupt-Used L format atoi fuel ready v))
                (λ _ t1 v1. v1)))

    ready-Fails :
        (b : Bool) (s : Impl T) (x : Outcome Bool × Impl T)
        → Fails Kept x
        → Fails Kept (if b then (ok false, s) else x)
    unfolding Fails
    ready-Fails true s x h = tt
    ready-Fails false s x h = h

    await-Fails : (s : Impl T) → Fails Kept (await T format atoi fuel s)
    unfolding await
    await-Fails s = ready-Fails s.data_ready s _ (waited-Fails s.check_interrupts s)

    read_result-Used : (s : Impl T) → Leaves Kept (read_result T format atoi fuel s)
    unfolding read_result
    read_result-Used s = refl

    step_run-Used : (s : Impl T) → Leaves Kept (step_run T format atoi fuel s)
    unfolding step_run
    step_run-Used s =
        let cleared = record s { res = none } in
        continue-anyhow Kept (await T format atoi fuel cleared)
          (λ b t. continue (read_result T format atoi fuel t) (on_result T format atoi fuel b))
          (await-Fails cleared)
          (λ b t.
            continue-Leaves Kept (read_result T format atoi fuel t) (on_result T format atoi fuel b)
              (read_result-Used t) (on_result-Used b))

    pub step-Used :
        (rounds : ℕ) (s : Impl T) → Kept s → Leaves Kept (step T format atoi fuel rounds s)
    unfolding step
    step-Used zero s u = u
    step-Used (suc rounds) s u =
        continue-Leaves Kept (step_run T format atoi fuel s) _ (step_run-Used s) (λ again t v.
          if-Leaves Kept again (step T format atoi fuel rounds t) (ok tt, t) (step-Used rounds t v)
            v)

    pub step-uses :
        (rounds : ℕ) (s : Impl T) → 0 < rounds → Leaves Kept (step T format atoi fuel rounds s)
    unfolding step
    step-uses zero s h = ground arith
    step-uses (suc rounds) s h =
        continue-Leaves Kept (step_run T format atoi fuel s) _ (step_run-Used s) (λ again t v.
          if-Leaves Kept again (step T format atoi fuel rounds t) (ok tt, t) (step-Used rounds t v)
            v)
