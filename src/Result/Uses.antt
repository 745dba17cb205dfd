-- ===== src/Result/Uses.antt =====
-- What the methods of src/PqResultImpl.cpp do with the PGconn of a result, on a traced connection.
pub mod Loop
pub mod Rows
use Prim.Native.String.{String}
use rpostgres.Prelude.{ℕ, zero, suc, ◌≡◌, refl, Bool, true, false, not, List, ltb, ◌||◌}
use rpostgres.Prelude.Int.{ℤ}
use rpostgres.Prelude.Outcome.{ok}
use rpostgres.Prelude.Step.{Step, when}
use rpostgres.Prelude.Leaves.{
  Leaves, continue-Leaves, if-Leaves, if_step-Leaves, when-Leaves, option-Leaves,
}
use rpostgres.Runtime.{Bytes}
use rpostgres.Libpq.{Libpq, Param, Waited, timeout, traffic, interrupted, failed}
use rpostgres.Libpq.Traced.{Trace, traced}
use rpostgres.Connection.{conn_stop, check_open, consume, issue_cancel, cancel_open, finish_query}
use rpostgres.Result.{Impl, on_conn, check, send_row, bind_group, bind_row, row_params}
use rpostgres.Result.Run.{is_negative, after_select, wait_loop, wait_for_data, interrupt}

module _ (L : Libpq) where
  abbrev pub Traces : Libpq
  Traces = traced L

  abbrev pub Used : Trace L → Type 0
  Used t = t.used ≡ true

  abbrev pub UsedBy : Impl Traces → Type 0
  UsedBy s = Used s.conn

  consume-Used : (t : Trace L) → Leaves Used (consume Traces t)
  unfolding consume
  consume-Used t = if-Leaves Used (Traces.consume_input t).0 _ _ refl refl

  pub finish_query-Used :
      (fuel : ℕ) (t : Trace L) → Used t → Leaves Used (finish_query Traces fuel t)
  unfolding finish_query
  finish_query-Used zero t u = u
  finish_query-Used (suc fuel) t u =
      let after = (Traces.get_result t).1 in
      option-Leaves Used (L.get_result t.conn).0 (ok tt, after) (finish_query Traces fuel after)
        refl (finish_query-Used fuel after refl)

  module _ (format : String → List ℤ → String) (atoi : Bytes → ℤ) where
    after_select-Used :
        (w : Waited) (t : Trace L) → Used t → Leaves Used (after_select Traces format atoi w t)
    unfolding after_select
    after_select-Used timeout t u = u
    after_select-Used traffic t u = u
    after_select-Used interrupted t u = u
    after_select-Used (failed errno) t u = u

    pub wait_loop-Used :
        (fuel : ℕ) (t : Trace L) → Used t → Leaves Used (wait_loop Traces format atoi fuel t)
    unfolding wait_loop
    wait_loop-Used zero t u = u
    wait_loop-Used (suc fuel) t u =
        continue-Leaves Used
          (after_select Traces format atoi (Traces.select t).0 (Traces.select t).1) _
          (after_select-Used (Traces.select t).0 (Traces.select t).1 u)
          (λ proceed t1 u1.
            if-Leaves Used (not proceed) (ok false, t1) _ u1
              (continue-Leaves Used (consume Traces t1) _ (consume-Used t1) (λ _ t2 u2.
                if-Leaves Used (L.is_busy t2.conn) (wait_loop Traces format atoi fuel t2)
                  (ok true, t2) (wait_loop-Used fuel t2 u2) u2)))

    pub waited-Used :
        (fuel : ℕ) (t : Trace L) → Leaves Used (wait_for_data Traces format atoi fuel true t)
    unfolding wait_for_data
    waited-Used fuel t = continue-Leaves Used (consume Traces t) _ (consume-Used t) (λ _ t1 u1.
        if-Leaves Used (not (L.is_busy t1.conn)) (ok true, t1) _ u1
          (if-Leaves Used (is_negative (L.socket t1.conn)) _ _ u1 (wait_loop-Used fuel t1 u1)))

    check_open-Used : (t : Trace L) → Used t → Leaves Used (check_open Traces t)
    unfolding check_open
    check_open-Used t u =
        if-Leaves Used (L.connection_ok t.conn) (ok tt, t) _ u
          (if-Leaves Used (L.connection_ok (L.reset t.conn)) _ _ refl refl)

    cancel_open-Used : (t : Trace L) → Used t → Leaves Used (cancel_open Traces t)
    unfolding cancel_open issue_cancel
    cancel_open-Used t u =
        continue-Leaves Used (check_open Traces t) _ (check_open-Used t u)
          (λ _ t1 u1. if_step-Leaves Used (L.get_cancel t1.conn) (issue_cancel Traces) _ t1 refl u1)

    on_conn-Used :
        {A : Type 0} (m : Step (Trace L) A) (s : Impl Traces)
        → Leaves Used (m s.conn)
        → Leaves UsedBy (on_conn Traces m s)
    on_conn-Used m s u = u

    check-Used :
        (message : String) (f : Trace L → Bool × Trace L) (s : Impl Traces)
        → Used (f s.conn).1
        → Leaves UsedBy (check Traces message f s)
    check-Used message f s u =
        when-Leaves Used (not (f s.conn).0) (conn_stop Traces message) (f s.conn).1 u u

    send_row-Used : (row : List Param) (s : Impl Traces) → Leaves UsedBy (send_row Traces row s)
    unfolding send_row
    send_row-Used row s =
        if-Leaves UsedBy s.immediate _ _
          (check-Used "Failed to send query" (Traces.send_query s.sql) s refl)
          (check-Used "Failed to set query parameters" (Traces.send_query_prepared row) s refl)

    module _ (fuel : ℕ) where
      pub interrupt-Used :
          (s : Impl Traces) → UsedBy s → Leaves UsedBy (interrupt Traces format atoi fuel s)
      unfolding interrupt
      interrupt-Used s u =
          continue-Leaves UsedBy (on_conn Traces (cancel_open Traces) s) _
            (cancel_open-Used s.conn u) (λ n t u1. u1)

      on_finish-Used :
          (s : Impl Traces) → UsedBy s → Leaves UsedBy (on_conn Traces (finish_query Traces fuel) s)
      on_finish-Used s u = finish_query-Used fuel s.conn u

      bind_group-Used : (s : Impl Traces) → UsedBy s → Leaves UsedBy (bind_group Traces fuel s)
      unfolding bind_group
      bind_group-Used s u =
          continue-Leaves UsedBy (when (s.ready || ltb 0 s.group) _ s) _
            (when-Leaves UsedBy (s.ready || ltb 0 s.group) _ s u (on_finish-Used s u))
            (λ _ t v.
              continue-Leaves UsedBy (row_params s.cache.nparams s.params s.group, t) _ v
                (λ row t1 v1.
                  continue-Leaves UsedBy (send_row Traces row (record t1 { data_ready = false })) _
                    (send_row-Used row (record t1 { data_ready = false }))
                    (λ _ t2 v2.
                      continue-Leaves UsedBy
                        (check Traces "Failed to set single row mode" Traces.set_single_row_mode t2)
                        _
                        (check-Used "Failed to set single row mode" Traces.set_single_row_mode t2
                          refl)
                        (λ _ t3 v3. v3))))

      pub bind_row-Used : (s : Impl Traces) → UsedBy s → Leaves UsedBy (bind_row Traces fuel s)
      unfolding bind_row
      bind_row-Used s u =
          if-Leaves UsedBy (ltb s.group s.groups) _ (ok s.immediate, s) (bind_group-Used s u) u
