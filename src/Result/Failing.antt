-- ===== src/Result/Failing.antt =====
-- The results of a query in src/PqResultImpl.cpp that end with an error of the server or an interrupt
-- of the user.
use Prim.Native.String.{String, ◌++◌ as string_append}
use rpostgres.Prelude.{
  ℕ, suc, ◌+◌, ◌≡◌, refl, ◌∙◌, ap, Bool, true, false, none, some, List, if◌then◌else◌, arith,
}
use rpostgres.Prelude.Int.{ℤ}
use rpostgres.Prelude.Outcome.{Outcome, ok, stop}
use rpostgres.Prelude.Step.{continue}
use rpostgres.Runtime.{Bytes}
use rpostgres.Libpq.{Libpq, PgResult, fatal_error, timeout, interrupted}
use rpostgres.Connection.{check_open, issue_cancel, cancel_open}
use rpostgres.Result.{Impl}
use rpostgres.Result.Run.{
  is_negative, after_select, wait_loop, wait_for_data, await, interrupt, on_result, step_run, step,
  read_result,
}
use rpostgres.Result.Waits.{Proceeds, after_select-Proceeds, consume-ok}

module _ (L : Libpq) (fuel : ℕ) where
  open L use {
    Conn, error_message, connection_ok, get_cancel, cancel, consume_input, is_busy, socket, select,
    check_user_interrupt,
  }

  -- `select` is interrupted, or R has an interrupt pending when it returns.
  pub data Halts (c : Conn) : Conn → Type 0 where
    by_signal : {c1 : Conn} → select c ≡ (interrupted, c1) → Halts c c1
    on_request :
        {c1 c2 : Conn}
        → select c ≡ (timeout, c1)
        → check_user_interrupt c1 ≡ (true, c2)
        → Halts c c2

  -- Rounds of waiting, the last of which is interrupted.
  pub data Halted : ℕ → Conn → Conn → Type 0 where
    now : {n : ℕ} {c c1 : Conn} → Halts c c1 → Halted (suc n) c c1
    later :
        {n : ℕ} {c c1 c2 c3 : Conn}
        → Proceeds L c c1
        → consume_input c1 ≡ (true, c2)
        → is_busy c2 ≡ true
        → Halted n c2 c3
        → Halted (suc n) c c3

  -- A wait within the fuel that is interrupted, and the query that is cancelled.
  pub record Interrupts (c c' : Conn) : Type 0 where
    pub consumed : Conn
    pub waited : Conn
    pub cancelled : Bool
    pub consumes : consume_input c ≡ (true, consumed)
    pub busy : is_busy consumed ≡ true
    pub has_socket : is_negative (socket consumed) ≡ false
    pub halted : Halted fuel consumed waited
    pub up : connection_ok waited ≡ true
    pub can_cancel : get_cancel waited ≡ true
    pub cancels : cancel waited ≡ (cancelled, c')

  module _ (format : String → List ℤ → String) (atoi : Bytes → ℤ) where
    after_select-Halts :
        {c c1 : Conn}
        → Halts c c1
        → after_select L format atoi (select c).0 (select c).1 ≡ (ok false, c1)
    unfolding after_select
    after_select-Halts (by_signal e) = ap (λ x. after_select L format atoi x.0 x.1) e
    after_select-Halts (on_request {c1} e i) =
        ap (λ x. after_select L format atoi x.0 x.1) e ∙ rw i refl

    wait_loop-Halted :
        {n : ℕ} {c c1 : Conn} → Halted n c c1 → wait_loop L format atoi n c ≡ (ok false, c1)
    unfolding wait_loop
    wait_loop-Halted (now h) = rw (after_select-Halts h) refl
    wait_loop-Halted (later p e b rest) =
        rw (after_select-Proceeds L format atoi p, consume-ok L format atoi e, b)
          (wait_loop-Halted rest)

    wait_for_data-Interrupts :
        (c c' : Conn) (h : Interrupts c c')
        → wait_for_data L format atoi fuel true c ≡ (ok false, h.waited)
    unfolding wait_for_data
    wait_for_data-Interrupts c c' h =
        rw (consume-ok L format atoi h.consumes, h.busy, h.has_socket) (wait_loop-Halted h.halted)

    cancel_open-Interrupts :
        (c c' : Conn) (h : Interrupts c c')
        → cancel_open L h.waited ≡ (ok (if h.cancelled then 0 else 1), c')
    unfolding cancel_open check_open issue_cancel
    cancel_open-Interrupts c c' h = rw (h.up, h.can_cancel, h.cancels) refl

    -- The query after it is interrupted.
    abbrev pub cut_short : Impl L → Conn → Bool → Impl L
    cut_short s c cancelled = record s {
      conn = c;
      warnings = s.warnings + (if cancelled then 0 else 1);
      complete = true;
    }

    interrupt-Interrupts :
        (s : Impl L) (c c' : Conn) (h : Interrupts c c')
        → interrupt L format atoi fuel (record s { conn = h.waited })
          ≡ (stop "Interrupted.", cut_short s c' h.cancelled)
    unfolding interrupt
    interrupt-Interrupts s c c' h = rw (cancel_open-Interrupts c c' h) refl

    -- The query that waits for data on this connection, and checks interrupts.
    abbrev asleep : Impl L → Conn → Impl L
    asleep s c = record s { conn = c; check_interrupts = true; data_ready = false }

    await-Interrupts :
        (s : Impl L) (c c' : Conn) (h : Interrupts c c')
        → await L format atoi fuel (asleep s c) ≡ (
          stop "Interrupted.",
          cut_short (record s { check_interrupts = true; data_ready = true }) c' h.cancelled,
        )
    unfolding await
    await-Interrupts s c c' h = rw (wait_for_data-Interrupts c c' h) (
        ap (λ (x : Outcome (Unit {0}) × Impl L). continue x (λ _ t. (ok true, t)))
          (interrupt-Interrupts (record s { check_interrupts = true; data_ready = true }) c c' h))

    -- `step_run` throws, and leaves the query complete.
    pub step_run-Interrupts :
        (s : Impl L) (c c' : Conn) (h : Interrupts c c')
        → step_run L format atoi fuel (asleep s c) ≡ (
          stop "Interrupted.",
          cut_short
              (record s { check_interrupts = true; data_ready = true; res = none })
              c'
              h.cancelled,
        )
    unfolding step_run
    step_run-Interrupts s c c' h =
        ap
          (λ (x : Outcome Bool × Impl L). continue x (λ first t.
            continue (read_result L format atoi fuel t)
              (λ res. on_result L format atoi fuel first res)))
          (await-Interrupts (record s { res = none }) c c' h)

    pub on_result-fatal :
        (first : Bool) (s : Impl L) (res : PgResult)
        → res.status ≡ fatal_error
        → on_result L format atoi fuel first (some res) s ≡ (
          stop (string_append "Failed to fetch row" (string_append " : " (error_message s.conn))),
          record s { res = none },
        )
    unfolding on_result
    on_result-fatal first s res e = ground arith

    pub step-throws :
        (k : ℕ) (s t : Impl L) (message : String)
        → step_run L format atoi fuel s ≡ (stop message, t)
        → step L format atoi fuel (suc k) s ≡ (stop message, t)
    unfolding step
    step-throws k s t message e = rw e
