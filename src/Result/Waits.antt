-- ===== src/Result/Waits.antt =====
-- The waits for data in src/PqResultImpl.cpp that end with the data there, as a relation on the
-- connection.
use Prim.Native.String.{String}
use rpostgres.Prelude.{ℕ, suc, ◌≡◌, refl, ap, ◌∙◌, Bool, true, false, List}
use rpostgres.Prelude.Int.{ℤ}
use rpostgres.Prelude.Outcome.{ok}
use rpostgres.Runtime.{Bytes}
use rpostgres.Libpq.{Libpq, timeout, traffic}
use rpostgres.Connection.{consume}
use rpostgres.Result.Run.{is_negative, after_select, wait_loop, wait_for_data}

module _ (L : Libpq) where
  open L use {Conn, consume_input, is_busy, socket, select, check_user_interrupt}

  -- `select` returns without an error or an interrupt.
  pub data Proceeds (c : Conn) : Conn → Type 0 where
    by_traffic : {c1 : Conn} → select c ≡ (traffic, c1) → Proceeds c c1
    by_timeout :
        {c1 c2 : Conn}
        → select c ≡ (timeout, c1)
        → check_user_interrupt c1 ≡ (false, c2)
        → Proceeds c c2

  -- Rounds of `select` and PQconsumeInput until the connection is no longer busy.
  pub data Selects : ℕ → Conn → Conn → Type 0 where
    arrived :
        {n : ℕ} {c c1 c2 : Conn}
        → Proceeds c c1
        → consume_input c1 ≡ (true, c2)
        → is_busy c2 ≡ false
        → Selects (suc n) c c2
    not_yet :
        {n : ℕ} {c c1 c2 c3 : Conn}
        → Proceeds c c1
        → consume_input c1 ≡ (true, c2)
        → is_busy c2 ≡ true
        → Selects n c2 c3
        → Selects (suc n) c c3

  -- A wait within `fuel` rounds: none if interrupts are not checked.
  pub data Waits (fuel : ℕ) : Bool → Conn → Conn → Type 0 where
    unchecked : {c : Conn} → Waits fuel false c c
    there : {c c1 : Conn} → consume_input c ≡ (true, c1) → is_busy c1 ≡ false → Waits fuel true c c1
    waited :
        {c c1 c2 : Conn}
        → consume_input c ≡ (true, c1)
        → is_busy c1 ≡ true
        → is_negative (socket c1) ≡ false
        → Selects fuel c1 c2
        → Waits fuel true c c2

  module _ (format : String → List ℤ → String) (atoi : Bytes → ℤ) where
    pub after_select-Proceeds :
        {c c1 : Conn}
        → Proceeds c c1
        → after_select L format atoi (select c).0 (select c).1 ≡ (ok true, c1)
    unfolding after_select
    after_select-Proceeds (by_traffic e) = ap (λ x. after_select L format atoi x.0 x.1) e
    after_select-Proceeds (by_timeout {c1} e i) =
        ap (λ x. after_select L format atoi x.0 x.1) e ∙ rw i refl

    pub consume-ok : {c c1 : Conn} → consume_input c ≡ (true, c1) → consume L c ≡ (ok tt, c1)
    unfolding consume
    consume-ok e = rw e refl

    wait_loop-Selects :
        {n : ℕ} {c c1 : Conn} → Selects n c c1 → wait_loop L format atoi n c ≡ (ok true, c1)
    unfolding wait_loop
    wait_loop-Selects (arrived p e b) = rw (after_select-Proceeds p, consume-ok e, b) refl
    wait_loop-Selects (not_yet p e b rest) =
        rw (after_select-Proceeds p, consume-ok e, b) (wait_loop-Selects rest)

    -- Such a wait answers that the data are there.
    pub wait_for_data-Waits :
        {fuel : ℕ} {check : Bool} {c c1 : Conn}
        → Waits fuel check c c1
        → wait_for_data L format atoi fuel check c ≡ (ok true, c1)
    unfolding wait_for_data
    wait_for_data-Waits unchecked = refl
    wait_for_data-Waits (there e b) = rw (consume-ok e, b) refl
    wait_for_data-Waits (waited e b n rest) = rw (consume-ok e, b, n) (wait_loop-Selects rest)
