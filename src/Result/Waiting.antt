-- ===== src/Result/Waiting.antt =====
-- The wait for data in src/PqResultImpl.cpp ends, and with an answer of true only where PQgetResult
-- does not block.
use Prim.Native.String.{String}
use rpostgres.Prelude.{
  ℕ, zero, suc, ◌<◌, ◌≡◌, refl, Bool, true, false, arith, List, not, if◌then◌else◌, Bool-cases, inl,
  inr,
}
use rpostgres.Prelude.Int.{ℤ}
use rpostgres.Prelude.Outcome.{Outcome, ok, stop, undefined}
use rpostgres.Prelude.Step.{continue}
use rpostgres.Runtime.{Bytes}
use rpostgres.Libpq.{Libpq, Waited, timeout, traffic, interrupted, failed}
use rpostgres.Connection.{consume}
use rpostgres.Result.Run.{is_negative, after_select, wait_loop, wait_for_data}

module _ (L : Libpq) (format : String → List ℤ → String) (atoi : Bytes → ℤ) where
  open L use {Conn, consume_input, is_busy, socket, select, check_user_interrupt}

  -- An answer: an error, false for an interrupt, or true with a result that is there to be read.
  unfoldable pub IsAnswer : Outcome Bool × Conn → Type 0
  IsAnswer (undefined, c) = ⊥
  IsAnswer (stop message, c) = Unit
  IsAnswer (ok false, c) = Unit
  IsAnswer (ok true, c) = is_busy c ≡ false

  abbrev pub round : Conn → Outcome Bool × Conn
  round c = after_select L format atoi (select c).0 (select c).1

  -- The server's data arrive: `left` bounds the rounds of `select` and `PQconsumeInput` until the
  -- connection is no longer busy.
  unfoldable pub Arrives : (Conn → ℕ) → Type 0
  Arrives left =
      (c : Conn)
      → is_busy (consume_input (round c).1).1 ≡ true
      → left (consume_input (round c).1).1 < left c

  answer :
      (rest : Conn → Outcome Bool × Conn) (x : Outcome Bool × Conn)
      → ¬ (x.0 ≡ undefined)
      → (is_busy (consume_input x.1).1 ≡ true → IsAnswer (rest (consume_input x.1).1))
      → IsAnswer (
          continue x (λ proceed c'.
            if not proceed
            then (ok false, c')
            else continue
                (consume L c')
                (λ _ c''. if is_busy c'' then rest c'' else (ok true, c''))))
  unfolding IsAnswer consume
  answer rest (undefined, c) d r = d refl
  answer rest (stop message, c) d r = tt
  answer rest (ok false, c) d r = tt
  answer rest (ok true, c) d r = elim (Bool-cases (consume_input c).0) [
    | inl e ↦ elim (Bool-cases (is_busy (consume_input c).1)) [
      | inl b ↦ rw (e, b) (r b)
      | inr b ↦ rw (e, b, b) refl
    ]
    | inr e ↦ rw e tt
  ]

  round-defined : (w : Waited) (c : Conn) → ¬ ((after_select L format atoi w c).0 ≡ undefined)
  unfolding after_select
  round-defined timeout c e = ground arith
  round-defined traffic c e = ground arith
  round-defined interrupted c e = ground arith
  round-defined (failed errno) c e = ground arith

  less : {m n fuel : ℕ} → m < n → n < suc fuel → m < fuel
  less h i = omega arith

  wait_loop-IsAnswer :
      (left : Conn → ℕ)
      → Arrives left
      → (fuel : ℕ) (c : Conn) → left c < fuel
      → IsAnswer (wait_loop L format atoi fuel c)
  unfolding wait_loop Arrives
  wait_loop-IsAnswer left a zero c h = absurd (omega arith)
  wait_loop-IsAnswer left a (suc fuel) c h =
      answer (wait_loop L format atoi fuel) (round c) (round-defined (select c).0 (select c).1)
        (λ b. wait_loop-IsAnswer left a fuel (consume_input (round c).1).1 (less (a c b) h))

  -- `wait_for_data` that checks interrupts returns or throws if the data arrive within its fuel, and
  -- returns true only if PQgetResult will not block.
  pub wait_for_data-IsAnswer :
      (left : Conn → ℕ)
      → Arrives left
      → (fuel : ℕ) (c : Conn) → left (consume_input c).1 < fuel
      → IsAnswer (wait_for_data L format atoi fuel true c)
  unfolding wait_for_data consume IsAnswer
  wait_for_data-IsAnswer left a fuel c h =
      let c' = (consume_input c).1 in
      elim (Bool-cases (consume_input c).0) [
        | inr e ↦ rw e tt
        | inl e ↦ elim (Bool-cases (is_busy c')) [
          | inr b ↦ rw (e, b, b) refl
          | inl b ↦ elim (Bool-cases (is_negative (socket c'))) [
            | inl n ↦ rw (e, b, n) tt
            | inr n ↦ rw (e, b, n) (wait_loop-IsAnswer left a fuel c' h)
          ]
        ]
      ]
