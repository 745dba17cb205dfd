-- ===== src/Connection/Notify.antt =====
-- `wait_for_notify` of src/DbConnection.cpp ends after its second round.
use rpostgres.Prelude.{ℕ, suc, ◌≡◌, true, false, not, arith}
use rpostgres.Prelude.Int.{ℤ, pos, negsuc, ◌==ℤ◌, ltb_ℤ}
use rpostgres.Prelude.Outcome.{undefined}
use rpostgres.Runtime.{Runtime}
use rpostgres.Libpq.{Libpq}
use rpostgres.Connection.{consume}
use rpostgres.Connection.Calls.{notify_loop, wait_for_notify}

not_minus_one : (n : ℕ) → not (pos n ==ℤ negsuc 0) ≡ true
not_minus_one n = ground arith

module _ (r : Runtime) (L : Libpq) where
  open L use {Conn, consume_input, notifies, select_for, socket}

  second_round : (t : ℤ) (n : ℕ) (c : Conn) → ¬ ((notify_loop r L 1 t (pos n) c).0 ≡ undefined)
  unfolding notify_loop consume
  second_round t n c e = ground (arith, not_minus_one n)

  later_round :
      (t s : ℤ) (c : Conn) → ltb_ℤ s (pos 0) ≡ false → ¬ ((notify_loop r L 1 t s c).0 ≡ undefined)
  later_round t (pos n) c h = second_round t n c
  later_round t (negsuc n) c h = ground arith

  a_round :
      (fuel : ℕ) (t s : ℤ) (c : Conn)
      → ((s' : ℤ) (c' : Conn)
          → ltb_ℤ s' (pos 0) ≡ false
          → ¬ ((notify_loop r L fuel t s' c').0 ≡ undefined))
      → ¬ ((notify_loop r L (suc fuel) t s c).0 ≡ undefined)
  unfolding notify_loop consume
  a_round fuel t s c later e =
      let c2 = (notifies (consume_input c).1).1 in
      ground (arith, later (socket c2) (select_for t c2).1)

  -- `wait_for_notify` returns or throws: it gives up in its second round.
  pub wait_for_notify-returns :
      (timeout_secs : ℤ) (c : Conn) → ¬ ((wait_for_notify r L timeout_secs c).0 ≡ undefined)
  unfolding wait_for_notify
  wait_for_notify-returns t c = a_round 1 t (negsuc 0) c (later_round t)
