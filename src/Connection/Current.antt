-- ===== src/Connection/Current.antt =====
-- Which result of src/DbConnection.cpp is the current one, and what is left pending on the connection.
use rpostgres.Prelude.{
  is_some, ℕ, zero, suc, ◌≡◌, refl, ◌↔◌, Bool, true, false, Option, none, some, arith, ap,
  Bool-cases, inl, inr, ◌⊎◌, if◌then◌else◌, ◌<◌, ◌+◌,
}
use rpostgres.Prelude.Outcome.{Outcome, ok}
use rpostgres.Prelude.Step.{continue, modify}
use rpostgres.Libpq.{Libpq}
use rpostgres.Connection.{
  same_result, is_open, Connection, check_open, check_connection, issue_cancel, cancel_open,
  finish_query, cancel_query, cleanup_query, set_current_result, reset_current_result,
}

zero_or_suc : (n : ℕ) → (n ≡ 0) ⊎ ((m : ℕ) × (n ≡ suc m))
zero_or_suc zero = inl refl
zero_or_suc (suc m) = inr (m, refl)

module _ (L : Libpq) where
  open L use {Conn, connection_ok, reset, get_result, get_cancel, cancel}

  -- What libpq documents of PQgetResult: results are pending, and each call takes one, until a call
  -- returns NULL.
  pub record Pending (pending : Conn → ℕ) : Type 0 where
    pub last :
        (c : Conn) → pending c ≡ 0 → ((get_result c).0 ≡ none) × (pending (get_result c).1 ≡ 0)
    pub next :
        (c : Conn) (n : ℕ)
        → pending c ≡ suc n
        → (is_some (get_result c).0 ≡ true) × (pending (get_result c).1 ≡ n)

  pub finish_query-last :
      (fuel : ℕ) (c : Conn)
      → (get_result c).0 ≡ none
      → finish_query L (suc fuel) c ≡ (ok tt, (get_result c).1)
  unfolding finish_query
  finish_query-last fuel c h = ground arith

  pub finish_query-next :
      (fuel : ℕ) (c : Conn)
      → is_some (get_result c).0 ≡ true
      → finish_query L (suc fuel) c ≡ finish_query L fuel (get_result c).1
  unfolding finish_query
  finish_query-next fuel c h = ground arith

  finish_query-less : {n m l fuel : ℕ} → m ≡ n → l ≡ suc n → l < suc fuel → m < fuel
  finish_query-less e d h = omega arith

  -- Where libpq's results come one by one to an end, `finish_query` with more fuel than there are
  -- results pending returns, and none is pending afterwards.
  pub finish_query-Pending :
      (pending : Conn → ℕ)
      → Pending pending
      → (fuel : ℕ) (c : Conn) → pending c < fuel
      → ((finish_query L fuel c).0 ≡ ok tt) × (pending (finish_query L fuel c).1 ≡ 0)
  unfolding finish_query
  finish_query-Pending pending p zero c h = absurd (omega arith)
  finish_query-Pending pending p (suc fuel) c h = elim (zero_or_suc (pending c)) [
    | inl e ↦ rw (finish_query-last fuel c (p.last c e).0) (refl, (p.last c e).1)
    | inr (n, e) ↦ rw (finish_query-next fuel c (p.next c n e).0) (
        finish_query-Pending pending p fuel (get_result c).1
          (finish_query-less (p.next c n e).1 e h))
  ]

  -- A connection on which a query can be cancelled, so that all is done with the fuel given.
  pub record CanCancel (pending : Conn → ℕ) (fuel : ℕ) (c : Conn) : Type 0 where
    pub in_order : connection_ok c ≡ true
    pub has_cancel : get_cancel c ≡ true
    pub enough : pending c < fuel
    pub enough_cancelled : pending (cancel c).1 < fuel

  cancel_open-eq :
      (c : Conn)
      → connection_ok c ≡ true
      → get_cancel c ≡ true
      → cancel_open L c ≡ (ok (if (cancel c).0 then 0 else 1), (cancel c).1)
  unfolding cancel_open check_open issue_cancel
  cancel_open-eq c e g = rw (e, g)

  cleanup_query-open :
      (fuel : ℕ) (complete : ℕ → Bool) (s : Connection L) (c : Conn)
      → s.conn ≡ some c
      → is_open complete s.current_result ≡ true
      → connection_ok c ≡ true
      → get_cancel c ≡ true
      → cleanup_query L fuel complete s ≡ (
        (finish_query L fuel (cancel c).1).0,
        record s {
          conn = some (finish_query L fuel (cancel c).1).1;
          warnings = s.warnings + (if (cancel c).0 then 0 else 1);
        },
      )
  unfolding cleanup_query cancel_query
  cleanup_query-open fuel complete s c h e o g = rw (h, e, cancel_open-eq c o g)

  cleanup_query-closed :
      (fuel : ℕ) (complete : ℕ → Bool) (s : Connection L) (c : Conn)
      → s.conn ≡ some c
      → is_open complete s.current_result ≡ false
      → cleanup_query L fuel complete s
        ≡ ((finish_query L fuel c).0, record s { conn = some (finish_query L fuel c).1 })
  unfolding cleanup_query
  cleanup_query-closed fuel complete s c h e = rw (h, e)

  -- The connection after a clean-up: there, with nothing pending.
  unfoldable pub IsClean : (Conn → ℕ) → Option Conn → Type 0
  IsClean pending none = ⊥
  IsClean pending (some c) = pending c ≡ 0

  pub cleanup_query-IsClean :
      (pending : Conn → ℕ)
      → Pending pending
      → (fuel : ℕ) (complete : ℕ → Bool) (s : Connection L) (c : Conn) → s.conn ≡ some c
      → CanCancel pending fuel c
      → ((cleanup_query L fuel complete s).0 ≡ ok tt)
        × IsClean pending (cleanup_query L fuel complete s).1.conn
        × ((cleanup_query L fuel complete s).1.current_result ≡ s.current_result)
  unfolding IsClean
  cleanup_query-IsClean pending p fuel complete s c h k =
      elim (Bool-cases (is_open complete s.current_result)) [
        | inl e ↦ rw (cleanup_query-open fuel complete s c h e k.in_order k.has_cancel) (
            let (a, b) = finish_query-Pending pending p fuel (cancel c).1 k.enough_cancelled in
            (a, b, refl))
        | inr e ↦
            rw (cleanup_query-closed fuel complete s c h e)
              (let (a, b) = finish_query-Pending pending p fuel c k.enough in (a, b, refl))
      ]

  assigned :
      (pending : Conn → ℕ) (result old : Option ℕ) (x : Outcome (Unit {0}) × Connection L)
      → (x.0 ≡ ok tt) × IsClean pending x.1.conn × (x.1.current_result ≡ old)
      → (y : Outcome (Unit {0}) × Connection L)
      → y ≡ continue x (λ _. modify (λ s'. record s' { current_result = result }))
      → (y.0 ≡ ok tt) × IsClean pending y.1.conn × (y.1.current_result ≡ result)
  assigned pending result old x (e, v, _) y d = rw (d, e) (refl, v, refl)

  -- Where libpq's results come one by one to an end, and a connection is in order, has a handle for
  -- its cancellation, and has fewer results pending than there is fuel, before and after it is
  -- cancelled: a new result, or none, takes the connection over from another result, the call
  -- succeeds, nothing stays pending, and the new result is the current one.
  pub set_current_result-IsClean :
      (pending : Conn → ℕ)
      → Pending pending
      → (fuel : ℕ) (complete : ℕ → Bool) (result : Option ℕ) (s : Connection L) (c : Conn) (q : ℕ)
      → s.conn ≡ some c
      → s.current_result ≡ some q
      → same_result result (some q) ≡ false
      → CanCancel pending fuel c
      → ((set_current_result L fuel complete result s).0 ≡ ok tt)
        × IsClean pending (set_current_result L fuel complete result s).1.conn
        × ((set_current_result L fuel complete result s).1.current_result ≡ result)
  unfolding set_current_result
  set_current_result-IsClean pending p fuel complete none s c q h i e k =
      assigned pending none s.current_result (cleanup_query L fuel complete s)
        (cleanup_query-IsClean pending p fuel complete s c h k)
        (set_current_result L fuel complete none s) (rw (i, e))
  set_current_result-IsClean pending p fuel complete (some r) s c q h i e k =
      let s' : Connection L = record s { warnings = s.warnings + 1 } in
      assigned pending (some r) s.current_result (cleanup_query L fuel complete s')
        (cleanup_query-IsClean pending p fuel complete s' c h k)
        (set_current_result L fuel complete (some r) s) (rw (i, e))

  -- Under the same conditions on the connection, to close the current result, or none, succeeds,
  -- leaves nothing pending, and leaves no current result.
  pub reset_current_result-IsClean :
      (pending : Conn → ℕ)
      → Pending pending
      → (fuel : ℕ) (complete : ℕ → Bool) (result : Option ℕ) (s : Connection L) (c : Conn)
      → s.conn ≡ some c
      → same_result result s.current_result ≡ true
      → CanCancel pending fuel c
      → ((reset_current_result L fuel complete result s).0 ≡ ok tt)
        × IsClean pending (reset_current_result L fuel complete result s).1.conn
        × ((reset_current_result L fuel complete result s).1.current_result ≡ none)
  unfolding reset_current_result
  reset_current_result-IsClean pending p fuel complete result s c h e k =
      assigned pending none s.current_result (cleanup_query L fuel complete s)
        (cleanup_query-IsClean pending p fuel complete s c h k)
        (reset_current_result L fuel complete result s) (rw e)

  check_open-ok :
      (c : Conn)
      → ((check_open L c).1 ≡ (if connection_ok c then c else reset c))
        × (((check_open L c).0 ≡ ok tt)
            ↔ (connection_ok (if connection_ok c then c else reset c) ≡ true))
  unfolding check_open
  check_open-ok c = ground arith

  -- On an open connection, `check_connection` leaves the connection, or the one that a reset makes of it, and succeeds
  -- exactly if that one is in order.
  pub check_connection-ok :
      (s : Connection L) (c : Conn)
      → s.conn ≡ some c
      → ((check_connection L s).1
          ≡ record s { conn = some (if connection_ok c then c else reset c) })
        × (((check_connection L s).0 ≡ ok tt)
            ↔ (connection_ok (if connection_ok c then c else reset c) ≡ true))
  unfolding check_connection
  check_connection-ok s c h =
      rw h (let (a, b) = check_open-ok c in (ap (λ c'. record s { conn = some c' }) a, b))
