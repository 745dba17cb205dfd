-- ===== src/Connection/Frames.antt =====
-- What the operations of src/DbConnection.cpp leave as it was, whether they throw or not.
use Prim.Native.String.{String}
use rpostgres.Prelude.{
  is_some, ℕ, zero, suc, ◌≡◌, refl, ap, subst, sym, ◌∙◌, Bool, true, false, not, Option, none, some,
  List, arith, Option-cases, Bool-cases, inl, inr,
}
use rpostgres.Prelude.Outcome.{Outcome, ok, stop, undefined}
use rpostgres.Prelude.Step.{Step, continue, when, throw, return, modify, ◌>>◌}
use rpostgres.Runtime.{Bytes}
use rpostgres.Libpq.{Libpq}
use rpostgres.Connection.Current.{finish_query-last, finish_query-next}
use rpostgres.Connection.{
  same_result, is_open, is_null, Connection, check_connection, cancel_query, cleanup_query,
  set_current_result, check_open, cancel_open, reset_current_result, finish_query, with_conn, warn,
  set_transacting, set_temp_schema,
}

pub same_result-eq : (a b : Option ℕ) → same_result a b ≡ true → a ≡ b
unfolding same_result
same_result-eq none none e = refl
same_result-eq none (some b) e = ground arith
same_result-eq (some a) none e = ground arith
same_result-eq (some a) (some b) e = ground arith

-- A call that does not throw.
unfoldable pub NotStop : {A : Type 0} → Outcome A → Type 0
NotStop (ok a) = Unit
NotStop (stop message) = ⊥
NotStop undefined = Unit

module _ (L : Libpq) where
  open L use {Conn, get_result}

  -- The same result is the current one, and a connection is there as before.
  pub record Same (s t : Connection L) : Type 0 where
    pub current : t.current_result ≡ s.current_result
    pub there : is_some t.conn ≡ is_some s.conn

  Same-trans : (s t u : Connection L) → Same s t → Same t u → Same s u
  Same-trans s t u h k = record { current = k.current ∙ h.current; there = k.there ∙ h.there }

  pub Same-refl : (s : Connection L) → Same s s
  Same-refl s = record { current = refl; there = refl }

  pub with_conn-Same :
      {A : Type 0} (otherwise : Step (Connection L) A) (m : Step Conn A) (s : Connection L)
      → Same s (otherwise s).1
      → Same s (with_conn L otherwise m s).1
  with_conn-Same otherwise m s h = ground arith

  -- A step and what follows it.
  pub continue-Same :
      {A B : Type 0} (s : Connection L) (x : Outcome A × Connection L)
      (next : A → Step (Connection L) B)
      → Same s x.1
      → ((a : A) (t : Connection L) → Same t (next a t).1)
      → Same s (continue x next).1
  continue-Same s (ok a, t) next h k = Same-trans s t (next a t).1 h (k a t)
  continue-Same s (stop message, t) next h k = h
  continue-Same s (undefined, t) next h k = h

  when-Same :
      (b : Bool) (m : Step (Connection L) (Unit {0}))
      → ((s : Connection L) → Same s (m s).1)
      → (s : Connection L) → Same s (when b m s).1
  when-Same true m h s = h s
  when-Same false m h s = Same-refl s

  pub transact-Same : (b : Bool) (s : Connection L) → Same s (modify (set_transacting L b) s).1
  unfolding set_transacting
  transact-Same b s = record { current = refl; there = refl }

  pub schema-Same :
      (schema : List (Option Bytes)) (s : Connection L)
      → Same s (modify (set_temp_schema L schema) s).1
  unfolding set_temp_schema
  schema-Same schema s = record { current = refl; there = refl }

  pub check_connection-Same : (s : Connection L) → Same s (check_connection L s).1
  unfolding check_connection
  check_connection-Same s = with_conn-Same (throw "Disconnected") (check_open L) s (Same-refl s)

  warn-Same : (n : ℕ) (s : Connection L) → Same s (warn L n s).1
  warn-Same n s = record { current = refl; there = refl }

  cancel_query-Same : (s : Connection L) → Same s (cancel_query L s).1
  unfolding cancel_query
  cancel_query-Same s =
      continue-Same s (with_conn L (throw "Disconnected") (cancel_open L) s) (warn L)
        (with_conn-Same (throw "Disconnected") (cancel_open L) s (Same-refl s)) warn-Same

  -- A result that takes over is the current one if that succeeds; if it throws, the old one stays.
  pub data Assigned (result : Option ℕ) (s : Connection L)
      : Outcome (Unit {0}) × Connection L → Type 0 where
    assigned :
        (t : Connection L)
        → t.current_result ≡ result
        → is_some t.conn ≡ is_some s.conn
        → Assigned result s (ok tt, t)
    kept : (message : String) (t : Connection L) → Same s t → Assigned result s (stop message, t)
    lost : (t : Connection L) → Assigned result s (undefined, t)

  assign :
      (result : Option ℕ) (s : Connection L) (x : Outcome (Unit {0}) × Connection L)
      → Same s x.1
      → Assigned result s (continue x (λ _. modify (λ t. record t { current_result = result })))
  assign result s (ok u, t) h = assigned (record t { current_result = result }) refl h.there
  assign result s (stop message, t) h = kept message t h
  assign result s (undefined, t) h = lost t

  module _ (fuel : ℕ) (complete : ℕ → Bool) where
    clean_open : Step (Connection L) (Unit {0})
    clean_open s =
        (when (is_open complete s.current_result) (cancel_query L)
            >> with_conn L (return tt) (finish_query L fuel))
          s

    clean_open-Same : (s : Connection L) → Same s (clean_open s).1
    unfolding clean_open
    clean_open-Same s =
        continue-Same s (when (is_open complete s.current_result) (cancel_query L) s)
          (λ _. with_conn L (return tt) (finish_query L fuel))
          (when-Same (is_open complete s.current_result) (cancel_query L) cancel_query-Same s)
          (λ _ t. with_conn-Same (return tt) (finish_query L fuel) t (Same-refl t))

    cleanup_query-eq :
        (s : Connection L)
        → cleanup_query L fuel complete s
          ≡ elim s.conn [ none ↦ (ok tt, s) | some c ↦ clean_open s ]
    unfolding cleanup_query clean_open
    cleanup_query-eq s = refl

    pub cleanup_query-Same : (s : Connection L) → Same s (cleanup_query L fuel complete s).1
    cleanup_query-Same s = elim (Option-cases s.conn) [
      | inl e ↦ rw (cleanup_query-eq s) (simp e (Same-refl s))
      | inr (c, e) ↦ rw (cleanup_query-eq s) (simp e (clean_open-Same s))
    ]

    clean_for : Option ℕ → Step (Connection L) (Unit {0})
    clean_for result = when (not (is_null result)) (warn L 1) >> cleanup_query L fuel complete

    clean_for-Same : (result : Option ℕ) (s : Connection L) → Same s (clean_for result s).1
    unfolding clean_for
    clean_for-Same result s =
        continue-Same s (when (not (is_null result)) (warn L 1) s)
          (λ _. cleanup_query L fuel complete)
          (when-Same (not (is_null result)) (warn L 1) (warn-Same 1) s) (λ _. cleanup_query-Same)

    pub set_current_result-Assigned :
        (result : Option ℕ) (s : Connection L)
        → Assigned result s (set_current_result L fuel complete result s)
    unfolding set_current_result clean_for
    set_current_result-Assigned result s = elim (Bool-cases (same_result result s.current_result)) [
      | inl e ↦ rw e (assigned s (sym (same_result-eq result s.current_result e)) refl)
      | inr e ↦ rw e (
          assign result s (when (not (is_null s.current_result)) (clean_for result) s) (
            when-Same (not (is_null s.current_result)) (clean_for result) (clean_for-Same result)
              s))
    ]

    -- The same of the current result that is reset, for which none takes over.
    pub reset_current_result-Assigned :
        (result : Option ℕ) (s : Connection L)
        → same_result result s.current_result ≡ true
        → Assigned none s (reset_current_result L fuel complete result s)
    unfolding reset_current_result
    reset_current_result-Assigned result s e =
        rw e (assign none s (cleanup_query L fuel complete s) (cleanup_query-Same s))

    finish_query-NotStop : (n : ℕ) (c : Conn) → NotStop (finish_query L n c).0
    unfolding NotStop finish_query
    finish_query-NotStop zero c = tt
    finish_query-NotStop (suc n) c = elim (Option-cases (get_result c).0) [
      | inl e ↦ subst (λ x. NotStop x.0) (sym (finish_query-last L n c e)) tt
      | inr (res, e) ↦
          subst (λ x. NotStop x.0) (sym (finish_query-next L n c (ap is_some e)))
            (finish_query-NotStop n (get_result c).1)
    ]

    reset_of :
        (x : Outcome (Unit {0}) × Connection L)
        → NotStop x.0
        → NotStop (continue x (λ _. modify (λ t. record t { current_result = none }))).0
    unfolding NotStop
    reset_of (ok u, t) h = tt
    reset_of (stop message, t) h = h
    reset_of (undefined, t) h = tt

    clean_open-finish :
        (s : Connection L) (c : Conn)
        → s.conn ≡ some c
        → is_open complete s.current_result ≡ false
        → (clean_open s).0 ≡ (finish_query L fuel c).0
    unfolding clean_open
    clean_open-finish s c n o = rw (n, o)

    cleanup_complete :
        (a : ℕ) (s : Connection L)
        → s.current_result ≡ some a
        → complete a ≡ true
        → NotStop (cleanup_query L fuel complete s).0
    unfolding NotStop is_open
    cleanup_complete a s e h = elim (Option-cases s.conn) [
      | inl n ↦ rw (cleanup_query-eq s) (simp n tt)
      | inr (c, n) ↦ rw (cleanup_query-eq s) (
          simp n (
            subst NotStop (sym (clean_open-finish s c n (rw (e, h))))
              (finish_query-NotStop fuel c)))
    ]

    -- To close a result that is complete does not throw: there is nothing to cancel.
    pub complete-NotStop :
        (a : ℕ) (s : Connection L)
        → s.current_result ≡ some a
        → complete a ≡ true
        → NotStop (reset_current_result L fuel complete (some a) s).0
    unfolding reset_current_result NotStop
    complete-NotStop a s e h = elim (Bool-cases (same_result (some a) s.current_result)) [
      | inl b ↦ rw b (reset_of (cleanup_query L fuel complete s) (cleanup_complete a s e h))
      | inr b ↦ rw b tt
    ]
