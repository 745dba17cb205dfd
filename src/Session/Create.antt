-- ===== src/Session/Create.antt =====
-- `result_create` keeps the pointers of a session in order, on every path through the constructors.
use Prim.Native.String.{String}
use rpostgres.Prelude.{
  is_some, ℕ, ◌≡◌, refl, sym, ◌∙◌, subst, Bool, true, false, not, Option, none, some, List, arith,
}
use rpostgres.Prelude.Int.{ℤ}
use rpostgres.Prelude.Outcome.{Outcome, ok, stop, undefined}
use rpostgres.Prelude.Step.{Step, when, after_ok, continue, continue_assoc, throw}
use rpostgres.Runtime.{Runtime, Bytes}
use rpostgres.Libpq.{Libpq}
use rpostgres.Connection.{Connection, same_result, set_current_result, check_connection}
use rpostgres.Connection.Frames.{
  complete-NotStop, Assigned, assigned, kept, lost, set_current_result-Assigned,
}
use rpostgres.Result.{Impl}
use rpostgres.Result.Run.{new_impl}
use rpostgres.Session.{
  put, complete, is_complete, follow_current, set_current, new_result, construct, construct_on,
  constructed, on_connection, result_create,
}
use rpostgres.Session.Keeps.{Keeps-any, Keeps-continue, if-Keeps, Sound-Same, check-Keeps}
use rpostgres.Session.Sound.{
  Session, Results, IsSound, AreBuilt, Post, live-put_self, AreBuilt-put, AreBuilt-erase-put,
  delete, delete-current, find-put, eq_self,
}

module _ (r : Runtime) (L : Libpq) (format : String → List ℤ → String) (fuel rounds : ℕ) where
  open r use {atoi}
  open L use {Conn}

  abbrev S : Type 0
  S = Session r L format fuel rounds

  abbrev Sound : S → Type 0
  Sound = IsSound r L format fuel rounds

  abbrev Keeps : {A : Type 0} → Outcome A × S → Type 0
  Keeps = Post r L format fuel rounds Sound

  pub complete-unbuilt :
      (a : ℕ) (results : Results r L format fuel rounds)
      → is_complete r L format fuel rounds (put a (record { impl = none }) results) a ≡ true
  unfolding is_complete complete
  complete-unbuilt a results =
      ground (arith, find-put a a (record { impl = none }) results, eq_self a)

  abbrev setting : ℕ → S → Outcome (Unit {0}) × Connection L
  setting a w =
      set_current_result L fuel (is_complete r L format fuel rounds w.results) (some a) w.connection

  abbrev follow : Step S (Unit {0})
  follow = follow_current r L format fuel rounds

  when-ok : (b : Bool) (w : S) → follow w ≡ (ok tt, w) → when b follow w ≡ (ok tt, w)
  when-ok true w e = e
  when-ok false w e = refl

  set_current-eq :
      (a : ℕ) (w : S)
      → Sound w
      → set_current r L format fuel rounds a w
        ≡ ((setting a w).0, record w { connection = (setting a w).1 })
  unfolding set_current follow_current
  set_current-eq a w v =
      let different = not (same_result (some a) w.connection.current_result) in
      after_ok (when different follow w) tt w
        (λ _.
          on_connection r L format fuel rounds
            (set_current_result L fuel (is_complete r L format fuel rounds w.results) (some a)))
        (when-ok different w (rw (v.current_live) refl))

  -- What follows the assignment of the current result.
  set_then :
      {B : Type 0} (a : ℕ) (w : S) (x : Outcome (Unit {0}) × Connection L) (next : Step S B)
      → Sound w
      → Assigned L (some a) w.connection x
      → ((t : S)
          → t.connection.current_result ≡ some a
          → AreBuilt r L format fuel rounds t.results
          → is_some t.connection.conn ≡ t.held
          → Keeps (next t))
      → Keeps (continue (x.0, record w { connection = x.1 }) (λ _. next))
  unfolding Post
  set_then a w x next v (assigned s e h) k = k (record w { connection = s }) e v.built (h ∙ v.there)
  set_then a w x next v (kept message s h) k = Sound-Same r L format fuel rounds w s v h
  set_then a w x next v (lost s) k = tt

  constructed-Keeps :
      (a : ℕ) (w : S) (x : Outcome (Unit {0}) × Impl L)
      → w.connection.current_result ≡ some a
      → AreBuilt r L format fuel rounds w.results
      → true ≡ w.held
      → Keeps (constructed r L format fuel rounds a w x)
  unfolding Post constructed
  constructed-Keeps a w (ok u, impl) e b c = record {
    current_live =
        rw e (live-put_self r L format fuel rounds a (record { impl = some impl }) w.results);
    built = AreBuilt-put r L format fuel rounds a impl w.results b;
    there = c;
  }
  constructed-Keeps a w (stop message, impl) e b c =
      let t : S = record w {
        connection = record w.connection { conn = some impl.conn };
        results = put a (record { impl = none }) w.results;
      } in
      Keeps-continue r L format fuel rounds (delete r L format fuel rounds a t) (λ _. throw message)
        (delete-current r L format fuel rounds a t e
          (AreBuilt-erase-put r L format fuel rounds a (record { impl = none }) w.results b) c
          (complete-NotStop L fuel (is_complete r L format fuel rounds t.results) a t.connection e
            (complete-unbuilt a w.results)))
        (λ _ t' v. Keeps-any r L format fuel rounds {A = Unit {0}} (stop message) t' v)
  constructed-Keeps a w (undefined, impl) e b c = tt

  construct_on-Keeps :
      (a : ℕ) (sql : Bytes) (immediate : Bool) (w : S) (c : Option Conn)
      → w.connection.current_result ≡ some a
      → AreBuilt r L format fuel rounds w.results
      → is_some c ≡ w.held
      → Keeps (construct_on r L format fuel rounds a sql immediate w c)
  unfolding construct_on Post
  construct_on-Keeps a sql immediate w none e b h = tt
  construct_on-Keeps a sql immediate w (some c) e b h =
      constructed-Keeps a w
        (new_impl L format atoi fuel rounds c w.connection.check_interrupts sql immediate) e b h

  new_result_then :
      (a : ℕ) (sql : Bytes) (immediate : Bool) (w : S)
      → Sound w
      → Keeps (
          continue
            (set_current r L format fuel rounds a w)
            (λ _. construct r L format fuel rounds a sql immediate))
  unfolding construct
  new_result_then a sql immediate w v = rw (set_current-eq a w v) (
      set_then a w (setting a w) (construct r L format fuel rounds a sql immediate) v
        (set_current_result-Assigned L fuel (is_complete r L format fuel rounds w.results) (some a)
          w.connection)
        (λ t e b h. construct_on-Keeps a sql immediate t t.connection.conn e b h))

  abbrev checked : S → Outcome (Unit {0}) × S
  checked w = on_connection r L format fuel rounds (check_connection L) w

  abbrev build : ℕ → Bytes → Bool → Step S (Unit {0})
  build a sql immediate w =
      continue (continue (checked w) (λ _. set_current r L format fuel rounds a))
        (λ _. construct r L format fuel rounds a sql immediate)

  -- Whatever `result_create` meets, a pointer that is NULL, an error of the connection, of the
  -- clean-up of the result in use, or of the new query: if the pointers of the session are in order,
  -- and the call returns or throws, then they are in order afterwards.
  pub result_create-IsSound :
      (on_null : Outcome (Unit {0})) (a : ℕ) (sql : Bytes) (immediate : Bool) (w : S)
      → Sound w
      → Keeps (result_create r L format fuel rounds on_null a sql immediate w)
  unfolding result_create new_result Post
  result_create-IsSound on_null a sql immediate w v =
      if-Keeps r L format fuel rounds w.held (continue (checked w) (λ _. build a sql immediate))
        (on_null, w)
        (Keeps-continue r L format fuel rounds (checked w) (λ _. build a sql immediate)
          (check-Keeps r L format fuel rounds w v)
          (λ _ t v'.
            subst Keeps
              (sym (
                continue_assoc (checked t) (λ _. set_current r L format fuel rounds a)
                  (λ _. construct r L format fuel rounds a sql immediate)))
              (Keeps-continue r L format fuel rounds (checked t)
                (λ _ t'.
                  continue (set_current r L format fuel rounds a t')
                    (λ _. construct r L format fuel rounds a sql immediate))
                (check-Keeps r L format fuel rounds t v')
                (λ _ t' v''. new_result_then a sql immediate t' v''))))
        (Keeps-any r L format fuel rounds on_null w v)
