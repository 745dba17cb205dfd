-- ===== src/Session/Sound.antt =====
-- The pointers of a session of src/connection.cpp and src/result.cpp: `pCurrentResult_` points to a
-- live result, every result has its `impl`, and there is a PGconn as long as R holds the connection.
use Prim.Native.String.{String}
use rpostgres.Prelude.{
  is_some, ℕ, ◌≡◌, refl, sym, ◌∙◌, subst, Bool, true, false, Option, none, some, List, [], ◌∷◌,
  ◌==◌, arith, if◌then◌else◌, Bool-cases, inl, inr,
}
use rpostgres.Prelude.Int.{ℤ}
use rpostgres.Prelude.Outcome.{Outcome, ok, stop, undefined}
use rpostgres.Runtime.{Runtime}
use rpostgres.Libpq.{Libpq}
use rpostgres.Connection.{Connection, is_current_result, same_result, reset_current_result}
use rpostgres.Connection.Frames.{
  NotStop, Assigned, assigned, kept, lost, reset_current_result-Assigned, same_result-eq,
}
use rpostgres.Result.{Impl}
use rpostgres.Session.{
  find, put, erase, DbResult, World, is_live, is_complete, delete_result, is_active, caught,
}

module _ {ℓ} {A : Type ℓ} where
  pub find-erase :
      (a b : ℕ) (xs : List (ℕ × A)) → find b (erase a xs) ≡ (if b == a then none else find b xs)
  unfolding find erase
  find-erase a b [] = ground arith
  find-erase a b ((c, y) ∷ xs) = ground (arith, find-erase a b xs)

  pub find-put :
      (a b : ℕ) (x : A) (xs : List (ℕ × A))
      → find b (put a x xs) ≡ (if b == a then some x else find b xs)
  unfolding find put
  find-put a b x xs = ground (arith, find-erase a b xs)

pub eq_self : (a : ℕ) → (a == a) ≡ true
eq_self a = ground arith

module _ (r : Runtime) (L : Libpq) (format : String → List ℤ → String) (fuel rounds : ℕ) where
  abbrev pub Results : Type 0
  Results = List (ℕ × DbResult r L format fuel rounds)

  abbrev pub Session : Type 0
  Session = World r L format fuel rounds

  -- No live result has a NULL `impl`.
  abbrev pub AreBuilt : Results → Type 0
  AreBuilt results =
      (a : ℕ) (d : DbResult r L format fuel rounds)
      → find a results ≡ some d
      → is_some d.impl ≡ true

  pub record IsSound (w : Session) : Type 0 where
    pub current_live : is_live r L format fuel rounds w.connection.current_result w.results ≡ true
    pub built : AreBuilt w.results
    pub there : is_some w.connection.conn ≡ w.held

  -- What holds of the session after a call that returns or throws.
  unfoldable pub Post : {A : Type 0} → (Session → Type 0) → Outcome A × Session → Type 0
  Post P (ok a, w) = P w
  Post P (stop message, w) = P w
  Post P (undefined, w) = Unit

  abbrev pub live : Option ℕ → Results → Bool
  live = is_live r L format fuel rounds

  pub live-put :
      (p : Option ℕ) (a : ℕ) (d : DbResult r L format fuel rounds) (results : Results)
      → live p results ≡ true
      → live p (put a d results) ≡ true
  unfolding is_live
  live-put none a d results h = refl
  live-put (some b) a d results h = ground (arith, find-put a b d results)

  pub live-put_self :
      (a : ℕ) (d : DbResult r L format fuel rounds) (results : Results)
      → live (some a) (put a d results) ≡ true
  unfolding is_live
  live-put_self a d results = ground (arith, find-put a a d results, eq_self a)

  live-erase :
      (p : Option ℕ) (a : ℕ) (results : Results)
      → same_result p (some a) ≡ false
      → live p results ≡ true
      → live p (erase a results) ≡ true
  unfolding is_live same_result
  live-erase none a results n h = refl
  live-erase (some b) a results n h = ground (arith, find-erase a b results)

  pub AreBuilt-put :
      (a : ℕ) (impl : Impl L) (results : Results)
      → AreBuilt results
      → AreBuilt (put a (record { impl = some impl }) results)
  AreBuilt-put a impl results h b d e =
      ground (arith, find-put a b (record { impl = some impl }) results, h b d)

  AreBuilt-erase : (a : ℕ) (results : Results) → AreBuilt results → AreBuilt (erase a results)
  AreBuilt-erase a results h b d e = ground (arith, find-erase a b results, h b d)

  -- A result under construction may be deleted.
  pub AreBuilt-erase-put :
      (a : ℕ) (x : DbResult r L format fuel rounds) (results : Results)
      → AreBuilt results
      → AreBuilt (erase a (put a x results))
  AreBuilt-erase-put a x results h b d e =
      ground (arith, find-erase a b (put a x results), find-put a b x results, h b d)

  -- The clean-up that the deletion of the result at `a` makes.
  abbrev pub cleaned : ℕ → Session → Outcome (Unit {0}) × Connection L
  cleaned a w =
      reset_current_result L fuel (is_complete r L format fuel rounds w.results) (some a)
        w.connection

  abbrev pub delete : ℕ → Session → Outcome (Unit {0}) × Session
  delete = delete_result r L format fuel rounds

  -- The deletion of the current result, by what its clean-up comes to.
  deleted :
      (a : ℕ) (w : Session) (x : Outcome (Unit {0}) × Connection L)
      → AreBuilt (erase a w.results)
      → is_some w.connection.conn ≡ w.held
      → Assigned L none w.connection x
      → NotStop x.0
      → Post IsSound (
        caught r L format fuel rounds x.0,
        record w { connection = x.1; results = erase a w.results },
      )
  unfolding Post NotStop is_live
  deleted a w x b c (assigned t e h) n = record {
    current_live = rw e refl;
    built = b;
    there = h ∙ c;
  }
  deleted a w x b c (kept message t h) n = absurd n
  deleted a w x b c (lost t) n = tt

  abbrev pub active : ℕ → Session → Bool
  active = is_active r L format fuel rounds

  pub delete-active :
      (a : ℕ) (w : Session)
      → active a w ≡ true
      → delete a w ≡ (
        caught r L format fuel rounds (cleaned a w).0,
        record w { connection = (cleaned a w).1; results = erase a w.results },
      )
  unfolding delete_result
  delete-active a w e = rw e

  delete-inactive :
      (a : ℕ) (w : Session)
      → active a w ≡ false
      → delete a w ≡ (ok tt, record w { results = erase a w.results })
  unfolding delete_result
  delete-inactive a w e = rw e

  active-current : (a : ℕ) (w : Session) → active a w ≡ true → w.connection.current_result ≡ some a
  unfolding is_active is_current_result
  active-current a w e = same_result-eq w.connection.current_result (some a) e

  pub current-active :
      (a : ℕ) (w : Session)
      → w.connection.current_result ≡ some a
      → (active a w ≡ true) × (same_result (some a) w.connection.current_result ≡ true)
  unfolding is_active is_current_result same_result
  current-active a w e = rw e (eq_self a, eq_self a)

  -- The deletion of the current result.
  pub delete-current :
      (a : ℕ) (w : Session)
      → w.connection.current_result ≡ some a
      → AreBuilt (erase a w.results)
      → is_some w.connection.conn ≡ w.held
      → NotStop (cleaned a w).0
      → Post IsSound (delete a w)
  delete-current a w e b c n =
      let (act, same) = current-active a w e in
      subst (Post IsSound) (sym (delete-active a w act)) (
        deleted a w (cleaned a w) b c
          (reset_current_result-Assigned L fuel (is_complete r L format fuel rounds w.results)
            (some a) w.connection same)
          n)

  -- The deletion of any result of a sound session.
  pub delete-IsSound :
      (a : ℕ) (w : Session)
      → IsSound w
      → (active a w ≡ true → NotStop (cleaned a w).0)
      → Post IsSound (delete a w)
  unfolding Post is_active is_current_result
  delete-IsSound a w v n = elim (Bool-cases (active a w)) [
    | inl e ↦
        delete-current a w (active-current a w e) (AreBuilt-erase a w.results v.built) v.there (n e)
    | inr e ↦ subst (Post IsSound) (sym (delete-inactive a w e)) (record {
      current_live = live-erase w.connection.current_result a w.results e v.current_live;
      built = AreBuilt-erase a w.results v.built;
      there = v.there;
    })
  ]
