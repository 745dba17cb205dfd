-- ===== src/Session/Errors.antt =====
-- A query that fails in src/result.cpp, and the session after it.
use Prim.Native.String.{String}
use rpostgres.Prelude.{
  ℕ, ◌<◌, ◌≡◌, refl, sym, ◌∙◌, ap, subst, Bool, true, false, none, some, List, ◌==◌, arith,
  if◌then◌else◌,
}
use rpostgres.Prelude.Int.{ℤ}
use rpostgres.Prelude.Outcome.{Outcome, ok, stop}
use rpostgres.Prelude.Step.{throw, after_ok}
use rpostgres.Runtime.{Runtime, Bytes}
use rpostgres.Libpq.{Libpq}
use rpostgres.Connection.{
  Connection, same_result, is_open, finish_query, cleanup_query, reset_current_result,
}
use rpostgres.Connection.Current.{Pending, finish_query-Pending}
use rpostgres.Result.{Impl}
use rpostgres.Result.Run.{new_impl}
use rpostgres.Session.{
  DbResult, find, put, erase, complete, is_complete, is_live, delete_result, caught, constructed,
  result_create,
}
use rpostgres.Session.Results.{result_release}
use rpostgres.Session.Sound.{
  Session, find-put, find-erase, eq_self, current-active, delete-active, cleaned,
}
use rpostgres.Session.Create.{complete-unbuilt}
use rpostgres.Session.Hidden.{if_true}
use rpostgres.Session.Queries.{IsFree, freed, taken, freed-IsFree, create-freed}

not_open : (complete : ℕ → Bool) (a : ℕ) → complete a ≡ true → is_open complete (some a) ≡ false
unfolding is_open
not_open complete a e = rw e refl

module _ (r : Runtime) (L : Libpq) (format : String → List ℤ → String) (fuel rounds : ℕ) where
  open r use {atoi}
  open L use {Conn}

  abbrev S : Type 0
  S = Session r L format fuel rounds

  -- A session that has lost its current result, at `a`, and has this connection.
  abbrev without : ℕ → Conn → S → S
  without a c w = record w {
    connection = record w.connection { conn = some c; current_result = none };
    results = erase a w.results;
  }

  abbrev with_current : ℕ → Conn → S → S
  with_current a c w = record w {
    connection = record w.connection { conn = some c; current_result = some a };
  }

  cleaned_done :
      (a : ℕ) (c c' : Conn) (w : S)
      → is_complete r L format fuel rounds w.results a ≡ true
      → finish_query L fuel c ≡ (ok tt, c')
      → cleaned r L format fuel rounds a (with_current a c w) ≡ (ok tt, (without a c' w).connection)
  unfolding reset_current_result cleanup_query same_result
  cleaned_done a c c' w e f =
      rw (eq_self a, not_open (is_complete r L format fuel rounds w.results) a e, f) refl

  -- The deletion of the current result, once it is complete: what is pending is read.
  delete_done :
      (a : ℕ) (c c' : Conn) (w : S)
      → is_complete r L format fuel rounds w.results a ≡ true
      → finish_query L fuel c ≡ (ok tt, c')
      → delete_result r L format fuel rounds a (with_current a c w) ≡ (ok tt, without a c' w)
  delete_done a c c' w e f =
      let t = with_current a c w in
      delete-active r L format fuel rounds a t (current-active r L format fuel rounds a t refl).0
      ∙ ap
          (λ (x : Outcome (Unit {0}) × Connection L). (
            caught r L format fuel rounds x.0,
            record t { connection = x.1; results = erase a t.results },
          ))
          (cleaned_done a c c' w e f)

  -- The end of PqResult's constructor where its body throws.
  constructed-stop :
      (a : ℕ) (c' : Conn) (w : S) (message : String) (impl : Impl L)
      → finish_query L fuel impl.conn ≡ (ok tt, c')
      → constructed r L format fuel rounds a (taken r L format fuel rounds a w) (stop message, impl)
        ≡ (
          stop message,
          without a c' (record w { results = put a (record { impl = none }) w.results }),
        )
  unfolding constructed
  constructed-stop a c' w message impl f =
      let t : S = record w { results = put a (record { impl = none }) w.results } in
      after_ok (delete_result r L format fuel rounds a (with_current a impl.conn t)) tt
        (without a c' t) (λ _. throw message)
        (delete_done a impl.conn c' t (complete-unbuilt r L format fuel rounds a w.results) f)

  -- Where a session's connection is open and not in use, libpq's results come one by one to an end, and
  -- the constructor of PqResultImpl throws an error, whatever its reason, with fewer results pending
  -- than fuel: `result_create` throws the same error, and leaves the connection without a current
  -- result and with nothing pending, no result at the new address, and the other results as they were.
  pub result_create-throws :
      (pending : Conn → ℕ) (on_null : Outcome (Unit {0})) (a : ℕ) (sql : Bytes) (immediate : Bool)
      (c : Conn) (w : S) (message : String) (impl : Impl L)
      → Pending L pending
      → IsFree r L format fuel rounds c w
      → new_impl L format atoi fuel rounds c w.connection.check_interrupts sql immediate
        ≡ (stop message, impl)
      → pending impl.conn < fuel
      → (w' : S) × (c' : Conn) × (result_create r L format fuel rounds on_null a sql immediate w
          ≡ (stop message, w'))
        × (w'.connection.conn ≡ some c')
        × (pending c' ≡ 0)
        × (w'.connection.current_result ≡ none)
        × ((b : ℕ) → find b w'.results ≡ (if b == a then none else find b w.results))
  result_create-throws pending on_null a sql immediate c w message impl p free e h =
      let (done, nothing) = finish_query-Pending L pending p fuel impl.conn h in
      let c' = (finish_query L fuel impl.conn).1 in
      let t = freed r L format fuel rounds c w in
      let w' = without a c' (record t { results = put a (record { impl = none }) t.results }) in
      (
        w',
        c',
        subst
            (λ v.
              result_create r L format fuel rounds on_null a sql immediate v ≡ (stop message, w'))
            (freed-IsFree r L format fuel rounds c w free)
            (create-freed r L format fuel rounds on_null c a sql immediate w (stop message, impl)
                free.up e
              ∙ constructed-stop a c' t message impl (ap (λ o. (o, c')) done)),
        refl,
        nothing,
        refl,
        λ b. ground (
          arith,
          find-erase a b (put a (record { impl = none }) w.results),
          find-put a b (record { impl = none }) w.results,
        ),
      )

  in_use :
      (a : ℕ) (c : Conn) (w : S)
      → w.connection.conn ≡ some c
      → w.connection.current_result ≡ some a
      → with_current a c w ≡ w
  in_use a c w e f =
      ap (λ o. record w { connection = record w.connection { conn = o; current_result = some a } })
        (sym e)
      ∙ ap (λ q. record w { connection = record w.connection { current_result = q } }) (sym f)

  found :
      (a : ℕ) (d : DbResult r L format fuel rounds) (w : S)
      → find a w.results ≡ some d
      → complete r L format fuel rounds d ≡ true
      → (is_live r L format fuel rounds (some a) w.results ≡ true)
        × (is_complete r L format fuel rounds w.results a ≡ true)
  unfolding is_live is_complete
  found a d w live done = ground (arith, live, done)

  -- Where libpq's results come one by one to an end, and the current result is a live one that is
  -- complete, with fewer results pending on its connection than fuel: `result_release` succeeds, and
  -- leaves the connection without a current result and with nothing pending, no result at that
  -- address, and the other results as they were.
  pub result_release-complete :
      (pending : Conn → ℕ) (a : ℕ) (c : Conn) (w : S) (d : DbResult r L format fuel rounds)
      → Pending L pending
      → w.connection.conn ≡ some c
      → w.connection.current_result ≡ some a
      → find a w.results ≡ some d
      → complete r L format fuel rounds d ≡ true
      → pending c < fuel
      → (w' : S) × (c' : Conn) × (result_release r L format fuel rounds a w ≡ (ok tt, w'))
        × (w'.connection.conn ≡ some c')
        × (pending c' ≡ 0)
        × (w'.connection.current_result ≡ none)
        × ((b : ℕ) → find b w'.results ≡ (if b == a then none else find b w.results))
  unfolding result_release
  result_release-complete pending a c w d p e f live done h =
      let (read, nothing) = finish_query-Pending L pending p fuel c h in
      let c' = (finish_query L fuel c).1 in
      (
        without a c' w,
        c',
        if_true (is_live r L format fuel rounds (some a) w.results) (ok tt, w)
              (found a d w live done).0
            ∙ subst (λ v. delete_result r L format fuel rounds a v ≡ (ok tt, without a c' w))
                (in_use a c w e f)
                (delete_done a c c' w (found a d w live done).1 (ap (λ o. (o, c')) read)),
        refl,
        nothing,
        refl,
        λ b. find-erase a b w.results,
      )
