-- ===== src/Session/Closed.antt =====
-- A result of src/result.cpp after src/connection.cpp has closed its connection.
use Prim.Native.String.{String}
use rpostgres.Prelude.{
  ℕ, ◌+◌, ◌<◌, ◌≡◌, refl, ◌∙◌, ap, Bool, true, false, List, none, some, arith, if◌then◌else◌,
}
use rpostgres.Prelude.Int.{ℤ, pos, ◌==ℤ◌}
use rpostgres.Prelude.Outcome.{Outcome, ok, undefined}
use rpostgres.Prelude.Step.{when, after_ok}
use rpostgres.Runtime.{Runtime}
use rpostgres.Libpq.{Libpq}
use rpostgres.Libpq.Traced.{traced}
use rpostgres.Frame.{Frame, set_row}
use rpostgres.Connection.{warn, has_query, disconnect}
use rpostgres.Result.{Impl}
use rpostgres.Result.Fetch.{current_row, columns_of, fetch}
use rpostgres.Result.Uses.{UsedBy}
use rpostgres.Result.Uses.Rows.{fetch-uses}
use rpostgres.Session.{find, on_connection, DbResult, is_active, is_live}
use rpostgres.Session.Results.{
  on_impl, on_impl_with, worked_closed, through, with_found, with_impl, on_traced, fetch_active,
  result_fetch, result_valid,
}
use rpostgres.Session.Calls.{connection_valid, connection_release}
use rpostgres.Session.Hidden.{if_true}
use rpostgres.Session.Sound.{Session}

module _ (r : Runtime) (L : Libpq) (format : String → List ℤ → String) (fuel rounds : ℕ) where
  open r use {Double}

  abbrev S : Type 0
  S = Session r L format fuel rounds

  -- The session after the connection is closed, with a warning if there was a result in use.
  abbrev closed : S → S
  closed w = record w {
    connection = record w.connection {
      conn = none;
      warnings = w.connection.warnings + (if has_query L w.connection then 1 else 0);
    };
    held = false;
  }

  when-warn :
      (w : S) (b : Bool)
      → when b (on_connection r L format fuel rounds (warn L 1)) w ≡ (
        ok tt,
        record w {
          connection = record w.connection {
            warnings = w.connection.warnings + (if b then 1 else 0);
          };
        },
      )
  when-warn w true = refl
  when-warn w false = ground arith

  connection_release-eq :
      (w : S) → w.held ≡ true → connection_release r L format fuel rounds w ≡ (ok tt, closed w)
  unfolding connection_release connection_valid disconnect
  connection_release-eq w held =
      if_true w.held _ held ∙ after_ok _ tt _ _ (when-warn w (has_query L w.connection))

  worked_closed-used :
      {A : Type 0} (a : ℕ) (w : S) (x : Outcome A × Impl (traced L))
      → UsedBy L x.1
      → worked_closed r L format fuel rounds a w x ≡ (undefined, w)
  unfolding worked_closed
  worked_closed-used a w (o, impl) u = if_true impl.conn.used _ u

  fetch-closed :
      (a left : ℕ) (n_max : ℤ) (w : S) (impl : Impl L)
      → w.connection.conn ≡ none
      → find a w.results ≡ some (record { impl = some impl })
      → is_active r L format fuel rounds a w ≡ true
      → UsedBy L
          (fetch r
            (traced L)
            format
            fuel
            rounds
            left
            n_max
            (on_traced r L format fuel rounds impl)).1
      → result_fetch r L format fuel rounds a left n_max w ≡ (undefined, w)
  unfolding result_fetch with_impl with_found through fetch_active on_impl on_impl_with
  fetch-closed a left n_max w impl e f act u =
      let step = λ (L' : Libpq). fetch r L' format fuel rounds left n_max in
      let work = fetch_active r L format fuel rounds a left n_max in
      ap (with_found r L format fuel rounds work w) f
      ∙ (if_true (is_active r L format fuel rounds a w) _ act
          ∙ (ap (on_impl_with r L format fuel rounds step a impl w) e
              ∙ worked_closed-used a w (step (traced L) (on_traced r L format fuel rounds impl)) u))

  valid :
      (a : ℕ) (w : S) (d : DbResult r L format fuel rounds)
      → find a w.results ≡ some d
      → is_active r L format fuel rounds a w ≡ true
      → result_valid r L format fuel rounds a w ≡ true
  unfolding result_valid is_live
  valid a w d f act = ground (arith, f, act)

  -- To close a connection with a result in use succeeds, and leaves that result the current one. If
  -- the result is ready and has rows to come, and its current row is one that can be set, then to
  -- fetch any rows of it, with fuel for one at least, passes the PGconn that was finished to libpq,
  -- and so is undefined.
  pub close-fetch :
      (a left : ℕ) (n_max : ℤ) (w : S) (impl : Impl L) (first : Frame Double)
      → 0 < rounds
      → 0 < left
      → w.held ≡ true
      → find a w.results ≡ some (record { impl = some impl })
      → is_active r L format fuel rounds a w ≡ true
      → impl.ready ≡ true
      → impl.complete ≡ false
      → (n_max ==ℤ pos 0) ≡ false
      → set_row r (columns_of r L format impl n_max) (current_row impl.res) ≡ ok first
      → ((connection_release r L format fuel rounds w).0 ≡ ok tt)
        × ((result_valid r L format fuel rounds a (connection_release r L format fuel rounds w).1)
            ≡ true)
        × UsedBy L
            (fetch r
              (traced L)
              format
              fuel
              rounds
              left
              n_max
              (on_traced r L format fuel rounds impl)).1
        × ((result_fetch r L format fuel rounds a left n_max
              (connection_release r L format fuel rounds w).1).0
            ≡ undefined)
  unfolding is_active
  close-fetch a left n_max w impl first h z held f act ready more n e =
      let used =
        fetch-uses r L format fuel rounds left n_max first (on_traced r L format fuel rounds impl) h
          z ready more n e in
      rw (connection_release-eq w held) (
        refl,
        valid a (closed w) _ f act,
        used,
        ap (λ x. x.0) (fetch-closed a left n_max (closed w) impl refl f act used),
      )
