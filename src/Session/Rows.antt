-- ===== src/Session/Rows.antt =====
-- What R gets through src/result.cpp from a result that has a table's rows still to give.
use Prim.Native.String.{String}
use rpostgres.Prelude.{ℕ, ◌<◌, ◌≡◌, ◌∙◌, ap, true, false, some, List, ◌∷◌, map}
use rpostgres.Prelude.Int.{ℤ, pos, ◌==ℤ◌}
use rpostgres.Prelude.Outcome.{ok}
use rpostgres.Runtime.{Runtime}
use rpostgres.Libpq.{Libpq}
use rpostgres.Frame.Rows.{Typed, HaveRows}
use rpostgres.Frame.Slices.{first_values}
use rpostgres.Result.{Impl}
use rpostgres.Result.Fetch.{Fetched, fetch}
use rpostgres.Result.Tables.{rows_taken, HasTable, fetch-Fetches}
use rpostgres.Session.{find, put, is_active}
use rpostgres.Session.Results.{
  on_impl, on_impl_with, worked, through, with_found, with_impl, fetch_active, result_fetch,
}
use rpostgres.Session.Sound.{Session}
use rpostgres.Session.Hidden.{if_true}

module _ (r : Runtime) (L : Libpq) (format : String → List ℤ → String) (fuel rounds : ℕ) where
  open r use {Double}
  open L use {Conn}

  abbrev S : Type 0
  S = Session r L format fuel rounds

  -- The session after work on the result at `a` that leaves it as `impl`.
  abbrev pub with_result : ℕ → Impl L → S → S
  with_result a impl w = record w {
    connection = record w.connection { conn = some impl.conn };
    results = put a (record { impl = some impl }) w.results;
  }

  pub fetch-open :
      (a left : ℕ) (n_max : ℤ) (w : S) (c : Conn) (impl impl' : Impl L) (d : Fetched Double)
      → w.connection.conn ≡ some c
      → find a w.results ≡ some (record { impl = some impl })
      → is_active r L format fuel rounds a w ≡ true
      → fetch r L format fuel rounds left n_max (record impl { conn = c }) ≡ (ok d, impl')
      → result_fetch r L format fuel rounds a left n_max w ≡ (ok d, with_result a impl' w)
  unfolding result_fetch with_impl with_found through fetch_active on_impl on_impl_with worked
  fetch-open a left n_max w c impl impl' d e f act works =
      let step = λ (L' : Libpq). fetch r L' format fuel rounds left n_max in
      let work = fetch_active r L format fuel rounds a left n_max in
      ap (with_found r L format fuel rounds work w) f
      ∙ (if_true (is_active r L format fuel rounds a w) _ act
          ∙ (ap (on_impl_with r L format fuel rounds step a impl w) e
              ∙ ap (worked r L format fuel rounds a w) works))

  -- Where the result at `a` is the current one, and has on the session's connection a table of
  -- columns of known types and `n` rows still to give, `result_fetch` of a number of rows that is not
  -- 0, with fuel for more than `n` rows, returns the first of them as a data frame: as many as were asked
  -- for, or all if fewer are left or the number is negative; the session has the changed result, and
  -- the connection that it left.
  pub result_fetch-vectors :
      (col : Typed r) (cols : List (Typed r)) (n : ℕ) (have : HaveRows r n (col ∷ cols))
      (a left : ℕ) (n_max : ℤ) (w : S) (c : Conn) (impl : Impl L)
      → n < left
      → (n_max ==ℤ pos 0) ≡ false
      → w.connection.conn ≡ some c
      → find a w.results ≡ some (record { impl = some impl })
      → is_active r L format fuel rounds a w ≡ true
      → HasTable r L format fuel rounds col cols n have (record impl { conn = c })
      → (d : Fetched Double) × (impl' : Impl L) × (result_fetch r L format fuel rounds a left n_max
            w
          ≡ (ok d, with_result a impl' w))
        × (d.frame.vectors ≡ map (first_values r (rows_taken n_max n)) (col ∷ cols))
        × (d.frame.row_count ≡ rows_taken n_max n)
  result_fetch-vectors col cols n have a left n_max w c impl h z e f act has =
      let t =
        fetch-Fetches r L format fuel rounds col cols n have left n_max (record impl { conn = c }) h
          z has in
      (
        t.fetched,
        t.after,
        fetch-open a left n_max w c impl t.after t.fetched e f act t.returns,
        t.vectors,
        t.row_count,
      )
