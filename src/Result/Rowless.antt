-- ===== src/Result/Rowless.antt =====
-- An immediate query of src/PqResultImpl.cpp that returns no row: its columns stay unknown.
use Prim.Native.String.{String}
use rpostgres.Prelude.{ℕ, suc, ◌+◌, ◌≡◌, refl, sym, ◌∙◌, ap, subst, Bool, true, List, []}
use rpostgres.Prelude.Int.{ℤ, negsuc}
use rpostgres.Prelude.Outcome.{ok}
use rpostgres.Runtime.{Runtime, Bytes}
use rpostgres.Libpq.{Libpq}
use rpostgres.Cache.{new_cache}
use rpostgres.Frame.{new_frame, get_data, vectors_of}
use rpostgres.Result.{Impl}
use rpostgres.Result.Run.{new_impl}
use rpostgres.Result.Fetch.{Fetched, add_oids, fetch_loop, fetch_rows, fetch}
use rpostgres.Result.Delivery.{Coming, Holds}
use rpostgres.Result.Arrivals.{step-Coming}
use rpostgres.Result.Opening.{immediate_terms}
use rpostgres.Result.Immediate.{IsSent, waiting, new_impl-step}

module _ (r : Runtime) (L : Libpq) (format : String → List ℤ → String) (fuel rounds : ℕ) where
  open r use {Double, atoi}
  open L use {Conn}

  -- A query that is complete and has no columns, written out.
  abbrev ended : Impl L → Impl L
  ended s = record s { complete = true; ready = true; cache = new_cache }

  is-ended : (s : Impl L) → s.complete ≡ true → s.ready ≡ true → s.cache ≡ new_cache → ended s ≡ s
  is-ended s c e k =
      ap (λ b. record s { complete = b; ready = true; cache = new_cache }) (sym c)
      ∙ ap (λ b. record s { ready = b; cache = new_cache }) (sym e)
      ∙ ap (λ cache. record s { cache = cache }) (sym k)

  -- The data frame without columns and rows.
  abbrev pub nothing : Impl L → Fetched Double
  nothing s =
      add_oids r L format (record { vectors = []; names = []; row_count = 0; conflicts = [] }) s

  fetch-ended :
      (left : ℕ) (s : Impl L)
      → fetch r L format fuel rounds (suc left) (negsuc 0) (ended s) ≡ (
        ok (nothing (record (ended s) { warnings = s.warnings + 1 })),
        record (ended s) { warnings = s.warnings + 1 },
      )
  unfolding fetch fetch_rows fetch_loop new_frame get_data vectors_of new_cache
  fetch-ended left s = refl

  -- Where libpq sends an immediate query and returns no row for it, whatever columns its results have,
  -- but only their ends within `rounds` results: the constructor succeeds, and a fetch of all rows,
  -- with fuel for one, returns a data frame without columns and names, with a warning.
  pub new_impl_immediate-nothing :
      (checks : Bool) (sql : Bytes) (c : Conn) (left : ℕ) (a : IsSent L fuel rounds checks sql c)
      → Coming L fuel rounds
          (immediate_terms L fuel rounds checks new_cache)
          true
          rounds
          0
          []
          a.sent
      → (s t : Impl L) × (d : Fetched Double) × (new_impl L format atoi fuel rounds c checks sql
            true
          ≡ (ok tt, s))
        × (fetch r L format fuel rounds (suc left) (negsuc 0) s ≡ (ok d, t))
        × (d.frame.vectors ≡ [])
        × (d.frame.names ≡ [])
        × (d.frame.row_count ≡ 0)
        × (t.complete ≡ true)
        × (t.warnings ≡ s.warnings + 1)
  unfolding Holds add_oids
  new_impl_immediate-nothing checks sql c left a coming =
      let w = waiting L fuel rounds checks sql c a.sent in
      let o =
        step-Coming L fuel format atoi rounds (immediate_terms L fuel rounds checks new_cache) w
          coming in
      let s = o.there in
      let t : Impl L = record (ended s) { warnings = s.warnings + 1 } in
      (
        s,
        t,
        nothing t,
        new_impl-step L fuel rounds checks sql c format atoi a ∙ o.ends,
        subst (λ v. fetch r L format fuel rounds (suc left) (negsuc 0) v ≡ (ok (nothing t), t))
            (is-ended s o.holds o.kept.ready o.kept.cache) (fetch-ended left s),
        refl,
        refl,
        refl,
        refl,
        refl,
      )
