-- ===== src/Result/Query.antt =====
-- A query of src/PqResultImpl.cpp from its constructor to the data frame of all its rows.
use Prim.Native.String.{String}
use rpostgres.Prelude.{
  ℕ, ◌<◌, ◌==◌, ◌≡◌, refl, ◌∙◌, ap, Bool, true, false, List, [], ◌∷◌, arith, map, take-all,
}
use rpostgres.Prelude.Int.{ℤ, negsuc}
use rpostgres.Prelude.Outcome.{ok}
use rpostgres.Runtime.{Runtime, Bytes}
use rpostgres.Libpq.{Libpq, PgResult}
use rpostgres.Cache.{get_column_types}
use rpostgres.Frame.Rows.{Typed, HaveRows, rows_of}
use rpostgres.Frame.Slices.{vector, first_values}
use rpostgres.Result.{ParamColumn, Impl}
use rpostgres.Result.Run.{bind, new_impl}
use rpostgres.Result.Fetch.{Fetched, fetch}
use rpostgres.Result.Tables.{fetch-Fetches}
use rpostgres.Result.Progress.{Took-complete}
use rpostgres.Result.Start.{Answers}
use rpostgres.Result.Begun.{ready_to_bind, new_impl-Bound}
use rpostgres.Result.Bound.{Asks, Bound, bind-Bound}

eq_same : (n : ℕ) → (n == n) ≡ true
eq_same n = ground arith

module _ (r : Runtime) (L : Libpq) (format : String → List ℤ → String) (fuel rounds : ℕ) where
  open r use {Double, atoi}
  open L use {Conn}

  -- All the values of a column are its vector.
  all_values :
      (n : ℕ) (cols : List (Typed r))
      → HaveRows r n cols
      → map (first_values r n) cols ≡ map (vector r) cols
  unfolding HaveRows
  all_values n [] h = refl
  all_values n (col ∷ cols) h =
      ap (λ vs. (col.dt, vs) ∷ map (first_values r n) cols)
        (take-all n col.vals (omega (arith, h.0.1)))
      ∙ ap (λ vs. vector r col ∷ vs) (all_values n cols h.1)

  -- A query after a fetch of all of a table's `n` rows, whose data frame has these names.
  pub record IsWhole (cols : List (Typed r)) (n : ℕ) (names : List Bytes) (d : Fetched Double)
      (t : Impl L) : Type 0 where
    pub vectors : d.frame.vectors ≡ map (vector r) cols
    pub row_count : d.frame.row_count ≡ n
    pub names_are : d.frame.names ≡ names
    pub complete : t.complete ≡ true
    pub counted : t.nrows ≡ n

  module _ (col : Typed r) (cols : List (Typed r)) (n : ℕ) (have : HaveRows r n (col ∷ cols)) where
    -- A fetch of all rows after a query is bound.
    pub fetch-Bound :
        (left : ℕ) (s t : Impl L)
        → n < left
        → s.cache.types ≡ map (λ (column : Typed r). column.dt) (col ∷ cols)
        → Bound L fuel rounds (rows_of r n (col ∷ cols)) s t
        → (u : Impl L) × (d : Fetched Double) × (fetch r L format fuel rounds left (negsuc 0) t
            ≡ (ok d, u))
          × IsWhole (col ∷ cols) n s.cache.names d u
    fetch-Bound left s t h types b =
        let f =
          fetch-Fetches r L format fuel rounds col cols n have left (negsuc 0) t h refl (record {
            ready = b.ready;
            types = ap (λ k. k.types) b.cache ∙ types;
            rows = b.holds;
          }) in
        (
          f.after,
          f.fetched,
          f.returns,
          record {
            vectors = f.vectors ∙ all_values n (col ∷ cols) have;
            row_count = f.row_count;
            names_are = f.names ∙ ap (λ k. k.names) b.cache;
            complete =
                Took-complete r L format fuel rounds col cols n have n t f.after (omega arith)
                  f.took
                ∙ eq_same n;
            counted = omega (arith, f.took.counted, b.nrows);
          },
        )

    -- Where libpq prepares a query without parameters, describes columns of these types, sends the
    -- query, and returns the table's `n` rows one by one and then the end, and each of these comes
    -- within `rounds` results and as many waits as there is fuel for, whether or not interrupts are
    -- checked: the constructor succeeds, and a fetch of all rows, with fuel for more than `n`, returns
    -- the data frame of the table, with the names described, and leaves the query complete with `n`
    -- rows counted.
    pub new_impl-fetch :
        (checks : Bool) (spec : PgResult) (sql : Bytes) (c : Conn) (left : ℕ)
        → n < left
        → get_column_types spec.oids ≡ map (λ (column : Typed r). column.dt) (col ∷ cols)
        → Answers L fuel rounds checks spec (rows_of r n (col ∷ cols)) sql c
        → (s t : Impl L) × (d : Fetched Double) × (new_impl L format atoi fuel rounds c checks sql
              false
            ≡ (ok tt, s))
          × (fetch r L format fuel rounds left (negsuc 0) s ≡ (ok d, t))
          × IsWhole (col ∷ cols) n spec.names d t
    new_impl-fetch checks spec sql c left h types a =
        let rows = rows_of r n (col ∷ cols) in
        let (s, made, b) = new_impl-Bound L format atoi fuel rounds checks spec sql c rows a in
        let p = ready_to_bind L format atoi fuel rounds checks spec sql c rows a in
        let (t, d, got, whole) = fetch-Bound left p s h types b in (s, t, d, made, got, whole)

    -- Where a prepared query, whose columns have these types, has not been bound, or its earlier
    -- results are read to the end, and libpq takes its parameters row by row, and returns for them
    -- together the table's `n` rows, and then the end, each within `rounds` results: `bind` succeeds,
    -- and a fetch of all rows, with fuel for more than `n`, returns the data frame of the table, of
    -- the rows for all rows of parameters one after the other, and leaves the query complete with `n`
    -- rows counted.
    pub bind-fetch :
        (params : List ParamColumn) (s : Impl L) (left : ℕ)
        → n < left
        → s.cache.types ≡ map (λ (column : Typed r). column.dt) (col ∷ cols)
        → Asks L fuel rounds (rows_of r n (col ∷ cols)) params s
        → (t u : Impl L) × (d : Fetched Double) × (bind L format atoi fuel rounds params s
            ≡ (ok tt, t))
          × (fetch r L format fuel rounds left (negsuc 0) t ≡ (ok d, u))
          × IsWhole (col ∷ cols) n s.cache.names d u
    bind-fetch params s left h types a =
        let (t, made, b) =
          bind-Bound L fuel format atoi rounds params s (rows_of r n (col ∷ cols)) a in
        let (u, d, got, whole) = fetch-Bound left s t h types b in (t, u, d, made, got, whole)
