-- ===== src/Result/Immediate.antt =====
-- An immediate query of src/PqResultImpl.cpp from its constructor to the data frame of its rows.
use Prim.Native.String.{String}
use rpostgres.Prelude.{ℕ, ◌<◌, ◌≡◌, refl, ◌∙◌, Bool, true, false, Option, List, [], ◌∷◌, arith, map}
use rpostgres.Prelude.Int.{ℤ, negsuc}
use rpostgres.Prelude.Outcome.{ok}
use rpostgres.Prelude.Step.{after_ok}
use rpostgres.Runtime.{Runtime, Bytes}
use rpostgres.Libpq.{Libpq, PgResult}
use rpostgres.Cache.{new_cache, get_column_types, is_empty}
use rpostgres.Frame.Rows.{Typed, HaveRows, rows_of}
use rpostgres.Result.{Impl, row_params, bind_row, init}
use rpostgres.Result.Run.{bind, bind_all, after_bind, step, prepare_query, new_impl, group_count}
use rpostgres.Result.Fetch.{Fetched, fetch}
use rpostgres.Result.Guards.{bind-Accepts}
use rpostgres.Result.Sends.{send_row-immediate, finish-not, bind_group-row, bind_row-group}
use rpostgres.Result.Bound.{Bound}
use rpostgres.Result.Start.{fresh, described_cache}
use rpostgres.Result.Opening.{Opens, step-Opens}
use rpostgres.Result.Query.{IsWhole, fetch-Bound}

module _ (L : Libpq) (fuel most : ℕ) (checks : Bool) (sql : Bytes) (c : L.Conn) where
  open L use {Conn, send_query, set_single_row_mode}

  -- libpq takes an immediate query.
  pub record IsSent : Type 0 where
    pub put : Conn
    pub sent : Conn
    pub sends : send_query sql c ≡ (true, put)
    pub by_rows : set_single_row_mode put ≡ (true, sent)

  -- What libpq documents of an immediate query that returns rows: it is sent, and its results come up
  -- to the first row, which has columns.
  pub record Runs (spec : PgResult) (rows : List (List (Option Bytes))) : Type 0 where
    pub is_sent : IsSent
    pub has_columns : is_empty spec.names ≡ false
    pub opens : Opens L fuel most checks spec most 0 rows is_sent.sent

  -- The query before the constructor's body.
  abbrev unsent : Impl L
  unsent = record (fresh L checks c sql) { immediate = true }

  -- The query before the first result.
  abbrev pub waiting : Conn → Impl L
  waiting sent = record unsent { conn = sent; ready = true; groups = 1 }

  module _ (format : String → List ℤ → String) (atoi : Bytes → ℤ) (a : IsSent) where
    bind-step :
        bind L format atoi fuel most [] unsent ≡ step L format atoi fuel most (waiting a.sent)
    unfolding bind_all after_bind init group_count new_cache row_params
    bind-step =
        let s0 : Impl L = record unsent { groups = 1 } in
        let s1 : Impl L = record s0 { conn = a.sent } in
        let asked : bind_row L fuel s0 ≡ (ok true, s1) =
          bind_row-group L fuel s0 (ok true, s1) (omega arith)
            (bind_group-row L fuel s0 [] c a.put a.sent (finish-not L fuel s0 refl refl) refl
              (send_row-immediate L s0 [] a.put refl a.sends) a.by_rows) in
        bind-Accepts L format atoi fuel most [] unsent
          (record { as_many = refl; none_if_immediate = λ i. refl; once = λ _. refl })
        ∙ after_ok (bind_row L fuel s0) true s1 (after_bind L format atoi fuel most) asked

    -- The constructor of an immediate query goes to its first row.
    pub new_impl-step :
        new_impl L format atoi fuel most c checks sql true
        ≡ step L format atoi fuel most (waiting a.sent)
    unfolding new_impl prepare_query new_cache
    new_impl-step = bind-step

  -- The query under the columns of its first row.
  abbrev pub under_columns : PgResult → Impl L
  under_columns spec = record unsent { cache = described_cache spec }

  -- The constructor of an immediate query that returns rows leaves it with them still to give.
  pub new_impl-Runs :
      (format : String → List ℤ → String) (atoi : Bytes → ℤ) (spec : PgResult)
      (rows : List (List (Option Bytes))) (a : Runs spec rows)
      → (t : Impl L) × (new_impl L format atoi fuel most c checks sql true ≡ (ok tt, t))
        × Bound L fuel most rows (under_columns spec) t
  new_impl-Runs format atoi spec rows a =
      let o =
        step-Opens L fuel most checks format atoi spec a.has_columns (waiting a.is_sent.sent)
          a.opens in
      (
        o.there,
        new_impl-step format atoi a.is_sent ∙ o.ends,
        record { holds = o.holds; ready = o.ready; cache = o.cache; nrows = o.nrows },
      )

module _ (r : Runtime) (L : Libpq) (format : String → List ℤ → String) (fuel rounds : ℕ) where
  open r use {Double, atoi}
  open L use {Conn}

  -- Where libpq sends an immediate query, which may have several statements, those without rows
  -- first, and returns a table's `n` rows and then the end, each within `rounds` results and as many
  -- waits as there is fuel for, and the first row has columns of the table's types: the constructor
  -- succeeds, and a fetch of all rows, with fuel for more than `n`, returns the data frame of the
  -- table, with the names of the first row, and leaves the query complete with `n` rows counted.
  pub new_impl_immediate-fetch :
      (col : Typed r) (cols : List (Typed r)) (n : ℕ) (have : HaveRows r n (col ∷ cols))
      (checks : Bool) (spec : PgResult) (sql : Bytes) (c : Conn) (left : ℕ)
      → n < left
      → get_column_types spec.oids ≡ map (λ (column : Typed r). column.dt) (col ∷ cols)
      → Runs L fuel rounds checks sql c spec (rows_of r n (col ∷ cols))
      → (s t : Impl L) × (d : Fetched Double) × (new_impl L format atoi fuel rounds c checks sql
            true
          ≡ (ok tt, s))
        × (fetch r L format fuel rounds left (negsuc 0) s ≡ (ok d, t))
        × IsWhole r L format fuel rounds (col ∷ cols) n spec.names d t
  new_impl_immediate-fetch col cols n have checks spec sql c left h types a =
      let rows = rows_of r n (col ∷ cols) in
      let (s, made, b) = new_impl-Runs L fuel rounds checks sql c format atoi spec rows a in
      let p = under_columns L fuel rounds checks sql c spec in
      let (t, d, got, whole) =
        fetch-Bound r L format fuel rounds col cols n have left p s h types b in
      (s, t, d, made, got, whole)
