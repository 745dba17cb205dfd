-- ===== src/Result/Start.antt =====
-- A query without parameters from the constructor of src/PqResultImpl.cpp to its first row.
use Prim.Native.String.{String}
use rpostgres.Prelude.{
  ℕ, ◌≡◌, refl, ◌∙◌, ap, Bool, true, false, Option, none, some, List, [], arith, length,
}
use rpostgres.Prelude.Int.{ℤ, pos}
use rpostgres.Prelude.Outcome.{ok}
use rpostgres.Prelude.Step.{after_ok}
use rpostgres.Runtime.{Bytes}
use rpostgres.Libpq.{Libpq, PgResult}
use rpostgres.Cache.{Cache, new_cache, set, is_empty, get_column_types, get_column_known}
use rpostgres.Result.{Impl, check}
use rpostgres.Result.Run.{set_cache, on_description, describe, prepare_query}
use rpostgres.Result.Delivery.{Terms, Coming}

-- The cache that is made of the description.
abbrev pub described_cache : PgResult → Cache
described_cache spec = record {
  initialized = true;
  names = spec.names;
  oids = spec.oids;
  types = get_column_types spec.oids;
  known = get_column_known spec.oids;
  ncols = length spec.names;
  nparams = spec.nparams;
}

module _ (L : Libpq) where
  open L use {
    Conn, prepare, describe_prepared, send_query_prepared, set_single_row_mode, get_result,
  }

  -- What a query without parameters is run with.
  abbrev pub no_terms : Bool → PgResult → Terms
  no_terms checks spec = record {
    check_interrupts = checks;
    immediate = false;
    cache = described_cache spec;
    params = [];
    groups = 1;
  }

  -- What libpq documents of a query without parameters that goes well: it is prepared, its columns are
  -- described, it is sent, and its rows come, each one, and the end, within `most` results.
  pub record Answers (fuel most : ℕ) (checks : Bool) (spec : PgResult)
      (rows : List (List (Option Bytes))) (sql : Bytes) (c : Conn) : Type 0 where
    pub described : Conn
    pub sent : Conn
    pub prepares : (prepare sql c).0 ≡ true
    pub describes : describe_prepared (prepare sql c).1 ≡ (some spec, described)
    pub sends : (send_query_prepared [] described).0 ≡ true
    pub by_rows : set_single_row_mode (send_query_prepared [] described).1 ≡ (true, sent)
    pub no_params : spec.nparams ≡ 0
    pub has_columns : is_empty spec.names ≡ false
    pub coming : Coming L fuel most (no_terms checks spec) true most 0 rows sent

  pub set-new :
      (spec : PgResult)
      → is_empty spec.names ≡ false
      → set spec new_cache ≡ (ok tt, described_cache spec)
  unfolding set new_cache
  set-new spec h = rw h refl

  -- The query before the constructor's body.
  abbrev pub fresh : Bool → Conn → Bytes → Impl L
  fresh checks c sql = record {
    conn = c;
    check_interrupts = checks;
    warnings = 0;
    sql = sql;
    immediate = false;
    cache = new_cache;
    complete = false;
    ready = false;
    data_ready = false;
    nrows = 0;
    rows_affected = pos 0;
    params = [];
    group = 0;
    groups = 0;
    res = none;
  }

  module _ (format : String → List ℤ → String) (atoi : Bytes → ℤ) (fuel : ℕ) (checks : Bool) where
    abbrev pub prepared : Conn → Bytes → PgResult → Impl L
    prepared c sql spec = record (fresh checks c sql) { cache = described_cache spec }

    set_cache-new :
        (c : Conn) (sql : Bytes) (spec : PgResult)
        → is_empty spec.names ≡ false
        → set_cache L format atoi fuel spec (fresh checks c sql) ≡ (ok tt, prepared c sql spec)
    unfolding set_cache
    set_cache-new c sql spec h =
        ap (λ x. (x.0, record (fresh checks c sql) { cache = x.1 })) (set-new spec h)

    checked-prepare :
        (sql : Bytes) (c : Conn)
        → (prepare sql c).0 ≡ true
        → check L "Failed to prepare query" (prepare sql) (fresh checks c sql)
          ≡ (ok tt, fresh checks (prepare sql c).1 sql)
    checked-prepare sql c e = ground arith

    describe-new :
        (c c' : Conn) (sql : Bytes) (spec : PgResult)
        → describe_prepared c ≡ (some spec, c')
        → is_empty spec.names ≡ false
        → describe L format atoi fuel (fresh checks c sql) ≡ (ok tt, prepared c' sql spec)
    unfolding describe on_description
    describe-new c c' sql spec e h =
        ap (λ x. on_description L format atoi fuel x.0 (record (fresh checks c sql) { conn = x.1 }))
          e
        ∙ set_cache-new c' sql spec h

    pub prepare_query-new :
        (most : ℕ) (spec : PgResult) (rows : List (List (Option Bytes))) (sql : Bytes) (c : Conn)
        → (a : Answers fuel most checks spec rows sql c)
        → prepare_query L format atoi fuel (fresh checks c sql)
          ≡ (ok tt, prepared a.described sql spec)
    unfolding prepare_query
    prepare_query-new most spec rows sql c a =
        after_ok (check L "Failed to prepare query" (prepare sql) (fresh checks c sql)) tt
          (fresh checks (prepare sql c).1 sql) (λ _. describe L format atoi fuel)
          (checked-prepare sql c a.prepares)
        ∙ describe-new (prepare sql c).1 a.described sql spec a.describes a.has_columns
