-- ===== src/Result/Opening.antt =====
-- The results of an immediate query in src/PqResultImpl.cpp up to its first row: the columns are known
-- only with it.
use Prim.Native.String.{String}
use rpostgres.Prelude.{
  ℕ, suc, ◌+◌, ◌≡◌, refl, ◌∙◌, ap, Bool, true, false, Option, some, List, [], ◌∷◌, arith,
}
use rpostgres.Prelude.Int.{ℤ}
use rpostgres.Prelude.Outcome.{ok}
use rpostgres.Runtime.{Bytes}
use rpostgres.Libpq.{Libpq, PgResult, single_tuple}
use rpostgres.Cache.{Cache, new_cache, is_empty}
use rpostgres.Result.{Impl}
use rpostgres.Result.Run.{step, on_result, set_cache}
use rpostgres.Result.Reads.{Reads, step-once, step-again}
use rpostgres.Result.Delivery.{
  Terms, Finishes, Coming, Holds, before, after, next, runs, again, done-statement,
}
use rpostgres.Result.Start.{described_cache, set-new}

module _ (L : Libpq) (fuel most : ℕ) (checks : Bool) where
  open L use {Conn}

  -- What an immediate query is run with, once the cache is `cache`.
  abbrev pub immediate_terms : Cache → Terms
  immediate_terms cache = record {
    check_interrupts = checks;
    immediate = true;
    cache = cache;
    params = [];
    groups = 1;
  }

  -- What libpq documents of the results of an immediate query: statements without rows, and then a
  -- statement whose first row is `spec`. `Opens k g rows c`: after `g` statements the rows are still to
  -- come on the connection `c`, the first one within `k` results, and each later one, or the end,
  -- within `most`.
  pub data Opens (spec : PgResult) : ℕ → ℕ → List (List (Option Bytes)) → Conn → Type 0 where
    first_row :
        {k g : ℕ} {rows : List (List (Option Bytes))} {c c1 : Conn}
        → Reads L fuel checks true c (some spec) c1
        → spec.status ≡ single_tuple
        → Coming L fuel most (immediate_terms (described_cache spec)) false most g rows c1
        → Opens spec (suc k) g (spec.row ∷ rows) c
    no_rows :
        {k g : ℕ} {rows : List (List (Option Bytes))} {c c1 : Conn} {res : PgResult}
        → Reads L fuel checks true c (some res) c1
        → Finishes L fuel most (immediate_terms new_cache) true res
        → Opens spec k (g + 1) rows c1
        → Opens spec (suc k) g rows c

  module _ (format : String → List ℤ → String) (atoi : Bytes → ℤ) (spec : PgResult)
      (columns : is_empty spec.names ≡ false) where
    -- The query with the terms of an immediate one, and this cache.
    abbrev with_cache : Cache → Impl L → Impl L
    with_cache cache s = record s {
      check_interrupts = checks;
      immediate = true;
      cache = cache;
      params = [];
      groups = 1;
    }

    abbrev pub opening : Impl L → ℕ → Conn → Impl L
    opening s g c = before L fuel format atoi most (with_cache new_cache s) true g c

    -- The loop ends with the first row, under its columns.
    pub record Opened (rows : List (List (Option Bytes))) (k : ℕ) (s : Impl L) : Type 0 where
      pub there : Impl L
      pub ends : step L format atoi fuel k s ≡ (ok tt, there)
      pub holds : Holds L fuel most rows there
      pub ready : there.ready ≡ true
      pub cache : there.cache ≡ described_cache spec
      pub nrows : there.nrows ≡ s.nrows

    set_cache-opening :
        (s : Impl L)
        → set_cache L format atoi fuel spec (with_cache new_cache s)
          ≡ (ok tt, with_cache (described_cache spec) s)
    unfolding set_cache
    set_cache-opening s = ap (λ x. (x.0, with_cache x.1 s)) (set-new L spec columns)

    on_result-first :
        (s : Impl L)
        → spec.status ≡ single_tuple
        → on_result L format atoi fuel true (some spec) (with_cache new_cache s)
          ≡ (ok false, with_cache (described_cache spec) s)
    unfolding on_result
    on_result-first s e = ground (arith, set_cache-opening s)

    abbrev got : Impl L → ℕ → Conn → PgResult → Impl L
    got s g c res = after L fuel format atoi most (with_cache new_cache s) g c (some res)

    abbrev end_of : Impl L → ℕ → Conn → PgResult → Impl L
    end_of s g c res = next L fuel format atoi most (with_cache new_cache s) g c res

    -- However many statements come before it, the loop gets to the first row.
    pub step-Opens :
        {k g : ℕ} {rows : List (List (Option Bytes))} {c : Conn} (s : Impl L)
        → Opens spec k g rows c
        → Opened rows k (opening s g c)
    unfolding Holds
    step-Opens s (first_row {k} {g} {rows} {c} {c1} e st rest) =
        let t = with_cache (described_cache spec) (got s g c1 spec) in
        record {
          there = t;
          ends = step-once L fuel format atoi k (opening s g c) t (
              runs L fuel format atoi most true (with_cache new_cache s) g (some spec) c c1 e
              ∙ on_result-first (got s g c1 spec) st);
          holds = (refl, refl, refl, refl, rest);
          ready = refl;
          cache = refl;
          nrows = refl;
        }
    step-Opens s (no_rows {k} {g} {rows} {c} {c1} {res} e st rest) =
        let t = step-Opens (end_of s g c1 res) rest in
        record {
          there = t.there;
          ends =
              step-again L fuel format atoi k (opening s g c) (end_of s g c1 res) (
                runs L fuel format atoi most true (with_cache new_cache s) g (some res) c c1 e
                ∙ again L fuel format atoi most true (got s g c1 res) (end_of s g c1 res) res st (
                    done-statement L fuel format atoi most (with_cache new_cache s) g c1 res
                      (omega arith) refl))
              ∙ t.ends;
          holds = t.holds;
          ready = t.ready;
          cache = t.cache;
          nrows = t.nrows;
        }
