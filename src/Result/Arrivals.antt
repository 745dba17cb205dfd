-- ===== src/Result/Arrivals.antt =====
-- The loop of src/PqResultImpl.cpp over the results of a query: from one row to the next, over the
-- ends of statements and of rows of parameters, to the end.
use Prim.Native.String.{String}
use rpostgres.Prelude.{
  ℕ, suc, ◌≡◌, refl, sym, ◌∙◌, ap, subst, Bool, true, false, not, Option, none, some, List, [], ◌∷◌,
}
use rpostgres.Prelude.Int.{ℤ}
use rpostgres.Prelude.Outcome.{ok}
use rpostgres.Runtime.{Bytes}
use rpostgres.Libpq.{Libpq, PgResult}
use rpostgres.Result.{Impl}
use rpostgres.Result.Run.{step, step_run, on_result}
use rpostgres.Result.Reads.{
  Reads, read, step-once, step-again, step_run-Reads, on_result-row, on_result-command,
  on_result-tuples,
}
use rpostgres.Result.Delivery.{
  Terms, terms_of, Coming, a_row, no_more, an_end, a_command, a_statement, a_group, Holds, Kept,
  before, after, next, runs, again, done-statement, done-last, done-group,
}

module _ (L : Libpq) (fuel : ℕ) (format : String → List ℤ → String) (atoi : Bytes → ℤ)
    (most : ℕ) where
  open L use {Conn}

  -- The loop ends with the next row, or the end, in a query that was in the state `s`.
  pub record Arrives (rows : List (List (Option Bytes))) (k : ℕ) (s : Impl L) : Type 0 where
    pub there : Impl L
    pub ends : step L format atoi fuel k s ≡ (ok tt, there)
    pub holds : Holds L fuel most rows there
    pub kept : Kept L fuel s there

  Arrives-again :
      (rows : List (List (Option Bytes))) (k : ℕ) (s t : Impl L)
      → step_run L format atoi fuel s ≡ (ok true, t)
      → Kept L fuel s t
      → Arrives rows k t
      → Arrives rows (suc k) s
  Arrives-again rows k s t e h a = record {
    there = a.there;
    ends = step-again L fuel format atoi k s t e ∙ a.ends;
    holds = a.holds;
    kept = record {
      nrows = a.kept.nrows ∙ h.nrows;
      cache = a.kept.cache ∙ h.cache;
      ready = a.kept.ready ∙ h.ready;
    };
  }

  Arrives-once :
      (rows : List (List (Option Bytes))) (k : ℕ) (s t : Impl L)
      → step_run L format atoi fuel s ≡ (ok false, t)
      → Kept L fuel s t
      → Holds L fuel most rows t
      → Arrives rows (suc k) s
  Arrives-once rows k s t e h holds = record {
    there = t;
    ends = step-once L fuel format atoi k s t e;
    holds = holds;
    kept = h;
  }

  abbrev start : Impl L → Bool → ℕ → Conn → Impl L
  start = before L fuel format atoi most

  -- The query `s` with the terms `q`.
  abbrev pub under : Terms → Impl L → Impl L
  under q s = record s {
    check_interrupts = q.check_interrupts;
    immediate = q.immediate;
    cache = q.cache;
    params = q.params;
    groups = q.groups;
  }

  abbrev got : Impl L → ℕ → Conn → Option PgResult → Impl L
  got = after L fuel format atoi most

  abbrev end_of : Impl L → ℕ → Conn → PgResult → Impl L
  end_of = next L fuel format atoi most

  read_end :
      (k : ℕ) (first : Bool) (s : Impl L) (c : Conn)
      → s.data_ready ≡ not first
      → Reads L fuel s.check_interrupts first s.conn none c
      → Arrives [] (suc k) s
  unfolding on_result Holds
  read_end k first s c d e =
      Arrives-once [] k s (record (read L fuel format atoi s c none) { complete = true })
        (step_run-Reads L fuel format atoi first s none s.conn c d refl e)
        (record { nrows = refl; cache = refl; ready = refl }) refl

  -- However many results come before the next row or the end, the loop gets there.
  pub step-Coming :
      (q : Terms) {first : Bool} {k g : ℕ} {rows : List (List (Option Bytes))} {c : Conn}
      (s : Impl L)
      → Coming L fuel most q first k g rows c
      → Arrives rows k (start (under q s) first g c)
  unfolding Holds
  step-Coming q s (a_row {first} {k} {g} {rows} {c} {c1} {res} e st h rest) =
      Arrives-once (res.row ∷ rows) k (start (under q s) first g c)
        (got (under q s) g c1 (some res))
        (runs L fuel format atoi most first (under q s) g (some res) c c1 e
          ∙ on_result-row L fuel format atoi first (got (under q s) g c1 (some res)) res st h)
        (record { nrows = refl; cache = refl; ready = refl }) (refl, refl, refl, refl, rest)
  step-Coming q s (no_more {first} {k} {g} {c} {c1} e) =
      read_end k first (start (under q s) first g c) c1 refl e
  step-Coming q s (an_end {first} {k} {g} {c} {c1} {c2} {res} e st n i e') =
      let t : Impl L = record (end_of (under q s) g c1 res) { complete = true } in
      Arrives-again [] (suc k) (start (under q s) first g c) t
        (runs L fuel format atoi most first (under q s) g (some res) c c1 e
          ∙ on_result-tuples L fuel format atoi first false (got (under q s) g c1 (some res)) t res
              st (done-last L fuel format atoi most (under q s) g c1 res n i))
        (record { nrows = refl; cache = refl; ready = refl }) (read_end k true t c2 refl e')
  step-Coming q s (a_command {first} {k} {g} {c} {c1} {res} e st h n i) =
      Arrives-once [] k (start (under q s) first g c)
        (record (end_of (under q s) g c1 res) { complete = true })
        (runs L fuel format atoi most first (under q s) g (some res) c c1 e
          ∙ on_result-command L fuel format atoi first (got (under q s) g c1 (some res)) res st h
          ∙ done-last L fuel format atoi most (under q s) g c1 res n i)
        (record { nrows = refl; cache = refl; ready = refl }) refl
  step-Coming q s (a_statement {first} {k} {g} {rows} {c} {c1} {res} e st n i rest) =
      Arrives-again rows k (start (under q s) first g c) (end_of (under q s) g c1 res)
        (runs L fuel format atoi most first (under q s) g (some res) c c1 e
          ∙ again L fuel format atoi most first (got (under q s) g c1 (some res))
              (end_of (under q s) g c1 res) res st
              (done-statement L fuel format atoi most (under q s) g c1 res n i))
        (record { nrows = refl; cache = refl; ready = refl })
        (step-Coming q (end_of (under q s) g c1 res) rest)
  step-Coming q s (a_group {first} {k} {g} {rows} {c} {c1} {c2} {res} e st n i h resends rest) =
      let t : Impl L = record (end_of (under q s) g c1 res) { conn = c2 } in
      Arrives-again rows k (start (under q s) first g c) t
        (runs L fuel format atoi most first (under q s) g (some res) c c1 e
          ∙ again L fuel format atoi most first (got (under q s) g c1 (some res)) t res st
              (done-group L fuel format atoi most (under q s) g c1 c2 res n i h resends))
        (record { nrows = refl; cache = refl; ready = refl }) (step-Coming q t rest)

  with_flags :
      (s : Impl L)
      → s.complete ≡ false
      → s.data_ready ≡ true
      → s.ready ≡ true
      → start s false s.group s.conn ≡ s
  with_flags s c d r =
      ap (λ b. record s { complete = b; data_ready = true; ready = true }) (sym c)
      ∙ ap (λ b. record s { data_ready = b; ready = true }) (sym d)
      ∙ ap (λ b. record s { ready = b }) (sym r)

  -- A step takes the query from one row to the next, and from the last one to its end.
  pub step-Holds :
      (row : List (Option Bytes)) (rows : List (List (Option Bytes))) (s : Impl L)
      → Holds L fuel most (row ∷ rows) s
      → Arrives rows most s
  unfolding Holds
  step-Holds row rows s (c, d, r, here, rest) =
      subst (Arrives rows most) (with_flags s c d r) (step-Coming (terms_of L fuel s) s rest)
