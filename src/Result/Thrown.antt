-- ===== src/Result/Thrown.antt =====
-- `bind` of src/PqResultImpl.cpp where the server answers with an error, or the user interrupts.
use Prim.Native.String.{String, ◌++◌ as string_append}
use rpostgres.Prelude.{
  ℕ, suc, ◌+◌, ◌≤◌, ◌<◌, ◌≡◌, refl, ◌∙◌, ap, Bool, true, false, none, some, List,
}
use rpostgres.Prelude.Int.{ℤ}
use rpostgres.Prelude.Outcome.{ok, stop}
use rpostgres.Runtime.{Bytes}
use rpostgres.Libpq.{Libpq, PgResult, fatal_error}
use rpostgres.Result.{ParamColumn, Impl}
use rpostgres.Result.Run.{bind, step, step_run}
use rpostgres.Result.Reads.{Reads, step-again}
use rpostgres.Result.Delivery.{
  Terms, Finishes, Resends, before, after, next, runs, again, done-statement, done-group,
}
use rpostgres.Result.Arrivals.{under}
use rpostgres.Result.Failing.{
  Interrupts, cut_short, step_run-Interrupts, on_result-fatal, step-throws,
}
use rpostgres.Result.Bound.{Puts, with_params, waiting, bind-step}

module _ (L : Libpq) (fuel most : ℕ) where
  open L use {Conn, error_message}

  -- `Breaks q first k g c message ended c'`: a query with the terms `q`, in row `g` of the parameters,
  -- comes within `k` results from the connection `c`, of which all before are ends of statements and
  -- none is a row of data, to an error of the server or, if it checks interrupts, to one in a wait
  -- that leaves the connection up and with a cancel handle; `message` is what is then thrown, `c'` the
  -- connection after it, and `ended` says that the query was cancelled.
  pub data Breaks (q : Terms) : Bool → ℕ → ℕ → Conn → String → Bool → Conn → Type 0 where
    an_error :
        {first : Bool} {k g : ℕ} {c c1 : Conn} {res : PgResult}
        → Reads L fuel q.check_interrupts first c (some res) c1
        → res.status ≡ fatal_error
        → Breaks q first
            (suc k)
            g
            c
            (string_append "Failed to fetch row" (string_append " : " (error_message c1)))
            false
            c1
    an_interrupt :
        {k g : ℕ} {c c1 : Conn}
        → q.check_interrupts ≡ true
        → Interrupts L fuel c c1
        → Breaks q true (suc k) g c "Interrupted." true c1
    past_statement :
        {first ended : Bool} {k g : ℕ} {c c1 c2 : Conn} {res : PgResult} {message : String}
        → Reads L fuel q.check_interrupts first c (some res) c1
        → Finishes L fuel most q first res
        → q.groups ≤ g + 1
        → q.immediate ≡ true
        → Breaks q true k (g + 1) c1 message ended c2
        → Breaks q first (suc k) g c message ended c2
    past_group :
        {first ended : Bool} {k g : ℕ} {c c1 c2 c3 : Conn} {res : PgResult} {message : String}
        → Reads L fuel q.check_interrupts first c (some res) c1
        → Finishes L fuel most q first res
        → g + 1 < q.groups
        → q.immediate ≡ false
        → 0 < fuel
        → Resends L fuel q (g + 1) c1 c2
        → Breaks q true k (g + 1) c2 message ended c3
        → Breaks q first (suc k) g c message ended c3

  module _ (format : String → List ℤ → String) (atoi : Bytes → ℤ) where
    -- What the loop over the results throws, and the query after it.
    record Throws (k : ℕ) (s : Impl L) (message : String) (ended : Bool) (c : Conn) : Type 0 where
      pub there : Impl L
      pub ends : step L format atoi fuel k s ≡ (stop message, there)
      pub complete : there.complete ≡ ended
      pub conn : there.conn ≡ c

    abbrev start : Terms → Impl L → Bool → ℕ → Conn → Impl L
    start q s = before L fuel format atoi most (under L fuel format atoi most q s)

    abbrev got : Terms → Impl L → ℕ → Conn → PgResult → Impl L
    got q s g c res =
        after L fuel format atoi most (under L fuel format atoi most q s) g c (some res)

    abbrev end_of : Terms → Impl L → ℕ → Conn → PgResult → Impl L
    end_of q s g c res = next L fuel format atoi most (under L fuel format atoi most q s) g c res

    Throws-again :
        (k : ℕ) (s t : Impl L) (message : String) (ended : Bool) (c : Conn)
        → step_run L format atoi fuel s ≡ (ok true, t)
        → Throws k t message ended c
        → Throws (suc k) s message ended c
    Throws-again k s t message ended c e h = record {
      there = h.there;
      ends = step-again L fuel format atoi k s t e ∙ h.ends;
      complete = h.complete;
      conn = h.conn;
    }

    step-Breaks :
        (q : Terms) {first ended : Bool} {k g : ℕ} {c c' : Conn} {message : String} (s : Impl L)
        → Breaks q first k g c message ended c'
        → Throws k (start q s first g c) message ended c'
    step-Breaks q s (an_error {first} {k} {g} {c} {c1} {res} e st) = record {
      there = record (got q s g c1 res) { res = none };
      ends =
          step-throws L fuel format atoi k (start q s first g c)
            (record (got q s g c1 res) { res = none })
            (string_append "Failed to fetch row" (string_append " : " (error_message c1)))
            (runs L fuel format atoi most first (under L fuel format atoi most q s) g (some res) c
                c1 e
              ∙ on_result-fatal L fuel format atoi first (got q s g c1 res) res st);
      complete = refl;
      conn = refl;
    }
    step-Breaks q s (an_interrupt {k} {g} {c} {c1} e h) =
        let w = start q s true g c in
        let t =
          cut_short L fuel format atoi
            (record w { check_interrupts = true; data_ready = true; res = none }) c1 h.cancelled in
        record {
          there = t;
          ends = step-throws L fuel format atoi k w t "Interrupted." (
              ap (λ b. step_run L format atoi fuel (record w { check_interrupts = b })) e
              ∙ step_run-Interrupts L fuel format atoi w c c1 h);
          complete = refl;
          conn = refl;
        }
    step-Breaks q s
          (past_statement {first} {ended} {k} {g} {c} {c1} {c2} {res} {message} e st n i rest) =
        Throws-again k (start q s first g c) (end_of q s g c1 res) message ended c2
          (runs L fuel format atoi most first (under L fuel format atoi most q s) g (some res) c c1
              e
            ∙ again L fuel format atoi most first (got q s g c1 res) (end_of q s g c1 res) res st (
                done-statement L fuel format atoi most (under L fuel format atoi most q s) g c1 res
                  n i))
          (step-Breaks q (end_of q s g c1 res) rest)
    step-Breaks q s
          (past_group {first} {ended} {k} {g} {c} {c1} {c2} {c3} {res} {message} e st n i h resends
            rest) =
        let t : Impl L = record (end_of q s g c1 res) { conn = c2 } in
        Throws-again k (start q s first g c) t message ended c3
          (runs L fuel format atoi most first (under L fuel format atoi most q s) g (some res) c c1
              e
            ∙ again L fuel format atoi most first (got q s g c1 res) t res st (
                done-group L fuel format atoi most (under L fuel format atoi most q s) g c1 c2 res n
                  i h resends))
          (step-Breaks q t rest)

    -- Where libpq takes parameters that a prepared query accepts, and then, within as many results and
    -- waits as there is fuel for and before any row of data comes, answers one row of them with an
    -- error, or the user interrupts a wait for the results of one, after which the connection is up
    -- and PQgetCancel gives a handle: `bind` throws the error, with libpq's message, or
    -- "Interrupted.", and the query is complete exactly if it was interrupted.
    pub bind-Breaks :
        (params : List ParamColumn) (s : Impl L) (message : String) (ended : Bool) (c : Conn)
        → (a : Puts L fuel params s)
        → Breaks (with_params L fuel params s) true most 0 a.sent message ended c
        → (t : Impl L) × (bind L format atoi fuel most params s ≡ (stop message, t))
          × (t.complete ≡ ended)
          × (t.conn ≡ c)
    bind-Breaks params s message ended c a b =
        let w = waiting L fuel params s a.sent in
        let h = step-Breaks (with_params L fuel params s) w b in
        (h.there, bind-step L fuel format atoi most params s a ∙ h.ends, h.complete, h.conn)
