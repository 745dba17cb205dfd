-- ===== src/Result/Bound.antt =====
-- `bind` of src/PqResultImpl.cpp for the rows of parameters of a query that returns rows: the first
-- row of its results is there.
use Prim.Native.String.{String}
use rpostgres.Prelude.{
  ℕ, ◌<◌, ◌≡◌, refl, ◌∙◌, ap, Bool, true, false, Option, none, List, ◌||◌, ltb, arith, length,
}
use rpostgres.Prelude.Int.{ℤ, pos}
use rpostgres.Prelude.Outcome.{ok}
use rpostgres.Prelude.Step.{after_ok, when}
use rpostgres.Runtime.{Bytes}
use rpostgres.Libpq.{Libpq, Param}
use rpostgres.Connection.{finish_query}
use rpostgres.Result.{ParamColumn, Impl, on_conn, row_params, bind_row, init}
use rpostgres.Result.Run.{bind, bind_all, after_bind, step, group_count}
use rpostgres.Result.Guards.{bind-Accepts}
use rpostgres.Result.Sends.{finish-not, finish-when, bind_group-sent, bind_row-group}
use rpostgres.Result.Delivery.{Terms, Coming, Holds}
use rpostgres.Result.Arrivals.{step-Coming}

module _ (L : Libpq) (fuel : ℕ) where
  open L use {Conn, get_result, send_query_prepared, set_single_row_mode}

  -- No result of an earlier binding is left on the connection.
  pub data Freed : Bool → Conn → Conn → Type 0 where
    unbound : {c : Conn} → Freed false c c
    used : {c c1 : Conn} → 0 < fuel → get_result c ≡ (none, c1) → Freed true c c1

  -- A prepared query, parameters that it accepts, and a connection on which the first row of them is
  -- sent.
  pub record Puts (params : List ParamColumn) (s : Impl L) : Type 0 where
    pub not_immediate : s.immediate ≡ false
    pub as_many : length params ≡ s.cache.nparams
    pub once : length params ≡ 0 → s.ready ≡ false
    pub has_rows : 0 < group_count params
    pub free : Conn
    pub put : Conn
    pub sent : Conn
    pub row : List Param
    pub freed : Freed s.ready s.conn free
    pub row_is : row_params s.cache.nparams params 0 ≡ ok row
    pub sends : send_query_prepared row free ≡ (true, put)
    pub by_rows : set_single_row_mode put ≡ (true, sent)

  -- What the query is run with.
  abbrev pub with_params : List ParamColumn → Impl L → Terms
  with_params params s = record {
    check_interrupts = s.check_interrupts;
    immediate = s.immediate;
    cache = s.cache;
    params = params;
    groups = group_count params;
  }

  -- The rows of the results come.
  pub record Asks (most : ℕ) (rows : List (List (Option Bytes))) (params : List ParamColumn)
      (s : Impl L) : Type 0 where
    pub puts : Puts params s
    pub coming : Coming L fuel most (with_params params s) true most 0 rows puts.sent

  finish-Freed :
      (ready : Bool) (s : Impl L) (c c1 : Conn)
      → s.ready ≡ ready
      → s.conn ≡ c
      → s.group ≡ 0
      → Freed ready c c1
      → when (s.ready || ltb 0 s.group) (on_conn L (finish_query L fuel)) s
        ≡ (ok tt, record s { conn = c1 })
  finish-Freed ready s c c1 e d g unbound =
      finish-not L fuel s e g ∙ ap (λ x. (ok tt, record s { conn = x })) d
  finish-Freed ready s c c1 e d g (used h n) = finish-when L fuel s c1 h e (ap get_result d ∙ n)

  -- The query is bound: it has the rows still to give, under its columns.
  pub record Bound (most : ℕ) (rows : List (List (Option Bytes))) (s t : Impl L) : Type 0 where
    pub holds : Holds L fuel most rows t
    pub ready : t.ready ≡ true
    pub cache : t.cache ≡ s.cache
    pub nrows : t.nrows ≡ 0

  -- The query before the first result.
  abbrev pub waiting : List ParamColumn → Impl L → Conn → Impl L
  waiting params s sent = record s {
    conn = sent;
    params = params;
    groups = group_count params;
    group = 0;
    rows_affected = pos 0;
    data_ready = false;
    ready = true;
    nrows = 0;
    complete = false;
  }

  module _ (format : String → List ℤ → String) (atoi : Bytes → ℤ) (most : ℕ)
      (params : List ParamColumn) (s : Impl L) where
    -- `bind` goes to the first result.
    pub bind-step :
        (a : Puts params s)
        → bind L format atoi fuel most params s
          ≡ step L format atoi fuel most (waiting params s a.sent)
    unfolding bind_all after_bind init
    bind-step a =
        let s0 : Impl L = record s {
          params = params;
          groups = group_count params;
          group = 0;
          rows_affected = pos 0;
        } in
        let s1 : Impl L = record s0 { conn = a.sent; data_ready = false } in
        let asked : bind_row L fuel s0 ≡ (ok true, s1) =
          bind_row-group L fuel s0 (ok true, s1) a.has_rows
            (bind_group-sent L fuel s0 a.row a.free a.put a.sent
              (finish-Freed s.ready s0 s.conn a.free refl refl refl a.freed) a.row_is
              a.not_immediate a.sends a.by_rows) in
        bind-Accepts L format atoi fuel most params s (record {
          as_many = a.as_many;
          none_if_immediate = λ i. ground (arith, a.not_immediate);
          once = a.once;
        })
        ∙ after_ok (bind_row L fuel s0) true s1 (after_bind L format atoi fuel most) asked

    -- `bind` waits for the first row.
    pub bind-Bound :
        (rows : List (List (Option Bytes)))
        → Asks most rows params s
        → (t : Impl L) × (bind L format atoi fuel most params s ≡ (ok tt, t)) × Bound most rows s t
    bind-Bound rows a =
        let w = waiting params s a.puts.sent in
        let b = step-Coming L fuel format atoi most (with_params params s) w a.coming in
        (
          b.there,
          bind-step a.puts ∙ b.ends,
          record {
            holds = b.holds;
            ready = b.kept.ready;
            cache = b.kept.cache;
            nrows = b.kept.nrows;
          },
        )
