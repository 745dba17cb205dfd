-- ===== src/Result/Delivery.antt =====
-- The results that libpq returns for a query, as a relation on the connection: the rows one by one,
-- and what src/PqResultImpl.cpp does between them and after the last one.
use Prim.Native.String.{String}
use rpostgres.Prelude.{
  ℕ, suc, ◌+◌, ◌≤◌, ◌<◌, ◌≡◌, refl, ◌∙◌, ap, Bool, true, false, not, Option, none, some, List, [],
  ◌∷◌, ◌⊎◌, inl, inr,
}
use rpostgres.Prelude.Int.{ℤ}
use rpostgres.Prelude.Outcome.{ok}
use rpostgres.Runtime.{Bytes}
use rpostgres.Libpq.{Libpq, PgResult, Param, tuples_ok, single_tuple, command_ok}
use rpostgres.Cache.{Cache}
use rpostgres.Result.{ParamColumn, Impl, row_params}
use rpostgres.Result.Run.{on_result, step_done, step_run}
use rpostgres.Result.Fetch.{current_row}
use rpostgres.Result.Sends.{finish-when, bind_group-sent, bind_row-group, bind_row-over}
use rpostgres.Result.Reads.{
  Reads, Takes, counted, step_run-Reads, step_done-more, step_done-over, on_result-command,
  on_result-tuples,
}

-- What stays the same of a query while its results are read.
pub record Terms : Type 0 where
  pub check_interrupts : Bool
  pub immediate : Bool
  pub cache : Cache
  pub params : List ParamColumn
  pub groups : ℕ

module _ (L : Libpq) (fuel : ℕ) where
  open L use {Conn, get_result, send_query_prepared, set_single_row_mode}

  abbrev pub terms_of : Impl L → Terms
  terms_of s = record {
    check_interrupts = s.check_interrupts;
    immediate = s.immediate;
    cache = s.cache;
    params = s.params;
    groups = s.groups;
  }

  -- A row of the parameters is sent, after the NULL that ends the results of the one before it.
  pub record Resends (q : Terms) (group : ℕ) (c c' : Conn) : Type 0 where
    pub over : Conn
    pub sent : Conn
    pub row : List Param
    pub ends : get_result c ≡ (none, over)
    pub row_is : row_params q.cache.nparams q.params group ≡ ok row
    pub sends : send_query_prepared row over ≡ (true, sent)
    pub by_rows : set_single_row_mode sent ≡ (true, c')

  module _ (most : ℕ) (q : Terms) where
    -- The results that end a statement: PGRES_TUPLES_OK, or PGRES_COMMAND_OK.
    abbrev pub Finishes : Bool → PgResult → Type 0
    Finishes first res =
        (res.status ≡ tuples_ok) ⊎ ((res.status ≡ command_ok) × Takes L fuel first q.cache res)

    -- What libpq documents of the results of a query in single-row mode. `Coming first k g rows c`: in
    -- row `g` of the parameters, the rows `rows` are still to come on the connection `c`, the next one
    -- of them, or the end, within `k` results, and each later one within `most`; `first` if no result
    -- was read since the query was sent or a statement of it ended.
    pub data Coming : Bool → ℕ → ℕ → List (List (Option Bytes)) → Conn → Type 0 where
      a_row :
          {first : Bool} {k g : ℕ} {rows : List (List (Option Bytes))} {c c1 : Conn}
          {res : PgResult}
          → Reads L fuel q.check_interrupts first c (some res) c1
          → res.status ≡ single_tuple
          → Takes L fuel first q.cache res
          → Coming false most g rows c1
          → Coming first (suc k) g (res.row ∷ rows) c
      no_more :
          {first : Bool} {k g : ℕ} {c c1 : Conn}
          → Reads L fuel q.check_interrupts first c none c1
          → Coming first (suc k) g [] c
      an_end :
          {first : Bool} {k g : ℕ} {c c1 c2 : Conn} {res : PgResult}
          → Reads L fuel q.check_interrupts first c (some res) c1
          → res.status ≡ tuples_ok
          → q.groups ≤ g + 1
          → q.immediate ≡ false
          → Reads L fuel q.check_interrupts true c1 none c2
          → Coming first (suc (suc k)) g [] c
      a_command :
          {first : Bool} {k g : ℕ} {c c1 : Conn} {res : PgResult}
          → Reads L fuel q.check_interrupts first c (some res) c1
          → res.status ≡ command_ok
          → Takes L fuel first q.cache res
          → q.groups ≤ g + 1
          → q.immediate ≡ false
          → Coming first (suc k) g [] c
      a_statement :
          {first : Bool} {k g : ℕ} {rows : List (List (Option Bytes))} {c c1 : Conn}
          {res : PgResult}
          → Reads L fuel q.check_interrupts first c (some res) c1
          → Finishes first res
          → q.groups ≤ g + 1
          → q.immediate ≡ true
          → Coming true k (g + 1) rows c1
          → Coming first (suc k) g rows c
      a_group :
          {first : Bool} {k g : ℕ} {rows : List (List (Option Bytes))} {c c1 c2 : Conn}
          {res : PgResult}
          → Reads L fuel q.check_interrupts first c (some res) c1
          → Finishes first res
          → g + 1 < q.groups
          → q.immediate ≡ false
          → 0 < fuel
          → Resends q (g + 1) c1 c2
          → Coming true k (g + 1) rows c2
          → Coming first (suc k) g rows c

  -- The query has the rows still to give; the first of them is the current result.
  unfoldable pub Holds : ℕ → List (List (Option Bytes)) → Impl L → Type 0
  Holds most [] s = s.complete ≡ true
  Holds most (row ∷ rows) s =
      (s.complete ≡ false)
      × (s.data_ready ≡ true)
      × (s.ready ≡ true)
      × (current_row s.res ≡ row)
      × Coming most (terms_of s) false most s.group rows s.conn

  -- What a step leaves as it was.
  pub record Kept (s t : Impl L) : Type 0 where
    pub nrows : t.nrows ≡ s.nrows
    pub cache : t.cache ≡ s.cache
    pub ready : t.ready ≡ s.ready

  module _ (format : String → List ℤ → String) (atoi : Bytes → ℤ) (most : ℕ) where
    -- The query in row `group` of its parameters, before PQgetResult.
    abbrev pub before : Impl L → Bool → ℕ → Conn → Impl L
    before s first group c = record s {
      conn = c;
      group = group;
      data_ready = not first;
      complete = false;
      ready = true;
    }

    -- The query after PQgetResult.
    abbrev pub after : Impl L → ℕ → Conn → Option PgResult → Impl L
    after s group c res = record s {
      conn = c;
      group = group;
      data_ready = true;
      complete = false;
      ready = true;
      res = res;
    }

    abbrev pub next : Impl L → ℕ → Conn → PgResult → Impl L
    next s group c res = counted L fuel format atoi (after s group c (some res)) res

    pub runs :
        (first : Bool) (s : Impl L) (g : ℕ) (o : Option PgResult) (c c1 : Conn)
        → Reads L fuel s.check_interrupts first c o c1
        → step_run L format atoi fuel (before s first g c)
          ≡ on_result L format atoi fuel first o (after s g c1 o)
    runs first s g o c c1 e =
        step_run-Reads L fuel format atoi first (before s first g c) o c c1 refl refl e

    -- A statement that ends is followed by what `step_done` comes to.
    pub again :
        (first : Bool) (s t : Impl L) (res : PgResult)
        → Finishes most (terms_of s) first res
        → step_done L format atoi fuel res s ≡ (ok true, t)
        → on_result L format atoi fuel first (some res) s ≡ (ok true, t)
    again first s t res (inl e) d = on_result-tuples L fuel format atoi first true s t res e d
    again first s t res (inr (e, h)) d = on_result-command L fuel format atoi first s res e h ∙ d

    pub done-statement :
        (s : Impl L) (g : ℕ) (c : Conn) (res : PgResult)
        → s.groups ≤ g + 1
        → s.immediate ≡ true
        → step_done L format atoi fuel res (after s g c (some res)) ≡ (ok true, next s g c res)
    done-statement s g c res h i =
        step_done-more L fuel format atoi (after s g c (some res)) (next s g c res) res
          (bind_row-over L fuel (next s g c res) h ∙ ap (λ b. (ok b, next s g c res)) i)

    pub done-last :
        (s : Impl L) (g : ℕ) (c : Conn) (res : PgResult)
        → s.groups ≤ g + 1
        → s.immediate ≡ false
        → step_done L format atoi fuel res (after s g c (some res))
          ≡ (ok false, record (next s g c res) { complete = true })
    done-last s g c res h i =
        step_done-over L fuel format atoi (after s g c (some res)) res
          (bind_row-over L fuel (next s g c res) h ∙ ap (λ b. (ok b, next s g c res)) i)

    pub done-group :
        (s : Impl L) (g : ℕ) (c c' : Conn) (res : PgResult)
        → g + 1 < s.groups
        → s.immediate ≡ false
        → 0 < fuel
        → Resends (terms_of s) (g + 1) c c'
        → step_done L format atoi fuel res (after s g c (some res))
          ≡ (ok true, record (next s g c res) { conn = c' })
    done-group s g c c' res h i n a =
        let s1 = next s g c res in
        let s2 : Impl L = record s1 { conn = c' } in
        step_done-more L fuel format atoi (after s g c (some res)) s2 res (
          bind_row-group L fuel s1 (ok true, s2) h
            (bind_group-sent L fuel s1 a.row a.over a.sent c'
              (finish-when L fuel s1 a.over n refl a.ends) a.row_is i a.sends a.by_rows))
