-- ===== src/Result/Reads.antt =====
-- One pass of `step_run` of src/PqResultImpl.cpp, for what PQgetResult returns.
use Prim.Native.String.{String}
use rpostgres.Prelude.{
  ℕ, suc, ◌+◌, ◌≡◌, refl, ◌∙◌, ap, subst, sym, Bool, true, false, not, Option, none, some, List,
  arith,
}
use rpostgres.Prelude.Int.{ℤ, ◌+ℤ◌}
use rpostgres.Prelude.Outcome.{ok}
use rpostgres.Prelude.Step.{after_ok, when}
use rpostgres.Runtime.{Bytes}
use rpostgres.Libpq.{Libpq, PgResult, tuples_ok, single_tuple, command_ok}
use rpostgres.Cache.{Cache}
use rpostgres.Cache.Fits.{Fits, set-Fits}
use rpostgres.Result.{Impl, bind_row}
use rpostgres.Result.Run.{await, read_result, set_cache, on_result, step_done, step_run, step}
use rpostgres.Result.Waits.{Waits, wait_for_data-Waits}

module _ (L : Libpq) (fuel : ℕ) where
  open L use {Conn, get_result}

  -- PQgetResult returns this result, after a wait if the data are not known to be there.
  pub data Reads (checks : Bool) : Bool → Conn → Option PgResult → Conn → Type 0 where
    at_once :
        {c c1 : Conn} {o : Option PgResult} → get_result c ≡ (o, c1) → Reads checks false c o c1
    after_wait :
        {c c1 c2 : Conn} {o : Option PgResult}
        → Waits L fuel checks c c1
        → get_result c1 ≡ (o, c2)
        → Reads checks true c o c2

  -- The first result since a query was sent, or since a statement of it ended, fits the cache.
  abbrev pub Takes : Bool → Cache → PgResult → Type 0
  Takes first cache res = first ≡ true → Fits res cache

  module _ (format : String → List ℤ → String) (atoi : Bytes → ℤ) where
    -- The query after PQgetResult.
    abbrev pub read : Impl L → Conn → Option PgResult → Impl L
    read s c res = record s { conn = c; res = res; data_ready = true }

    -- The query after the end of a result.
    abbrev pub counted : Impl L → PgResult → Impl L
    counted s res = record s {
      rows_affected = s.rows_affected +ℤ atoi res.cmd_tuples;
      group = s.group + 1;
      data_ready = false;
    }

    await-ready : (s : Impl L) → s.data_ready ≡ true → await L format atoi fuel s ≡ (ok false, s)
    unfolding await
    await-ready s d = ground arith

    await-Waits :
        (s : Impl L) (c : Conn)
        → s.data_ready ≡ false
        → Waits L fuel s.check_interrupts s.conn c
        → await L format atoi fuel s ≡ (ok true, record s { conn = c; data_ready = true })
    unfolding await
    await-Waits s c d w = ground (arith, wait_for_data-Waits L format atoi w)

    read_result-eq :
        (s : Impl L) (res : Option PgResult) (c : Conn)
        → get_result s.conn ≡ (res, c)
        → read_result L format atoi fuel s ≡ (ok res, record s { conn = c; res = res })
    unfolding read_result
    read_result-eq s res c g = simp g

    run_of :
        (first : Bool) (s s1 : Impl L) (o : Option PgResult) (c : Conn)
        → await L format atoi fuel (record s { res = none }) ≡ (ok first, s1)
        → get_result s1.conn ≡ (o, c)
        → step_run L format atoi fuel s
          ≡ on_result L format atoi fuel first o (record s1 { conn = c; res = o })
    unfolding step_run
    run_of first s s1 o c a g =
        after_ok (await L format atoi fuel (record s { res = none })) first s1 _ a
        ∙ after_ok (read_result L format atoi fuel s1) o (record s1 { conn = c; res = o })
            (on_result L format atoi fuel first) (read_result-eq s1 o c g)

    -- `step_run` comes to `on_result` of what PQgetResult returns.
    pub step_run-Reads :
        (first : Bool) (s : Impl L) (o : Option PgResult) (c c1 : Conn)
        → s.data_ready ≡ not first
        → s.conn ≡ c
        → Reads s.check_interrupts first c o c1
        → step_run L format atoi fuel s ≡ on_result L format atoi fuel first o (read s c1 o)
    step_run-Reads first s o c c1 d e (at_once g) =
        run_of false s (record s { res = none }) o c1 (await-ready (record s { res = none }) d)
          (ap get_result e ∙ g)
        ∙ ap
            (λ b.
              on_result L format atoi fuel false o
                (record s { conn = c1; res = o; data_ready = b }))
            d
    step_run-Reads first s o c c1 d e (after_wait {c1 = c'} w g) =
        run_of true s (record s { res = none; conn = c'; data_ready = true }) o c1
          (await-Waits (record s { res = none }) c' d
            (subst (λ x. Waits L fuel s.check_interrupts x c') (sym e) w))
          g

    pub step-once :
        (rounds : ℕ) (s t : Impl L)
        → step_run L format atoi fuel s ≡ (ok false, t)
        → step L format atoi fuel (suc rounds) s ≡ (ok tt, t)
    unfolding step
    step-once rounds s t e = rw e

    pub step-again :
        (rounds : ℕ) (s t : Impl L)
        → step_run L format atoi fuel s ≡ (ok true, t)
        → step L format atoi fuel (suc rounds) s ≡ step L format atoi fuel rounds t
    unfolding step
    step-again rounds s t e = rw e

    pub step_done-more :
        (s t : Impl L) (res : PgResult)
        → bind_row L fuel (counted s res) ≡ (ok true, t)
        → step_done L format atoi fuel res s ≡ (ok true, t)
    unfolding step_done
    step_done-more s t res h = rw h

    pub step_done-over :
        (s : Impl L) (res : PgResult)
        → bind_row L fuel (counted s res) ≡ (ok false, counted s res)
        → step_done L format atoi fuel res s
          ≡ (ok false, record (counted s res) { complete = true })
    unfolding step_done
    step_done-over s res h = rw h

    set_cache-Fits :
        (s : Impl L) (res : PgResult)
        → Fits res s.cache
        → set_cache L format atoi fuel res s ≡ (ok tt, s)
    unfolding set_cache
    set_cache-Fits s res h = ap (λ x. (x.0, record s { cache = x.1 })) (set-Fits res s.cache h)

    taken :
        (first : Bool) (s : Impl L) (res : PgResult)
        → Takes first s.cache res
        → when first (set_cache L format atoi fuel res) s ≡ (ok tt, s)
    taken false s res h = refl
    taken true s res h = set_cache-Fits s res (h refl)

    pub on_result-row :
        (first : Bool) (s : Impl L) (res : PgResult)
        → res.status ≡ single_tuple
        → Takes first s.cache res
        → on_result L format atoi fuel first (some res) s ≡ (ok false, s)
    unfolding on_result
    on_result-row first s res e h = ground (arith, taken first s res h)

    pub on_result-command :
        (first : Bool) (s : Impl L) (res : PgResult)
        → res.status ≡ command_ok
        → Takes first s.cache res
        → on_result L format atoi fuel first (some res) s ≡ step_done L format atoi fuel res s
    unfolding on_result
    on_result-command first s res e h = ground (arith, taken first s res h)

    pub on_result-tuples :
        (first more : Bool) (s t : Impl L) (res : PgResult)
        → res.status ≡ tuples_ok
        → step_done L format atoi fuel res s ≡ (ok more, t)
        → on_result L format atoi fuel first (some res) s ≡ (ok true, t)
    unfolding on_result
    on_result-tuples first more s t res e h = ground (arith, h)
