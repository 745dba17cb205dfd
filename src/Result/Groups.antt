-- ===== src/Result/Groups.antt =====
-- The loop of src/PqResultImpl.cpp over the rows of parameters that a query is run for.
use Prim.Native.String.{String}
use rpostgres.Prelude.{
  ℕ, suc, ◌≡◌, refl, ◌∙◌, ap, true, false, some, none, List, [], ◌∷◌, ◌==◌, arith, length,
}
use rpostgres.Prelude.Int.{ℤ, pos, ◌+ℤ◌}
use rpostgres.Prelude.Outcome.{ok}
use rpostgres.Prelude.Step.{Step, after_ok}
use rpostgres.Runtime.{Bytes}
use rpostgres.Libpq.{Libpq, PgResult, command_ok}
use rpostgres.Result.{ParamColumn, Impl, init, bind_row}
use rpostgres.Result.Run.{bind, bind_all, after_bind, step, group_count}
use rpostgres.Result.Guards.{bind-Accepts}
use rpostgres.Result.Sends.{finish-when, finish-not, bind_group-sent, bind_row-group, bind_row-over}
use rpostgres.Result.Reads.{
  Reads, read, counted, step-once, step-again, step_done-more, step_done-over,
}
use rpostgres.Result.Batch.{Job, AreRows, total, Executes, Sent, Executed, step_run-command}

module _ (L : Libpq) (format : String → List ℤ → String) (atoi : Bytes → ℤ) (fuel : ℕ) where
  open L use {Conn, get_result}

  -- The answer to the row that was sent.
  record Answered (text : Bytes) (s : Impl L) (res : PgResult) (c c' : Conn) : Type 0 where
    pub answer : Reads L (suc fuel) s.check_interrupts true s.conn (some res) c
    pub status : res.status ≡ command_ok
    pub no_names : res.names ≡ []
    pub no_oids : res.oids ≡ []
    pub count : res.cmd_tuples ≡ text
    pub over : get_result c ≡ (none, c')

  abbrev got : Impl L → PgResult → Conn → Impl L
  got s res c = read L (suc fuel) format atoi s c (some res)

  abbrev SentOn : List Job → Impl L → Type 0
  SentOn = Sent L (suc fuel) format atoi

  abbrev next_state : Impl L → PgResult → Conn → Impl L
  next_state s res c = counted L (suc fuel) format atoi (got s res c) res

  abbrev steps : ℕ → Step (Impl L) (Unit {0})
  steps = step L format atoi (suc fuel)

  run-last :
      (s : Impl L) (text : Bytes) (res : PgResult) (c c' : Conn)
      → SentOn [] s
      → Answered text s res c c'
      → steps 1 s ≡ (ok tt, record (next_state s res c) { complete = true })
  run-last s text res c c' v a =
      step-once L (suc fuel) format atoi 0 s (record (next_state s res c) { complete = true })
        (step_run-command L (suc fuel) format atoi s res c [] v a.answer a.status a.no_names
            a.no_oids
          ∙ step_done-over L (suc fuel) format atoi (got s res c) res (
              bind_row-over L (suc fuel) (next_state s res c) (omega (arith, v.groups))
              ∙ ap (λ b. (ok b, next_state s res c)) v.not_immediate))

  run-next :
      (rounds : ℕ) (job : Job) (jobs : List Job) (s t : Impl L) (text : Bytes) (res : PgResult)
      (c c' : Conn)
      → SentOn (job ∷ jobs) s
      → Answered text s res c c'
      → bind_row L (suc fuel) (next_state s res c) ≡ (ok true, t)
      → steps (suc rounds) s ≡ steps rounds t
  run-next rounds job jobs s t text res c c' v a b =
      step-again L (suc fuel) format atoi rounds s t (
        step_run-command L (suc fuel) format atoi s res c (job ∷ jobs) v a.answer a.status
          a.no_names a.no_oids
        ∙ step_done-more L (suc fuel) format atoi (got s res c) t res b)

  -- The loop over the answers sends each of the rows `jobs` that are left, and ends.
  run :
      (jobs : List Job) (s : Impl L) (text : Bytes) (res : PgResult) (c c' : Conn)
      → SentOn jobs s
      → Answered text s res c c'
      → Executes L (suc fuel) s.check_interrupts jobs c'
      → (t : Impl L) × (steps (suc (length jobs)) s ≡ (ok tt, t))
        × Executed L (suc fuel) format atoi jobs (s.rows_affected +ℤ atoi text) s t
  unfolding total Executes AreRows
  run [] s text res c c' v a x = (
    record (next_state s res c) { complete = true },
    run-last s text res c c' v a,
    record {
      complete = refl;
      all_sent = omega (arith, v.groups);
      affected = ap (λ b. s.rows_affected +ℤ atoi b) a.count;
      ready = refl;
      cache = refl;
    },
  )
  run (job ∷ jobs) s text res c c' v a x =
      let (c1, c2, c3, c4, res', send, mode, answer, status, names, oids, count, over, rest) = x in
      let s1 = next_state s res c in
      let s2 : Impl L = record s1 { conn = c2 } in
      let sent =
        bind_row-group L (suc fuel) s1 (ok true, s2) (omega (arith, v.groups))
          (bind_group-sent L (suc fuel) s1 job.0 c' c1 c2
            (finish-when L (suc fuel) s1 c' (omega arith) v.ready a.over) v.rows.0 v.not_immediate
            send mode) in
      let v2 : SentOn jobs s2 = record {
        ready = v.ready;
        waits = refl;
        not_immediate = v.not_immediate;
        has_params = v.has_params;
        groups = omega (arith, v.groups);
        rows = v.rows.1;
      } in
      let (t, ran, done) =
        run jobs s2 job.1 res' c3 c4 v2
          (record {
            answer = answer;
            status = status;
            no_names = names;
            no_oids = oids;
            count = count;
            over = over;
          })
          rest in
      (
        t,
        run-next (suc (length jobs)) job jobs s s2 text res c c' v a sent ∙ ran,
        record {
          complete = done.complete;
          all_sent = done.all_sent;
          affected =
              done.affected
              ∙ ap (λ b. total atoi (s.rows_affected +ℤ atoi b +ℤ atoi job.1) jobs) a.count;
          ready = done.ready;
          cache = done.cache;
        },
      )

  -- A prepared query that is not yet bound, on a connection that runs it for the rows of `params`,
  -- which are `jobs`.
  pub record IsBatch (jobs : List Job) (params : List ParamColumn) (s : Impl L) : Type 0 where
    pub not_ready : s.ready ≡ false
    pub not_immediate : s.immediate ≡ false
    pub has_params : (s.cache.nparams == 0) ≡ false
    pub as_many : length params ≡ s.cache.nparams
    pub rows_are : group_count params ≡ length jobs
    pub rows : AreRows s.cache.nparams params 0 jobs
    pub executes : Executes L (suc fuel) s.check_interrupts jobs s.conn

  -- `bind` for at least one row of parameters to a prepared query without columns that is not yet
  -- bound and has parameters, on a connection on which each row can be sent, and is answered by
  -- PGRES_COMMAND_OK, after a wait within the fuel if interrupts are checked, and then NULL: with as
  -- many rounds as there are rows, it sends every row, completes the query, and adds up what the
  -- server counted for them.
  pub bind-Executed :
      (job : Job) (jobs : List Job) (params : List ParamColumn) (s : Impl L)
      → IsBatch (job ∷ jobs) params s
      → (t : Impl L) × (bind L format atoi (suc fuel) (suc (length jobs)) params s ≡ (ok tt, t))
        × (t.ready ≡ true)
        × (t.complete ≡ true)
        × (t.group ≡ group_count params)
        × (t.rows_affected ≡ total atoi (pos 0) (job ∷ jobs))
  unfolding bind_all after_bind init total Executes AreRows
  bind-Executed job jobs params s v =
      let (c1, c2, c3, c4, res, send, mode, answer, status, names, oids, count, over, rest) =
        v.executes in
      let rounds = suc (length jobs) in
      let s0 : Impl L = record s {
        params = params;
        groups = group_count params;
        group = 0;
        rows_affected = pos 0;
      } in
      let s1 : Impl L = record s0 { conn = c2; data_ready = false } in
      let s2 : Impl L = record s1 { ready = true; nrows = 0; complete = false } in
      let sent : bind_row L (suc fuel) s0 ≡ (ok true, s1) =
        bind_row-group L (suc fuel) s0 (ok true, s1) (omega (arith, v.rows_are))
          (bind_group-sent L (suc fuel) s0 job.0 s.conn c1 c2
            (finish-not L (suc fuel) s0 v.not_ready refl) v.rows.0 v.not_immediate send mode) in
      let (t, ran, done) =
        run jobs s2 job.1 res c3 c4
          (record {
            ready = refl;
            waits = refl;
            not_immediate = v.not_immediate;
            has_params = v.has_params;
            groups = omega (arith, v.rows_are);
            rows = v.rows.1;
          })
          (record {
            answer = answer;
            status = status;
            no_names = names;
            no_oids = oids;
            count = count;
            over = over;
          })
          rest in
      (
        t,
        bind-Accepts L format atoi (suc fuel) rounds params s (record {
          as_many = v.as_many;
          none_if_immediate = λ i. ground (arith, v.not_immediate);
          once = λ _. v.not_ready;
        })
            ∙ after_ok (bind_row L (suc fuel) s0) true s1
                (after_bind L format atoi (suc fuel) rounds) sent
            ∙ ran,
        done.ready,
        done.complete,
        done.all_sent,
        done.affected,
      )
