-- ===== src/Result/Batch.antt =====
-- A query of src/PqResultImpl.cpp that is run for several rows of parameters, one after the other.
use Prim.Native.String.{String}
use rpostgres.Prelude.{
  ℕ, ◌+◌, ◌≡◌, ◌∙◌, Bool, true, false, refl, none, some, List, [], ◌∷◌, ◌==◌, arith, inl, length,
}
use rpostgres.Prelude.Int.{ℤ, ◌+ℤ◌}
use rpostgres.Prelude.Outcome.{ok}
use rpostgres.Runtime.{Bytes}
use rpostgres.Libpq.{Libpq, PgResult, Param, command_ok}
use rpostgres.Cache.{Cache}
use rpostgres.Cache.Fits.{Fits}
use rpostgres.Result.{ParamColumn, Impl, row_params}
use rpostgres.Result.Run.{step_run, step_done}
use rpostgres.Result.Reads.{Reads, read, step_run-Reads, on_result-command}

-- A row of parameters and the count that the server answers with.
abbrev pub Job : Type 0
Job = List Param × Bytes

-- The rows of parameters from row `i` on.
unfoldable pub AreRows : ℕ → List ParamColumn → ℕ → List Job → Type 0
AreRows n params i [] = Unit
AreRows n params i (job ∷ jobs) = (row_params n params i ≡ ok job.0) × AreRows n params (i + 1) jobs

-- The sum of the counts.
unfoldable pub total : (Bytes → ℤ) → ℤ → List Job → ℤ
total atoi sum [] = sum
total atoi sum (job ∷ jobs) = total atoi (sum +ℤ atoi job.1) jobs

not_zero : (n : ℕ) → (n == 0) ≡ false → ¬ (n ≡ 0)
not_zero n h z = ground (arith, h, z)

-- A result without columns fits the cache of a query with parameters.
Fits-none :
    (res : PgResult) (c : Cache)
    → res.names ≡ []
    → res.oids ≡ []
    → (c.nparams == 0) ≡ false
    → Fits res c
Fits-none res c n o p = record {
  columns = inl (n, o);
  no_params = λ z. absurd (not_zero c.nparams p z);
}

module _ (L : Libpq) (fuel : ℕ) where
  open L use {Conn, get_result, send_query_prepared, set_single_row_mode}

  -- What libpq documents of a statement without columns that is sent for one row after the other:
  -- each is answered by PGRES_COMMAND_OK with its count, and then NULL.
  unfoldable pub Executes : Bool → List Job → Conn → Type 0
  Executes checks [] c = Unit
  Executes checks (job ∷ jobs) c =
      (c1 c2 c3 c4 : Conn) × (res : PgResult) × (send_query_prepared job.0 c ≡ (true, c1))
      × (set_single_row_mode c1 ≡ (true, c2))
      × Reads L fuel checks true c2 (some res) c3
      × (res.status ≡ command_ok)
      × (res.names ≡ [])
      × (res.oids ≡ [])
      × (res.cmd_tuples ≡ job.1)
      × (get_result c3 ≡ (none, c4))
      × Executes checks jobs c4

  module _ (format : String → List ℤ → String) (atoi : Bytes → ℤ) where
    -- A row is sent, and the rows `jobs` are to be sent after it.
    pub record Sent (jobs : List Job) (s : Impl L) : Type 0 where
      pub ready : s.ready ≡ true
      pub waits : s.data_ready ≡ false
      pub not_immediate : s.immediate ≡ false
      pub has_params : (s.cache.nparams == 0) ≡ false
      pub groups : s.groups ≡ s.group + 1 + length jobs
      pub rows : AreRows s.cache.nparams s.params (s.group + 1) jobs

    -- The query is complete, with all rows sent, and what the server counted.
    pub record Executed (jobs : List Job) (sum : ℤ) (s t : Impl L) : Type 0 where
      pub complete : t.complete ≡ true
      pub all_sent : t.group ≡ s.groups
      pub affected : t.rows_affected ≡ total atoi sum jobs
      pub ready : t.ready ≡ s.ready
      pub cache : t.cache ≡ s.cache

    pub step_run-command :
        (s : Impl L) (res : PgResult) (c : Conn) (jobs : List Job)
        → Sent jobs s
        → Reads L fuel s.check_interrupts true s.conn (some res) c
        → res.status ≡ command_ok
        → res.names ≡ []
        → res.oids ≡ []
        → step_run L format atoi fuel s
          ≡ step_done L format atoi fuel res (read L fuel format atoi s c (some res))
    step_run-command s res c jobs v g e n o =
        step_run-Reads L fuel format atoi true s (some res) s.conn c v.waits refl g
        ∙ on_result-command L fuel format atoi true (read L fuel format atoi s c (some res)) res e
            (λ first. Fits-none res s.cache n o v.has_params)
