-- ===== src/Result/Examples.antt =====
-- The statements on src/PqResultImpl.cpp and src/DbResult.cpp at two columns of parameters and at a
-- connection whose data come in two rounds.
use Prim.Native.String.{String}
use rpostgres.Prelude.{ℕ, ◌-◌, ◌≡◌, refl, true, false, none, some, List, [], ◌∷◌, ltb, arith}
use rpostgres.Prelude.Int.{ℤ, pos}
use rpostgres.Prelude.Outcome.{ok}
use rpostgres.Runtime.{Bytes}
use rpostgres.Libpq.{Libpq, traffic}
use rpostgres.Libpq.Link.{Link, link, one_row, server}
use rpostgres.Result.{ParamColumn, Impl, row_params, validate_from, validate_params}
use rpostgres.Result.Params.{Rows, row_params-validate_params}
use rpostgres.Result.Guards.{Accepts, IsStop, bind-IsStop}
use rpostgres.Result.Run.{bind, group_count, wait_for_data, after_select}
use rpostgres.Result.Waits.{unchecked}
use rpostgres.Result.Reads.{after_wait}
use rpostgres.Result.Batch.{Job, AreRows, Executes, total}
use rpostgres.Result.Groups.{IsBatch, bind-Executed}
use rpostgres.Result.Waiting.{IsAnswer, Arrives, wait_for_data-IsAnswer}

abbrev plain : String → List ℤ → String
plain message numbers = message

-- The characters `a`, NA and the raw vectors 0, 255.
abbrev letters : ParamColumn
letters = record { is_list = false; values = some (97 ∷ []) ∷ none ∷ [] }

abbrev raws : ParamColumn
raws = record { is_list = true; values = some (0 ∷ []) ∷ some (255 ∷ []) ∷ [] }

letters-raws : validate_params plain (letters ∷ raws ∷ []) ≡ ok tt
unfolding validate_params validate_from
letters-raws = refl

row_params-validate_params_example : Rows (letters ∷ raws ∷ []) 1
row_params-validate_params_example =
    row_params-validate_params plain letters (raws ∷ []) 1 letters-raws (omega arith)

abbrev no_number : Bytes → ℤ
no_number text = pos 0

abbrev slow : Libpq
slow = record link {
  is_busy = λ c. ltb 0 c.waiting;
  select = λ c. (traffic, record c { waiting = c.waiting - 1 });
}

abbrev rounds : Link → ℕ
rounds c = c.waiting

slow-Arrives : Arrives slow plain no_number rounds
unfolding Arrives after_select
slow-Arrives c h = ground arith

abbrev two_rounds : Link
two_rounds = record { up = true; waiting = 2; sent = [] }

wait_for_data-IsAnswer_example :
    IsAnswer slow plain no_number (wait_for_data slow plain no_number 3 true two_rounds)
wait_for_data-IsAnswer_example =
    wait_for_data-IsAnswer slow plain no_number rounds slow-Arrives 3 two_rounds (omega arith)

-- A query with a parameter, prepared and not yet bound.
abbrev prepared : Impl link
prepared = record {
  conn = two_rounds;
  check_interrupts = false;
  warnings = 0;
  sql = 36 ∷ 49 ∷ [];
  immediate = false;
  cache = record {
    initialized = false;
    names = [];
    oids = [];
    types = [];
    known = [];
    ncols = 0;
    nparams = 1;
  };
  complete = false;
  ready = false;
  data_ready = false;
  nrows = 0;
  rows_affected = pos 0;
  params = [];
  group = 0;
  groups = 0;
  res = none;
}

one_accepted : Accepts link plain no_number 1 prepared
one_accepted = record {
  as_many = refl;
  none_if_immediate = λ e. ground arith;
  once = λ e. ground arith;
}

two_refused : ¬ (Accepts link plain no_number 2 prepared)
two_refused a = absurd (omega (arith, a.as_many))

bind-IsStop_example :
    IsStop (bind link plain no_number 3 3 (letters ∷ raws ∷ []) prepared).0
    × ((bind link plain no_number 3 3 (letters ∷ raws ∷ []) prepared).1 ≡ prepared)
bind-IsStop_example =
    bind-IsStop link plain no_number 3 3 (letters ∷ raws ∷ []) prepared two_refused

abbrev idle : Link
idle = record { up = true; waiting = 0; sent = [] }

abbrev unbound : Impl server
unbound = record {
  conn = idle;
  check_interrupts = false;
  warnings = 0;
  sql = 36 ∷ 49 ∷ [];
  immediate = false;
  cache = prepared.cache;
  complete = false;
  ready = false;
  data_ready = false;
  nrows = 0;
  rows_affected = pos 0;
  params = [];
  group = 0;
  groups = 0;
  res = none;
}

abbrev counts_one : Bytes → ℤ
counts_one text = pos 1

-- The character `a` and NULL, each of which inserts a row.
abbrev text_job : Job
text_job = (record { value = some (97 ∷ []); binary = false } ∷ [], 49 ∷ [])

abbrev null_job : Job
null_job = (record { value = none; binary = false } ∷ [], 49 ∷ [])

abbrev answered : Link
answered = record idle { waiting = 1 }

letters-IsBatch :
    IsBatch server plain counts_one 8 (text_job ∷ null_job ∷ []) (letters ∷ []) unbound
unfolding AreRows Executes row_params group_count
letters-IsBatch = record {
  not_ready = refl;
  not_immediate = refl;
  has_params = refl;
  as_many = refl;
  rows_are = refl;
  rows = (refl, (refl, tt));
  executes = (
    answered,
    answered,
    idle,
    idle,
    one_row,
    refl,
    refl,
    after_wait unchecked refl,
    refl,
    refl,
    refl,
    refl,
    refl,
    (
      answered,
      answered,
      idle,
      idle,
      one_row,
      refl,
      refl,
      after_wait unchecked refl,
      refl,
      refl,
      refl,
      refl,
      refl,
      tt,
    ),
  );
}

bind-Executed_example :
    (t : Impl server) × (bind server plain counts_one 9 2 (letters ∷ []) unbound ≡ (ok tt, t))
    × (t.ready ≡ true)
    × (t.complete ≡ true)
    × (t.group ≡ group_count (letters ∷ []))
    × (t.rows_affected ≡ total counts_one (pos 0) (text_job ∷ null_job ∷ []))
bind-Executed_example =
    bind-Executed server plain counts_one 8 text_job (null_job ∷ []) (letters ∷ []) unbound
      letters-IsBatch
