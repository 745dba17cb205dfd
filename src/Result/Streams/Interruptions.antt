-- ===== src/Result/Streams/Interruptions.antt =====
-- The statement on interrupts of src/PqResultImpl.cpp at a query that is interrupted in its first wait.
use rpostgres.Prelude.{◌≡◌, refl, true, false, none, [], ◌∷◌, arith}
use rpostgres.Prelude.Int.{pos}
use rpostgres.Prelude.Outcome.{stop}
use rpostgres.Sample.{sample}
use rpostgres.Libpq.{Libpq, interrupted}
use rpostgres.Result.{Impl, row_params}
use rpostgres.Result.Run.{bind, group_count}
use rpostgres.Result.Failing.{now, by_signal}
use rpostgres.Result.Bound.{Puts, used}
use rpostgres.Result.Thrown.{an_interrupt, bind-Breaks}
use rpostgres.Result.Streams.{plain, stepped, echo, drained, null_and_t}

abbrev slow : Libpq
slow = record echo {
  is_busy = λ c. true;
  select = λ c. (interrupted, c);
  cancel = λ c. (false, drained true);
}

abbrev query : Impl slow
query = record {
  conn = drained true;
  check_interrupts = true;
  warnings = 0;
  sql = 65 ∷ [];
  immediate = false;
  cache = record stepped.cache { nparams = 1 };
  complete = true;
  ready = true;
  data_ready = true;
  nrows = 5;
  rows_affected = pos 0;
  params = [];
  group = 3;
  groups = 3;
  res = none;
}

abbrev query_puts : Puts slow 9 null_and_t query
unfolding group_count row_params
query_puts = record {
  not_immediate = refl;
  as_many = refl;
  once = λ e. absurd (omega (arith, e));
  has_rows = omega arith;
  free = drained true;
  put = record { rows = (none ∷ []) ∷ []; ended = false };
  sent = record { rows = (none ∷ []) ∷ []; ended = false };
  row = record { value = none; binary = false } ∷ [];
  freed = used (omega arith) refl;
  row_is = refl;
  sends = refl;
  by_rows = refl;
}

bind-Breaks_example :
    (t : Impl slow) × (bind slow plain sample.atoi 9 11 null_and_t query ≡ (stop "Interrupted.", t))
    × (t.complete ≡ true)
    × (t.conn ≡ drained true)
unfolding query_puts
bind-Breaks_example =
    bind-Breaks slow 9 11 plain sample.atoi null_and_t query "Interrupted." true (drained true)
      query_puts
      (an_interrupt refl (record {
        consumed = record { rows = (none ∷ []) ∷ []; ended = false };
        waited = record { rows = (none ∷ []) ∷ []; ended = false };
        cancelled = false;
        consumes = refl;
        busy = refl;
        has_socket = refl;
        halted = now (by_signal refl);
        up = refl;
        can_cancel = refl;
        cancels = refl;
      }))
