-- ===== src/Result/Begun.antt =====
-- A query without parameters after the constructor of src/PqResultImpl.cpp: the first row is there.
use Prim.Native.String.{String}
use rpostgres.Prelude.{ℕ, ◌≡◌, refl, sym, ◌∙◌, ap, Bool, true, false, Option, List, [], ◌==◌, arith}
use rpostgres.Prelude.Int.{ℤ}
use rpostgres.Prelude.Outcome.{ok}
use rpostgres.Prelude.Step.{after_ok, when}
use rpostgres.Runtime.{Bytes}
use rpostgres.Libpq.{Libpq, PgResult}
use rpostgres.Result.{Impl, row_params}
use rpostgres.Result.Run.{bind, prepare_query, new_impl, group_count}
use rpostgres.Result.Bound.{Asks, unbound, Bound, bind-Bound}
use rpostgres.Result.Start.{Answers, fresh, prepared, prepare_query-new}

no_row : (n : ℕ) → n ≡ 0 → row_params n [] 0 ≡ ok []
unfolding row_params
no_row n e = rw e refl

is_zero : (n : ℕ) → n ≡ 0 → (n == 0) ≡ true
is_zero n e = ground (arith, e)

module _ (L : Libpq) (format : String → List ℤ → String) (atoi : Bytes → ℤ) (fuel most : ℕ) where
  open L use {Conn}

  module _ (checks : Bool) (spec : PgResult) (sql : Bytes) (c : Conn)
      (rows : List (List (Option Bytes))) (a : Answers L fuel most checks spec rows sql c) where
    -- The query that is prepared.
    abbrev pub ready_to_bind : Impl L
    ready_to_bind = prepared L format atoi fuel checks a.described sql spec

    prepared-Asks : Asks L fuel most rows [] ready_to_bind
    unfolding group_count
    prepared-Asks = record {
      puts = record {
        not_immediate = refl;
        as_many = sym a.no_params;
        once = λ _. refl;
        has_rows = omega arith;
        free = a.described;
        put = (L.send_query_prepared [] a.described).1;
        sent = a.sent;
        row = [];
        freed = unbound;
        row_is = no_row spec.nparams a.no_params;
        sends = ap (λ b. (b, (L.send_query_prepared [] a.described).1)) a.sends;
        by_rows = a.by_rows;
      };
      coming = a.coming;
    }

    -- The constructor of a query that goes well leaves it with its rows still to give.
    pub new_impl-Bound :
        (t : Impl L) × (new_impl L format atoi fuel most c checks sql false ≡ (ok tt, t))
        × Bound L fuel most rows ready_to_bind t
    unfolding new_impl
    new_impl-Bound =
        let (t, e, b) = bind-Bound L fuel format atoi most [] ready_to_bind rows prepared-Asks in
        (
          t,
          after_ok (prepare_query L format atoi fuel (fresh L checks c sql)) tt ready_to_bind
                (λ _ u. when (u.cache.nparams == 0) (bind L format atoi fuel most []) u)
                (prepare_query-new L format atoi fuel checks most spec rows sql c a)
              ∙ ap (λ b'. when b' (bind L format atoi fuel most []) ready_to_bind)
                  (is_zero spec.nparams a.no_params)
              ∙ e,
          b,
        )
