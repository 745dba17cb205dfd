-- ===== src/Result/Guards.antt =====
-- Which parameters `bind` of src/PqResultImpl.cpp accepts.
use Prim.Native.String.{String}
use rpostgres.Prelude.{ℕ, ◌≡◌, true, false, List, arith, length}
use rpostgres.Prelude.Int.{ℤ}
use rpostgres.Prelude.Outcome.{Outcome, ok, stop, undefined}
use rpostgres.Runtime.{Bytes}
use rpostgres.Libpq.{Libpq}
use rpostgres.Result.{ParamColumn, Impl}
use rpostgres.Result.Run.{bind, bind_all}

unfoldable pub IsStop : {A : Type 0} → Outcome A → Type 0
IsStop (ok a) = ⊥
IsStop (stop message) = Unit
IsStop undefined = ⊥

module _ (L : Libpq) (format : String → List ℤ → String) (atoi : Bytes → ℤ) where
  -- The parameters are as many as the query has, which is none for an immediate query, and a query
  -- without parameters is bound only once.
  pub record Accepts (n : ℕ) (s : Impl L) : Type 0 where
    pub as_many : n ≡ s.cache.nparams
    pub none_if_immediate : s.immediate ≡ true → n ≡ 0
    pub once : n ≡ 0 → s.ready ≡ false

  -- `bind` runs the query with parameters that it accepts: no guard is in the way.
  pub bind-Accepts :
      (fuel rounds : ℕ) (params : List ParamColumn) (s : Impl L)
      → Accepts (length params) s
      → bind L format atoi fuel rounds params s ≡ bind_all L format atoi fuel rounds params s
  unfolding bind
  bind-Accepts fuel rounds params s h = ground arith

  -- `bind` throws for parameters that it does not accept, and leaves the result as it was.
  pub bind-IsStop :
      (fuel rounds : ℕ) (params : List ParamColumn) (s : Impl L)
      → ¬ (Accepts (length params) s)
      → IsStop (bind L format atoi fuel rounds params s).0
        × ((bind L format atoi fuel rounds params s).1 ≡ s)
  unfolding bind IsStop
  bind-IsStop fuel rounds params s h = ground arith
