-- ===== src/Result/Progress.antt =====
-- What is known of a query of src/PqResultImpl.cpp after a fetch: whether it is complete, and how many
-- rows were fetched from it.
use Prim.Native.String.{String}
use rpostgres.Prelude.{
  ℕ, zero, suc, ◌+◌, ◌-◌, ◌<◌, ◌≤◌, ◌==◌, ◌≡◌, sym, ◌∙◌, ap, false, Option, List, [], ◌∷◌, arith,
  length, drop,
}
use rpostgres.Prelude.Int.{ℤ, pos, ◌==ℤ◌}
use rpostgres.Prelude.Outcome.{ok}
use rpostgres.Runtime.{Runtime, Bytes}
use rpostgres.Libpq.{Libpq}
use rpostgres.Frame.Rows.{Typed, HaveRows, rows_of}
use rpostgres.Frame.Slices.{length-rows_of}
use rpostgres.Result.{Impl}
use rpostgres.Result.Fetch.{Fetched, fetch}
use rpostgres.Result.Delivery.{Holds}
use rpostgres.Result.Fetching.{Took}
use rpostgres.Result.Tables.{rows_taken, rows_taken-le, HasTable, fetch-Fetches}

length-drop : {A : Type 0} (k : ℕ) (xs : List A) → length (drop k xs) ≡ length xs - k
length-drop zero xs = omega arith
length-drop (suc k) [] = omega arith
length-drop (suc k) (x ∷ xs) = length-drop k xs ∙ omega arith

none_left : (n k : ℕ) → k ≤ n → (n - k == 0) ≡ (k == n)
none_left n k h = ground arith

module _ (L : Libpq) (fuel rounds : ℕ) where
  -- A query is complete exactly if it has no rows to give.
  Holds-complete :
      (rows : List (List (Option Bytes))) (s : Impl L)
      → Holds L fuel rounds rows s
      → s.complete ≡ (length rows == 0)
  unfolding Holds
  Holds-complete [] s h = h
  Holds-complete (row ∷ rows) s h = h.0 ∙ ground arith

module _ (r : Runtime) (L : Libpq) (format : String → List ℤ → String) (fuel rounds : ℕ) where
  open r use {Double}

  -- After `k` rows of `n` are taken, the query is complete exactly if they were all.
  pub Took-complete :
      (col : Typed r) (cols : List (Typed r)) (n : ℕ) (have : HaveRows r n (col ∷ cols)) (k : ℕ)
      (s t : Impl L)
      → k ≤ n
      → Took r L format fuel rounds (rows_of r n (col ∷ cols)) k s t
      → t.complete ≡ (k == n)
  Took-complete col cols n have k s t h took =
      let rows = rows_of r n (col ∷ cols) in
      Holds-complete L fuel rounds (drop k rows) t took.rest
      ∙ ap (λ (m : ℕ). m == 0)
          (length-drop k rows ∙ ap (λ (m : ℕ). m - k) (length-rows_of r n (col ∷ cols) have))
      ∙ none_left n k h

  -- Where a query that is ready has a table's `n` rows still to give, a fetch of a number of rows that
  -- is not 0, with fuel for more than `n` rows, succeeds, and afterwards the query is complete exactly
  -- if the data frame has all `n` rows, and has counted the rows of the data frame.
  pub fetch-complete :
      (col : Typed r) (cols : List (Typed r)) (n : ℕ) (have : HaveRows r n (col ∷ cols)) (left : ℕ)
      (n_max : ℤ) (s : Impl L)
      → n < left
      → (n_max ==ℤ pos 0) ≡ false
      → HasTable r L format fuel rounds col cols n have s
      → (d : Fetched Double) × (t : Impl L) × (fetch r L format fuel rounds left n_max s
          ≡ (ok d, t))
        × (t.complete ≡ (d.frame.row_count == n))
        × (t.nrows ≡ s.nrows + d.frame.row_count)
  fetch-complete col cols n have left n_max s h z has =
      let f = fetch-Fetches r L format fuel rounds col cols n have left n_max s h z has in
      let k = rows_taken n_max n in
      (
        f.fetched,
        f.after,
        f.returns,
        Took-complete col cols n have k s f.after (rows_taken-le n_max n) f.took
            ∙ ap (λ (m : ℕ). m == n) (sym f.row_count),
        f.took.counted ∙ ap (λ m. s.nrows + m) (sym f.row_count),
      )
