-- ===== src/Result/Uses/Rows.antt =====
-- What `fetch` of src/PqResultImpl.cpp does with the PGconn of a result, on a traced connection.
use Prim.Native.String.{String}
use rpostgres.Prelude.{
  ℕ, zero, suc, ◌+◌, ◌<◌, ◌≡◌, ap, not, sym, subst, Bool, true, false, List, ◌==◌, ◌&&◌, arith,
  length,
}
use rpostgres.Prelude.Int.{ℤ, pos, ◌==ℤ◌}
use rpostgres.Prelude.Outcome.{ok}
use rpostgres.Prelude.Step.{Step, continue, modify, when}
use rpostgres.Prelude.Leaves.{Leaves, continue-Leaves, if-Leaves, if_false-Leaves, lift-Leaves}
use rpostgres.Runtime.{Runtime}
use rpostgres.Libpq.{Libpq}
use rpostgres.Libpq.Traced.{traced}
use rpostgres.Frame.{Frame, set_row, advance, get_data}
use rpostgres.Result.{Impl}
use rpostgres.Result.Run.{step}
use rpostgres.Result.Fetch.{
  current_row, add_oids, columns_of, add_to_fetched, fetch_row, fetch_loop, fetch_rows, fetch,
}
use rpostgres.Result.Uses.{UsedBy}
use rpostgres.Result.Uses.Loop.{step-Used, step-uses}

module _ (r : Runtime) (L : Libpq) (format : String → List ℤ → String) (fuel rounds : ℕ) where
  open r use {Double, atoi}

  abbrev T : Libpq
  T = traced L

  abbrev Kept : Impl T → Type 0
  Kept = UsedBy L

  -- What follows `set_row` in a pass of the loop.
  abbrev after_row : Frame Double → Step (Impl T) (Frame Double × Bool)
  after_row f s =
      continue (step T format atoi fuel rounds s)
        (λ _ t. (ok (advance f), record t { nrows = t.nrows + 1 }))

  after_row-Leaves :
      (f : Frame Double) (s : Impl T)
      → Leaves Kept (step T format atoi fuel rounds s)
      → Leaves Kept (after_row f s)
  after_row-Leaves f s h =
      continue-Leaves Kept (step T format atoi fuel rounds s)
        (λ _ t. (ok (advance f), record t { nrows = t.nrows + 1 })) h (λ _ t v. v)

  fetch_row-Used :
      (f : Frame Double) (s : Impl T) → Kept s → Leaves Kept (fetch_row r T format fuel rounds f s)
  unfolding fetch_row
  fetch_row-Used f s u =
      continue-Leaves Kept (set_row r f (current_row s.res), s) after_row u
        (λ f' t v. after_row-Leaves f' t (step-Used L format atoi fuel rounds t v))

  fetch_row-uses :
      (f f' : Frame Double) (s : Impl T)
      → 0 < rounds
      → set_row r f (current_row s.res) ≡ ok f'
      → Leaves Kept (fetch_row r T format fuel rounds f s)
  unfolding fetch_row
  fetch_row-uses f f' s h e =
      lift-Leaves Kept (set_row r f (current_row s.res)) f' s after_row e
        (after_row-Leaves f' s (step-uses L format atoi fuel rounds s h))

  fetch_loop-Used :
      (left : ℕ) (f : Frame Double) (s : Impl T)
      → Kept s
      → Leaves Kept (fetch_loop r T format fuel rounds left f s)
  unfolding fetch_loop
  fetch_loop-Used zero f s u = u
  fetch_loop-Used (suc left) f s u =
      if-Leaves Kept s.complete (ok f, s) _ u
        (continue-Leaves Kept (fetch_row r T format fuel rounds f s) _ (fetch_row-Used f s u)
          (λ (f', room) t v.
            if-Leaves Kept room (fetch_loop r T format fuel rounds left f' t) (ok f', t)
              (fetch_loop-Used left f' t v) v))

  fetch_loop-uses :
      (left : ℕ) (f f' : Frame Double) (s : Impl T)
      → 0 < rounds
      → 0 < left
      → s.complete ≡ false
      → set_row r f (current_row s.res) ≡ ok f'
      → Leaves Kept (fetch_loop r T format fuel rounds left f s)
  unfolding fetch_loop
  fetch_loop-uses zero f f' s h z more e = ground arith
  fetch_loop-uses (suc left) f f' s h z more e =
      if_false-Leaves Kept s.complete (ok f, s) _ more
        (continue-Leaves Kept (fetch_row r T format fuel rounds f s) _ (fetch_row-uses f f' s h e)
          (λ (f', room) t v.
            if-Leaves Kept room (fetch_loop r T format fuel rounds left f' t) (ok f', t)
              (fetch_loop-Used left f' t v) v))

  add_to_fetched-Used :
      (f : Frame Double) (s : Impl T) → Kept s → Leaves Kept (add_to_fetched r T format f s)
  add_to_fetched-Used f s u =
      continue-Leaves Kept (get_data r f, s) (λ d t. (ok (add_oids r T format d t), t)) u
        (λ d t v. v)

  fetch_rows-uses :
      (left : ℕ) (n_max : ℤ) (f' : Frame Double) (s : Impl T)
      → 0 < rounds
      → 0 < left
      → s.complete ≡ false
      → set_row r (columns_of r T format s n_max) (current_row s.res) ≡ ok f'
      → Leaves Kept (fetch_rows r T format fuel rounds left n_max s)
  unfolding fetch_rows
  fetch_rows-uses left n_max f' s h z more e =
      let warn : Step (Impl T) (Unit {0}) = modify (λ t. record t { warnings = t.warnings + 1 }) in
      let loop = fetch_loop r T format fuel rounds left (columns_of r T format s n_max) in
      let add = add_to_fetched r T format in
      subst
        (λ b.
          Leaves Kept
            (continue (continue (when (b && length s.cache.types == 0) warn s) (λ _. loop)) add))
        (sym more)
        (continue-Leaves Kept (loop s) add
          (fetch_loop-uses left (columns_of r T format s n_max) f' s h z more e)
          add_to_fetched-Used)

  -- Where there is a row to fetch, and it can be set, `fetch` passes the PGconn to libpq.
  pub fetch-uses :
      (left : ℕ) (n_max : ℤ) (f' : Frame Double) (s : Impl T)
      → 0 < rounds
      → 0 < left
      → s.ready ≡ true
      → s.complete ≡ false
      → (n_max ==ℤ pos 0) ≡ false
      → set_row r (columns_of r T format s n_max) (current_row s.res) ≡ ok f'
      → Leaves Kept (fetch r T format fuel rounds left n_max s)
  unfolding fetch
  fetch-uses left n_max f' s h z ready more n e =
      if_false-Leaves Kept (not s.ready) _ _ (ap not ready)
        (if_false-Leaves Kept (n_max ==ℤ pos 0) _ _ n (fetch_rows-uses left n_max f' s h z more e))
