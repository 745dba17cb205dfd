-- ===== src/Result/Fetching.antt =====
-- What `fetch` of src/PqResultImpl.cpp takes of a query whose rows libpq delivers one by one.
use Prim.Native.String.{String}
use rpostgres.Prelude.{
  ℕ, zero, suc, ◌+◌, ◌-◌, ◌<◌, ◌≡◌, refl, sym, ◌∙◌, ap, subst, Bool, true, false, ◌||◌, Option,
  List, [], ◌∷◌, arith, if◌then◌else◌, length, take, drop, min, Bool-cases, inl, inr,
}
use rpostgres.Prelude.Int.{ℤ, pos, ltb_ℤ, pos_part}
use rpostgres.Prelude.Outcome.{Outcome, ok}
use rpostgres.Prelude.Step.{after_ok}
use rpostgres.Runtime.{Runtime, Bytes}
use rpostgres.Libpq.{Libpq}
use rpostgres.Frame.{Frame, Field, set_row, advance}
use rpostgres.Frame.Rows.{set_rows, set_rows-next}
use rpostgres.Result.{Impl}
use rpostgres.Result.Run.{step}
use rpostgres.Result.Fetch.{current_row, fetch_row, fetch_loop}
use rpostgres.Result.Delivery.{Holds}
use rpostgres.Result.Arrivals.{step-Holds}

-- Whether there is room for a row, and how many of the available rows there is room for.
unfoldable pub has_room : {D : Type 0} → Frame D → Bool
has_room f = ltb_ℤ f.n_max (pos 0) || ltb_ℤ (pos f.i) f.n_max

unfoldable pub fit : {D : Type 0} → Frame D → ℕ → ℕ
fit f available =
    if ltb_ℤ f.n_max (pos 0) then available else min (pos_part f.n_max - f.i) available

fit-none : {D : Type 0} (f : Frame D) → fit f 0 ≡ 0
unfolding fit
fit-none f = ground arith

fit-next :
    {D : Type 0} (f : Frame D) (fields : List (Field D)) (n : ℕ)
    → has_room f ≡ true
    → fit f (suc n) ≡ suc (fit (record f { i = f.i + 1; fields = fields }) n)
unfolding fit has_room
fit-next f fields n h = ground arith

fit-full : {D : Type 0} (f : Frame D) (n : ℕ) → has_room f ≡ false → fit f n ≡ 0
unfolding fit has_room
fit-full f n h = ground arith

-- What fetching leaves as it was.
abbrev pub Same : {L : Libpq} → Impl L → Impl L → Type 0
Same s t = (t.cache ≡ s.cache) × (t.ready ≡ s.ready)

Holds-nrows :
    (L : Libpq) (fuel most : ℕ) (rows : List (List (Option Bytes))) (s : Impl L) (n : ℕ)
    → Holds L fuel most rows s
    → Holds L fuel most rows (record s { nrows = n })
unfolding Holds
Holds-nrows L fuel most [] s n h = h
Holds-nrows L fuel most (row ∷ rows) s n h = h

drop_none : {A : Type 0} (xs : List A) → drop 0 xs ≡ xs
drop_none [] = refl
drop_none (x ∷ xs) = refl

module _ (r : Runtime) (L : Libpq) (format : String → List ℤ → String) (fuel rounds : ℕ) where
  open r use {Double, atoi}

  abbrev the_row : Frame Double → Impl L → Outcome (Frame Double × Bool) × Impl L
  the_row = fetch_row r L format fuel rounds

  fetch_row-eq :
      (f g : Frame Double) (s t : Impl L)
      → set_row r f (current_row s.res) ≡ ok g
      → step L format atoi fuel rounds s ≡ (ok tt, t)
      → the_row f s ≡ (ok (advance g), record t { nrows = t.nrows + 1 })
  unfolding fetch_row
  fetch_row-eq f g s t e d = rw e (after_ok (step L format atoi fuel rounds s) tt t _ d)

  fetch_row-Holds :
      (f : Frame Double) (fields : List (Field Double)) (row : List (Option Bytes))
      (rows : List (List (Option Bytes))) (s : Impl L)
      → Holds L fuel rounds (row ∷ rows) s
      → set_row r f row ≡ ok (record f { fields = fields })
      → (t : Impl L) × (the_row f s ≡ (
        ok (
          record f { i = f.i + 1; fields = fields },
          has_room (record f { i = f.i + 1; fields = fields }),
        ),
        t,
      ))
        × Holds L fuel rounds rows t
        × (t.nrows ≡ s.nrows + 1)
        × Same s t
  unfolding Holds advance has_room
  fetch_row-Holds f fields row rows s h e =
      let a = step-Holds L fuel format atoi rounds row rows s h in
      let t = a.there in
      let g : Frame Double = record f { fields = fields } in
      (
        record t { nrows = t.nrows + 1 },
        fetch_row-eq f g s t (subst (λ cells. set_row r f cells ≡ ok g) (sym h.3) e) a.ends,
        Holds-nrows L fuel rounds rows t (t.nrows + 1) a.holds,
        ap (λ n. n + 1) a.kept.nrows,
        (a.kept.cache, a.kept.ready),
      )

  abbrev the_loop : ℕ → Frame Double → Impl L → Outcome (Frame Double) × Impl L
  the_loop = fetch_loop r L format fuel rounds

  fetch_loop-done :
      (left : ℕ) (f : Frame Double) (s : Impl L)
      → s.complete ≡ true
      → the_loop (suc left) f s ≡ (ok f, s)
  unfolding fetch_loop
  fetch_loop-done left f s h = simp h

  fetch_loop-more :
      (left : ℕ) (f g : Frame Double) (s t : Impl L)
      → s.complete ≡ false
      → the_row f s ≡ (ok (g, true), t)
      → the_loop (suc left) f s ≡ the_loop left g t
  unfolding fetch_loop
  fetch_loop-more left f g s t h e = simp h (simp e)

  fetch_loop-full :
      (left : ℕ) (f g : Frame Double) (s t : Impl L)
      → s.complete ≡ false
      → the_row f s ≡ (ok (g, false), t)
      → the_loop (suc left) f s ≡ (ok g, t)
  unfolding fetch_loop
  fetch_loop-full left f g s t h e = simp h (simp e)

  -- What a loop of `fetch_rows` that takes `k` of the rows leaves.
  pub record Took (rows : List (List (Option Bytes))) (k : ℕ) (s t : Impl L) : Type 0 where
    pub rest : Holds L fuel rounds (drop k rows) t
    pub counted : t.nrows ≡ s.nrows + k
    pub same : Same s t

  -- A loop that ends with the frame and the rows taken.
  abbrev pub Ends :
      ℕ → List (List (Option Bytes)) → ℕ → Frame Double → Frame Double → Impl L → Type 0
  Ends left rows k f f' s = (t : Impl L) × (the_loop left f s ≡ (ok f', t)) × Took rows k s t

  Took-next :
      (row : List (Option Bytes)) (rows : List (List (Option Bytes))) (k : ℕ) (s t u : Impl L)
      → t.nrows ≡ s.nrows + 1
      → Same s t
      → Took rows k t u
      → Took (row ∷ rows) (suc k) s u
  Took-next row rows k s t u n c took = record {
    rest = took.rest;
    counted = omega (arith, n, took.counted);
    same = (took.same.0 ∙ c.0, took.same.1 ∙ c.1);
  }

  Took-none :
      (rows : List (List (Option Bytes))) (s : Impl L)
      → Holds L fuel rounds rows s
      → Took rows 0 s s
  Took-none rows s h = record {
    rest = subst (λ rs. Holds L fuel rounds rs s) (sym (drop_none rows)) h;
    counted = omega arith;
    same = (refl, refl);
  }

  Ends-done :
      (left : ℕ) (f f' : Frame Double) (s : Impl L)
      → Holds L fuel rounds [] s
      → set_rows r f [] ≡ ok f'
      → Ends (suc left) [] 0 f f' s
  unfolding Holds set_rows
  Ends-done left f f' s h e = (s, fetch_loop-done left f s h ∙ ap (λ o. (o, s)) e, Took-none [] s h)

  Ends-full :
      (left k : ℕ) (f f1 f' : Frame Double) (row : List (Option Bytes))
      (rows : List (List (Option Bytes))) (s t : Impl L)
      → s.complete ≡ false
      → the_row f s ≡ (ok (f1, has_room f1), t)
      → has_room f1 ≡ false
      → k ≡ 0
      → Holds L fuel rounds rows t
      → t.nrows ≡ s.nrows + 1
      → Same s t
      → set_rows r f1 (take k rows) ≡ ok f'
      → Ends (suc left) (row ∷ rows) (suc k) f f' s
  unfolding set_rows
  Ends-full left k f f1 f' row rows s t live d full none_fit held n c e = (
    t,
    fetch_loop-full left f f1 s t live (subst (λ b. the_row f s ≡ (ok (f1, b), t)) full d)
        ∙ ap (λ o. (o, t)) (subst (λ j. set_rows r f1 (take j rows) ≡ ok f') none_fit e),
    Took-next row rows k s t t n c
        (subst (λ j. Took rows j t t) (sym none_fit) (Took-none rows t held)),
  )

  Ends-more :
      (left k : ℕ) (f f1 f' : Frame Double) (row : List (Option Bytes))
      (rows : List (List (Option Bytes))) (s t : Impl L)
      → s.complete ≡ false
      → the_row f s ≡ (ok (f1, has_room f1), t)
      → has_room f1 ≡ true
      → t.nrows ≡ s.nrows + 1
      → Same s t
      → Ends left rows k f1 f' t
      → Ends (suc left) (row ∷ rows) (suc k) f f' s
  Ends-more left k f f1 f' row rows s t live d more n c (u, d', took) = (
    u,
    fetch_loop-more left f f1 s t live (subst (λ b. the_row f s ≡ (ok (f1, b), t)) more d) ∙ d',
    Took-next row rows k s t u n c took,
  )

  -- The loop takes the rows that there is room for, and leaves the others.
  pub fetch_loop-Took :
      (left : ℕ) (rows : List (List (Option Bytes))) (f f' : Frame Double) (s : Impl L)
      → length rows < left
      → has_room f ≡ true
      → Holds L fuel rounds rows s
      → set_rows r f (take (fit f (length rows)) rows) ≡ ok f'
      → Ends left rows (fit f (length rows)) f f' s
  unfolding fit Holds
  fetch_loop-Took zero rows f f' s n room h e = absurd (omega (arith, n))
  fetch_loop-Took (suc left) [] f f' s n room h e =
      subst (λ k. set_rows r f (take k []) ≡ ok f' → Ends (suc left) [] k f f' s) (sym (fit-none f))
        (Ends-done left f f' s h) e
  fetch_loop-Took (suc left) (row ∷ rows) f f' s n room h e =
      let k = fit (record f { i = f.i + 1 }) (length rows) in
      let step_on : set_rows r f (row ∷ take k rows) ≡ ok f'
          → Ends (suc left) (row ∷ rows) (suc k) f f' s =
        λ e'.
          let (fields, a, b) = set_rows-next r f f' row (take k rows) e' in
          let (t, d, held, n', c) = fetch_row-Holds f fields row rows s h a in
          let f1 : Frame Double = record f { i = f.i + 1; fields = fields } in
          elim (Bool-cases (has_room f1)) [
            | inl more ↦
                Ends-more left k f f1 f' row rows s t h.0 d more n' c
                  (fetch_loop-Took left rows f1 f' t (omega (arith, n)) more held b)
            | inr full ↦
                Ends-full left k f f1 f' row rows s t h.0 d full (fit-full f1 (length rows) full)
                  held n' c b
          ] in
      subst
        (λ j. set_rows r f (take j (row ∷ rows)) ≡ ok f' → Ends (suc left) (row ∷ rows) j f f' s)
        (sym (fit-next f f.fields (length rows) room)) step_on e
