-- ===== src/Result/Pieces.antt =====
-- Two fetches of src/PqResultImpl.cpp are one fetch of as many rows.
use Prim.Native.String.{String}
use rpostgres.Prelude.{
  ℕ, zero, suc, ◌+◌, ◌-◌, ◌<◌, ◌≡◌, refl, sym, ◌∙◌, ap, subst, false, List, [], ◌∷◌, ◌++◌, map,
  arith, take, drop,
}
use rpostgres.Prelude.Int.{ℤ, pos, ◌==ℤ◌}
use rpostgres.Prelude.Outcome.{Outcome, ok}
use rpostgres.Runtime.{Runtime}
use rpostgres.DataType.{DataType}
use rpostgres.Storage.{Elem}
use rpostgres.Libpq.{Libpq}
use rpostgres.Frame.Rows.{Typed, HaveRows, rows_of}
use rpostgres.Frame.Slices.{drop_typed, HaveRows-drop, drop-rows_of, types-drop, first_values}
use rpostgres.Result.{Impl}
use rpostgres.Result.Fetch.{Fetched, fetch}
use rpostgres.Result.Delivery.{Holds}
use rpostgres.Result.Tables.{rows_taken, rows_taken-le, HasTable, Fetches, fetch-Fetches}

not_none : (a : ℕ) → 0 < a → (pos a ==ℤ pos 0) ≡ false
not_none a h = ground arith

suc_plus : (j k : ℕ) → suc (j + k) ≡ suc j + k
suc_plus j k = omega arith

take_none : {A : Type 0} (k : ℕ) → take {A = A} k [] ≡ []
take_none zero = refl
take_none (suc k) = refl

take-take-drop :
    {A : Type 0} (j k : ℕ) (xs : List A) → take j xs ++ take k (drop j xs) ≡ take (j + k) xs
take-take-drop zero k xs = ap (λ m. take m xs) (omega arith)
take-take-drop (suc j) k [] = take_none k ∙ sym (take_none (suc j + k))
take-take-drop (suc j) k (x ∷ xs) =
    ap (λ ys. x ∷ ys) (take-take-drop j k xs) ∙ ap (λ (m : ℕ). take m (x ∷ xs)) (suc_plus j k)

taken_twice :
    (a b n : ℕ)
    → rows_taken (pos a) n + rows_taken (pos b) (n - rows_taken (pos a) n)
      ≡ rows_taken (pos (a + b)) n
taken_twice a b n = ground arith

-- The vectors of two data frames, the second one's elements after the first one's.
abbrev pub joined :
    {D : Type 0}
    → List (DataType × List (Elem D))
    → List (DataType × List (Elem D))
    → List (DataType × List (Elem D))
joined [] vs = []
joined (u ∷ us) [] = []
joined (u ∷ us) (v ∷ vs) = (u.0, u.1 ++ v.1) ∷ joined us vs

module _ (r : Runtime) (L : Libpq) (format : String → List ℤ → String) (fuel rounds : ℕ) where
  open r use {Double}

  joined-first_values :
      (j k : ℕ) (cols : List (Typed r))
      → joined (map (first_values r j) cols) (map (first_values r k) (map (drop_typed r j) cols))
        ≡ map (first_values r (j + k)) cols
  joined-first_values j k [] = refl
  joined-first_values j k (col ∷ cols) =
      rw (take-take-drop j k col.vals, joined-first_values j k cols)

  module _ (col : Typed r) (cols : List (Typed r)) (n : ℕ) (have : HaveRows r n (col ∷ cols)) where
    rest_have : (k : ℕ) → HaveRows r (n - k) (drop_typed r k col ∷ map (drop_typed r k) cols)
    rest_have k = HaveRows-drop r k n (col ∷ cols) have

    rest_rows :
        (n_max : ℤ)
        → drop (rows_taken n_max n) (rows_of r n (col ∷ cols))
          ≡ rows_of r
              (n - rows_taken n_max n)
              (drop_typed r (rows_taken n_max n) col ∷ map (drop_typed r (rows_taken n_max n)) cols)
    rest_rows n_max = drop-rows_of r (rows_taken n_max n) n (col ∷ cols) (rows_taken-le n_max n)

    abbrev HasRest : ℕ → Impl L → Type 0
    HasRest k t =
        HasTable r L format fuel rounds (drop_typed r k col) (map (drop_typed r k) cols) (n - k)
          (rest_have k) t

    -- After a fetch the query has the rest of the table.
    Fetches-HasRest :
        (n_max : ℤ) (s : Impl L) (x : Outcome (Fetched Double) × Impl L)
        → HasTable r L format fuel rounds col cols n have s
        → (f : Fetches r L format fuel rounds col cols n have n_max s x)
        → HasRest (rows_taken n_max n) f.after
    Fetches-HasRest n_max s x has f =
        let k = rows_taken n_max n in
        record {
          ready = f.took.same.1 ∙ has.ready;
          types = ap (λ c. c.types) f.took.same.0 ∙ has.types ∙ sym (types-drop r k (col ∷ cols));
          rows = subst (λ rows. Holds L fuel rounds rows f.after) (rest_rows n_max) f.took.rest;
        }

    abbrev the_fetch : ℕ → ℤ → Impl L → Outcome (Fetched Double) × Impl L
    the_fetch = fetch r L format fuel rounds

    pieces :
        (a b : ℕ) (s : Impl L) (x y z : Outcome (Fetched Double) × Impl L)
        (f1 : Fetches r L format fuel rounds col cols n have (pos a) s x)
        (f2 : Fetches r L format fuel rounds
          (drop_typed r (rows_taken (pos a) n) col)
          (map (drop_typed r (rows_taken (pos a) n)) cols)
          (n - rows_taken (pos a) n)
          (rest_have (rows_taken (pos a) n))
          (pos b)
          f1.after
          y)
        (f : Fetches r L format fuel rounds col cols n have (pos (a + b)) s z)
        → (joined f1.fetched.frame.vectors f2.fetched.frame.vectors ≡ f.fetched.frame.vectors)
          × (f1.fetched.frame.row_count + f2.fetched.frame.row_count ≡ f.fetched.frame.row_count)
    pieces a b s x y z f1 f2 f =
        let j = rows_taken (pos a) n in
        let k = rows_taken (pos b) (n - j) in
        (
          ap (λ us. joined us f2.fetched.frame.vectors) f1.vectors
              ∙ ap (joined (map (first_values r j) (col ∷ cols))) f2.vectors
              ∙ joined-first_values j k (col ∷ cols)
              ∙ ap (λ (i : ℕ). map (first_values r i) (col ∷ cols)) (taken_twice a b n)
              ∙ sym f.vectors,
          omega (arith, f1.row_count, f2.row_count, f.row_count, taken_twice a b n),
        )

    -- Where a query that is ready has the table's `n` rows still to give, and knows the columns'
    -- types: a fetch of `a` rows and then of `b` rows, both positive, with fuel for more than `n`
    -- rows, gives the columns, one part after the other, and the number of rows that a fetch of
    -- `a + b` rows gives.
    pub fetch-pieces :
        (left a b : ℕ) (s : Impl L)
        → n < left
        → (0 < a) × (0 < b)
        → HasTable r L format fuel rounds col cols n have s
        → (d1 d2 d : Fetched Double) × (t u v : Impl L) × (the_fetch left (pos a) s ≡ (ok d1, t))
          × (the_fetch left (pos b) t ≡ (ok d2, u))
          × (the_fetch left (pos (a + b)) s ≡ (ok d, v))
          × (joined d1.frame.vectors d2.frame.vectors ≡ d.frame.vectors)
          × (d1.frame.row_count + d2.frame.row_count ≡ d.frame.row_count)
    fetch-pieces left a b s h (ha, hb) has =
        let j = rows_taken (pos a) n in
        let m = n - j in
        let f1 =
          fetch-Fetches r L format fuel rounds col cols n have left (pos a) s h (not_none a ha)
            has in
        let has' = Fetches-HasRest (pos a) s (the_fetch left (pos a) s) has f1 in
        let f2 =
          fetch-Fetches r L format fuel rounds (drop_typed r j col) (map (drop_typed r j) cols) m
            (rest_have j) left (pos b) f1.after (omega arith) (not_none b hb) has' in
        let f =
          fetch-Fetches r L format fuel rounds col cols n have left (pos (a + b)) s h
            (not_none (a + b) (omega arith)) has in
        (
          f1.fetched,
          f2.fetched,
          f.fetched,
          f1.after,
          f2.after,
          f.after,
          f1.returns,
          f2.returns,
          f.returns,
          (pieces a b s (the_fetch left (pos a) s) (the_fetch left (pos b) f1.after)
              (the_fetch left (pos (a + b)) s) f1 f2 f).0,
          (pieces a b s (the_fetch left (pos a) s) (the_fetch left (pos b) f1.after)
              (the_fetch left (pos (a + b)) s) f1 f2 f).1,
        )
