-- ===== src/Frame/Slices.antt =====
-- The first rows of a table of typed columns, and the rows after them.
use rpostgres.Prelude.{
  ℕ, zero, suc, ◌-◌, ◌≤◌, ◌≡◌, refl, ◌∙◌, ap, Option, List, [], ◌∷◌, map, arith, length, take, drop,
  replicate, length-replicate, sym,
}
use rpostgres.Runtime.{Runtime, Bytes}
use rpostgres.DataType.{DataType}
use rpostgres.Storage.{Elem}
use rpostgres.Storage.Append.{IsKnown}
use rpostgres.Column.Values.{ValuesAre}
use rpostgres.Frame.Rows.{Typed, HaveRows, rows_of, zip_cons, length-zip_cons}

take-zip_cons :
    {A : Type 0} (k : ℕ) (xs : List A) (rows : List (List A))
    → take k (zip_cons xs rows) ≡ zip_cons (take k xs) (take k rows)
take-zip_cons zero xs rows = refl
take-zip_cons (suc k) [] rows = refl
take-zip_cons (suc k) (x ∷ xs) [] = refl
take-zip_cons (suc k) (x ∷ xs) (row ∷ rows) = ap (λ rs. (x ∷ row) ∷ rs) (take-zip_cons k xs rows)

zip_cons-none : {A : Type 0} (xs : List A) → zip_cons xs [] ≡ []
zip_cons-none [] = refl
zip_cons-none (x ∷ xs) = refl

drop-zip_cons :
    {A : Type 0} (k : ℕ) (xs : List A) (rows : List (List A))
    → drop k (zip_cons xs rows) ≡ zip_cons (drop k xs) (drop k rows)
drop-zip_cons zero xs rows = refl
drop-zip_cons (suc k) [] rows = refl
drop-zip_cons (suc k) (x ∷ xs) [] = rw (zip_cons-none (drop k xs))
drop-zip_cons (suc k) (x ∷ xs) (row ∷ rows) = drop-zip_cons k xs rows

take-replicate : {A : Type 0} (k n : ℕ) (a : A) → k ≤ n → take k (replicate n a) ≡ replicate k a
take-replicate zero n a h = refl
take-replicate (suc k) zero a h = absurd (omega arith)
take-replicate (suc k) (suc n) a h = ap (λ xs. a ∷ xs) (take-replicate k n a (omega arith))

drop-replicate :
    {A : Type 0} (k n : ℕ) (a : A) → k ≤ n → drop k (replicate n a) ≡ replicate (n - k) a
drop-replicate zero n a h = ap (λ m. replicate m a) (omega arith)
drop-replicate (suc k) zero a h = absurd (omega arith)
drop-replicate (suc k) (suc n) a h =
    drop-replicate k n a (omega arith) ∙ ap (λ m. replicate m a) (omega arith)

length-take_of : {A : Type 0} (k : ℕ) (xs : List A) → k ≤ length xs → length (take k xs) ≡ k
length-take_of zero xs h = refl
length-take_of (suc k) [] h = absurd (omega arith)
length-take_of (suc k) (x ∷ xs) h = ap suc (length-take_of k xs (omega arith))

length-drop_of : {A : Type 0} (k : ℕ) (xs : List A) → length (drop k xs) ≡ length xs - k
length-drop_of zero xs = omega arith
length-drop_of (suc k) [] = omega arith
length-drop_of (suc k) (x ∷ xs) = omega (arith, length-drop_of k xs)

module _ (r : Runtime) where
  open r use {Double}

  module _ (dt : DataType) (known : IsKnown dt) where
    pub ValuesAre-take :
        (k : ℕ) (cells : List (Option Bytes)) (vals : List (Elem Double))
        → ValuesAre r dt known cells vals
        → ValuesAre r dt known (take k cells) (take k vals)
    ValuesAre-take zero cells vals h = tt
    ValuesAre-take (suc k) [] [] h = tt
    ValuesAre-take (suc k) [] (v ∷ vals) h = absurd h
    ValuesAre-take (suc k) (c ∷ cells) [] h = absurd h
    ValuesAre-take (suc k) (c ∷ cells) (v ∷ vals) h = (h.0, ValuesAre-take k cells vals h.1)

    pub ValuesAre-drop :
        (k : ℕ) (cells : List (Option Bytes)) (vals : List (Elem Double))
        → ValuesAre r dt known cells vals
        → ValuesAre r dt known (drop k cells) (drop k vals)
    ValuesAre-drop zero cells vals h = h
    ValuesAre-drop (suc k) [] [] h = tt
    ValuesAre-drop (suc k) [] (v ∷ vals) h = absurd h
    ValuesAre-drop (suc k) (c ∷ cells) [] h = absurd h
    ValuesAre-drop (suc k) (c ∷ cells) (v ∷ vals) h = ValuesAre-drop k cells vals h.1

  abbrev pub take_typed : ℕ → Typed r → Typed r
  take_typed k col = record {
    dt = col.dt;
    known = col.known;
    default = col.default;
    has_default = col.has_default;
    cells = take k col.cells;
    vals = take k col.vals;
    values_are = ValuesAre-take col.dt col.known k col.cells col.vals col.values_are;
  }

  abbrev pub drop_typed : ℕ → Typed r → Typed r
  drop_typed k col = record {
    dt = col.dt;
    known = col.known;
    default = col.default;
    has_default = col.has_default;
    cells = drop k col.cells;
    vals = drop k col.vals;
    values_are = ValuesAre-drop col.dt col.known k col.cells col.vals col.values_are;
  }

  pub HaveRows-take :
      (k n : ℕ) (cols : List (Typed r))
      → k ≤ n
      → HaveRows r n cols
      → HaveRows r k (map (take_typed k) cols)
  unfolding HaveRows
  HaveRows-take k n [] h v = tt
  HaveRows-take k n (col ∷ cols) h v = (
    (
      length-take_of k col.cells (omega (arith, v.0.0)),
      length-take_of k col.vals (omega (arith, v.0.1)),
    ),
    HaveRows-take k n cols h v.1,
  )

  pub HaveRows-drop :
      (k n : ℕ) (cols : List (Typed r))
      → HaveRows r n cols
      → HaveRows r (n - k) (map (drop_typed k) cols)
  unfolding HaveRows
  HaveRows-drop k n [] v = tt
  HaveRows-drop k n (col ∷ cols) v = (
    (
      omega (arith, length-drop_of k col.cells, v.0.0),
      omega (arith, length-drop_of k col.vals, v.0.1),
    ),
    HaveRows-drop k n cols v.1,
  )

  pub take-rows_of :
      (k n : ℕ) (cols : List (Typed r))
      → k ≤ n
      → take k (rows_of r n cols) ≡ rows_of r k (map (take_typed k) cols)
  take-rows_of k n [] h = take-replicate k n [] h
  take-rows_of k n (col ∷ cols) h =
      take-zip_cons k col.cells (rows_of r n cols)
      ∙ ap (zip_cons (take k col.cells)) (take-rows_of k n cols h)

  pub drop-rows_of :
      (k n : ℕ) (cols : List (Typed r))
      → k ≤ n
      → drop k (rows_of r n cols) ≡ rows_of r (n - k) (map (drop_typed k) cols)
  drop-rows_of k n [] h = drop-replicate k n [] h
  drop-rows_of k n (col ∷ cols) h =
      drop-zip_cons k col.cells (rows_of r n cols)
      ∙ ap (zip_cons (drop k col.cells)) (drop-rows_of k n cols h)

  pub types-take :
      (k : ℕ) (cols : List (Typed r))
      → map (λ (col : Typed r). col.dt) (map (take_typed k) cols)
        ≡ map (λ (col : Typed r). col.dt) cols
  types-take k [] = refl
  types-take k (col ∷ cols) = ap (λ dts. col.dt ∷ dts) (types-take k cols)

  pub types-drop :
      (k : ℕ) (cols : List (Typed r))
      → map (λ (col : Typed r). col.dt) (map (drop_typed k) cols)
        ≡ map (λ (col : Typed r). col.dt) cols
  types-drop k [] = refl
  types-drop k (col ∷ cols) = ap (λ dts. col.dt ∷ dts) (types-drop k cols)

  pub length-rows_of :
      (n : ℕ) (cols : List (Typed r)) → HaveRows r n cols → length (rows_of r n cols) ≡ n
  unfolding HaveRows
  length-rows_of n [] v = length-replicate n []
  length-rows_of n (col ∷ cols) v =
      let e = length-rows_of n cols v.1 in
      length-zip_cons col.cells (rows_of r n cols) (v.0.0 ∙ sym e) ∙ e

  abbrev pub vector : Typed r → DataType × List (Elem Double)
  vector col = (col.dt, col.vals)

  abbrev pub first_values : ℕ → Typed r → DataType × List (Elem Double)
  first_values k col = (col.dt, take k col.vals)

  pub vectors-take :
      (k : ℕ) (cols : List (Typed r))
      → map vector (map (take_typed k) cols) ≡ map (first_values k) cols
  vectors-take k [] = refl
  vectors-take k (col ∷ cols) = ap (λ vs. first_values k col ∷ vs) (vectors-take k cols)
