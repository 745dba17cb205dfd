-- ===== src/Frame/Rows.antt =====
-- src/DbDataFrame.cpp: a data frame filled row by row has the columns' values.
use rpostgres.Prelude.{
  ℕ, zero, suc, ◌+◌, ◌≡◌, refl, sym, ◌∙◌, ap, subst, arith, Option, none, List, [], ◌∷◌, map,
  length, replicate, length-replicate, All,
}
use rpostgres.Prelude.Int.{ℤ}
use rpostgres.Prelude.Outcome.{Outcome, ok, stop, undefined, ◌>>=◌}
use rpostgres.Runtime.{Runtime, Bytes}
use rpostgres.DataType.{DataType}
use rpostgres.Storage.{Elem, default_value}
use rpostgres.Storage.Append.{IsKnown, typed}
use rpostgres.Column.{Column, new_column, set_col_value, finalize, column_sexp, warn_type_conflicts}
use rpostgres.Column.Values.{set_col_values, ValuesAre, column_sexp-set_col_values}
use rpostgres.Frame.{
  Field, Frame, FrameData, source, new_field, new_frame, advance, set_field, set_fields, set_row,
  vectors_of, get_data,
}

-- A first column before the other columns, row by row.
abbrev pub zip_cons {ℓ} : {A : Type ℓ} → List A → List (List A) → List (List A)
zip_cons [] rows = []
zip_cons (x ∷ xs) [] = []
zip_cons (x ∷ xs) (row ∷ rows) = (x ∷ row) ∷ zip_cons xs rows

pub length-zip_cons :
    {A : Type 0} (xs : List A) (rows : List (List A))
    → length xs ≡ length rows
    → length (zip_cons xs rows) ≡ length rows
length-zip_cons [] [] h = refl
length-zip_cons [] (row ∷ rows) h = absurd (omega (arith, h))
length-zip_cons (x ∷ xs) [] h = absurd (omega (arith, h))
length-zip_cons (x ∷ xs) (row ∷ rows) h = ap suc (length-zip_cons xs rows (omega (arith, h)))

pub bind_ok :
    {A B : Type 0} (o : Outcome A) (k : A → Outcome B) (b : B)
    → (o >>= k) ≡ ok b
    → (a : A) × (o ≡ ok a) × (k a ≡ ok b)
bind_ok (ok a) k b e = (a, refl, e)
bind_ok (stop message) k b e = ground arith
bind_ok undefined k b e = ground arith

from_ok : {A : Type 0} → A → Outcome A → A
from_ok a (ok b) = b
from_ok a (stop message) = a
from_ok a undefined = a

pub ok_inj : {A : Type 0} {a b : A} → ok a ≡ ok b → a ≡ b
unfolding from_ok
ok_inj {a = a} e = ap (from_ok a) e

module _ (r : Runtime) where
  open r use {Double}

  -- A column of a known type: its cells, and the value of each in the type.
  pub record Typed : Type 0 where
    pub dt : DataType
    pub known : IsKnown dt
    pub default : Elem Double
    pub has_default : default_value r dt ≡ ok default
    pub cells : List (Option Bytes)
    pub vals : List (Elem Double)
    pub values_are : ValuesAre r dt known cells vals

  abbrev pub rows_of : ℕ → List Typed → List (List (Option Bytes))
  rows_of n [] = replicate n []
  rows_of n (col ∷ cols) = zip_cons col.cells (rows_of n cols)

  -- Rows set one after another, as by `fetch_rows`.
  unfoldable pub set_rows : Frame Double → List (List (Option Bytes)) → Outcome (Frame Double)
  set_rows f [] = ok f
  set_rows f (row ∷ rows) = set_row r f row >>= λ f'. set_rows (advance f').0 rows

  -- Rows that are set one after another: the first, and then the others.
  pub set_rows-next :
      (f f' : Frame Double) (row : List (Option Bytes)) (rows : List (List (Option Bytes)))
      → set_rows f (row ∷ rows) ≡ ok f'
      → (fields : List (Field Double)) × (set_row r f row ≡ ok (record f { fields = fields }))
        × (set_rows (record f { i = f.i + 1; fields = fields }) rows ≡ ok f')
  unfolding set_rows set_row advance
  set_rows-next f f' row rows h =
      let (f1, e, h1) = bind_ok (set_row r f row) (λ g. set_rows (advance g).0 rows) f' h in
      let (fields, e1, e2) =
        bind_ok (set_fields r f.fields row) (λ fields. ok (record f { fields = fields })) f1 e in
      (fields, rw e1, subst (λ g. set_rows (advance g).0 rows ≡ ok f') (sym (ok_inj e2)) h1)

  fill : List (Field Double) → List (List (Option Bytes)) → Outcome (List (Field Double))
  fill fields [] = ok fields
  fill fields (row ∷ rows) = set_fields r fields row >>= λ fields'. fill fields' rows

  fill-none : (n : ℕ) → fill [] (replicate n []) ≡ ok []
  unfolding fill set_fields
  fill-none zero = refl
  fill-none (suc n) = fill-none n

  set_field-eq :
      (field : Field Double) (cell : Option Bytes) (c : Column Double)
      → set_col_value r field.column (typed field.declared cell) ≡ ok c
      → set_field r field cell ≡ ok (record field { column = c })
  unfolding set_field
  set_field-eq field cell c h = rw h

  fill-cons :
      (dt : DataType) (known : IsKnown dt) (column c : Column Double) (cells : List (Option Bytes))
      (fields fields' : List (Field Double)) (rows : List (List (Option Bytes)))
      → length cells ≡ length rows
      → set_col_values r dt known column cells ≡ ok c
      → fill fields rows ≡ ok fields'
      → fill (record { declared = dt; column = column } ∷ fields) (zip_cons cells rows)
        ≡ ok (record { declared = dt; column = c } ∷ fields')
  unfolding fill set_fields set_col_values
  fill-cons dt known column c [] fields fields' [] n h e =
      ap (λ c'. ok (record { declared = dt; column = c' } ∷ fields)) (ok_inj h)
      ∙ ap (λ fs. ok (record { declared = dt; column = c } ∷ fs)) (ok_inj e)
  fill-cons dt known column c [] fields fields' (row ∷ rows) n h e = absurd (omega (arith, n))
  fill-cons dt known column c (x ∷ cells) fields fields' [] n h e = absurd (omega (arith, n))
  fill-cons dt known column c (x ∷ cells) fields fields' (row ∷ rows) n h e =
      let (c1, h1, h2) =
        bind_ok (set_col_value r column (typed dt x)) (λ c'. set_col_values r dt known c' cells) c
          h in
      let (fs1, e1, e2) = bind_ok (set_fields r fields row) (λ fs. fill fs rows) fields' e in
      rw (set_field-eq record { declared = dt; column = column } x c1 h1, e1)
        (fill-cons dt known c1 c cells fs1 fields' rows (omega (arith, n)) h2 e2)

  set_rows-fill :
      (f : Frame Double) (rows : List (List (Option Bytes))) (fields : List (Field Double))
      → fill f.fields rows ≡ ok fields
      → set_rows f rows ≡ ok (record f { i = f.i + length rows; fields = fields })
  unfolding fill set_rows set_row advance
  set_rows-fill f [] fields e =
      ap (λ i. ok (record f { i = i })) (omega arith)
      ∙ ap (λ fs. ok (record f { i = f.i + 0; fields = fs })) (ok_inj e)
  set_rows-fill f (row ∷ rows) fields e =
      let (fs1, e1, e2) = bind_ok (set_fields r f.fields row) (λ fs. fill fs rows) fields e in
      rw e1 (
        set_rows-fill (record f { i = f.i + 1; fields = fs1 }) rows fields e2
        ∙ ap (λ i. ok (record f { i = i; fields = fields })) (omega arith))

  -- Each column has `n` rows.
  unfoldable pub HaveRows : ℕ → List Typed → Type 0
  HaveRows n cols = All (λ (col : Typed). (length col.cells ≡ n) × (length col.vals ≡ n)) cols

  -- The columns, filled, and the R vectors made of them.
  filled :
      (n : ℕ) (n_max : ℤ) (cols : List Typed)
      → HaveRows n cols
      → (fields : List (Field Double)) × (fill
            (map (new_field n_max) (map (λ (col : Typed). col.dt) cols))
            (rows_of n cols)
          ≡ ok fields)
        × (vectors_of r n fields ≡ ok (map (λ (col : Typed). (col.dt, col.vals)) cols))
        × (length (rows_of n cols) ≡ n)
  unfolding vectors_of new_field HaveRows
  filled n n_max [] h = ([], fill-none n, refl, length-replicate n [])
  filled n n_max (col ∷ cols) h =
      let (fields, e, v, l) = filled n n_max cols h.1 in
      let (c, e1, e2) =
        bind_ok (set_col_values r col.dt col.known (new_column col.dt n_max) col.cells)
          (λ c. column_sexp r (finalize c (length col.vals)) (typed col.dt none)) (col.dt, col.vals)
          (column_sexp-set_col_values r col.dt col.known n_max col.default col.cells col.vals none
            col.has_default col.values_are) in
      let e3 : column_sexp r (finalize c n) (typed col.dt none) ≡ ok (col.dt, col.vals) =
        subst (λ m. column_sexp r (finalize c m) (typed col.dt none) ≡ ok (col.dt, col.vals)) h.0.1
          e2 in
      (
        record { declared = col.dt; column = c } ∷ fields,
        fill-cons col.dt col.known (new_column col.dt n_max) c col.cells
            (map (new_field n_max) (map (λ (col : Typed). col.dt) cols)) fields (rows_of n cols)
            (h.0.0 ∙ sym l) e1 e,
        rw (e3, v),
        length-zip_cons col.cells (rows_of n cols) (h.0.0 ∙ sym l) ∙ l,
      )

  abbrev data_of :
      List Bytes → ℕ → List (Field Double) → List (DataType × List (Elem Double)) → FrameData Double
  data_of names n fields vectors = record {
    vectors = vectors;
    names = names;
    row_count = n;
    conflicts =
        map
          (λ (field : Field Double). warn_type_conflicts field.column (source field.declared none))
          fields;
  }

  get_data-eq :
      (names : List Bytes) (n_max : ℤ) (i n : ℕ) (fields : List (Field Double))
      (vectors : List (DataType × List (Elem Double)))
      → i ≡ n
      → vectors_of r n fields ≡ ok vectors
      → get_data r (record { n_max = n_max; i = i; names = names; fields = fields })
        ≡ ok (data_of names n fields vectors)
  unfolding get_data
  get_data-eq names n_max i n fields vectors e v = rw (e, v)

  -- A data frame of columns of known types that is given `n` rows of cells, one after another, and
  -- whose cells all have a value in their column's type, becomes the list of the R vectors of these
  -- types with the values of each column in order, and has `n` rows and the columns' names.
  pub get_data-set_rows :
      (n : ℕ) (n_max : ℤ) (names : List Bytes) (cols : List Typed)
      → HaveRows n cols
      → (d : FrameData Double) × ((set_rows
              (new_frame names n_max (map (λ (col : Typed). col.dt) cols))
              (rows_of n cols)
            >>= get_data r)
          ≡ ok d)
        × (d.vectors ≡ map (λ (col : Typed). (col.dt, col.vals)) cols)
        × (d.row_count ≡ n)
        × (d.names ≡ names)
  unfolding new_frame
  get_data-set_rows n n_max names cols h =
      let (fields, e, v, l) = filled n n_max cols h in
      let frame : Frame Double = new_frame names n_max (map (λ (col : Typed). col.dt) cols) in
      (
        data_of names n fields (map (λ (col : Typed). (col.dt, col.vals)) cols),
        rw (set_rows-fill frame (rows_of n cols) fields e) (
            get_data-eq names n_max (0 + length (rows_of n cols)) n fields
              (map (λ (col : Typed). (col.dt, col.vals)) cols) (omega (arith, l)) v),
        refl,
        refl,
        refl,
      )
