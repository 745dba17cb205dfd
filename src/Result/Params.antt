-- ===== src/Result/Params.antt =====
-- The parameters of a query, checked by `validate_params` of src/DbResult.cpp and read by `bind_row`
-- of src/PqResultImpl.cpp.
use Prim.Native.String.{String}
use rpostgres.Prelude.{
  ℕ, zero, suc, ◌<◌, ◌≡◌, refl, sym, ap, subst, ◌∙◌, false, Option, none, some, List, [], ◌∷◌,
  arith, length, get_elem?,
}
use rpostgres.Prelude.Int.{ℤ}
use rpostgres.Prelude.Outcome.{ok}
use rpostgres.Libpq.{Param}
use rpostgres.Result.{ParamColumn, validate_from, validate_params, param_at, row_params}

-- The row `group` of the columns: each parameter is the value that its column has there.
unfoldable pub IsRow : ℕ → List ParamColumn → List Param → Type 0
IsRow group [] [] = Unit
IsRow group [] (p ∷ row) = ⊥
IsRow group (col ∷ params) [] = ⊥
IsRow group (col ∷ params) (p ∷ row) =
    (get_elem? col.values group ≡ some p.value) × IsRow group params row

param_at-value :
    (col : ParamColumn) (group : ℕ) (v : Option (List ℕ))
    → get_elem? col.values group ≡ some v
    → (p : Param) × (param_at col group ≡ ok p) × (p.value ≡ v)
unfolding param_at
param_at-value col group none h = (record { value = none; binary = false }, rw h, refl)
param_at-value col group (some bytes) h =
    (record { value = some bytes; binary = col.is_list }, rw h, refl)

get_elem-less :
    {A : Type 0} (xs : List A) (i : ℕ) → i < length xs → (a : A) × (get_elem? xs i ≡ some a)
get_elem-less [] i h = absurd (omega arith)
get_elem-less (x ∷ xs) zero h = (x, refl)
get_elem-less (x ∷ xs) (suc i) h = get_elem-less xs i (omega arith)

validate_from-next :
    (format : String → List ℤ → String) (n j : ℕ) (col : ParamColumn) (params : List ParamColumn)
    → validate_from format n j (col ∷ params) ≡ ok tt
    → (length col.values ≡ n) × (validate_from format n (suc j) params ≡ ok tt)
unfolding validate_from
validate_from-next format n j col params h = ground arith

row_params-next :
    (n : ℕ) (col : ParamColumn) (params : List ParamColumn) (group : ℕ) (p : Param)
    (row : List Param)
    → param_at col group ≡ ok p
    → row_params n params group ≡ ok row
    → row_params (suc n) (col ∷ params) group ≡ ok (p ∷ row)
unfolding row_params
row_params-next n col params group p row h i = rw (h, i)

-- `row_params` gives such a row.
unfoldable pub Rows : List ParamColumn → ℕ → Type 0
Rows params group =
    (row : List Param) × (row_params (length params) params group ≡ ok row) × IsRow group params row

row_params-cons :
    (col : ParamColumn) (params : List ParamColumn) (group : ℕ)
    → group < length col.values
    → Rows params group
    → Rows (col ∷ params) group
unfolding Rows IsRow
row_params-cons col params group h (row, r, i) =
    let (a, f) = get_elem-less col.values group h in
    let (p, g, q) = param_at-value col group a f in
    (p ∷ row, row_params-next (length params) col params group p row g r, (f ∙ ap some (sym q), i))

row_params-each :
    (format : String → List ℤ → String) (n j : ℕ) (params : List ParamColumn) (group : ℕ)
    → group < n
    → validate_from format n j params ≡ ok tt
    → Rows params group
unfolding Rows row_params IsRow
row_params-each format n j [] group h v = ([], refl, tt)
row_params-each format n j (col ∷ params) group h v =
    let (e, v') = validate_from-next format n j col params v in
    row_params-cons col params group (subst (λ m. group < m) (sym e) h)
      (row_params-each format n (suc j) params group h v')

-- Parameters that `validate_params` accepts, as many as the query has, make a row of parameters for
-- each row of their first column: no read is past the end of a column.
pub row_params-validate_params :
    (format : String → List ℤ → String) (col : ParamColumn) (params : List ParamColumn) (group : ℕ)
    → validate_params format (col ∷ params) ≡ ok tt
    → group < length col.values
    → Rows (col ∷ params) group
unfolding validate_params
row_params-validate_params format col params group v h =
    row_params-cons col params group h
      (row_params-each format (length col.values) 1 params group h v)
