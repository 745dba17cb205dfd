-- ===== src/Column/Examples.antt =====
-- A column of Booleans with a NULL first, and the theorem at it.
use rpostgres.Prelude.{◌≡◌, refl, none, some, [], ◌∷◌}
use rpostgres.Prelude.Int.{pos}
use rpostgres.Prelude.Outcome.{ok, ◌>>=◌}
use rpostgres.Sample.{sample}
use rpostgres.Encode.{na_integer}
use rpostgres.DataSource.{fetch_bool}
use rpostgres.DataType.{dt_bool, same_type}
use rpostgres.Storage.{int_elem, default_value, fetch_value}
use rpostgres.Storage.Append.{typed, IsKnown}
use rpostgres.Column.{new_column, finalize, column_sexp}
use rpostgres.Column.Values.{set_col_values, column_sexp-set_col_values}

bool_known : IsKnown dt_bool
unfolding same_type
bool_known = refl

column_sexp-set_col_values_example :
    (set_col_values sample dt_bool bool_known
        (new_column dt_bool (pos 3))
        (none ∷ some (116 ∷ []) ∷ some (102 ∷ []) ∷ [])
      >>= λ c. column_sexp sample (finalize c 3) (typed dt_bool none))
    ≡ ok (dt_bool, int_elem na_integer ∷ int_elem (pos 1) ∷ int_elem (pos 0) ∷ [])
unfolding default_value fetch_value fetch_bool
column_sexp-set_col_values_example =
    column_sexp-set_col_values sample dt_bool bool_known (pos 3) (int_elem na_integer)
      (none ∷ some (116 ∷ []) ∷ some (102 ∷ []) ∷ [])
      (int_elem na_integer ∷ int_elem (pos 1) ∷ int_elem (pos 0) ∷ []) none refl
      (refl, (refl, (refl, tt)))
