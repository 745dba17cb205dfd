-- ===== src/Frame/Examples.antt =====
-- The theorem on src/DbDataFrame.cpp at a column of Booleans and one of integers.
use rpostgres.Prelude.{◌≡◌, refl, none, some, [], ◌∷◌, map}
use rpostgres.Prelude.Int.{ℤ, pos, negsuc}
use rpostgres.Prelude.Outcome.{ok, ◌>>=◌}
use rpostgres.Sample.{sample}
use rpostgres.Encode.{na_integer}
use rpostgres.DataSource.{fetch_bool, fetch_int}
use rpostgres.DataType.{dt_bool, dt_int, same_type}
use rpostgres.Storage.{int_elem, default_value, fetch_value}
use rpostgres.Storage.Append.{IsKnown}
use rpostgres.Frame.{FrameData, new_frame, get_data}
use rpostgres.Frame.Rows.{Typed, rows_of, set_rows, HaveRows, get_data-set_rows}

bool_known : IsKnown dt_bool
unfolding same_type
bool_known = refl

int_known : IsKnown dt_int
unfolding same_type
int_known = refl

abbrev bools : Typed sample
unfolding default_value fetch_value fetch_bool
bools = record {
  dt = dt_bool;
  known = bool_known;
  default = int_elem na_integer;
  has_default = refl;
  cells = none ∷ some (116 ∷ []) ∷ [];
  vals = int_elem na_integer ∷ int_elem (pos 1) ∷ [];
  values_are = (refl, (refl, tt));
}

abbrev ints : Typed sample
unfolding default_value fetch_value fetch_int
ints = record {
  dt = dt_int;
  known = int_known;
  default = int_elem na_integer;
  has_default = refl;
  cells = none ∷ none ∷ [];
  vals = int_elem na_integer ∷ int_elem na_integer ∷ [];
  values_are = (refl, (refl, tt));
}

two_rows : HaveRows sample 2 (bools ∷ ints ∷ [])
unfolding HaveRows bools ints
two_rows = ((refl, refl), ((refl, refl), tt))

get_data-set_rows_example :
    (d : FrameData ℤ) × ((set_rows sample
          (new_frame
            ((97 ∷ []) ∷ (98 ∷ []) ∷ [])
            (negsuc 0)
            (map (λ (col : Typed sample). col.dt) (bools ∷ ints ∷ [])))
          (rows_of sample 2 (bools ∷ ints ∷ []))
        >>= get_data sample)
      ≡ ok d)
    × (d.vectors ≡ map (λ (col : Typed sample). (col.dt, col.vals)) (bools ∷ ints ∷ []))
    × (d.row_count ≡ 2)
    × (d.names ≡ (97 ∷ []) ∷ (98 ∷ []) ∷ [])
get_data-set_rows_example =
    get_data-set_rows sample 2 (negsuc 0) ((97 ∷ []) ∷ (98 ∷ []) ∷ []) (bools ∷ ints ∷ []) two_rows
