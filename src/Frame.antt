-- ===== src/Frame.antt =====
-- src/DbDataFrame.cpp and .h: the columns of a result, filled row by row. A row is the cells of the
-- current PGresult; a column reads its own cell with its declared type. The check for an interrupt in
-- every 1024th row is not modelled.
pub mod Rows
pub mod Slices
mod Examples
use Prim.Native.String.{String}
use rpostgres.Prelude.{ℕ, ◌+◌, Bool, true, Option, none, some, List, [], ◌∷◌, map, ◌||◌}
use rpostgres.Prelude.Int.{ℤ, pos, ltb_ℤ}
use rpostgres.Prelude.Outcome.{Outcome, ok, undefined, ◌>>=◌}
use rpostgres.Runtime.{Runtime, Bytes}
use rpostgres.DataType.{DataType}
use rpostgres.Storage.{Elem, Source}
use rpostgres.Column.{Column, new_column, set_col_value, finalize, column_sexp, warn_type_conflicts}

-- A column with the type of its source.
pub record Field (Double : Type 0) : Type 0 where
  pub declared : DataType
  pub column : Column Double

pub record Frame (Double : Type 0) : Type 0 where
  pub n_max : ℤ
  pub i : ℕ
  pub names : List Bytes
  pub fields : List (Field Double)

abbrev pub source : DataType → Option Bytes → Source
source dt value = record { data_type = dt; decl_data_type = dt; value = value }

-- The list of R vectors that `get_data` returns, with its attributes `names` and `row.names`, and the
-- warning of each column, if it has one.
pub record FrameData (Double : Type 0) : Type 0 where
  pub vectors : List (DataType × List (Elem Double))
  pub names : List Bytes
  pub row_count : ℕ
  pub conflicts : List (Option (String × List String))

unfoldable pub new_field : {D : Type 0} → ℤ → DataType → Field D
unfolding new_column
new_field n_max dt = record { declared = dt; column = new_column dt n_max }

unfoldable pub new_frame : {D : Type 0} → List Bytes → ℤ → List DataType → Frame D
unfolding new_field
new_frame names n_max types = record {
  n_max = n_max;
  i = 0;
  names = names;
  fields = map (new_field n_max) types;
}

-- `advance`: whether there is room for another row.
unfoldable pub advance : {D : Type 0} → Frame D → Frame D × Bool
advance f = let i = f.i + 1 in (record f { i = i }, ltb_ℤ f.n_max (pos 0) || ltb_ℤ (pos i) f.n_max)

module _ (r : Runtime) where
  open r use {Double}

  -- `set_col_value` of one column, with its cell of the row.
  unfoldable pub set_field : Field Double → Option Bytes → Outcome (Field Double)
  unfolding set_col_value
  set_field field cell = set_col_value r field.column (source field.declared cell) >>= λ column.
      ok (record field { column = column })

  -- The loop over the columns; a row with too few cells is read past its end.
  unfoldable pub set_fields :
      List (Field Double) → List (Option Bytes) → Outcome (List (Field Double))
  unfolding set_field
  set_fields [] row = ok []
  set_fields (field ∷ fields) [] = undefined
  set_fields (field ∷ fields) (cell ∷ row) =
      set_field field cell >>= λ field'. set_fields fields row >>= λ fields'. ok (field' ∷ fields')

  unfoldable pub set_row : Frame Double → List (Option Bytes) → Outcome (Frame Double)
  unfolding set_fields
  set_row f row = set_fields f.fields row >>= λ fields. ok (record f { fields = fields })

  -- `finalize_cols` and the conversion of each column to R.
  unfoldable pub vectors_of :
      ℕ → List (Field Double) → Outcome (List (DataType × List (Elem Double)))
  unfolding finalize column_sexp
  vectors_of n [] = ok []
  vectors_of n (field ∷ fields) =
      column_sexp r (finalize field.column n) (source field.declared none) >>= λ vector.
      vectors_of n fields >>= λ vectors. ok (vector ∷ vectors)

  unfoldable pub get_data : Frame Double → Outcome (FrameData Double)
  unfolding vectors_of warn_type_conflicts
  get_data f = vectors_of f.i f.fields >>= λ vectors. ok record {
    vectors = vectors;
    names = f.names;
    row_count = f.i;
    conflicts =
        map (λ field. warn_type_conflicts field.column (source field.declared none)) f.fields;
  }
