-- ===== src/Column.antt =====
-- src/DbColumn.cpp and .h: a column of a result as a chain of chunks, the types seen in it, and the
-- R vector that is made of it.
pub mod Values
mod Examples
use Prim.Native.String.{String}
use rpostgres.Prelude.{
  ℕ, zero, suc, ◌+◌, Bool, true, false, Option, none, some, List, [], ◌∷◌, ◌++◌, map, ltb,
  if◌then◌else◌,
}
use rpostgres.Prelude.Int.{ℤ, pos}
use rpostgres.Prelude.Outcome.{Outcome, ok, ◌>>=◌}
use rpostgres.Runtime.{Runtime}
use rpostgres.DataType.{
  DataType, dt_unknown, dt_bool, dt_int, dt_int64, dt_real, same_type, enum_value, format_data_type,
}
use rpostgres.Storage.{
  Elem, Storage, Source, Next, this, spillover, new_storage, allocate, get_data_type, append_col,
  copy_to,
}

-- `std::set<DATA_TYPE>`, in the order of the enumeration.
unfoldable pub insert_type : DataType → List DataType → List DataType
insert_type t [] = t ∷ []
insert_type t (u ∷ us) =
    if same_type t u
    then u ∷ us
    else if ltb (enum_value t) (enum_value u)
    then t ∷ u ∷ us
    else u ∷ insert_type t us

unfoldable pub erase_type : DataType → List DataType → List DataType
erase_type t [] = []
erase_type t (u ∷ us) = if same_type t u then us else u ∷ erase_type t us

-- The chunks before the last one, oldest first, and the last one.
pub record Column (Double : Type 0) : Type 0 where
  pub storage : List (Storage Double)
  pub last : Storage Double
  pub n : ℕ
  pub data_types_seen : List DataType

-- The constructor: a column of Booleans begins as one of unknown type.
unfoldable pub new_column : {D : Type 0} → DataType → ℤ → Column D
new_column dt n_max = record {
  storage = [];
  last = new_storage (if same_type dt dt_bool then dt_unknown else dt) (pos 0) n_max;
  n = 0;
  data_types_seen = [];
}

unfoldable pub finalize : {D : Type 0} → Column D → ℕ → Column D
finalize c n = record c { n = n }

unfoldable pub get_type : {D : Type 0} → Column D → Source → DataType
get_type c source = get_data_type c.last source

-- The types that a column of type `dt` may hold without a warning.
unfoldable pub without_compatible : DataType → List DataType → List DataType
without_compatible dt_real seen = erase_type dt_int seen
without_compatible dt_int64 seen = erase_type dt_int seen
without_compatible dt seen = seen

-- The warning names the column's type and the types whose values are coerced.
unfoldable pub warn_type_conflicts :
    {D : Type 0} → Column D → Source → Option (String × List String)
warn_type_conflicts c source =
    let dt = get_type c source in
    let seen =
      erase_type dt
        (erase_type dt_bool (erase_type dt_unknown (without_compatible dt c.data_types_seen))) in
    elim seen [ [] ↦ none | t ∷ ts ↦ some (format_data_type dt, map format_data_type (t ∷ ts)) ]

abbrev pub all_storage : {D : Type 0} → Column D → List (Storage D)
all_storage c = c.storage ++ c.last ∷ []

-- `if (last != next) storage.push_back(next)`
unfoldable pub with_next : {D : Type 0} → Column D → List DataType → Next D → Column D
with_next c seen (this s) = record c { last = s; data_types_seen = seen }
with_next c seen (spillover s) = record c {
  storage = all_storage c;
  last = s;
  data_types_seen = seen;
}

module _ (r : Runtime) where
  open r use {Double}

  unfoldable pub set_col_value : Column Double → Source → Outcome (Column Double)
  unfolding with_next
  set_col_value c source = append_col r c.last source >>= λ next.
      ok (with_next c (insert_type source.data_type c.data_types_seen) next)

  -- The loop of `operator SEXP` over the chunks.
  unfoldable pub copy_storages :
      DataType → List (Storage Double) → List (Elem Double) → ℕ → Outcome (List (Elem Double))
  copy_storages dt [] x tgt = ok x
  copy_storages dt (s ∷ ss) x tgt =
      copy_to r s x dt tgt >>= λ (y, k). copy_storages dt ss y (tgt + k)

  -- `operator SEXP`: the vector's type and its elements.
  unfoldable pub column_sexp : Column Double → Source → Outcome (DataType × List (Elem Double))
  column_sexp c source =
      let dt = get_type c source in
      copy_storages dt (all_storage c) (allocate c.n dt) 0 >>= λ x. ok (dt, x)
