-- ===== src/Cache/Examples.antt =====
-- The statements on the cache of columns of src/PqResultImpl.cpp at a result of two columns.
use rpostgres.Prelude.{◌≡◌, refl, [], ◌∷◌, All}
use rpostgres.Libpq.{PgResult, tuples_ok}
use rpostgres.Storage.Append.{IsKnown}
use rpostgres.Cache.{Cache, new_cache, get_column_types, set}
use rpostgres.Cache.Columns.{
  get_column_types-IsKnown, IsConsistent, new_cache-IsConsistent, set-IsConsistent, set_fixed,
}

-- Columns `a` of type int4 and `b` of a type that is not in the table.
abbrev two_columns : PgResult
two_columns = record {
  status = tuples_ok;
  names = (97 ∷ []) ∷ (98 ∷ []) ∷ [];
  oids = 23 ∷ 99999 ∷ [];
  nparams = 0;
  cmd_tuples = [];
  row = [];
}

abbrev other_columns : PgResult
other_columns = record two_columns { names = (97 ∷ []) ∷ (99 ∷ []) ∷ [] }

get_column_types-IsKnown_example : All IsKnown (get_column_types (23 ∷ 99999 ∷ []))
get_column_types-IsKnown_example = get_column_types-IsKnown (23 ∷ 99999 ∷ [])

set-IsConsistent_example : IsConsistent (set two_columns new_cache).1
set-IsConsistent_example = set-IsConsistent two_columns new_cache refl new_cache-IsConsistent

abbrev filled : Cache
filled = (set two_columns new_cache).1

set_fixed_example :
    ((set other_columns filled).1.names ≡ filled.names)
    × ((set other_columns filled).1.oids ≡ filled.oids)
    × ((set other_columns filled).1.types ≡ filled.types)
    × ((set other_columns filled).1.known ≡ filled.known)
    × ((set other_columns filled).1.ncols ≡ filled.ncols)
unfolding set new_cache
set_fixed_example = set_fixed other_columns filled refl
