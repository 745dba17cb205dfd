-- ===== src/Storage/Examples.antt =====
-- A run of src/DbColumnStorage.cpp.
use rpostgres.Prelude.{◌≡◌, refl, some, [], ◌∷◌}
use rpostgres.Prelude.Int.{pos, ◌-ℤ◌}
use rpostgres.Prelude.Outcome.{ok}
use rpostgres.Sample.{sample}
use rpostgres.DataSource.{fetch_int64}
use rpostgres.DataType.{dt_int, dt_int64, same_type}
use rpostgres.Storage.{
  unset, int64_elem, spillover, new_storage, allocate, get_new_capacity, fetch_value, spill,
  append_data, append_col,
}

-- An int64 in a column of integers makes a chunk of int64.
promoted :
    append_col sample
      (record { items = unset ∷ []; i = 0; dt = dt_int; n_max = pos 2 })
      (record { data_type = dt_int64; decl_data_type = dt_int64; value = some (52 ∷ 50 ∷ []) })
    ≡ ok (
        spillover (record {
          items = int64_elem (pos 42) ∷ unset ∷ [];
          i = 1;
          dt = dt_int64;
          n_max = pos 2;
        }))
unfolding append_col append_data same_type fetch_value fetch_int64 spill new_storage allocate
    get_new_capacity ◌-ℤ◌
promoted = refl
