-- ===== src/Cache/Columns.antt =====
-- What the cache says of the columns.
use rpostgres.Prelude.{
  ℕ, ◌≡◌, refl, true, false, List, [], ◌∷◌, All, arith, length, Bool-cases, inl, inr,
}
use rpostgres.Libpq.{PgResult}
use rpostgres.DataType.{dt_unknown, same_type}
use rpostgres.Storage.Append.{IsKnown}
use rpostgres.Cache.{
  Cache, new_cache, get_column_type_from_oid, column_type, get_column_types, get_column_known, set,
}

column_type-IsKnown : (oid : ℕ) → IsKnown (column_type oid)
unfolding column_type
column_type-IsKnown oid = elim (Bool-cases (same_type (get_column_type_from_oid oid) dt_unknown)) [
  | inl e ↦ rw e (unfold same_type in refl)
  | inr e ↦ rw (e, e)
]

-- No column has the unknown type: what is not in the table of oids is read as text.
pub get_column_types-IsKnown : (oids : List ℕ) → All IsKnown (get_column_types oids)
unfolding get_column_types
get_column_types-IsKnown [] = tt
get_column_types-IsKnown (oid ∷ oids) = (column_type-IsKnown oid, get_column_types-IsKnown oids)

-- The cache is empty until a result with columns comes; then its lists agree in length, and the
-- types and flags are those of its oids.
pub record IsConsistent (c : Cache) : Type 0 where
  pub columns : c.ncols ≡ length c.names
  pub oid_each : length c.oids ≡ length c.names
  pub types_of : c.types ≡ get_column_types c.oids
  pub known_of : c.known ≡ get_column_known c.oids
  pub empty_first : c.initialized ≡ false → c.names ≡ []

pub new_cache-IsConsistent : IsConsistent new_cache
unfolding new_cache get_column_types get_column_known
new_cache-IsConsistent = ground arith

-- `set` keeps the cache consistent also when it throws, for a result that has an oid for each
-- column.
pub set-IsConsistent :
    (spec : PgResult) (c : Cache)
    → length spec.oids ≡ length spec.names
    → IsConsistent c
    → IsConsistent (set spec c).1
unfolding set
set-IsConsistent spec c h v = ground arith

-- Once the cache has columns, no later result changes them: `set` throws, or accepts a result
-- without columns or with these.
pub set_fixed :
    (spec : PgResult) (c : Cache)
    → c.initialized ≡ true
    → ((set spec c).1.names ≡ c.names)
      × ((set spec c).1.oids ≡ c.oids)
      × ((set spec c).1.types ≡ c.types)
      × ((set spec c).1.known ≡ c.known)
      × ((set spec c).1.ncols ≡ c.ncols)
unfolding set
set_fixed spec c e = ground arith
