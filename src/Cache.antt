-- ===== src/Cache.antt =====
-- `PqResultImpl::_cache` in src/PqResultImpl.cpp: the columns of a result, by their oids.
pub mod Columns
pub mod Fits
mod Examples
use rpostgres.Prelude.{
  ℕ, Bool, true, false, not, List, [], ◌∷◌, map, ◌==◌, ◌&&◌, ◌||◌, if◌then◌else◌, length,
}
use rpostgres.Prelude.Outcome.{Outcome, ok, stop}
use rpostgres.Runtime.{Bytes}
use rpostgres.Libpq.{PgResult}
use rpostgres.DataSource.{text_eq}
use rpostgres.DataType.{
  DataType, dt_unknown, dt_bool, dt_int, dt_int64, dt_real, dt_string, dt_blob, dt_date,
  dt_datetime, dt_datetimetz, dt_time, same_type,
}

pub record Cache : Type 0 where
  pub initialized : Bool
  pub names : List Bytes
  pub oids : List ℕ
  pub types : List DataType
  pub known : List Bool
  pub ncols : ℕ
  pub nparams : ℕ

unfoldable pub new_cache : Cache
new_cache = record {
  initialized = false;
  names = [];
  oids = [];
  types = [];
  known = [];
  ncols = 0;
  nparams = 0;
}

-- The `switch` over the oids of pg_type.
unfoldable pub get_column_type_from_oid : ℕ → DataType
get_column_type_from_oid type =
    if type == 20
    then dt_int64
    else if type == 21 || type == 23 || type == 26
    then dt_int
    else if type == 1700 || type == 701 || type == 700 || type == 790
    then dt_real
    else if type == 18 || type == 19 || type == 25 || type == 1042 || type == 1043
    then dt_string
    else if type == 1082
    then dt_date
    else if type == 1083 || type == 1266
    then dt_time
    else if type == 1114
    then dt_datetime
    else if type == 1184
    then dt_datetimetz
    else if type == 1186 || type == 2950
    then dt_string
    else if type == 16
    then dt_bool
    else if type == 17 || type == 2278
    then dt_blob
    else if type == 705
    then dt_string
    else dt_unknown

-- A column of a type that is not in the table is read as text.
unfoldable pub column_type : ℕ → DataType
column_type oid =
    let data_type = get_column_type_from_oid oid in
    if same_type data_type dt_unknown then dt_string else data_type

unfoldable pub get_column_types : List ℕ → List DataType
get_column_types oids = map column_type oids

unfoldable pub get_column_known : List ℕ → List Bool
get_column_known oids = map (λ oid. not (same_type (get_column_type_from_oid oid) dt_unknown)) oids

-- `names_ == new_names` and `oids_ == new_oids`
unfoldable pub same_names : List Bytes → List Bytes → Bool
same_names [] [] = true
same_names [] (m ∷ ms) = false
same_names (n ∷ ns) [] = false
same_names (n ∷ ns) (m ∷ ms) = text_eq n m && same_names ns ms

unfoldable pub same_oids : List ℕ → List ℕ → Bool
same_oids [] [] = true
same_oids [] (m ∷ ms) = false
same_oids (n ∷ ns) [] = false
same_oids (n ∷ ns) (m ∷ ms) = n == m && same_oids ns ms

-- `size() == 0`
abbrev pub is_empty {ℓ} : {A : Type ℓ} → List A → Bool
is_empty [] = true
is_empty (x ∷ xs) = false

-- `set`: what it returns or throws, and the cache after it.
unfoldable pub set : PgResult → Cache → Outcome (Unit {0}) × Cache
set spec c =
    let nparams = if c.nparams == 0 then spec.nparams else c.nparams in
    if c.initialized || is_empty spec.names
    then (if not (is_empty c.names)
          && not (is_empty spec.names)
          && not (same_names c.names spec.names)
        then (
          stop "Multiple queries must use the same column names.",
          record c { nparams = nparams },
        )
        else if not (is_empty c.oids)
            && not (is_empty spec.oids)
            && not (same_oids c.oids spec.oids)
        then (
          stop "Multiple queries must use the same column types.",
          record c { nparams = nparams },
        )
        else (ok tt, record c { nparams = nparams }))
    else (
      ok tt,
      record {
        initialized = true;
        names = spec.names;
        oids = spec.oids;
        types = get_column_types spec.oids;
        known = get_column_known spec.oids;
        ncols = length spec.names;
        nparams = nparams;
      },
    )
