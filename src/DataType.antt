-- ===== src/DataType.antt =====
-- src/DbColumnDataType.h, and what the static functions of src/DbColumnStorage.cpp and
-- src/DbColumn.cpp say of a data type: R's vector type, its class, its further attributes, a name.
use Prim.Native.String.{String}
use rpostgres.Prelude.{ℕ, Bool, List, [], ◌∷◌, ◌==◌}

pub data DataType : Type 0 where
  dt_unknown dt_bool dt_int dt_int64 dt_real dt_string dt_blob : DataType
  dt_date dt_datetime dt_datetimetz dt_time : DataType

-- The values of the enumeration.
unfoldable pub enum_value : DataType → ℕ
enum_value dt_unknown = 0
enum_value dt_bool = 1
enum_value dt_int = 2
enum_value dt_int64 = 3
enum_value dt_real = 4
enum_value dt_string = 5
enum_value dt_blob = 6
enum_value dt_date = 7
enum_value dt_datetime = 8
enum_value dt_datetimetz = 9
enum_value dt_time = 10

-- `a == b`
unfoldable pub same_type : DataType → DataType → Bool
unfolding enum_value
same_type a b = enum_value a == enum_value b

-- R's vector types; INT64SXP is REALSXP.
pub data SexpType : Type 0 where
  nilsxp lglsxp intsxp realsxp strsxp vecsxp : SexpType

unfoldable pub sexptype_from_datatype : DataType → SexpType
sexptype_from_datatype dt_unknown = nilsxp
sexptype_from_datatype dt_bool = lglsxp
sexptype_from_datatype dt_int = intsxp
sexptype_from_datatype dt_int64 = realsxp
sexptype_from_datatype dt_real = realsxp
sexptype_from_datatype dt_date = realsxp
sexptype_from_datatype dt_datetime = realsxp
sexptype_from_datatype dt_datetimetz = realsxp
sexptype_from_datatype dt_time = realsxp
sexptype_from_datatype dt_string = strsxp
sexptype_from_datatype dt_blob = vecsxp

-- The class attribute; none for R_NilValue.
unfoldable pub class_from_datatype : DataType → List String
class_from_datatype dt_int64 = "integer64" ∷ []
class_from_datatype dt_date = "Date" ∷ []
class_from_datatype dt_datetime = "POSIXct" ∷ "POSIXt" ∷ []
class_from_datatype dt_datetimetz = "POSIXct" ∷ "POSIXt" ∷ []
class_from_datatype other = []

-- What `set_attribs_from_datatype` does to a vector: `blob::new_blob`, `hms::new_hms`, the
-- attribute tzone = "UTC", or nothing.
pub data Attribs : Type 0 where
  new_blob new_hms tzone_utc no_attribs : Attribs

unfoldable pub set_attribs_from_datatype : DataType → Attribs
set_attribs_from_datatype dt_blob = new_blob
set_attribs_from_datatype dt_time = new_hms
set_attribs_from_datatype dt_datetime = tzone_utc
set_attribs_from_datatype other = no_attribs

unfoldable pub format_data_type : DataType → String
format_data_type dt_unknown = "unknown"
format_data_type dt_bool = "boolean"
format_data_type dt_int = "integer"
format_data_type dt_int64 = "integer64"
format_data_type dt_real = "real"
format_data_type dt_string = "string"
format_data_type dt_blob = "blob"
format_data_type other = "<unknown type>"
