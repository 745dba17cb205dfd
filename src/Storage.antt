-- ===== src/Storage.antt =====
-- src/DbColumnStorage.cpp and .h: a chunk of a column, which spills over into a new chunk when it
-- is full or of a type that cannot hold the next value.
pub mod Contents
pub mod Append
mod Examples
use rpostgres.Prelude.{
  ℕ, zero, suc, ◌+◌, ◌*◌, max, Bool, true, false, Option, none, some, List, [], ◌∷◌, ltb, leb,
  if◌then◌else◌, ◌&&◌, length, set, replicate,
}
use rpostgres.Prelude.Int.{ℤ, pos, negsuc, ◌-ℤ◌, pos_part, ltb_ℤ, ◌==ℤ◌}
use rpostgres.Prelude.Outcome.{Outcome, ok, stop, undefined, ◌>>=◌}
use rpostgres.Runtime.{Runtime, Bytes}
use rpostgres.Encode.{na_integer}
use rpostgres.DataSource.{
  fetch_bool, fetch_int, fetch_int64, fetch_real, fetch_string, fetch_blob, fetch_date,
  fetch_datetime_local, fetch_datetime, fetch_time,
}
use rpostgres.DataType.{
  DataType, dt_unknown, dt_bool, dt_int, dt_int64, dt_real, dt_string, dt_blob, dt_date,
  dt_datetime, dt_datetimetz, dt_time, same_type, SexpType, nilsxp, lglsxp, intsxp, realsxp, strsxp,
  vecsxp, sexptype_from_datatype,
}

-- NA_INTEGER64, the least int64_t.
abbrev pub na_integer64 : ℤ
na_integer64 = negsuc 9223372036854775807

-- An element of an R vector. `unset` is an element that nothing has been written to.
pub data Elem (Double : Type 0) : Type 0 where
  unset : Elem Double
  int_elem : ℤ → Elem Double
  int64_elem : ℤ → Elem Double
  real_elem : Double → Elem Double
  string_elem : Bytes → Elem Double
  na_string : Elem Double
  raw_elem : Bytes → Elem Double
  nil_elem : Elem Double

-- What a column's source says of the row at hand (src/DbColumnDataSource.h): the type of the item,
-- the declared type, and the item's text, or none if it is NULL.
pub record Source : Type 0 where
  pub data_type : DataType
  pub decl_data_type : DataType
  pub value : Option Bytes

-- `items` is the R vector `data`; its length is the capacity.
pub record Storage (Double : Type 0) : Type 0 where
  pub items : List (Elem Double)
  pub i : ℕ
  pub dt : DataType
  pub n_max : ℤ

-- `Rf_allocVector` makes R_NilValue, of length 0, of type NILSXP.
unfoldable pub allocate : {D : Type 0} → ℕ → DataType → List (Elem D)
unfolding sexptype_from_datatype
allocate n dt_unknown = []
allocate n dt = replicate n unset

unfoldable pub get_new_capacity : ℤ → ℤ → ℕ
get_new_capacity n_max desired =
    if ltb_ℤ n_max (pos 0) then max (pos_part desired) 100 else max (pos_part desired) 1

unfoldable pub new_storage : {D : Type 0} → DataType → ℤ → ℤ → Storage D
new_storage dt capacity n_max = record {
  items = allocate (get_new_capacity n_max capacity) dt;
  i = 0;
  dt = dt;
  n_max = n_max;
}

abbrev pub get_capacity : {D : Type 0} → Storage D → ℕ
get_capacity s = length s.items

unfoldable pub get_data_type : {D : Type 0} → Storage D → Source → DataType
get_data_type s source = if same_type s.dt dt_unknown then source.decl_data_type else s.dt

-- What `append_col` returns: `this`, or the new chunk that took the value.
pub data Next (Double : Type 0) : Type 0 where
  this : Storage Double → Next Double
  spillover : Storage Double → Next Double

abbrev pub next_storage : {D : Type 0} → Next D → Storage D
next_storage (this s) = s
next_storage (spillover s) = s

-- Four calls are as deep as it gets for a source that knows its type.
abbrev pub append_depth : ℕ
append_depth = 4

module _ (r : Runtime) where
  open r use {Double, na_real, of_int}

  -- The value that `fill_default_value` writes.
  unfoldable pub default_value : DataType → Outcome (Elem Double)
  default_value dt_bool = ok (int_elem na_integer)
  default_value dt_int = ok (int_elem na_integer)
  default_value dt_int64 = ok (int64_elem na_integer64)
  default_value dt_real = ok (real_elem na_real)
  default_value dt_date = ok (real_elem na_real)
  default_value dt_datetime = ok (real_elem na_real)
  default_value dt_datetimetz = ok (real_elem na_real)
  default_value dt_time = ok (real_elem na_real)
  default_value dt_string = ok na_string
  default_value dt_blob = ok nil_elem
  default_value dt_unknown = stop "Not setting value for unknown data type"

  unfoldable pub fill_default_value :
      List (Elem Double) → DataType → ℕ → Outcome (List (Elem Double))
  fill_default_value x dt i = do v ← default_value dt; ok (set x i v)

  -- The value that `fetch_value` writes, by the chunk's type.
  unfoldable pub fetch_value : DataType → Bytes → Outcome (Elem Double)
  fetch_value dt_bool text = ok (int_elem (fetch_bool r text))
  fetch_value dt_int text = ok (int_elem (fetch_int r text))
  fetch_value dt_int64 text = do n ← fetch_int64 r text; ok (int64_elem n)
  fetch_value dt_real text = ok (real_elem (fetch_real r text))
  fetch_value dt_string text = ok (string_elem (fetch_string r text))
  fetch_value dt_blob text = do b ← fetch_blob r text; ok (raw_elem b)
  fetch_value dt_date text = do d ← fetch_date r text; ok (real_elem d)
  fetch_value dt_datetime text = do d ← fetch_datetime_local r text; ok (real_elem d)
  fetch_value dt_datetimetz text = do d ← fetch_datetime r text; ok (real_elem d)
  fetch_value dt_time text = do d ← fetch_time r text; ok (real_elem d)
  fetch_value dt_unknown text = stop "NYI"

  unfoldable pub append_null : Storage Double → Outcome (Next Double)
  append_null s =
      let filled = fill_default_value s.items s.dt s.i >>= λ items.
      ok (this (record s { items = items; i = s.i + 1 })) in
      if ltb s.i (get_capacity s) then filled else ok (this (record s { i = s.i + 1 }))

  abbrev pub desired_capacity : Storage Double → ℤ
  desired_capacity s =
      if ltb_ℤ s.n_max (pos 0) then pos (get_capacity s * 2) else s.n_max -ℤ pos s.i

  -- The chunk that `append_data_to_new` makes.
  unfoldable pub spill : Storage Double → Source → DataType → Storage Double
  spill s source new_dt =
      let dt = if same_type new_dt dt_unknown then source.data_type else new_dt in
      new_storage dt (desired_capacity s) s.n_max

  -- `append_data` with `append_data_to_new`, which calls it on the new chunk. The fuel is the
  -- depth of the calls; running out of it is a stack that overflows.
  unfoldable pub append_data : ℕ → Storage Double → Source → Bytes → Outcome (Next Double)
  append_data zero s source text = undefined
  append_data (suc fuel) s source text =
      let to_new = λ (new_dt : DataType).
        append_data fuel (spill s source new_dt) source text >>= λ next.
        ok (spillover (next_storage next)) in
      let fetched = fetch_value s.dt text >>= λ v.
      ok (this (record s { items = set s.items s.i v; i = s.i + 1 })) in
      if same_type s.dt dt_unknown
      then to_new s.dt
      else if leb (get_capacity s) s.i
      then to_new s.dt
      else if same_type s.dt dt_int && same_type source.data_type dt_int64
      then to_new dt_int64
      else if same_type s.dt dt_int && same_type source.data_type dt_real
      then to_new dt_real
      else fetched

  unfoldable pub append_col : Storage Double → Source → Outcome (Next Double)
  append_col s source = elim source.value [
    | none ↦ append_null s
    | some text ↦ append_data append_depth s source text
  ]

  -- `copy_value` from a vector that is not R_NilValue. An `int64_t` in a vector that is read as
  -- doubles, or a double as `int64_t`, would be its bit pattern: such a read is left undefined, as
  -- is the access to a vector of another kind. A switch on TYPEOF that has no case writes nothing.
  unfoldable pub copy_value : DataType → Elem Double → Outcome (Elem Double)
  copy_value dt_bool (int_elem v) = ok (int_elem v)
  copy_value dt_int (int_elem v) = ok (int_elem v)
  copy_value dt_int64 (int_elem v) = ok (int64_elem (if v ==ℤ na_integer then na_integer64 else v))
  copy_value dt_int64 (int64_elem v) = ok (int64_elem v)
  copy_value dt_real (int_elem v) = ok (real_elem (if v ==ℤ na_integer then na_real else of_int v))
  copy_value dt_real (real_elem v) = ok (real_elem v)
  copy_value dt_string (string_elem s) = ok (string_elem s)
  copy_value dt_string na_string = ok na_string
  copy_value dt_blob (raw_elem b) = ok (raw_elem b)
  copy_value dt_blob nil_elem = ok nil_elem
  copy_value dt_date (real_elem v) = ok (real_elem v)
  copy_value dt_datetime (real_elem v) = ok (real_elem v)
  copy_value dt_datetimetz (real_elem v) = ok (real_elem v)
  copy_value dt_time (real_elem v) = ok (real_elem v)
  copy_value dt_unknown v = stop "NYI: default"
  copy_value dt v = undefined

  -- The second loop of `copy_to`, with `left` values to go: it writes NULLs. The result is the
  -- vector and the number of values written.
  unfoldable pub fill_loop :
      DataType → ℕ → List (Elem Double) → ℕ → Outcome (List (Elem Double) × ℕ)
  fill_loop dt zero x tgt = ok (x, 0)
  fill_loop dt (suc left) x tgt =
      let rest = fill_default_value x dt tgt >>= λ x'.
      fill_loop dt left x' (tgt + 1) >>= λ (y, k). ok (y, suc k) in
      if ltb tgt (length x) then rest else ok (x, 0)

  -- The first loop, over the items of the chunk, and then the second.
  unfoldable pub copy_loop :
      DataType → List (Elem Double) → ℕ → List (Elem Double) → ℕ → Outcome (List (Elem Double) × ℕ)
  copy_loop dt [] left x tgt = fill_loop dt left x tgt
  copy_loop dt (e ∷ items) zero x tgt = ok (x, 0)
  copy_loop dt (e ∷ items) (suc left) x tgt =
      let rest = copy_value dt e >>= λ v.
      copy_loop dt items left (set x tgt v) (tgt + 1) >>= λ (y, k). ok (y, suc k) in
      if ltb tgt (length x) then rest else ok (x, 0)

  unfoldable pub copy_to :
      Storage Double → List (Elem Double) → DataType → ℕ → Outcome (List (Elem Double) × ℕ)
  copy_to s x dt tgt = copy_loop dt s.items s.i x tgt
