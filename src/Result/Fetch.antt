-- ===== src/Result/Fetch.antt =====
-- src/PqResultImpl.cpp: the rows of a result as a data frame, and what is said of its columns.
use Prim.Native.String.{String}
use rpostgres.Prelude.{
  ℕ, zero, suc, ◌+◌, ◌==◌, Bool, not, Option, none, some, List, [], map, ◌&&◌, if◌then◌else◌,
  length,
}
use rpostgres.Prelude.Int.{ℤ, pos, ◌==ℤ◌}
use rpostgres.Prelude.Outcome.{ok, stop, undefined}
use rpostgres.Prelude.Step.{Step, continue, ◌>>=◌, ◌>>◌, return, modify, when, lift, get}
use rpostgres.Runtime.{Runtime, Bytes}
use rpostgres.Libpq.{Libpq, PgResult}
use rpostgres.DataType.{DataType, dt_datetime, same_type, SexpType, sexptype_from_datatype}
use rpostgres.Frame.{Frame, FrameData, new_frame, set_row, advance, get_data}
use rpostgres.Result.{Impl}
use rpostgres.Result.Run.{step}

-- A data frame with the attributes of `add_oids`.
pub record Fetched (Double : Type 0) : Type 0 where
  pub frame : FrameData Double
  pub oids : List ℕ
  pub known : List Bool
  pub without_tz : List Bool

-- The columns of `get_column_info`.
pub record ColumnInfo : Type 0 where
  pub names : List Bytes
  pub types : List SexpType
  pub oids : List ℕ
  pub known : List Bool

abbrev pub without_tz_of : List DataType → List Bool
without_tz_of types = map (λ dt. same_type dt dt_datetime) types

-- The cells of the current PGresult. Without one, a cell is read of a NULL result, for which libpq
-- documents no value: the model's outcome is `undefined`.
abbrev pub current_row : Option PgResult → List (Option Bytes)
current_row none = []
current_row (some result) = result.row

module _ (r : Runtime) (L : Libpq) (format : String → List ℤ → String) where
  open r use {Double, atoi}

  unfoldable pub add_oids : FrameData Double → Impl L → Fetched Double
  add_oids data_frame s = record {
    frame = data_frame;
    oids = s.cache.oids;
    known = s.cache.known;
    without_tz = without_tz_of s.cache.types;
  }

  abbrev pub add_to_fetched : Frame Double → Step (Impl L) (Fetched Double)
  add_to_fetched f = lift (get_data r f) >>= λ data_frame. get (add_oids data_frame)

  abbrev pub columns_of : Impl L → ℤ → Frame Double
  columns_of s n_max = new_frame s.cache.names n_max s.cache.types

  module _ (fuel rounds : ℕ) where
    -- One pass of the loop of `fetch_rows`: whether there is room for another row. `nrows` has no
    -- upper bound here; in the source it is an `int`.
    unfoldable pub fetch_row : Frame Double → Step (Impl L) (Frame Double × Bool)
    unfolding set_row step advance
    fetch_row f s =
        (lift (set_row r f (current_row s.res)) >>= λ f'. step L format atoi fuel rounds >>= λ _.
        modify (λ t. record t { nrows = t.nrows + 1 }) >> return (advance f'))
          s

    -- `while (!complete_)`
    unfoldable pub fetch_loop : ℕ → Frame Double → Step (Impl L) (Frame Double)
    unfolding fetch_row
    fetch_loop zero f s = (undefined, s)
    fetch_loop (suc left) f s =
        let again = λ (f' : Frame Double). fetch_loop left f' in
        if s.complete
        then (ok f, s)
        else continue (fetch_row f s) (λ (f', room) t. if room then again f' t else (ok f', t))

    unfoldable pub fetch_rows : ℕ → ℤ → Step (Impl L) (Fetched Double)
    unfolding new_frame add_oids
    fetch_rows left n_max s =
        (when (s.complete && length s.cache.types == 0)
              (modify (λ t. record t { warnings = t.warnings + 1 }))
            >> fetch_loop left (columns_of s n_max)
            >>= add_to_fetched)
          s

    -- A row is set but not counted: the frame has no rows.
    unfoldable pub peek_first_row : Step (Impl L) (Fetched Double)
    unfolding set_row new_frame get_data add_oids
    peek_first_row s =
        (lift (
              if s.complete
              then ok (columns_of s (pos 1))
              else set_row r (columns_of s (pos 1)) (current_row s.res))
            >>= add_to_fetched)
          s

    unfoldable pub fetch : ℕ → ℤ → Step (Impl L) (Fetched Double)
    unfolding fetch_rows peek_first_row
    fetch left n_max s =
        if not s.ready
        then (stop "Query needs to be bound before fetching", s)
        else if n_max ==ℤ pos 0
        then peek_first_row s
        else fetch_rows left n_max s

    unfoldable pub get_column_info : Step (Impl L) ColumnInfo
    unfolding peek_first_row
    get_column_info s =
        (peek_first_row >>= λ _. get (λ t. record {
          names = t.cache.names;
          types = map sexptype_from_datatype t.cache.types;
          oids = t.cache.oids;
          known = t.cache.known;
        }))
          s
