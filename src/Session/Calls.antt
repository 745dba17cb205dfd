-- ===== src/Session/Calls.antt =====
-- src/connection.cpp: the functions that R calls with its pointer to a connection.
use Prim.Native.String.{String}
use rpostgres.Prelude.{ℕ, Bool, true, false, Option, List, [], ◌∷◌, if◌then◌else◌}
use rpostgres.Prelude.Int.{ℤ}
use rpostgres.Prelude.Outcome.{Outcome, ok, stop, undefined, ◌>>=◌ as after}
use rpostgres.Prelude.Step.{Step, ◌>>=◌, ◌>>◌, return, get, modify, when}
use rpostgres.Runtime.{Runtime, Bytes}
use rpostgres.Libpq.{Libpq, Notify}
use rpostgres.Encode.{Sexp}
use rpostgres.Connection.{
  Connection, with_conn, warn, has_query, disconnect, is_transacting, set_transacting,
  get_temp_schema, set_temp_schema,
}
use rpostgres.Connection.Opening.{Info, info, new_connection}
use rpostgres.Connection.Calls.{
  quote_string, quote_identifier, copy_data, wait_for_notify, import_lo_from_file,
  export_lo_to_file,
}
use rpostgres.Session.{World, on_connection}

-- `for (i = 0; i < n; ++i) output[i] = ...xs[i]...`
unfoldable pub for_each : {S A B : Type 0} → (A → Step S B) → List A → Step S (List B)
for_each m [] = return []
for_each m (x ∷ xs) = m x >>= λ y. for_each m xs >>= λ ys. return (y ∷ ys)

module _ (r : Runtime) (L : Libpq) (format : String → List ℤ → String) (fuel rounds : ℕ) where
  open r use {Double, CharSxp}
  open L use {Conn}

  abbrev W : Type 0
  W = World r L format fuel rounds

  -- `connection_create`: R gets a pointer to a connection on which there is no result.
  unfoldable pub connection_create : List Bytes → List Bytes → Bool → Outcome W
  unfolding new_connection
  connection_create keys values check_interrupts =
      after (new_connection L keys values check_interrupts)
        (λ c. ok (record { connection = c; held = true; results = [] }))

  unfoldable pub connection_valid : W → Bool
  connection_valid w = w.held

  -- A method of the connection through R's pointer.
  unfoldable pub with_connection : {A : Type 0} → Step (Connection L) A → Step W A
  with_connection m w =
      if w.held then on_connection r L format fuel rounds m w else (stop "Invalid connection", w)

  -- The same for a method that gives its PGconn to libpq without a test for NULL.
  unfoldable pub with_pgconn : {A : Type 0} → Step Conn A → Step W A
  unfolding with_connection
  with_pgconn m = with_connection (with_conn L (λ s. (undefined, s)) m)

  unfoldable pub connection_info : Step W Info
  unfolding with_connection info
  connection_info = with_connection (info L)

  unfoldable pub connection_quote_string : List (Option Bytes) → Step W (List Bytes)
  unfolding with_connection for_each quote_string
  connection_quote_string xs = with_connection (for_each (quote_string r L) xs)

  unfoldable pub connection_quote_identifier : List Bytes → Step W (List Bytes)
  unfolding with_connection for_each quote_identifier
  connection_quote_identifier xs = with_connection (for_each (quote_identifier r L) xs)

  unfoldable pub connection_is_transacting : Step W Bool
  unfolding with_connection is_transacting
  connection_is_transacting = with_connection (get (is_transacting L))

  unfoldable pub connection_set_transacting : Bool → Step W (Unit {0})
  unfolding with_connection set_transacting
  connection_set_transacting transacting = with_connection (modify (set_transacting L transacting))

  unfoldable pub connection_import_lo_from_file : Bytes → ℕ → Step W ℕ
  unfolding with_pgconn import_lo_from_file
  connection_import_lo_from_file filename oid = with_pgconn (import_lo_from_file r L filename oid)

  unfoldable pub connection_export_lo_to_file : ℕ → Bytes → Step W (Unit {0})
  unfolding with_pgconn export_lo_to_file
  connection_export_lo_to_file oid filename = with_pgconn (export_lo_to_file r L oid filename)

  unfoldable pub connection_copy_data : Bytes → List (Sexp Double CharSxp) → Step W (Unit {0})
  unfolding with_pgconn copy_data
  connection_copy_data sql df = with_pgconn (copy_data r L fuel sql df)

  unfoldable pub connection_wait_for_notify : ℤ → Step W (Option Notify)
  unfolding with_pgconn wait_for_notify
  connection_wait_for_notify timeout_secs = with_pgconn (wait_for_notify r L timeout_secs)

  unfoldable pub connection_get_temp_schema : Step W (List (Option Bytes))
  unfolding with_connection get_temp_schema
  connection_get_temp_schema = with_connection (get (get_temp_schema L))

  unfoldable pub connection_set_temp_schema : List (Option Bytes) → Step W (Unit {0})
  unfolding with_connection set_temp_schema
  connection_set_temp_schema temp_schema = with_connection (modify (set_temp_schema L temp_schema))

  -- `connection_release`: it warns if R's pointer is NULL, or if a result is in use.
  unfoldable pub connection_release : Step W (Unit {0})
  unfolding connection_valid has_query disconnect
  connection_release w =
      if connection_valid w
      then (when (has_query L w.connection) (on_connection r L format fuel rounds (warn L 1))
            >> modify (λ w'. record w' { connection = disconnect L w'.connection; held = false }))
          w
      else on_connection r L format fuel rounds (warn L 1) w
