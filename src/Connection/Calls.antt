-- ===== src/Connection/Calls.antt =====
-- src/DbConnection.cpp: COPY of a data frame, notifications, large objects and quoting.
use Prim.Native.String.{String}
use rpostgres.Prelude.{
  ℕ, zero, suc, ◌+◌, Bool, true, false, not, Option, none, some, List, [], ◌∷◌, ◌==◌, if◌then◌else◌,
}
use rpostgres.Prelude.Int.{ℤ, pos, negsuc, ◌==ℤ◌, ltb_ℤ}
use rpostgres.Prelude.Outcome.{Outcome, ok, stop, undefined}
use rpostgres.Prelude.Step.{Step, continue, ◌>>=◌, ◌>>◌, return, throw, when, lift}
use rpostgres.Runtime.{Runtime, Bytes}
use rpostgres.Libpq.{
  Libpq, PgResult, Notify, command_ok, tuples_ok, single_tuple, copy_in, fatal_error, other_status,
  Waited, timeout, traffic, interrupted, failed,
}
use rpostgres.Encode.{Sexp, sexp_length, tab, newline, encode_row_in_buffer}
use rpostgres.Connection.{
  Connection, conn_stop, call, consume, finish_query, check_connection, with_conn,
}

-- `PQresultStatus(result) == PGRES_COPY_IN` and `== PGRES_COMMAND_OK`; NULL is a fatal error.
unfoldable pub is_copy_in : Option PgResult → Bool
is_copy_in none = false
is_copy_in (some result) = elim result.status [
  | copy_in ↦ true
  | command_ok ↦ false
  | tuples_ok ↦ false
  | single_tuple ↦ false
  | fatal_error ↦ false
  | other_status ↦ false
]

unfoldable pub is_command_ok : Option PgResult → Bool
is_command_ok none = false
is_command_ok (some result) = elim result.status [
  | command_ok ↦ true
  | copy_in ↦ false
  | tuples_ok ↦ false
  | single_tuple ↦ false
  | fatal_error ↦ false
  | other_status ↦ false
]

module _ (r : Runtime) (L : Libpq) where
  open r use {Double, CharSxp}
  open L use {
    Conn, error_message, get_result, exec, put_copy_data, put_copy_end, notifies, select_for,
    socket, lo_import, lo_export, escape_literal, escape_identifier,
  }

  -- `conn_stop(msg)` if a call of libpq failed.
  abbrev pub require : String → (Conn → Bool × Conn) → Step Conn (Unit {0})
  require msg f = call L f >>= λ success. when (not success) (conn_stop L msg)

  -- One row of `copy_data`'s loop.
  -- The cast of the buffer's size to `int` keeps it: a row is taken to be shorter than 2 GB.
  unfoldable pub copy_row : List (Sexp Double CharSxp) → ℕ → Step Conn (Unit {0})
  unfolding encode_row_in_buffer
  copy_row df i = lift (encode_row_in_buffer r df i [] (tab ∷ []) (newline ∷ [])) >>= λ buffer.
      require "Failed to put data" (put_copy_data buffer)

  -- `for (i; i < n; ++i)`, with `left` rows to go.
  unfoldable pub copy_rows : List (Sexp Double CharSxp) → ℕ → ℕ → Step Conn (Unit {0})
  unfolding copy_row
  copy_rows df i zero = return tt
  copy_rows df i (suc left) = copy_row df i >> copy_rows df (i + 1) left

  unfoldable pub copy_data : ℕ → Bytes → List (Sexp Double CharSxp) → Step Conn (Unit {0})
  unfolding copy_rows finish_query is_copy_in is_command_ok
  copy_data fuel sql [] = return tt
  copy_data fuel sql (x ∷ xs) =
      require "Failed to initialise COPY" (λ c. (is_copy_in (exec sql c).0, (exec sql c).1))
      >> copy_rows (x ∷ xs) 0 (sexp_length x)
      >> require "Failed to finish COPY" put_copy_end
      >> require "COPY returned error" (λ c. (is_command_ok (get_result c).0, (get_result c).1))
      >> finish_query L fuel

  -- `select(...) < 0`
  unfoldable pub select_failed : Waited → Bool
  select_failed timeout = false
  select_failed traffic = false
  select_failed interrupted = true
  select_failed (failed errno) = true

  -- `wait_for_notify`: the list that it returns is empty or a notification; `socket'` is -1 in the
  -- first round.
  unfoldable pub notify_loop : ℕ → ℤ → ℤ → Step Conn (Option Notify)
  unfolding consume select_failed
  notify_loop zero timeout_secs socket' c = (undefined, c)
  notify_loop (suc fuel) timeout_secs socket' c = continue (consume L c) (λ _ c1.
      let (notify, c2) = notifies c1 in
      let (waited, c3) = select_for timeout_secs c2 in
      let next = notify_loop fuel timeout_secs (socket c2) c3 in
      elim notify [
        | some n ↦ (ok (some n), c2)
        | none ↦
            if not (socket' ==ℤ negsuc 0)
            then (ok none, c2)
            else if ltb_ℤ (socket c2) (pos 0)
            then (stop "Failed to get connection socket", c2)
            else if select_failed waited
            then (stop "select() on the connection failed", c3)
            else next
      ])

  unfoldable pub wait_for_notify : ℤ → Step Conn (Option Notify)
  unfolding notify_loop
  wait_for_notify timeout_secs = notify_loop 2 timeout_secs (negsuc 0)

  unfoldable pub import_lo_from_file : Bytes → ℕ → Step Conn ℕ
  import_lo_from_file filename p_oid c =
      let (lo_oid, c') = lo_import filename p_oid c in
      if lo_oid == 0 then (stop (error_message c'), c') else (ok lo_oid, c')

  unfoldable pub export_lo_to_file : ℕ → Bytes → Step Conn (Unit {0})
  export_lo_to_file p_oid filename c =
      let (success, c') = lo_export p_oid filename c in
      if success then (ok tt, c') else (stop (error_message c'), c')

  unfoldable pub get_null_string : Bytes
  get_null_string = 78 ∷ 85 ∷ 76 ∷ 76 ∷ []

  -- `Rf_mkCharCE` reads what libpq returned, which may be NULL.
  unfoldable pub quoted : Option Bytes → Outcome Bytes
  quoted none = undefined
  quoted (some text) = ok text

  -- `quote_string`: NA is NULL, and all else a literal as libpq writes it.
  unfoldable pub quote_string : Option Bytes → Step (Connection L) Bytes
  unfolding check_connection get_null_string quoted
  quote_string none = check_connection L >> return get_null_string
  quote_string (some str) =
      check_connection L
      >> with_conn L (throw "Disconnected") (λ c. (quoted (escape_literal str c), c))

  unfoldable pub quote_identifier : Bytes → Step (Connection L) Bytes
  unfolding check_connection quoted
  quote_identifier str =
      check_connection L
      >> with_conn L (throw "Disconnected") (λ c. (quoted (escape_identifier str c), c))
