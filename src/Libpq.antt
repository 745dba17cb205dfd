-- ===== src/Libpq.antt =====
-- What the code calls in libpq, and in the operating system to wait for it. A connection is a value
-- that the calls change; a query's results come one at a time from `get_result`.
pub mod Link
pub mod Stream
pub mod Traced
use Prim.Native.String.{String}
use rpostgres.Prelude.{ℕ, Bool, Option, List}
use rpostgres.Prelude.Int.{ℤ}
use rpostgres.Runtime.{Bytes}

-- ExecStatusType; the statuses that the code does not name are `other_status`.
pub data ExecStatus : Type 0 where
  command_ok tuples_ok single_tuple copy_in fatal_error other_status : ExecStatus

-- A PGresult: its columns' names and type oids, the number of parameters, PQcmdTuples, and the
-- cells of its first row.
pub record PgResult : Type 0 where
  pub status : ExecStatus
  pub names : List Bytes
  pub oids : List ℕ
  pub nparams : ℕ
  pub cmd_tuples : Bytes
  pub row : List (Option Bytes)

-- A parameter of a prepared query: its bytes, none for NULL, and whether it is binary.
pub record Param : Type 0 where
  pub value : Option Bytes
  pub binary : Bool

-- What `select` returns: a timeout, traffic, a signal, or another error with its number.
pub data Waited : Type 0 where
  timeout traffic interrupted : Waited
  failed : ℤ → Waited

-- A PGnotify: its channel, the process that sent it, and its payload.
pub record Notify : Type 0 where
  pub relname : Bytes
  pub be_pid : ℤ
  pub extra : Bytes

pub record Libpq : Type 1 where
  pub Conn : Type 0
  -- PQconnectdbParams of keywords and values, and PQsetClientEncoding(conn, "UTF-8")
  pub connectdb_params : List Bytes → List Bytes → Conn
  pub set_client_encoding : Conn → Conn
  -- PQdb, PQhost, PQport and PQuser (none: NULL), PQprotocolVersion, PQserverVersion, PQbackendPID
  pub db : Conn → Option Bytes
  pub host : Conn → Option Bytes
  pub port : Conn → Option Bytes
  pub user : Conn → Option Bytes
  pub protocol_version : Conn → ℤ
  pub server_version : Conn → ℤ
  pub backend_pid : Conn → ℤ
  -- PQstatus(conn) == CONNECTION_OK, PQreset, PQerrorMessage
  pub connection_ok : Conn → Bool
  pub reset : Conn → Conn
  pub error_message : Conn → String
  -- whether PQprepare, PQsendQuery, PQsendQueryPrepared and PQsetSingleRowMode succeed
  pub prepare : Bytes → Conn → Bool × Conn
  pub send_query : Bytes → Conn → Bool × Conn
  pub send_query_prepared : List Param → Conn → Bool × Conn
  pub set_single_row_mode : Conn → Bool × Conn
  -- PQdescribePrepared (none: its status is not COMMAND_OK) and PQgetResult (none: NULL)
  pub describe_prepared : Conn → Option PgResult × Conn
  pub get_result : Conn → Option PgResult × Conn
  -- PQgetCancel (false: NULL) and PQcancel (false: it failed)
  pub get_cancel : Conn → Bool
  pub cancel : Conn → Bool × Conn
  -- PQconsumeInput, PQisBusy, PQsocket, select for a second, and R's check for a user interrupt
  -- (true: interrupted)
  pub consume_input : Conn → Bool × Conn
  pub is_busy : Conn → Bool
  pub socket : Conn → ℤ
  pub select : Conn → Waited × Conn
  pub check_user_interrupt : Conn → Bool × Conn
  -- PQexec, PQputCopyData and PQputCopyEnd (false: not 1), PQnotifies (none: NULL), select for a
  -- number of seconds
  pub exec : Bytes → Conn → Option PgResult × Conn
  pub put_copy_data : Bytes → Conn → Bool × Conn
  pub put_copy_end : Conn → Bool × Conn
  pub notifies : Conn → Option Notify × Conn
  pub select_for : ℤ → Conn → Waited × Conn
  -- lo_import_with_oid (0: InvalidOid), lo_export (false: not 1), PQescapeLiteral and
  -- PQescapeIdentifier (none: NULL)
  pub lo_import : Bytes → ℕ → Conn → ℕ × Conn
  pub lo_export : ℕ → Bytes → Conn → Bool × Conn
  pub escape_literal : Bytes → Conn → Option Bytes
  pub escape_identifier : Bytes → Conn → Option Bytes
