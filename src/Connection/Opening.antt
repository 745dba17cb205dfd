-- ===== src/Connection/Opening.antt =====
-- src/DbConnection.cpp: the constructor of a connection, and what it tells about itself.
use rpostgres.Prelude.{Bool, false, Option, none, some, List, [], ◌∷◌, if◌then◌else◌}
use rpostgres.Prelude.Int.{ℤ}
use rpostgres.Prelude.Outcome.{Outcome, ok, stop, undefined, ◌>>=◌}
use rpostgres.Prelude.Step.{Step, throw, ◌>>◌}
use rpostgres.Runtime.{Bytes}
use rpostgres.Libpq.{Libpq}
use rpostgres.Connection.{Connection, check_connection, with_conn}

-- The C arrays that are made of `keys` and `values`: as many values as there are keys, or undefined.
unfoldable pub c_values : List Bytes → List Bytes → Outcome (List Bytes)
c_values [] values = ok []
c_values (key ∷ keys) [] = undefined
c_values (key ∷ keys) (value ∷ values) = c_values keys values >>= λ rest. ok (value ∷ rest)

-- A string of libpq, where NULL becomes the empty string.
unfoldable pub or_empty : Option Bytes → Bytes
or_empty none = []
or_empty (some bytes) = bytes

pub record Info : Type 0 where
  pub dbname : Bytes
  pub host : Bytes
  pub port : Bytes
  pub username : Bytes
  pub protocol_version : ℤ
  pub server_version : ℤ
  pub db_version : ℤ
  pub pid : ℤ

module _ (L : Libpq) where
  open L use {Conn, connectdb_params, set_client_encoding, connection_ok, error_message}

  -- A connection that was opened.
  unfoldable pub fresh : Bool → Conn → Connection L
  fresh check_interrupts c = record {
    conn = some (set_client_encoding c);
    current_result = none;
    transacting = false;
    check_interrupts = check_interrupts;
    temp_schema = none ∷ [];
    warnings = 0;
  }

  -- The constructor past the call of PQconnectdbParams.
  unfoldable pub opened : Bool → Conn → Outcome (Connection L)
  unfolding fresh
  opened check_interrupts c =
      if connection_ok c then ok (fresh check_interrupts c) else stop (error_message c)

  -- The constructor of DbConnection.
  unfoldable pub new_connection : List Bytes → List Bytes → Bool → Outcome (Connection L)
  unfolding c_values opened
  new_connection keys values check_interrupts =
      c_values keys values >>= λ taken. opened check_interrupts (connectdb_params keys taken)

  unfoldable pub info_of : Conn → Info
  unfolding or_empty
  info_of c = record {
    dbname = or_empty (L.db c);
    host = or_empty (L.host c);
    port = or_empty (L.port c);
    username = or_empty (L.user c);
    protocol_version = L.protocol_version c;
    server_version = L.server_version c;
    db_version = L.server_version c;
    pid = L.backend_pid c;
  }

  unfoldable pub info : Step (Connection L) Info
  unfolding check_connection info_of
  info = check_connection L >> with_conn L (throw "Disconnected") (λ c. (ok (info_of c), c))

  unfoldable pub is_check_interrupts : Connection L → Bool
  is_check_interrupts s = s.check_interrupts
