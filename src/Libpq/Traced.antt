-- ===== src/Libpq/Traced.antt =====
-- A library that keeps, with a connection of another one, whether it was passed to libpq since: so
-- what a method does with a PGconn can be told from its own calls. `select` and R's check for an
-- interrupt are not calls of libpq; those that only ask something of the PGconn are not kept, and no
-- method of a result makes them without another call.
use rpostgres.Prelude.{Bool, true, false}
use rpostgres.Libpq.{Libpq}

module _ (L : Libpq) where
  open L use {Conn}

  pub record Trace : Type 0 where
    pub used : Bool
    pub conn : Conn

  abbrev pub unused : Conn → Trace
  unused c = record { used = false; conn = c }

  -- A call of libpq.
  abbrev uses : {A : Type 0} → (Conn → A × Conn) → Trace → A × Trace
  uses f t = let (x, c) = f t.conn in (x, record { used = true; conn = c })

  -- A call of another library.
  abbrev passes : {A : Type 0} → (Conn → A × Conn) → Trace → A × Trace
  passes f t = let (x, c) = f t.conn in (x, record { used = t.used; conn = c })

  abbrev pub traced : Libpq
  traced = record {
    Conn = Trace;
    connectdb_params = λ keys values. unused (L.connectdb_params keys values);
    set_client_encoding = λ t. record { used = true; conn = L.set_client_encoding t.conn };
    db = λ t. L.db t.conn;
    host = λ t. L.host t.conn;
    port = λ t. L.port t.conn;
    user = λ t. L.user t.conn;
    protocol_version = λ t. L.protocol_version t.conn;
    server_version = λ t. L.server_version t.conn;
    backend_pid = λ t. L.backend_pid t.conn;
    connection_ok = λ t. L.connection_ok t.conn;
    reset = λ t. record { used = true; conn = L.reset t.conn };
    error_message = λ t. L.error_message t.conn;
    prepare = λ sql. uses (L.prepare sql);
    send_query = λ sql. uses (L.send_query sql);
    send_query_prepared = λ params. uses (L.send_query_prepared params);
    set_single_row_mode = uses L.set_single_row_mode;
    describe_prepared = uses L.describe_prepared;
    get_result = uses L.get_result;
    get_cancel = λ t. L.get_cancel t.conn;
    cancel = uses L.cancel;
    consume_input = uses L.consume_input;
    is_busy = λ t. L.is_busy t.conn;
    socket = λ t. L.socket t.conn;
    select = passes L.select;
    check_user_interrupt = passes L.check_user_interrupt;
    exec = λ sql. uses (L.exec sql);
    put_copy_data = λ row. uses (L.put_copy_data row);
    put_copy_end = uses L.put_copy_end;
    notifies = uses L.notifies;
    select_for = λ seconds. passes (L.select_for seconds);
    lo_import = λ file oid. uses (L.lo_import file oid);
    lo_export = λ oid file. uses (L.lo_export oid file);
    escape_literal = λ text t. L.escape_literal text t.conn;
    escape_identifier = λ text t. L.escape_identifier text t.conn;
  }
