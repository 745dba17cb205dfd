-- ===== src/Libpq/Link.antt =====
-- A connection of which only the state, the number of results on their way and the lines of COPY
-- that were sent are known, for the
-- tests of the code of src/.
use rpostgres.Prelude.{ℕ, zero, suc, Bool, true, false, Option, none, some, [], ◌∷◌, ◌++◌, List}
use rpostgres.Runtime.{Bytes}
use rpostgres.Prelude.Int.{pos}
use rpostgres.Libpq.{Libpq, PgResult, tuples_ok, command_ok, copy_in, traffic}

pub record Link : Type 0 where
  pub up : Bool
  pub waiting : ℕ
  pub sent : List Bytes

abbrev pub empty_result : PgResult
empty_result = record {
  status = tuples_ok;
  names = [];
  oids = [];
  nparams = 0;
  cmd_tuples = [];
  row = [];
}

abbrev pub take_result : Link → Option PgResult × Link
take_result link = elim link.waiting [
  | zero ↦ (none, link)
  | suc n ↦ (some empty_result, record link { waiting = n })
]

abbrev pub link : Libpq
link = record {
  Conn = Link;
  connectdb_params = λ keys values. record { up = true; waiting = 0; sent = [] };
  set_client_encoding = λ c. c;
  db = λ c. none;
  host = λ c. none;
  port = λ c. none;
  user = λ c. none;
  protocol_version = λ c. pos 3;
  server_version = λ c. pos 150000;
  backend_pid = λ c. pos 1;
  connection_ok = λ c. c.up;
  reset = λ c. record c { up = true };
  error_message = λ c. "no error";
  prepare = λ sql c. (c.up, c);
  send_query = λ sql c. (c.up, c);
  send_query_prepared = λ params c. (c.up, record c { waiting = 1 });
  set_single_row_mode = λ c. (c.up, c);
  describe_prepared = λ c. (some empty_result, c);
  get_result = take_result;
  get_cancel = λ c. c.up;
  cancel = λ c. (c.up, c);
  consume_input = λ c. (c.up, c);
  is_busy = λ c. false;
  socket = λ c. pos 3;
  select = λ c. (traffic, c);
  check_user_interrupt = λ c. (false, c);
  exec = λ sql c. (some record empty_result { status = copy_in }, c);
  put_copy_data = λ row c. (true, record c { sent = c.sent ++ row ∷ [] });
  put_copy_end = λ c. (c.up, c);
  notifies = λ c. (none, c);
  select_for = λ seconds c. (traffic, c);
  lo_import = λ file oid c. (oid, c);
  lo_export = λ oid file c. (c.up, c);
  escape_literal = λ text c. some text;
  escape_identifier = λ text c. some text;
}

-- A connection that answers what is waiting with PGRES_COMMAND_OK for one row.
abbrev pub one_row : PgResult
one_row = record empty_result { status = command_ok; cmd_tuples = 49 ∷ [] }

abbrev take_command : ℕ → Link → Option PgResult × Link
take_command zero c = (none, c)
take_command (suc n) c = (some one_row, record c { waiting = n })

abbrev pub server : Libpq
server = record link { get_result = λ c. take_command c.waiting c }
