-- ===== src/Libpq/Stream.antt =====
-- A connection that gives the rows of one query one by one, and then its end, for the tests of the
-- code of src/.
use rpostgres.Prelude.{Bool, true, false, Option, none, some, List, [], ◌∷◌}
use rpostgres.Prelude.Int.{pos}
use rpostgres.Runtime.{Bytes}
use rpostgres.Libpq.{Libpq, PgResult, single_tuple, tuples_ok, traffic}

pub record Stream : Type 0 where
  pub rows : List (List (Option Bytes))
  pub ended : Bool

abbrev pub row_result : List (Option Bytes) → PgResult
row_result row = record {
  status = single_tuple;
  names = [];
  oids = [];
  nparams = 0;
  cmd_tuples = [];
  row = row;
}

abbrev pub end_result : PgResult
end_result = record (row_result []) { status = tuples_ok }

abbrev pub next_result : List (List (Option Bytes)) → Bool → Option PgResult × Stream
next_result [] false = (some end_result, record { rows = []; ended = true })
next_result [] true = (none, record { rows = []; ended = true })
next_result (row ∷ rows) ended = (some (row_result row), record { rows = rows; ended = ended })

abbrev pub stream : Libpq
stream = record {
  Conn = Stream;
  connectdb_params = λ keys values. record { rows = []; ended = true };
  set_client_encoding = λ c. c;
  db = λ c. none;
  host = λ c. none;
  port = λ c. none;
  user = λ c. none;
  protocol_version = λ c. pos 3;
  server_version = λ c. pos 150000;
  backend_pid = λ c. pos 1;
  connection_ok = λ c. true;
  reset = λ c. c;
  error_message = λ c. "no error";
  prepare = λ sql c. (true, c);
  send_query = λ sql c. (true, c);
  send_query_prepared = λ params c. (true, c);
  set_single_row_mode = λ c. (true, c);
  describe_prepared = λ c. (some end_result, c);
  get_result = λ c. next_result c.rows c.ended;
  get_cancel = λ c. true;
  cancel = λ c. (true, c);
  consume_input = λ c. (true, c);
  is_busy = λ c. false;
  socket = λ c. pos 3;
  select = λ c. (traffic, c);
  check_user_interrupt = λ c. (false, c);
  exec = λ sql c. (none, c);
  put_copy_data = λ row c. (true, c);
  put_copy_end = λ c. (true, c);
  notifies = λ c. (none, c);
  select_for = λ seconds c. (traffic, c);
  lo_import = λ file oid c. (oid, c);
  lo_export = λ oid file c. (true, c);
  escape_literal = λ text c. some text;
  escape_identifier = λ text c. some text;
}
