-- ===== src/Connection.antt =====
-- src/DbConnection.cpp: the state of a connection, the query in progress, and its cancellation. The
-- connection is a Libpq connection, or none after `disconnect`; a result is known by its number, as
-- by its address in the source. R's warnings are counted. A loop has fuel; out of it, the outcome is
-- `undefined`.
pub mod Calls
pub mod Opening
pub mod Frames
pub mod Current
pub mod Notify
pub mod Sending
pub mod Copying
pub mod Unended
mod Examples
use Prim.Native.String.{String, ◌++◌ as string_append}
use rpostgres.Prelude.{
  ℕ, zero, suc, ◌+◌, Bool, true, false, not, Option, none, some, List, ◌==◌, ◌&&◌, if◌then◌else◌,
}
use rpostgres.Prelude.Outcome.{Outcome, ok, stop, undefined}
use rpostgres.Prelude.Step.{Step, continue, ◌>>=◌, ◌>>◌, return, throw, get, modify, when, lift}
use rpostgres.Runtime.{Bytes}
use rpostgres.Libpq.{Libpq}

-- `a == b` for pointers to results, which may be NULL.
unfoldable pub same_result : Option ℕ → Option ℕ → Bool
same_result none none = true
same_result none (some b) = false
same_result (some a) none = false
same_result (some a) (some b) = a == b

abbrev pub is_null : Option ℕ → Bool
is_null none = true
is_null (some a) = false

-- `pCurrentResult_ != NULL && !(pCurrentResult_->complete())`
unfoldable pub is_open : (ℕ → Bool) → Option ℕ → Bool
is_open complete none = false
is_open complete (some q) = not (complete q)

module _ (L : Libpq) where
  open L use {
    Conn, connection_ok, reset, error_message, get_result, get_cancel, cancel, consume_input,
  }

  pub record Connection : Type 0 where
    pub conn : Option Conn
    pub current_result : Option ℕ
    pub transacting : Bool
    pub check_interrupts : Bool
    pub temp_schema : List (Option Bytes)
    pub warnings : ℕ

  -- `DbConnection::conn_stop(conn, msg)`
  abbrev pub conn_stop : {A : Type 0} → String → Step Conn A
  conn_stop msg c = (stop (string_append msg (string_append " : " (error_message c))), c)

  -- `check_connection` past the test for NULL: a connection that is lost is reset once.
  unfoldable pub check_open : Step Conn (Unit {0})
  check_open c =
      if connection_ok c
      then (ok tt, c)
      else if connection_ok (reset c)
      then (ok tt, reset c)
      else conn_stop "Lost connection to database" (reset c)

  -- A call of libpq that succeeds or not.
  abbrev pub call : (Conn → Bool × Conn) → Step Conn Bool
  call f c = (ok (f c).0, (f c).1)

  -- `PQconsumeInput`, as in the waits for data and for notifications.
  unfoldable pub consume : Step Conn (Unit {0})
  consume c =
      if (consume_input c).0
      then (ok tt, (consume_input c).1)
      else (stop "Failed to consume input from the server", (consume_input c).1)

  -- `PQcancel`, with a warning if it fails.
  unfoldable pub issue_cancel : Step Conn ℕ
  issue_cancel c = (ok (if (cancel c).0 then 0 else 1), (cancel c).1)

  -- `cancel_query` past the test for NULL; the result is the number of warnings.
  unfoldable pub cancel_open : Step Conn ℕ
  unfolding check_open issue_cancel
  cancel_open = do
    check_open
    found ← get get_cancel
    if found then issue_cancel else throw "Connection error detected via PQgetCancel()"

  -- `finish_query`: results are taken until there is none.
  unfoldable pub finish_query : ℕ → Step Conn (Unit {0})
  finish_query zero c = (undefined, c)
  finish_query (suc fuel) c =
      let (result, c') = get_result c in
      let rest = finish_query fuel c' in elim result [ none ↦ (ok tt, c') | some res ↦ rest ]

  -- Work on the open connection; `otherwise` is what happens where there is none.
  abbrev pub with_conn : {A : Type 0} → Step Connection A → Step Conn A → Step Connection A
  with_conn otherwise m s = elim s.conn [
    | none ↦ otherwise s
    | some c ↦ let (o, c') = m c in (o, record s { conn = some c' })
  ]

  unfoldable pub check_connection : Step Connection (Unit {0})
  unfolding check_open
  check_connection = with_conn (throw "Disconnected") check_open

  abbrev pub warn : ℕ → Step Connection (Unit {0})
  warn n = modify (λ s. record s { warnings = s.warnings + n })

  unfoldable pub cancel_query : Step Connection (Unit {0})
  unfolding cancel_open
  cancel_query = do n ← with_conn (throw "Disconnected") cancel_open; warn n

  unfoldable pub disconnect : Connection → Connection
  disconnect s = record s { conn = none }

  unfoldable pub has_query : Connection → Bool
  has_query s = not (is_null s.current_result)

  unfoldable pub is_current_result : Option ℕ → Connection → Bool
  unfolding same_result
  is_current_result result s = same_result s.current_result result

  unfoldable pub is_transacting : Connection → Bool
  is_transacting s = s.transacting

  unfoldable pub set_transacting : Bool → Connection → Connection
  set_transacting b s = record s { transacting = b }

  unfoldable pub get_temp_schema : Connection → List (Option Bytes)
  get_temp_schema s = s.temp_schema

  unfoldable pub set_temp_schema : List (Option Bytes) → Connection → Connection
  set_temp_schema temp_schema s = record s { temp_schema = temp_schema }

  -- `complete` answers for `pCurrentResult_->complete()`.
  unfoldable pub cleanup_query : ℕ → (ℕ → Bool) → Step Connection (Unit {0})
  unfolding is_open finish_query cancel_query
  cleanup_query fuel complete s = elim s.conn [
    | none ↦ (ok tt, s)
    | some c ↦
        (when (is_open complete s.current_result) cancel_query
            >> with_conn (return tt) (finish_query fuel))
          s
  ]

  unfoldable pub set_current_result : ℕ → (ℕ → Bool) → Option ℕ → Step Connection (Unit {0})
  set_current_result fuel complete result s =
      let clean = when (not (is_null result)) (warn 1) >> cleanup_query fuel complete in
      let assign = modify (λ s'. record s' { current_result = result }) in
      if same_result result s.current_result
      then (ok tt, s)
      else (when (not (is_null s.current_result)) clean >> assign) s

  unfoldable pub reset_current_result : ℕ → (ℕ → Bool) → Option ℕ → Step Connection (Unit {0})
  reset_current_result fuel complete result s =
      let assign = modify (λ s'. record s' { current_result = none }) in
      if same_result result s.current_result
      then (cleanup_query fuel complete >> assign) s
      else (ok tt, s)
