-- ===== src/Session/Reach.antt =====
-- The sessions of src/connection.cpp and src/result.cpp that R's calls lead to, one after the other.
use Prim.Native.String.{String}
use rpostgres.Prelude.{
  ℕ, ◌≡◌, refl, Bool, true, false, Option, some, List, [], if◌then◌else◌, arith, subst, Bool-cases,
  inl, inr,
}
use rpostgres.Prelude.Int.{ℤ}
use rpostgres.Prelude.Outcome.{Outcome, ok, stop, undefined}
use rpostgres.Prelude.Step.{Step, continue, return, modify}
use rpostgres.Runtime.{Runtime, Bytes}
use rpostgres.Libpq.{Libpq}
use rpostgres.Encode.{Sexp}
use rpostgres.Connection.{Connection, set_transacting, set_temp_schema}
use rpostgres.Connection.Opening.{info, c_values, fresh, opened, new_connection}
use rpostgres.Connection.Calls.{
  quote_string, quote_identifier, copy_data, wait_for_notify, import_lo_from_file,
  export_lo_to_file,
}
use rpostgres.Connection.Frames.{NotStop, transact-Same, schema-Same}
use rpostgres.Frame.Rows.{bind_ok, ok_inj}
use rpostgres.Result.{ParamColumn}
use rpostgres.Session.{find, is_live, is_active, delete_result, result_create}
use rpostgres.Session.Results.{result_release, result_fetch, result_bind, result_column_info}
use rpostgres.Session.Calls.{
  for_each, connection_create, connection_info, connection_quote_string,
  connection_quote_identifier, connection_set_transacting, connection_set_temp_schema,
  connection_import_lo_from_file, connection_export_lo_to_file, connection_copy_data,
  connection_wait_for_notify, connection_release,
}
use rpostgres.Session.Sound.{Session, IsSound, Post, cleaned, delete-IsSound}
use rpostgres.Session.Keeps.{Keeps-any, Keeps-continue, if-Keeps}
use rpostgres.Session.Create.{result_create-IsSound}
use rpostgres.Session.Shared.{info-Same, quote_strings-Same, quote_identifiers-Same}
use rpostgres.Session.Methods.{
  with_connection-Keeps, with_pgconn-Keeps, result_fetch-Keeps, result_bind-Keeps,
  result_column_info-Keeps, connection_release-Keeps,
}

-- A call of R that may change the session.
pub data Command (D C : Type 0) : Type 0 where
  create : Outcome (Unit {0}) → ℕ → Bytes → Bool → Command D C
  release : ℕ → Command D C
  fetch_rows : ℕ → ℕ → ℤ → Command D C
  bind_params : ℕ → List ParamColumn → Command D C
  column_info : ℕ → Command D C
  tell : Command D C
  quote_strings : List (Option Bytes) → Command D C
  quote_identifiers : List Bytes → Command D C
  transact : Bool → Command D C
  choose_schema : List (Option Bytes) → Command D C
  import_lo : Bytes → ℕ → Command D C
  export_lo : ℕ → Bytes → Command D C
  copy : Bytes → List (Sexp D C) → Command D C
  wait_notify : ℤ → Command D C
  close : Command D C

abbrev pub throws : {A : Type 0} → Outcome A → Bool
throws (ok a) = false
throws (stop message) = true
throws undefined = false

abbrev pub defined : {A : Type 0} → Outcome A → Bool
defined (ok a) = true
defined (stop message) = true
defined undefined = false

module _ (r : Runtime) (L : Libpq) (format : String → List ℤ → String) (fuel rounds : ℕ) where
  open r use {Double, CharSxp}

  abbrev S : Type 0
  S = Session r L format fuel rounds

  abbrev Sound : S → Type 0
  Sound = IsSound r L format fuel rounds

  abbrev Keeps : {A : Type 0} → Outcome A × S → Type 0
  Keeps = Post r L format fuel rounds Sound

  abbrev forget : {A : Type 0} → Outcome A × S → Outcome (Unit {0}) × S
  forget x = continue x (λ _. return tt)

  unfoldable pub run : Command Double CharSxp → Step S (Unit {0})
  run (create on_null a sql immediate) w =
      result_create r L format fuel rounds on_null a sql immediate w
  run (release a) w = result_release r L format fuel rounds a w
  run (fetch_rows a left n_max) w = forget (result_fetch r L format fuel rounds a left n_max w)
  run (bind_params a params) w = result_bind r L format fuel rounds a params w
  run (column_info a) w = forget (result_column_info r L format fuel rounds a w)
  run tell w = forget (connection_info r L format fuel rounds w)
  run (quote_strings xs) w = forget (connection_quote_string r L format fuel rounds xs w)
  run (quote_identifiers xs) w = forget (connection_quote_identifier r L format fuel rounds xs w)
  run (transact b) w = connection_set_transacting r L format fuel rounds b w
  run (choose_schema schema) w = connection_set_temp_schema r L format fuel rounds schema w
  run (import_lo filename oid) w =
      forget (connection_import_lo_from_file r L format fuel rounds filename oid w)
  run (export_lo oid filename) w =
      connection_export_lo_to_file r L format fuel rounds oid filename w
  run (copy sql df) w = connection_copy_data r L format fuel rounds sql df w
  run (wait_notify seconds) w = forget (connection_wait_for_notify r L format fuel rounds seconds w)
  run close w = connection_release r L format fuel rounds w

  -- Whether a release meets an error when it cleans up behind the current result, which is lost.
  unfoldable pub hides_error : Command Double CharSxp → S → Bool
  unfolding is_active
  hides_error (release a) w =
      if is_active r L format fuel rounds a w
      then throws (cleaned r L format fuel rounds a w).0
      else false
  hides_error _ w = false

  -- The sessions that calls lead to from `start` where no release hides an error; R goes on after a
  -- call that throws, but not after undefined behaviour.
  pub data Reach (start : S) : S → Type 0 where
    here : Reach start start
    next :
        (w : S)
        → Reach start w
        → (c : Command Double CharSxp) → hides_error c w ≡ false
        → defined (run c w).0 ≡ true
        → Reach start (run c w).1

  forget-Keeps : {A : Type 0} (x : Outcome A × S) → Keeps x → Keeps (forget x)
  forget-Keeps x h =
      Keeps-continue r L format fuel rounds x (λ _. return tt) h
        (λ _ t v. Keeps-any r L format fuel rounds {A = Unit {0}} (ok tt) t v)

  not_thrown : {A : Type 0} (o : Outcome A) → throws o ≡ false → NotStop o
  unfolding NotStop
  not_thrown (ok a) e = tt
  not_thrown (stop message) e = ground arith
  not_thrown undefined e = tt

  release-Keeps :
      (a : ℕ) (w : S)
      → hides_error (release a) w ≡ false
      → Sound w
      → Keeps (result_release r L format fuel rounds a w)
  unfolding result_release hides_error
  release-Keeps a w e v =
      if-Keeps r L format fuel rounds (is_live r L format fuel rounds (some a) w.results)
        (delete_result r L format fuel rounds a w) (ok tt, w)
        (delete-IsSound r L format fuel rounds a w v (λ h. not_thrown _ (hidden h e)))
        (Keeps-any r L format fuel rounds {A = Unit {0}} (ok tt) w v)
    where
      hidden : {b c : Bool} → b ≡ true → (if b then c else false) ≡ false → c ≡ false
      hidden h e = ground arith

  run-Keeps :
      (c : Command Double CharSxp) (w : S) → hides_error c w ≡ false → Sound w → Keeps (run c w)
  unfolding run connection_info connection_quote_string connection_quote_identifier
      connection_set_transacting connection_set_temp_schema connection_import_lo_from_file
      connection_export_lo_to_file connection_copy_data connection_wait_for_notify
  run-Keeps (create on_null a sql immediate) w e v =
      result_create-IsSound r L format fuel rounds on_null a sql immediate w v
  run-Keeps (release a) w e v = release-Keeps a w e v
  run-Keeps (fetch_rows a left n_max) w e v =
      forget-Keeps _ (result_fetch-Keeps r L format fuel rounds a left n_max w v)
  run-Keeps (bind_params a params) w e v = result_bind-Keeps r L format fuel rounds a params w v
  run-Keeps (column_info a) w e v =
      forget-Keeps _ (result_column_info-Keeps r L format fuel rounds a w v)
  run-Keeps tell w e v =
      forget-Keeps _ (with_connection-Keeps r L format fuel rounds (info L) (info-Same L) w v)
  run-Keeps (quote_strings xs) w e v = forget-Keeps _ (
      with_connection-Keeps r L format fuel rounds (for_each (quote_string r L) xs)
        (quote_strings-Same L r xs) w v)
  run-Keeps (quote_identifiers xs) w e v = forget-Keeps _ (
      with_connection-Keeps r L format fuel rounds (for_each (quote_identifier r L) xs)
        (quote_identifiers-Same L r xs) w v)
  run-Keeps (transact b) w e v =
      with_connection-Keeps r L format fuel rounds (modify (set_transacting L b))
        (transact-Same L b) w v
  run-Keeps (choose_schema schema) w e v =
      with_connection-Keeps r L format fuel rounds (modify (set_temp_schema L schema))
        (schema-Same L schema) w v
  run-Keeps (import_lo filename oid) w e v =
      forget-Keeps _
        (with_pgconn-Keeps r L format fuel rounds (import_lo_from_file r L filename oid) w v)
  run-Keeps (export_lo oid filename) w e v =
      with_pgconn-Keeps r L format fuel rounds (export_lo_to_file r L oid filename) w v
  run-Keeps (copy sql df) w e v =
      with_pgconn-Keeps r L format fuel rounds (copy_data r L fuel sql df) w v
  run-Keeps (wait_notify seconds) w e v =
      forget-Keeps _ (with_pgconn-Keeps r L format fuel rounds (wait_for_notify r L seconds) w v)
  run-Keeps close w e v = connection_release-Keeps r L format fuel rounds w v

  returned : {A : Type 0} (x : Outcome A × S) → defined x.0 ≡ true → Keeps x → Sound x.1
  unfolding Post
  returned (ok a, w) e h = h
  returned (stop message, w) e h = h
  returned (undefined, w) e h = ground arith

  Reach-IsSound : (start w : S) → Sound start → Reach start w → Sound w
  Reach-IsSound start w v here = v
  Reach-IsSound start w v (next w' h c e d) =
      returned (run c w') d (run-Keeps c w' e (Reach-IsSound start w' v h))

  opened-fresh :
      (b : Bool) (conn : L.Conn) (c : Connection L) → opened L b conn ≡ ok c → fresh L b conn ≡ c
  unfolding opened
  opened-fresh b conn c e = elim (Bool-cases (L.connection_ok conn)) [
    | inl h ↦
        ok_inj
          (subst (λ t. (if t then ok (fresh L b conn) else stop (L.error_message conn)) ≡ ok c) h e)
    | inr h ↦ absurd (
        stop_ok (
          subst (λ t. (if t then ok (fresh L b conn) else stop (L.error_message conn)) ≡ ok c) h e))
  ]
    where
      stop_ok : {A : Type 0} {message : String} {a : A} → stop message ≡ ok a → ⊥
      stop_ok e = ground arith

  fresh-Sound :
      (b : Bool) (conn : L.Conn)
      → Sound (record { connection = fresh L b conn; held = true; results = [] })
  unfolding fresh is_live find
  fresh-Sound b conn = record { current_live = refl; built = λ a d e. ground arith; there = refl }

  start-Sound :
      (keys values : List Bytes) (check_interrupts : Bool) (start : S)
      → connection_create r L format fuel rounds keys values check_interrupts ≡ ok start
      → Sound start
  unfolding connection_create new_connection
  start-Sound keys values b start e =
      let (c, made, e1) =
        bind_ok (new_connection L keys values b)
          (λ c. ok (record { connection = c; held = true; results = [] })) start e in
      let (taken, _, e2) =
        bind_ok (c_values keys values) (λ taken. opened L b (L.connectdb_params keys taken)) c
          made in
      subst Sound (ok_inj e1) (
        subst (λ d. Sound (record { connection = d; held = true; results = [] }))
          (opened-fresh b (L.connectdb_params keys taken) c e2)
          (fresh-Sound b (L.connectdb_params keys taken)))

  -- From a session that `connection_create` has made, every sequence of R's calls in which no release
  -- hides an error of its clean-up, and none has undefined behaviour, leads to a session whose
  -- pointers are in order: the current result is live, no live result lacks its `impl`, and there is
  -- a PGconn exactly as long as R holds the connection.
  pub created-IsSound :
      (keys values : List Bytes) (check_interrupts : Bool) (start w : S)
      → connection_create r L format fuel rounds keys values check_interrupts ≡ ok start
      → Reach start w
      → Sound w
  created-IsSound keys values check_interrupts start w e h =
      Reach-IsSound start w (start-Sound keys values check_interrupts start e) h
