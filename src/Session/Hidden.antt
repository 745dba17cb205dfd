-- ===== src/Session/Hidden.antt =====
-- Errors that src/connection.cpp and src/DbResult.cpp hide, and what they lead to.
use Prim.Native.String.{String, ◌++◌ as string_append}
use rpostgres.Prelude.{
  is_some, ℕ, ◌≡◌, refl, ◌∙◌, ap, Bool, true, false, Option, some, List, ◌==◌, arith, if◌then◌else◌,
}
use rpostgres.Prelude.Int.{ℤ}
use rpostgres.Prelude.Outcome.{Outcome, ok, stop, undefined}
use rpostgres.Prelude.Step.{continue, after_ok}
use rpostgres.Runtime.{Runtime, Bytes}
use rpostgres.Libpq.{Libpq}
use rpostgres.Connection.{
  Connection, same_result, is_open, check_open, check_connection, cancel_open, cancel_query,
  cleanup_query, reset_current_result,
}
use rpostgres.Session.{
  erase, DbResult, complete, is_complete, is_live, result_create, new_result, set_current,
  follow_current, delete_result, caught, construct, on_connection,
}
use rpostgres.Session.Results.{result_release}
use rpostgres.Session.Sound.{Session, cleaned, delete-active, current-active, eq_self, find-erase}

pub if_true : {A : Type 0} {x : A} (b : Bool) (y : A) → b ≡ true → (if b then x else y) ≡ x
if_true b y e = rw e refl

open_current :
    (complete : ℕ → Bool) (a : ℕ) (q : Option ℕ)
    → q ≡ some a
    → complete a ≡ false
    → is_open complete q ≡ true
unfolding is_open
open_current complete a q i n = rw (i, n) refl

module _ (L : Libpq) where
  open L use {Conn, connection_ok, reset}

  -- A connection that is lost, and that a reset does not bring back.
  pub record IsLost (c : Conn) : Type 0 where
    pub down : connection_ok c ≡ false
    pub stays_down : connection_ok (reset c) ≡ false

  abbrev lost_message : Conn → String
  lost_message c =
      string_append "Lost connection to database" (string_append " : " (L.error_message (reset c)))

  check_open-lost : (c : Conn) → IsLost c → check_open L c ≡ (stop (lost_message c), reset c)
  unfolding check_open
  check_open-lost c h = rw (h.down, h.stays_down) refl

  cancel_open-lost : (c : Conn) → IsLost c → cancel_open L c ≡ (stop (lost_message c), reset c)
  unfolding cancel_open
  cancel_open-lost c h = rw (check_open-lost c h) refl

  cleanup_query-lost :
      (fuel : ℕ) (complete : ℕ → Bool) (s : Connection L) (c : Conn)
      → s.conn ≡ some c
      → is_open complete s.current_result ≡ true
      → IsLost c
      → cleanup_query L fuel complete s
        ≡ (stop (lost_message c), record s { conn = some (reset c) })
  unfolding cleanup_query cancel_query
  cleanup_query-lost fuel complete s c e o h = rw (e, o, cancel_open-lost c h)

module _ (r : Runtime) (L : Libpq) (format : String → List ℤ → String) (fuel rounds : ℕ) where
  open L use {Conn, connection_ok, reset}

  abbrev S : Type 0
  S = Session r L format fuel rounds

  abbrev release : ℕ → S → Outcome (Unit {0}) × S
  release = result_release r L format fuel rounds

  -- The session that the deletion of the current result leaves where the connection is lost.
  abbrev after_loss : ℕ → S → Conn → S
  after_loss a w c = record w {
    connection = record w.connection { conn = some (reset c) };
    results = erase a w.results;
  }

  cleaned-lost :
      (a : ℕ) (w : S) (c : Conn)
      → w.connection.conn ≡ some c
      → w.connection.current_result ≡ some a
      → is_complete r L format fuel rounds w.results a ≡ false
      → IsLost L c
      → cleaned r L format fuel rounds a w
        ≡ (stop (lost_message L c), record w.connection { conn = some (reset c) })
  unfolding reset_current_result
  cleaned-lost a w c e i n h =
      let complete = is_complete r L format fuel rounds w.results in
      let same = (current-active r L format fuel rounds a w i).1 in
      rw
        (
          same,
          cleanup_query-lost L fuel complete w.connection c e
              (open_current complete a w.connection.current_result i n) h,
        )
        refl

  not_complete-live :
      (a : ℕ) (results : List (ℕ × DbResult r L format fuel rounds))
      → is_complete r L format fuel rounds results a ≡ false
      → is_live r L format fuel rounds (some a) results ≡ true
  unfolding is_complete is_live
  not_complete-live a results n = ground arith

  delete-lost :
      (a : ℕ) (w : S) (c : Conn)
      → w.connection.conn ≡ some c
      → w.connection.current_result ≡ some a
      → is_complete r L format fuel rounds w.results a ≡ false
      → IsLost L c
      → delete_result r L format fuel rounds a w ≡ (ok tt, after_loss a w c)
  delete-lost a w c e i n h =
      delete-active r L format fuel rounds a w (current-active r L format fuel rounds a w i).0
      ∙ ap
          (λ x. (
            caught r L format fuel rounds x.0,
            record w { connection = x.1; results = erase a w.results },
          ))
          (cleaned-lost a w c e i n h)

  release-lost :
      (a : ℕ) (w : S) (c : Conn)
      → w.connection.conn ≡ some c
      → w.connection.current_result ≡ some a
      → is_complete r L format fuel rounds w.results a ≡ false
      → IsLost L c
      → release a w ≡ (ok tt, after_loss a w c)
  unfolding result_release
  release-lost a w c e i n h = rw (not_complete-live a w.results n) (delete-lost a w c e i n h)

  check-back :
      (s : Connection L) (c : Conn)
      → s.conn ≡ some c
      → connection_ok c ≡ false
      → connection_ok (reset c) ≡ true
      → check_connection L s ≡ (ok tt, record s { conn = some (reset c) })
  unfolding check_connection check_open
  check-back s c e h k = rw (e, h, k) refl

  check-fine :
      (s : Connection L) (c : Conn)
      → s.conn ≡ some c
      → connection_ok c ≡ true
      → check_connection L s ≡ (ok tt, record s { conn = some c })
  unfolding check_connection check_open
  check-fine s c e h = rw (e, h) refl

  -- The pointer to the deleted result is followed when another result is made.
  set_current-dangling :
      (a b : ℕ) (w : S)
      → (b == a) ≡ false
      → w.connection.current_result ≡ some a
      → is_some w.connection.conn ≡ true
      → is_live r L format fuel rounds (some a) w.results ≡ false
      → (set_current r L format fuel rounds b w) ≡ (undefined, w)
  unfolding set_current follow_current same_result
  set_current-dangling a b w d i e n = rw (i, d, e, n) refl

  erased :
      (a : ℕ) (results : List (ℕ × DbResult r L format fuel rounds))
      → is_live r L format fuel rounds (some a) (erase a results) ≡ false
  unfolding is_live
  erased a results = ground (arith, find-erase a a results, eq_self a)

  abbrev checked : S → Outcome (Unit {0}) × S
  checked w = on_connection r L format fuel rounds (check_connection L) w

  abbrev with_conn_of : S → Conn → S
  with_conn_of w c = record w { connection = record w.connection { conn = some c } }

  create-dangling :
      (on_null : Outcome (Unit {0})) (a b : ℕ) (sql : Bytes) (immediate : Bool) (w : S) (c : Conn)
      → w.held ≡ true
      → w.connection.conn ≡ some c
      → connection_ok c ≡ false
      → connection_ok (reset c) ≡ true
      → (b == a) ≡ false
      → w.connection.current_result ≡ some a
      → is_live r L format fuel rounds (some a) w.results ≡ false
      → result_create r L format fuel rounds on_null b sql immediate w
        ≡ (undefined, with_conn_of w (reset c))
  unfolding result_create new_result
  create-dangling on_null a b sql immediate w c held e down up d i n =
      let w1 = with_conn_of w (reset c) in
      let construct_b = construct r L format fuel rounds b sql immediate in
      let set_b = set_current r L format fuel rounds b in
      let first : checked w ≡ (ok tt, w1) =
        ap (λ x. (x.0, record w { connection = x.1 })) (check-back w.connection c e down up) in
      let second : checked w1 ≡ (ok tt, w1) =
        ap (λ x. (x.0, record w { connection = x.1 }))
          (check-fine w1.connection (reset c) refl up) in
      if_true w.held _ held
      ∙ (after_ok (checked w) tt w1
            (λ _ t. continue (continue (checked t) (λ _. set_b)) (λ _. construct_b)) first
          ∙ (ap (λ x. continue (continue x (λ _. set_b)) (λ _. construct_b)) second
              ∙ ap (λ x. continue x (λ _. construct_b)) (set_current-dangling a b w1 d i refl n)))

  -- Where the connection is lost and a first reset does not bring it back, the release of the current
  -- result, if that is not complete, returns as if nothing had happened, and leaves
  -- `pCurrentResult_` as it was; where a second reset brings the connection back, the creation of
  -- the next result, at another address, follows that pointer to the deleted result.
  pub release-create :
      (on_null : Outcome (Unit {0})) (a b : ℕ) (sql : Bytes) (immediate : Bool) (w : S) (c : Conn)
      → w.held ≡ true
      → w.connection.conn ≡ some c
      → w.connection.current_result ≡ some a
      → is_complete r L format fuel rounds w.results a ≡ false
      → IsLost L c
      → connection_ok (reset (reset c)) ≡ true
      → (b == a) ≡ false
      → ((release a w).0 ≡ ok tt)
        × ((release a w).1.connection.current_result ≡ some a)
        × ((result_create r L format fuel rounds on_null b sql immediate (release a w).1).0
            ≡ undefined)
  release-create on_null a b sql immediate w c held e i n h up d = rw (release-lost a w c e i n h) (
    refl,
    i,
    ap (λ x. x.0)
        (create-dangling on_null a b sql immediate (after_loss a w c) (reset c) held refl
          h.stays_down up d i (erased a w.results)),
  )
