-- ===== src/Session/Queries.antt =====
-- A query through src/connection.cpp and src/result.cpp, from `result_create` to the rows.
use Prim.Native.String.{String}
use rpostgres.Prelude.{
  ℕ, ◌<◌, ◌≡◌, refl, sym, ◌∙◌, ap, subst, if◌then◌else◌, Bool, true, false, none, some, List, ◌∷◌,
  map, arith,
}
use rpostgres.Prelude.Int.{ℤ, negsuc}
use rpostgres.Prelude.Outcome.{Outcome, ok}
use rpostgres.Prelude.Step.{after_ok, continue}
use rpostgres.Runtime.{Runtime, Bytes}
use rpostgres.Libpq.{Libpq, PgResult}
use rpostgres.Cache.{get_column_types}
use rpostgres.Connection.{check_open, check_connection, same_result, set_current_result}
use rpostgres.Frame.Rows.{Typed, HaveRows, rows_of}
use rpostgres.Frame.Slices.{vector}
use rpostgres.Result.{Impl}
use rpostgres.Result.Run.{new_impl}
use rpostgres.Result.Fetch.{Fetched}
use rpostgres.Result.Start.{Answers}
use rpostgres.Result.Query.{new_impl-fetch}
use rpostgres.Session.{
  find, complete, is_live, is_active, on_connection, follow_current, set_current, new_result,
  construct, construct_on, constructed, result_create,
}
use rpostgres.Session.Results.{
  with_impl, with_found, through, result_fetch, result_has_completed, result_rows_fetched,
}
use rpostgres.Session.Sound.{Session, find-put, eq_self, current-active}
use rpostgres.Session.Rows.{with_result, fetch-open}

module _ (r : Runtime) (L : Libpq) (format : String → List ℤ → String) (fuel rounds : ℕ) where
  open r use {Double, atoi}
  open L use {Conn, connection_ok}

  abbrev S : Type 0
  S = Session r L format fuel rounds

  abbrev use_result : ℕ → Impl L → S → S
  use_result = with_result r L format fuel rounds

  -- A session whose connection is open and not in use.
  pub record IsFree (c : Conn) (w : S) : Type 0 where
    pub held : w.held ≡ true
    pub conn : w.connection.conn ≡ some c
    pub up : connection_ok c ≡ true
    pub unused : w.connection.current_result ≡ none

  -- The session in which the result at `a` is the current one.
  abbrev pub taken : ℕ → S → S
  taken a w = record w { connection = record w.connection { current_result = some a } }

  -- A session with its connection open and not in use, written out.
  abbrev pub freed : Conn → S → S
  freed c w = record w {
    connection = record w.connection { conn = some c; current_result = none };
    held = true;
  }

  pub freed-IsFree : (c : Conn) (w : S) → IsFree c w → freed c w ≡ w
  freed-IsFree c w f =
      ap
        (λ o. record w {
          connection = record w.connection { conn = o; current_result = none };
          held = true;
        })
        (sym f.conn)
      ∙ ap (λ q. record w { connection = record w.connection { current_result = q }; held = true })
          (sym f.unused)
      ∙ ap (λ b. record w { held = b }) (sym f.held)

  checked :
      (c : Conn) (w : S)
      → connection_ok c ≡ true
      → on_connection r L format fuel rounds (check_connection L) (freed c w) ≡ (ok tt, freed c w)
  unfolding check_connection check_open
  checked c w up = rw up refl

  made_current :
      (c : Conn) (a : ℕ) (w : S)
      → set_current r L format fuel rounds a (freed c w) ≡ (ok tt, taken a (freed c w))
  unfolding set_current follow_current set_current_result is_live same_result
  made_current c a w = refl

  -- `result_create` on a free session is what the constructor of PqResultImpl comes to.
  pub create-freed :
      (on_null : Outcome (Unit {0})) (c : Conn) (a : ℕ) (sql : Bytes) (immediate : Bool) (w : S)
      (x : Outcome (Unit {0}) × Impl L)
      → connection_ok c ≡ true
      → new_impl L format atoi fuel rounds c w.connection.check_interrupts sql immediate ≡ x
      → result_create r L format fuel rounds on_null a sql immediate (freed c w)
        ≡ constructed r L format fuel rounds a (taken a (freed c w)) x
  unfolding result_create new_result construct construct_on
  create-freed on_null c a sql immediate w x up e =
      let free = freed c w in
      let current = set_current r L format fuel rounds a in
      let build = construct r L format fuel rounds a sql immediate in
      let check = on_connection r L format fuel rounds (check_connection L) in
      let newed : new_result r L format fuel rounds a free ≡ (ok tt, taken a free) =
        after_ok (check free) tt free (λ _. current) (checked c w up) ∙ made_current c a w in
      after_ok (check free) tt free
        (λ _ w'. continue (new_result r L format fuel rounds a w') (λ _. build)) (checked c w up)
      ∙ after_ok (new_result r L format fuel rounds a free) tt (taken a free) (λ _. build) newed
      ∙ ap (constructed r L format fuel rounds a (taken a free)) e

  find-used :
      (a : ℕ) (impl : Impl L) (w : S)
      → find a (use_result a impl w).results ≡ some (record { impl = some impl })
  find-used a impl w =
      find-put a a (record { impl = some impl }) w.results
      ∙ ap (λ b. if b then some (record { impl = some impl }) else find a w.results) (eq_self a)

  is_active-used :
      (a : ℕ) (impl : Impl L) (w : S)
      → is_active r L format fuel rounds a (use_result a impl (taken a w)) ≡ true
  is_active-used a impl w =
      (current-active r L format fuel rounds a (use_result a impl (taken a w)) refl).0

  -- What is asked of a result whose implementation is known.
  asked :
      (a : ℕ) (impl : Impl L) (w : S)
      → (result_has_completed r L format fuel rounds a (use_result a impl w)
          ≡ (ok impl.complete, use_result a impl w))
        × (result_rows_fetched r L format fuel rounds a (use_result a impl w)
            ≡ (ok impl.nrows, use_result a impl w))
  unfolding result_has_completed complete result_rows_fetched with_impl with_found through
  asked a impl w = (ground (arith, find-used a impl w), rw (find-used a impl w) refl)

  -- Where a session's connection is open and not in use, and libpq answers a query without parameters
  -- on it with a table's `n` rows, each within `rounds` results: `result_create` of a result at any
  -- address succeeds; `result_fetch` of all its rows, with fuel for more than `n`, returns the data
  -- frame of the table, with the names described; and then `result_has_completed` is true, and
  -- `result_rows_fetched` is `n`.
  pub result_create-result_fetch :
      (col : Typed r) (cols : List (Typed r)) (n : ℕ) (have : HaveRows r n (col ∷ cols))
      (spec : PgResult) (sql : Bytes) (on_null : Outcome (Unit {0})) (a left : ℕ) (c : Conn) (w : S)
      → n < left
      → get_column_types spec.oids ≡ map (λ (column : Typed r). column.dt) (col ∷ cols)
      → IsFree c w
      → Answers L fuel rounds w.connection.check_interrupts spec (rows_of r n (col ∷ cols)) sql c
      → (w1 w2 : S) × (d : Fetched Double) × (result_create r L format fuel rounds on_null a sql
            false w
          ≡ (ok tt, w1))
        × (result_fetch r L format fuel rounds a left (negsuc 0) w1 ≡ (ok d, w2))
        × (d.frame.vectors ≡ map (vector r) (col ∷ cols))
        × (d.frame.row_count ≡ n)
        × (d.frame.names ≡ spec.names)
        × (result_has_completed r L format fuel rounds a w2 ≡ (ok true, w2))
        × (result_rows_fetched r L format fuel rounds a w2 ≡ (ok n, w2))
  unfolding constructed
  result_create-result_fetch col cols n have spec sql on_null a left c w h types f answers =
      let (s, t, d, made, got, whole) =
        new_impl-fetch r L format fuel rounds col cols n have w.connection.check_interrupts spec sql
          c left h types answers in
      let free = taken a (freed c w) in
      let w1 = use_result a s free in
      let w2 = use_result a t w1 in
      (
        w1,
        w2,
        d,
        subst (λ v. result_create r L format fuel rounds on_null a sql false v ≡ (ok tt, w1))
            (freed-IsFree c w f) (create-freed on_null c a sql false w (ok tt, s) f.up made),
        fetch-open r L format fuel rounds a left (negsuc 0) w1 s.conn s t d refl
            (find-used a s free) (is_active-used a s (freed c w)) got,
        whole.vectors,
        whole.row_count,
        whole.names_are,
        (asked a t w1).0 ∙ ap (λ b. (ok b, w2)) whole.complete,
        (asked a t w1).1 ∙ ap (λ m. (ok m, w2)) whole.counted,
      )
