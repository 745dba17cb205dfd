-- ===== src/Session/Methods.antt =====
-- The calls of src/connection.cpp and src/result.cpp other than the creation of a result keep the
-- pointers of a session in order.
use Prim.Native.String.{String}
use rpostgres.Prelude.{is_some, ℕ, ◌≡◌, refl, sym, ◌∙◌, Bool, true, false, Option, none, some, List}
use rpostgres.Prelude.Int.{ℤ}
use rpostgres.Prelude.Outcome.{Outcome, stop, undefined}
use rpostgres.Prelude.Step.{Step, continue, when}
use rpostgres.Runtime.{Runtime}
use rpostgres.Libpq.{Libpq}
use rpostgres.Libpq.Traced.{traced}
use rpostgres.Connection.{Connection, with_conn, warn, has_query, disconnect}
use rpostgres.Connection.Frames.{Same, Same-refl, with_conn-Same}
use rpostgres.Result.{Impl, ParamColumn, validate_params}
use rpostgres.Result.Run.{bind}
use rpostgres.Result.Fetch.{fetch, get_column_info}
use rpostgres.Session.{on_connection, put, find, is_active}
use rpostgres.Session.Results.{
  worked, worked_closed, on_impl_with, on_impl, through, with_found, with_impl, off_traced,
  on_traced, fetch_active, result_fetch, bind_impl, result_bind, result_column_info,
}
use rpostgres.Session.Calls.{with_connection, with_pgconn, connection_valid, connection_release}
use rpostgres.Session.Sound.{Session, IsSound, Post, live-put, AreBuilt-put}
use rpostgres.Session.Keeps.{Keeps-any, Keeps-continue, if-Keeps, Sound-Same}

module _ (r : Runtime) (L : Libpq) (format : String → List ℤ → String) (fuel rounds : ℕ) where
  open r use {atoi}
  open L use {Conn}

  abbrev S : Type 0
  S = Session r L format fuel rounds

  abbrev Sound : S → Type 0
  Sound = IsSound r L format fuel rounds

  abbrev Keeps : {A : Type 0} → Outcome A × S → Type 0
  Keeps = Post r L format fuel rounds Sound

  pub with_connection-Keeps :
      {A : Type 0} (m : Step (Connection L) A)
      → ((s : Connection L) → Same L s (m s).1)
      → (w : S) → Sound w
      → Keeps (with_connection r L format fuel rounds m w)
  unfolding with_connection Post
  with_connection-Keeps m h w v =
      if-Keeps r L format fuel rounds w.held (on_connection r L format fuel rounds m w)
        (stop "Invalid connection", w)
        (Keeps-any r L format fuel rounds (m w.connection).0 _
          (Sound-Same r L format fuel rounds w (m w.connection).1 v (h w.connection)))
        v

  pub with_pgconn-Keeps :
      {A : Type 0} (m : Step Conn A) (w : S)
      → Sound w
      → Keeps (with_pgconn r L format fuel rounds m w)
  unfolding with_pgconn
  with_pgconn-Keeps m =
      with_connection-Keeps (with_conn L (λ s. (undefined, s)) m)
        (λ s. with_conn-Same L (λ s. (undefined, s)) m s (Same-refl L s))

  worked-Sound :
      (a : ℕ) (impl : Impl L) (w : S)
      → Sound w
      → is_some w.connection.conn ≡ true
      → Sound (record w {
        connection = record w.connection { conn = some impl.conn };
        results = put a (record { impl = some impl }) w.results;
      })
  worked-Sound a impl w v e = record {
    current_live =
        live-put r L format fuel rounds w.connection.current_result a (record { impl = some impl })
          w.results v.current_live;
    built = AreBuilt-put r L format fuel rounds a impl w.results v.built;
    there = sym e ∙ v.there;
  }

  worked-Keeps :
      {A : Type 0} (a : ℕ) (w : S) (x : Outcome A × Impl L)
      → Sound w
      → is_some w.connection.conn ≡ true
      → Keeps (worked r L format fuel rounds a w x)
  unfolding worked
  worked-Keeps a w (o, impl) v e = Keeps-any r L format fuel rounds o _ (worked-Sound a impl w v e)

  worked_closed-Keeps :
      {A : Type 0} (a : ℕ) (w : S) (x : Outcome A × Impl (traced L))
      → Sound w
      → Keeps (worked_closed r L format fuel rounds a w x)
  unfolding worked_closed
  worked_closed-Keeps a w (o, impl) v =
      let kept = off_traced r L format fuel rounds impl in
      let after = record w { results = put a (record { impl = some kept }) w.results } in
      if-Keeps r L format fuel rounds impl.conn.used (undefined, w) (o, after)
        (Keeps-any r L format fuel rounds undefined w v)
        (Keeps-any r L format fuel rounds o after (record {
          current_live =
              live-put r L format fuel rounds w.connection.current_result a
                (record { impl = some kept }) w.results v.current_live;
          built = AreBuilt-put r L format fuel rounds a kept w.results v.built;
          there = v.there;
        }))

  on_impl_with-Keeps :
      {A : Type 0} (m : (L' : Libpq) → Step (Impl L') A) (a : ℕ) (impl : Impl L) (w : S)
      (c : Option Conn)
      → w.connection.conn ≡ c
      → Sound w
      → Keeps (on_impl_with r L format fuel rounds m a impl w c)
  unfolding on_impl_with
  on_impl_with-Keeps m a impl w none e v =
      worked_closed-Keeps a w (m (traced L) (on_traced r L format fuel rounds impl)) v
  on_impl_with-Keeps m a impl w (some c) e v =
      worked-Keeps a w (m L (record impl { conn = c })) v (rw e refl)

  on_impl-Keeps :
      {A : Type 0} (m : (L' : Libpq) → Step (Impl L') A) (a : ℕ) (impl : Impl L) (w : S)
      → Sound w
      → Keeps (on_impl r L format fuel rounds m a impl w)
  unfolding on_impl
  on_impl-Keeps m a impl w v = on_impl_with-Keeps m a impl w w.connection.conn refl v

  through-Keeps :
      {A : Type 0} (next : Impl L → Step S A) (w : S) (impl : Option (Impl L))
      → Sound w
      → ((i : Impl L) → Keeps (next i w))
      → Keeps (through r L format fuel rounds next w impl)
  unfolding through Post
  through-Keeps next w none v h = tt
  through-Keeps next w (some impl) v h = h impl

  with_found-Keeps :
      {A : Type 0} (next : Impl L → Step S A) (w : S) (d : Option _)
      → Sound w
      → ((i : Impl L) → Keeps (next i w))
      → Keeps (with_found r L format fuel rounds next w d)
  unfolding with_found
  with_found-Keeps next w none v h =
      Keeps-any r L format fuel rounds (stop "Invalid result set") w v
  with_found-Keeps next w (some d) v h = through-Keeps next w d.impl v h

  with_impl-Keeps :
      {A : Type 0} (a : ℕ) (next : Impl L → Step S A) (w : S)
      → Sound w
      → ((i : Impl L) → Keeps (next i w))
      → Keeps (with_impl r L format fuel rounds a next w)
  unfolding with_impl
  with_impl-Keeps a next w v h = with_found-Keeps next w (find a w.results) v h

  pub result_fetch-Keeps :
      (a left : ℕ) (n_max : ℤ) (w : S)
      → Sound w
      → Keeps (result_fetch r L format fuel rounds a left n_max w)
  unfolding result_fetch fetch_active
  result_fetch-Keeps a left n_max w v =
      with_impl-Keeps a (fetch_active r L format fuel rounds a left n_max) w v (λ impl.
        if-Keeps r L format fuel rounds (is_active r L format fuel rounds a w)
          (on_impl r L format fuel rounds (λ L'. fetch r L' format fuel rounds left n_max) a impl w)
          (stop "Inactive result set", w)
          (on_impl-Keeps (λ L'. fetch r L' format fuel rounds left n_max) a impl w v)
          (Keeps-any r L format fuel rounds (stop "Inactive result set") w v))

  pub result_bind-Keeps :
      (a : ℕ) (params : List ParamColumn) (w : S)
      → Sound w
      → Keeps (result_bind r L format fuel rounds a params w)
  unfolding result_bind bind_impl
  result_bind-Keeps a params w v =
      with_impl-Keeps a (bind_impl r L format fuel rounds a params) w v (λ impl.
        Keeps-continue r L format fuel rounds (validate_params format params, w) _
          (Keeps-any r L format fuel rounds (validate_params format params) w v)
          (λ _. on_impl-Keeps (λ L'. bind L' format atoi fuel rounds params) a impl))

  pub result_column_info-Keeps :
      (a : ℕ) (w : S) → Sound w → Keeps (result_column_info r L format fuel rounds a w)
  unfolding result_column_info
  result_column_info-Keeps a w v =
      with_impl-Keeps a
        (on_impl r L format fuel rounds (λ L'. get_column_info r L' format fuel rounds) a) w v
        (λ impl. on_impl-Keeps (λ L'. get_column_info r L' format fuel rounds) a impl w v)

  warn-Sound :
      (n : ℕ) (w : S) → Sound w → Sound (record w { connection = (warn L n w.connection).1 })
  warn-Sound n w v = record { current_live = v.current_live; built = v.built; there = v.there }

  closed :
      (w : S)
      → Sound w
      → Sound (record w { connection = record w.connection { conn = none }; held = false })
  closed w v = record { current_live = v.current_live; built = v.built; there = refl }

  when-Keeps :
      (b : Bool) (m : Step S (Unit {0})) (w : S) → Sound w → Keeps (m w) → Keeps (when b m w)
  unfolding Post
  when-Keeps true m w v h = h
  when-Keeps false m w v h = v

  pub connection_release-Keeps :
      (w : S) → Sound w → Keeps (connection_release r L format fuel rounds w)
  unfolding connection_release disconnect Post
  connection_release-Keeps w v =
      let warned = on_connection r L format fuel rounds (warn L 1) in
      let in_use = has_query L w.connection in
      if-Keeps r L format fuel rounds (connection_valid r L format fuel rounds w)
        (continue (when in_use warned w) _) (warned w)
        (Keeps-continue r L format fuel rounds (when in_use warned w) _
          (when-Keeps in_use warned w v (warn-Sound 1 w v)) (λ _. closed))
        (warn-Sound 1 w v)
