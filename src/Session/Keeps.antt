-- ===== src/Session/Keeps.antt =====
-- Steps of a session of src/connection.cpp and src/result.cpp that keep its pointers in order.
use Prim.Native.String.{String}
use rpostgres.Prelude.{ℕ, ◌∙◌, Bool, true, false, List, if◌then◌else◌}
use rpostgres.Prelude.Int.{ℤ}
use rpostgres.Prelude.Outcome.{Outcome, ok, stop, undefined}
use rpostgres.Prelude.Step.{Step, continue}
use rpostgres.Runtime.{Runtime}
use rpostgres.Libpq.{Libpq}
use rpostgres.Connection.{Connection, check_connection}
use rpostgres.Connection.Frames.{Same, check_connection-Same}
use rpostgres.Session.{on_connection}
use rpostgres.Session.Sound.{Session, IsSound, Post}

module _ (r : Runtime) (L : Libpq) (format : String → List ℤ → String) (fuel rounds : ℕ) where
  abbrev pub S : Type 0
  S = Session r L format fuel rounds

  abbrev pub Sound : S → Type 0
  Sound = IsSound r L format fuel rounds

  abbrev pub Keeps : {A : Type 0} → Outcome A × S → Type 0
  Keeps = Post r L format fuel rounds Sound

  pub Keeps-any : {A : Type 0} (o : Outcome A) (w : S) → Sound w → Keeps (o, w)
  unfolding Post
  Keeps-any (ok a) w v = v
  Keeps-any (stop message) w v = v
  Keeps-any undefined w v = tt

  pub Keeps-continue :
      {A B : Type 0} (x : Outcome A × S) (next : A → Step S B)
      → Keeps x
      → ((a : A) (w : S) → Sound w → Keeps (next a w))
      → Keeps (continue x next)
  unfolding Post
  Keeps-continue (ok a, w) next h k = k a w h
  Keeps-continue (stop message, w) next h k = h
  Keeps-continue (undefined, w) next h k = tt

  pub if-Keeps :
      {A : Type 0} (b : Bool) (x y : Outcome A × S) → Keeps x → Keeps y → Keeps (if b then x else y)
  if-Keeps true x y h k = h
  if-Keeps false x y h k = k

  pub Sound-Same :
      (w : S) (s : Connection L)
      → Sound w
      → Same L w.connection s
      → Sound (record w { connection = s })
  Sound-Same w s v h = record {
    current_live = rw h.current v.current_live;
    built = v.built;
    there = h.there ∙ v.there;
  }

  pub check-Keeps :
      (w : S) → Sound w → Keeps (on_connection r L format fuel rounds (check_connection L) w)
  check-Keeps w v =
      Keeps-any (check_connection L w.connection).0 _
        (Sound-Same w (check_connection L w.connection).1 v (check_connection-Same L w.connection))
