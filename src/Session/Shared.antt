-- ===== src/Session/Shared.antt =====
-- The methods of a connection that src/connection.cpp calls leave its current result as it was.
use rpostgres.Prelude.{Option, none, some, List, [], ◌∷◌}
use rpostgres.Prelude.Outcome.{ok}
use rpostgres.Prelude.Step.{Step, continue, return, throw}
use rpostgres.Runtime.{Runtime, Bytes}
use rpostgres.Libpq.{Libpq}
use rpostgres.Connection.{Connection, check_connection, with_conn}
use rpostgres.Connection.Opening.{info, info_of}
use rpostgres.Connection.Calls.{quoted, quote_string, quote_identifier}
use rpostgres.Connection.Frames.{
  Same, Same-refl, with_conn-Same, continue-Same, check_connection-Same,
}
use rpostgres.Session.Calls.{for_each}

module _ (L : Libpq) where
  for_each-Same :
      {A B : Type 0} (m : A → Step (Connection L) B)
      → ((x : A) (s : Connection L) → Same L s (m x s).1)
      → (xs : List A) (s : Connection L) → Same L s (for_each m xs s).1
  unfolding for_each
  for_each-Same m h [] s = Same-refl L s
  for_each-Same m h (x ∷ xs) s =
      continue-Same L s (m x s) (λ y s'. continue (for_each m xs s') (λ ys. return (y ∷ ys)))
        (h x s)
        (λ y t.
          continue-Same L t (for_each m xs t) (λ ys. return (y ∷ ys)) (for_each-Same m h xs t)
            (λ ys u. Same-refl L u))

  -- A call that checks the connection first.
  checked-Same :
      {A : Type 0} (m : Step (L.Conn) A) (s : Connection L)
      → Same L s (continue (check_connection L s) (λ _. with_conn L (throw "Disconnected") m)).1
  checked-Same m s =
      continue-Same L s (check_connection L s) (λ _. with_conn L (throw "Disconnected") m)
        (check_connection-Same L s)
        (λ _ t. with_conn-Same L (throw "Disconnected") m t (Same-refl L t))

  pub info-Same : (s : Connection L) → Same L s (info L s).1
  unfolding info
  info-Same = checked-Same (λ c. (ok (info_of L c), c))

  quote_string-Same :
      (r : Runtime) (x : Option Bytes) (s : Connection L) → Same L s (quote_string r L x s).1
  unfolding quote_string
  quote_string-Same r none s =
      continue-Same L s (check_connection L s) (λ _. return _) (check_connection-Same L s)
        (λ _ t. Same-refl L t)
  quote_string-Same r (some x) s = checked-Same (λ c. (quoted r L (L.escape_literal x c), c)) s

  pub quote_strings-Same :
      (r : Runtime) (xs : List (Option Bytes)) (s : Connection L)
      → Same L s (for_each (quote_string r L) xs s).1
  quote_strings-Same r = for_each-Same (quote_string r L) (quote_string-Same r)

  pub quote_identifiers-Same :
      (r : Runtime) (xs : List Bytes) (s : Connection L)
      → Same L s (for_each (quote_identifier r L) xs s).1
  unfolding quote_identifier
  quote_identifiers-Same r =
      for_each-Same (quote_identifier r L)
        (λ x. checked-Same (λ c. (quoted r L (L.escape_identifier x c), c)))
