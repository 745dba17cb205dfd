-- ===== src/Connection/Examples.antt =====
-- The statements on src/DbConnection.cpp at concrete connections.
use rpostgres.Prelude.{
  ℕ, ◌≡◌, refl, Bool, true, false, Option, none, some, [], List, ◌∷◌, arith, ltb,
}
use rpostgres.Prelude.Int.{ℤ, pos}
use rpostgres.Prelude.Outcome.{ok, stop, undefined}
use rpostgres.Runtime.{Bytes}
use rpostgres.Sample.{sample}
use rpostgres.Encode.{Sexp, str_sexp, other_sexp, c_string}
use rpostgres.Encode.RoundTrip.{RowsAre}
use rpostgres.Connection.Calls.{copy_rows, copy_data, is_copy_in, is_command_ok, wait_for_notify}
use rpostgres.Connection.Notify.{wait_for_notify-returns}
use rpostgres.Connection.Copying.{Ends, copy_data-Lines}
use rpostgres.Connection.Unended.{copy_data-stops}
use rpostgres.Connection.Sending.{Lines, Puts}
use rpostgres.Libpq.Link.{Link, link, take_result, server}
use rpostgres.Connection.{Connection, set_current_result, reset_current_result, same_result}
use rpostgres.Connection.Current.{
  Pending, CanCancel, IsClean, set_current_result-IsClean, reset_current_result-IsClean,
}

abbrev waiting : Link → ℕ
waiting c = c.waiting

link_last :
    (c : Link) → waiting c ≡ 0 → ((take_result c).0 ≡ none) × (waiting (take_result c).1 ≡ 0)
link_last c h = rw h (refl, refl)

link-Pending : Pending link waiting
link-Pending = record { last = link_last; next = λ c n h. rw h (refl, refl) }

abbrev busy : Link
busy = record { up = true; waiting = 2; sent = [] }

abbrev lost : Link
lost = record { up = false; waiting = 0; sent = [] }

abbrev in_use : Connection link
in_use = record {
  conn = some busy;
  current_result = some 7;
  transacting = false;
  check_interrupts = false;
  temp_schema = none ∷ [];
  warnings = 0;
}

abbrev lost_connection : Connection link
lost_connection = record in_use { conn = some lost }

busy-CanCancel : CanCancel link waiting 3 busy
busy-CanCancel = record {
  in_order = refl;
  has_cancel = refl;
  enough = omega arith;
  enough_cancelled = omega arith;
}

abbrev never : ℕ → Bool
never q = false

set_current_result-IsClean_example :
    ((set_current_result link 3 never (some 8) in_use).0 ≡ ok tt)
    × IsClean link waiting (set_current_result link 3 never (some 8) in_use).1.conn
    × ((set_current_result link 3 never (some 8) in_use).1.current_result ≡ some 8)
unfolding same_result
set_current_result-IsClean_example =
    set_current_result-IsClean link waiting link-Pending 3 never (some 8) in_use busy 7 refl refl
      refl busy-CanCancel

reset_current_result-IsClean_example :
    ((reset_current_result link 3 never (some 7) in_use).0 ≡ ok tt)
    × IsClean link waiting (reset_current_result link 3 never (some 7) in_use).1.conn
    × ((reset_current_result link 3 never (some 7) in_use).1.current_result ≡ none)
unfolding same_result
reset_current_result-IsClean_example =
    reset_current_result-IsClean link waiting link-Pending 3 never (some 7) in_use busy refl refl
      busy-CanCancel

-- A string with a tab in it and NA.
abbrev texts : Sexp ℤ Bytes
texts = str_sexp (some (97 ∷ 9 ∷ []) ∷ none ∷ [])

abbrev table : List (List (Option Bytes))
table = (some (97 ∷ 9 ∷ []) ∷ []) ∷ (none ∷ []) ∷ []

texts-RowsAre : RowsAre sample (texts ∷ []) 0 table
unfolding c_string
texts-RowsAre = (((some (97 ∷ 9 ∷ []), refl, refl), tt), (((none, refl, refl), tt), tt))

link-Puts : Puts sample link (λ c. c.sent)
link-Puts = record { succeeds = λ line c. refl; arrives = λ line c. refl }

wait_for_notify-returns_example : ¬ ((wait_for_notify sample link (pos 5) busy).0 ≡ undefined)
wait_for_notify-returns_example = wait_for_notify-returns sample link (pos 5) busy

abbrev copying : Link
copying = record { up = true; waiting = 1; sent = [] }

server-Puts : Puts sample server (λ c. c.sent)
server-Puts = record { succeeds = λ line c. refl; arrives = λ line c. refl }

server-Ends : Ends sample server (λ c. c.sent) (copy_rows sample server (texts ∷ []) 0 2 copying).1
unfolding copy_rows is_command_ok
server-Ends = record { ends = refl; completes = refl; over = refl; keeps = refl }

server-starts : is_copy_in (server.exec [] copying).0 ≡ true
unfolding is_copy_in
server-starts = refl

copy_data-Lines_example :
    ((copy_data sample server 1 [] (texts ∷ []) copying).0 ≡ ok tt)
    × Lines table ((copy_data sample server 1 [] (texts ∷ []) copying).1.sent)
copy_data-Lines_example =
    copy_data-Lines sample server texts [] table (λ c. c.sent) 0 [] copying server-starts refl
      server-Puts server-Ends refl texts-RowsAre

-- A vector of a type that cannot be encoded.
abbrev complexes : Sexp ℤ Bytes
complexes = other_sexp "complex" 1

abbrev has_waiting : Link → Bool
has_waiting c = ltb 0 c.waiting

complexes-fail :
    (copy_rows sample server (complexes ∷ []) 0 1 copying).0
    ≡ stop "Don't know how to handle vector of type complex."
unfolding copy_rows
complexes-fail = refl

copy_data-stops_example :
    ((copy_data sample server 1 [] (complexes ∷ []) copying).0
      ≡ stop "Don't know how to handle vector of type complex.")
    × (has_waiting (copy_data sample server 1 [] (complexes ∷ []) copying).1 ≡ true)
copy_data-stops_example =
    copy_data-stops sample server has_waiting 1 [] complexes [] copying
      "Don't know how to handle vector of type complex." server-starts refl (λ line d e. e)
      complexes-fail
