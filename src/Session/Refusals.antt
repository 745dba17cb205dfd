-- ===== src/Session/Refusals.antt =====
-- The statements on errors of src/result.cpp at a server that refuses a query.
use rpostgres.Prelude.{ℕ, ◌≡◌, refl, false, true, none, some, [], ◌∷◌, ◌==◌, arith, if◌then◌else◌}
use rpostgres.Prelude.Outcome.{Outcome, ok, stop}
use rpostgres.Sample.{sample}
use rpostgres.Libpq.{Libpq}
use rpostgres.Libpq.Link.{Link, link, take_result}
use rpostgres.Connection.Current.{Pending}
use rpostgres.Result.{Impl}
use rpostgres.Result.Run.{new_impl}
use rpostgres.Result.Streams.{plain}
use rpostgres.Session.{DbResult, find, complete, result_create}
use rpostgres.Session.Results.{result_release}
use rpostgres.Session.Sound.{Session}
use rpostgres.Session.Errors.{result_create-throws, result_release-complete}

-- The query is not prepared, and two results are left pending.
abbrev refusing : Libpq
refusing = record link { prepare = λ sql c. (false, record c { waiting = 2 }) }

abbrev pending : Link → ℕ
pending c = c.waiting

pending_last :
    (c : Link) → pending c ≡ 0 → ((take_result c).0 ≡ none) × (pending (take_result c).1 ≡ 0)
pending_last c h = rw h (refl, refl)

refusing-Pending : Pending refusing pending
refusing-Pending = record { last = pending_last; next = λ c n h. rw h (refl, refl) }

abbrev idle : Link
idle = record { up = true; waiting = 0; sent = [] }

abbrev no_pointer : Outcome (Unit {0})
no_pointer = stop "no pointer"

abbrev refused_impl : Impl refusing
refused_impl = (new_impl refusing plain sample.atoi 9 11 idle false (65 ∷ []) false).1

abbrev free_session : Session sample refusing plain 9 11
free_session = record {
  connection = record {
    conn = some idle;
    current_result = none;
    transacting = false;
    check_interrupts = false;
    temp_schema = none ∷ [];
    warnings = 0;
  };
  held = true;
  results = [];
}

refused :
    new_impl refusing plain sample.atoi 9 11 idle false (65 ∷ []) false
    ≡ (stop "Failed to prepare query : no error", refused_impl)
unfolding new_impl
refused = refl

two_left : pending refused_impl.conn ≡ 2
unfolding new_impl
two_left = refl

result_create-throws_example :
    (w' : Session sample refusing plain 9 11) × (c' : Link) × (result_create sample refusing plain 9
        11 no_pointer 7
        (65 ∷ [])
        false
        free_session
      ≡ (stop "Failed to prepare query : no error", w'))
    × (w'.connection.conn ≡ some c')
    × (pending c' ≡ 0)
    × (w'.connection.current_result ≡ none)
    × ((b : ℕ) → find b w'.results ≡ (if b == 7 then none else find b []))
result_create-throws_example =
    result_create-throws sample refusing plain 9 11 pending no_pointer 7 (65 ∷ []) false idle
      free_session "Failed to prepare query : no error" refused_impl refusing-Pending
      (record { held = refl; conn = refl; up = refl; unused = refl }) refused
      (omega (arith, two_left))

abbrev finished : DbResult sample refusing plain 9 11
finished = record { impl = some (record refused_impl { complete = true }) }

abbrev finished_session : Session sample refusing plain 9 11
finished_session = record free_session {
  connection = record free_session.connection { current_result = some 7 };
  results = (7, finished) ∷ [];
}

finished-complete : complete sample refusing plain 9 11 finished ≡ true
unfolding complete
finished-complete = refl

finished-found : find 7 finished_session.results ≡ some finished
unfolding find
finished-found = refl

result_release-complete_example :
    (w' : Session sample refusing plain 9 11) × (c' : Link) × (result_release sample refusing plain
        9 11 7 finished_session
      ≡ (ok tt, w'))
    × (w'.connection.conn ≡ some c')
    × (pending c' ≡ 0)
    × (w'.connection.current_result ≡ none)
    × ((b : ℕ) → find b w'.results ≡ (if b == 7 then none else find b finished_session.results))
result_release-complete_example =
    result_release-complete sample refusing plain 9 11 pending 7 idle finished_session finished
      refusing-Pending refl refl finished-found finished-complete (omega arith)
