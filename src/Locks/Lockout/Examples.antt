-- ===== src/Locks/Lockout/Examples.antt =====
-- An account with a limit of three failures and a lockout of fifteen minutes.
use next_explorer.Prelude.{ℕ, ◌+◌, ◌≡◌, refl, Bool, true, false, List, [], ◌∷◌, some, length, arith}
use next_explorer.Locks.Lockout.{
  Policy, Table, SignIns, Event, begins, compared, get_lock, list_active_locks, step, run,
}
use next_explorer.Locks.Lockout.Attempts.{view, next, waiting_on, step-view}
use next_explorer.Locks.Lockout.Ledger.{row_of, refusals, IsShutPast, run-row_of, run-shut}

abbrev three : Policy
three = record { max_failed_attempts = 3; lockout_minutes = 15 }

abbrev begins_at : ℕ → Event
begins_at now = begins (record { account = some "ann"; has_password = true; now = now })

abbrev answered : Bool → ℕ → Event
answered valid now = compared "ann" valid now

abbrev quiet : SignIns
quiet = record { table = []; waiting = [] }

abbrev three_wrong : List Event
three_wrong =
    begins_at 1
    ∷ answered false 10
    ∷ begins_at 11
    ∷ answered false 20
    ∷ begins_at 21
    ∷ answered false 30
    ∷ []

abbrev once_locked : Table
once_locked = ("ann", record { failed_count = 3; locked_until = some 900_030 }) ∷ []

locks : (run three three_wrong quiet).0 ≡ record { table = once_locked; waiting = [] }
unfolding run step get_lock
locks = refl

-- Attempts that begin together are all compared, and one that is right clears the lock that fell while
-- it waited.
overtaken :
    list_active_locks 60
      (run three
        (begins_at 1
          ∷ begins_at 2
          ∷ begins_at 3
          ∷ begins_at 4
          ∷ answered false 10
          ∷ answered false 20
          ∷ answered false 30
          ∷ answered true 40
          ∷ [])
        quiet).0.table
    ≡ []
unfolding run step get_lock list_active_locks
overtaken = refl

step-view_example :
    view "ann" (step three (begins_at 1) quiet).0
    ≡ next three "ann" (begins_at 1) (view "ann" quiet)
step-view_example = step-view three (begins_at 1) "ann" quiet

run-row_of_example :
    get_lock "ann" (run three three_wrong quiet).0.table
    ≡ row_of three (refusals "ann" (run three three_wrong quiet).1 [])
unfolding get_lock
run-row_of_example = run-row_of three "ann" three_wrong quiet [] refl

-- One attempt waits, and another begins.
abbrev shut : SignIns
shut = record { table = once_locked; waiting = "ann" ∷ [] }

abbrev later : List Event
later = begins_at 50 ∷ answered false 60 ∷ []

run-shut_example :
    IsShutPast three 900_030 (get_lock "ann" (run three later shut).0.table)
    × (length (refusals "ann" (run three later shut).1 [])
          + waiting_on "ann" (run three later shut).0.waiting
        ≡ waiting_on "ann" shut.waiting)
unfolding get_lock
run-shut_example =
    run-shut three "ann" 40 900_030 later shut (omega arith)
      ((omega arith, omega arith), ((omega arith, omega arith, refl), tt))
      (omega arith, (900_030, refl, omega arith))
