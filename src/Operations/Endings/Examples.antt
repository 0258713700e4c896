-- ===== src/Operations/Endings/Examples.antt =====
-- Copies of an account, from their opening to their end.
use next_explorer.Prelude.{
  ℕ, ◌+◌, ◌*◌, ◌/◌, ◌≡◌, ◌⊎◌, refl, true, false, List, [], ◌∷◌, ◌++◌, map, Option, none, some,
  arith, codes,
}
use next_explorer.Operations.Owners.{Owner, user, guest, owner_key}
use next_explorer.Operations.News.{State, Report, report_of}
use next_explorer.Operations.Tasks.{
  TaskState, done, cancelled, Thrown, Work, Task, is_running, public_view, final_event,
}
use next_explorer.Operations.Pump.{Machine, is_watched, ended, outcome_of, settle}
use next_explorer.Operations.Register.{
  Register, Opening, Happening, new_task, opens, enqueues, seals, unit_returns, find, reopen, watch,
  cancel, list_for, task_at, step,
}
use next_explorer.Operations.Steady.{IsSteady}
use next_explorer.Operations.Invariant.{IsSound}
use next_explorer.Operations.Runs.{run, empty_register, run-from_empty, step-Goes, Goes}
use next_explorer.Operations.Visibility.{hidden_task, IsTheirs}
use next_explorer.Operations.Endings.{returned, threw, units_end, units_end-ends, settle-IsHeard}

-- the percentage, with an exact half rounded up
abbrev rounded : ℕ → ℕ → ℕ
rounded part whole = (200 * part + whole) / (2 * whole)

abbrev ann : Owner
ann = record { kind = user; id = codes "7" }

abbrev visitor : Owner
visitor = record { kind = guest; id = codes "7" }

abbrev copies : Opening
copies = record {
  kind = codes "copy";
  owner = some ann;
  share_id = none;
  destination = codes "Docs";
  label = [];
}

abbrev unit : Work
unit = record { describe_error = none }

abbrev no_news : State
no_news = record { untold = []; journal = [] }

abbrev started : List (ℕ × Happening)
started =
    (1, opens (codes "t") copies)
    ∷ (2, enqueues (codes "t") [] unit)
    ∷ (2, enqueues (codes "t") [] unit)
    ∷ (3, seals (codes "t") [])
    ∷ []

abbrev finished_run : List (ℕ × Happening)
finished_run =
    started ++ (4, unit_returns (codes "t") []) ∷ (5, unit_returns (codes "t") (codes "two")) ∷ []

abbrev state_of : Option Task → Option TaskState
state_of none = none
state_of (some t) = some t.state

run-started :
    state_of (task_at (codes "t") (run rounded started (empty_register no_news)).tasks)
    ≡ some TaskState.running
unfolding run owner_key
run-started = refl

-- Nobody watched, so the end waits to be told.
run-finished :
    (state_of (task_at (codes "t") (run rounded finished_run (empty_register no_news)).tasks)
      ≡ some done)
    × (map (λ r. r.id) (run rounded finished_run (empty_register no_news)).news.untold
        ≡ codes "t" ∷ [])
unfolding run owner_key
run-finished = (refl, refl)

run-from_empty_example : IsSound (run rounded started (empty_register no_news))
run-from_empty_example = run-from_empty rounded started no_news

step-Goes_example :
    Goes
      (unit_returns (codes "t") [])
      (run rounded started (empty_register no_news))
      (step rounded 4 (unit_returns (codes "t") []) (run rounded started (empty_register no_news)))
step-Goes_example =
    step-Goes rounded 4 (unit_returns (codes "t") []) (run rounded started (empty_register no_news))
      run-from_empty_example

abbrev copying : Machine
copying = record {
  task = record (new_task (codes "t") 1 copies) {
    sealed = true;
    draining = true;
    current = some unit;
    queue = unit ∷ [];
    watchers = 5 ∷ [];
  };
  news = no_news;
  told = [];
}

copying-IsSteady : IsSteady copying.task
copying-IsSteady = ground arith

abbrev broken : Thrown
broken = record { thrown_code = codes "ENOSPC" }

units_end-ends_example :
    is_running (units_end rounded 9 (returned [] ∷ threw broken ∷ []) copying).task.state ≡ false
units_end-ends_example =
    units_end-ends rounded 9 (returned [] ∷ threw broken ∷ []) copying copying-IsSteady refl
      (omega arith)

abbrev told_done : Machine
told_done = settle rounded 9 done (some (codes "two")) none copying

settle-IsHeard_example :
    (told_done.task.state ≡ done)
    × (told_done.task.result ≡ some (codes "two"))
    × (told_done.task.error ≡ none)
    × (told_done.task.finished_at ≡ some 9)
    × (told_done.task.settled ≡ some (public_view rounded told_done.task))
    × (((is_watched copying.task.watchers ≡ true)
          × (told_done.told
              ≡ copying.told ++ map (λ w. (w, final_event told_done.task)) copying.task.watchers)
          × (told_done.news.untold ≡ copying.news.untold))
        ⊎ ((copying.task.watchers ≡ [])
            × (told_done.told ≡ copying.told)
            × (((done ≡ cancelled) × (told_done.news.untold ≡ copying.news.untold))
                ⊎ ((kept : List Report) × (told_done.news.untold
                      ≡ kept ++ report_of (ended 9 told_done.task) (outcome_of done) ∷ [])))))
settle-IsHeard_example = settle-IsHeard rounded 9 done (some (codes "two")) none copying refl

abbrev of_ann : Register
of_ann = record { tasks = copying.task ∷ []; news = no_news; told = [] }

hidden_task_example :
    (IsTheirs (some visitor) none copying.task
      × (find (codes "t") (some visitor) none of_ann ≡ some copying.task))
    ⊎ ((¬ IsTheirs (some visitor) none copying.task)
        × (find (codes "t") (some visitor) none of_ann ≡ none)
        × (reopen (codes "t") (some visitor) none none none of_ann ≡ none)
        × (watch rounded 6 (codes "t") (some visitor) none of_ann ≡ (of_ann, none))
        × (cancel rounded 8 [] (codes "t") (some visitor) none of_ann ≡ (of_ann, false))
        × (list_for rounded (some visitor) none of_ann
            ≡ list_for rounded (some visitor) none (record of_ann { tasks = [] })))
hidden_task_example =
    hidden_task rounded 8 6 [] (codes "t") (some visitor) none none none of_ann [] [] copying.task
      refl refl
