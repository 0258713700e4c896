-- ===== src/Operations/Pump.antt =====
-- How backend/src/services/operationTasks.js drains the queue of a task. What runs between two
-- waits is one function; that a unit ended, or a timer, is an event of its own. The clock and what
-- `collect` answers are arguments of the events that may end the task.
use next_explorer.Prelude.{
  ℕ, Bool, true, false, not, ◌||◌, List, [], ◌∷◌, ◌++◌, Option, none, some, if◌then◌else◌, Text,
  text_eq, codes, any,
}
use next_explorer.Operations.News.{State, Outcome, forget_record_of, keep_untold}
use next_explorer.Operations.News
use next_explorer.Operations.Tasks.{
  TaskState, done, failed, cancelled, TaskError, Thrown, Work, Task, Event, is_running,
  is_cancelled, operation_failed, operation_cancelled, public_view, final_event, tell,
}

-- One task, what waits to be told, and what the watchers were told, the latest last.
pub record Machine : Type 0 where
  pub task : Task
  pub news : State
  pub told : List (ℕ × Event)

-- `record`: the file of the task is written, or written again
abbrev pub record_task : Text → State → State
record_task id n = record n {
  journal = if any (text_eq id) n.journal then n.journal else id ∷ n.journal;
}

abbrev pub release_record : Text → State → State
release_record id n = record n { journal = forget_record_of id n.journal }

abbrev pub outcome_of : TaskState → Outcome
outcome_of failed = Outcome.failed
outcome_of cancelled = Outcome.cancelled
outcome_of _ = Outcome.done

abbrev has_label : Text → Option Text
has_label [] = none
has_label (c ∷ cs) = some (c ∷ cs)

-- what `keepUntold` reads of the task
abbrev pub ended : ℕ → Task → News.Task
ended now t = record {
  id = t.id;
  kind = t.kind;
  owner = t.owner;
  share_id = t.share_id;
  destination = t.destination;
  label = has_label t.label;
  item_names = t.item_names;
  started_at = t.started_at;
  completed_items = t.completed_items;
  finished_at = now;
}

abbrev pub is_watched : List ℕ → Bool
is_watched [] = false
is_watched (w ∷ ws) = true

module _ (round_percent : ℕ → ℕ → ℕ) where
  unfoldable pub settle : ℕ → TaskState → Option Text → Option TaskError → Machine → Machine
  unfolding keep_untold public_view final_event
  settle now state result error m =
      let t = record m.task {
        seal_timer = false;
        state = state;
        finished_at = some now;
        result = result;
        error = error;
      } in
      if not (is_running m.task.state) then m else record {
        task = record t {
          watchers = [];
          settled = some (public_view round_percent (record t { watchers = [] }));
          forget_timer = true;
        };
        news =
            if is_watched t.watchers || is_cancelled state
            then release_record t.id m.news
            else keep_untold (record_task t.id m.news) (ended now t) (outcome_of state);
        told = m.told ++ tell t (final_event t);
      }

  abbrev cancel_now : ℕ → Machine → Machine
  cancel_now now m =
      settle now cancelled none (some operation_cancelled)
        (record m { task = record m.task { queue = []; draining = false; current = none } })

  -- `pump` with nothing left in the queue
  unfoldable pub run_dry : ℕ → Text → Machine → Machine
  unfolding settle
  run_dry now answer m =
      let idle = record m { task = record m.task { draining = false; current = none } } in
      if m.task.sealed
      then settle now done (some answer) none idle
      else record idle { task = record idle.task { seal_timer = true } }

  -- the loop of `pump`, to its next wait
  unfoldable pub pump_from : ℕ → Text → Machine → List Work → Machine
  unfolding settle run_dry
  pump_from now answer m [] = run_dry now answer m
  pump_from now answer m (unit ∷ rest) =
      if m.task.aborted
      then cancel_now now m
      else record m { task = record m.task { queue = rest; draining = true; current = some unit } }

  unfoldable pub drain : ℕ → Text → Machine → Machine
  unfolding pump_from
  drain now answer m = if m.task.draining then m else pump_from now answer m m.task.queue

  -- The unit that `pump` waits for has returned.
  unfoldable pub unit_done : ℕ → Text → Machine → Machine
  unfolding pump_from
  unit_done now answer m = elim m.task.current [
    | none ↦ m
    | some unit ↦ pump_from now answer m m.task.queue
  ]

  abbrev described : Work → Thrown → TaskError
  described unit thrown = elim unit.describe_error [
    | some describe ↦ describe thrown
    | none ↦ operation_failed
  ]

  -- It has thrown.
  unfoldable pub unit_failed : ℕ → Thrown → Machine → Machine
  unfolding settle
  unit_failed now thrown m = elim m.task.current [
    | none ↦ m
    | some unit ↦
        let emptied = record m {
          task = record m.task { queue = []; draining = false; current = none };
        } in
        if m.task.aborted || text_eq thrown.thrown_code (codes "OPERATION_CANCELLED")
        then cancel_now now m
        else settle now failed none (some (described unit thrown)) emptied
  ]

  abbrev is_queued : List Work → Bool
  is_queued [] = false
  is_queued (w ∷ ws) = true

  -- The seal timer, where it is set, goes off.
  unfoldable pub seal_timer_fires : ℕ → Text → Machine → Machine
  unfolding settle
  seal_timer_fires now answer m =
      let off = record m { task = record m.task { seal_timer = false } } in
      if not m.task.seal_timer
      then m
      else if not (is_running m.task.state) || is_queued m.task.queue
      then off
      else settle now done (some answer) none
          (record off { task = record off.task { sealed = true } })
