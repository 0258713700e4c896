-- ===== src/Operations/Endings.antt =====
-- How a task of backend/src/services/operationTasks.js ends, and who hears of it.
mod Examples
use mathlib.Core.List.{append-nil}
use next_explorer.Prelude.{
  ℕ, suc, ◌+◌, ◌≤◌, ◌≡◌, ◌⊎◌, refl, ap, sym, ◌∙◌, text_eq_iff, subst, inl, inr, Bool, true, false,
  not, List, [], ◌∷◌, ◌++◌, map, Option, some, arith, Text, text_eq, length, filter, Bool-cases,
  Option-cases, leb,
}
use next_explorer.Operations.Owners.{Owner, owner_key, same_owner, same_owner_iff, share_text}
use next_explorer.Paths.Segments.{is_empty}
use next_explorer.Operations.News.{Report, State, make_room, mine, report_of, keep_untold}
use next_explorer.Operations.Tasks.{
  TaskState, cancelled, TaskError, Thrown, Task, Event, is_running, is_cancelled, public_view,
  final_event,
}
use next_explorer.Operations.Pump.{
  Machine, record_task, is_watched, ended, outcome_of, settle, pump_from, unit_done, unit_failed,
}
use next_explorer.Operations.Register.{
  Register, visible_to, task_at, find, reopen, watch, cancel, list_for,
}
use next_explorer.Operations.Steady.{IsSteady, is_busy, unit_done-IsSteady, unit_failed-IsSteady}
use next_explorer.Operations.Kept.{IsKept, unit_done-IsKept, unit_failed-IsKept}

is_watched-cases : (ws : List ℕ) → (is_watched ws ≡ true) ⊎ (ws ≡ [])
is_watched-cases [] = inr refl
is_watched-cases (w ∷ ws) = inl refl

is_cancelled-cases : (s : TaskState) → (s ≡ cancelled) ⊎ (is_cancelled s ≡ false)
is_cancelled-cases TaskState.running = inr refl
is_cancelled-cases TaskState.done = inr refl
is_cancelled-cases TaskState.failed = inr refl
is_cancelled-cases cancelled = inl refl

-- The news, once there is room for one more of the task's owner.
abbrev room_for : Machine → State
room_for m =
    make_room m.task.owner m.task.share_id
      (filter (mine m.task.owner m.task.share_id) m.news.untold) (record_task m.task.id m.news)

-- How a unit of work ends: it returns, with what is then collected, or it throws.
pub data Ending : Type 0 where
  returned : Text → Ending
  threw : Thrown → Ending

module _ (round_percent : ℕ → ℕ → ℕ) where
  abbrev pub unit_ends : ℕ → Ending → Machine → Machine
  unit_ends now (returned answer) m = unit_done round_percent now answer m
  unit_ends now (threw thrown) m = unit_failed round_percent now thrown m

  abbrev pub units_end : ℕ → List Ending → Machine → Machine
  units_end now [] m = m
  units_end now (e ∷ es) m = units_end now es (unit_ends now e m)

  unit_ends-IsSteady :
      (now : ℕ) (e : Ending) (m : Machine) → IsSteady m.task → IsSteady (unit_ends now e m).task
  unit_ends-IsSteady now (returned answer) m h = unit_done-IsSteady round_percent now answer m h
  unit_ends-IsSteady now (threw thrown) m h = unit_failed-IsSteady round_percent now thrown m h

  unit_ends-IsKept : (now : ℕ) (e : Ending) (m : Machine) → IsKept m.task (unit_ends now e m).task
  unit_ends-IsKept now (returned answer) m = unit_done-IsKept round_percent now answer m
  unit_ends-IsKept now (threw thrown) m = unit_failed-IsKept round_percent now thrown m

  units_end-over :
      (now : ℕ) (es : List Ending) (m : Machine)
      → is_running m.task.state ≡ false
      → is_running (units_end now es m).task.state ≡ false
  units_end-over now [] m over = over
  units_end-over now (e ∷ es) m over =
      units_end-over now es (unit_ends now e m)
        (ground (arith, ap is_running ((unit_ends-IsKept now e m).ended over).0, over))

  -- A unit that ends takes the next one from the queue, or ends the task.
  goes_on :
      (now : ℕ) (e : Ending) (m : Machine)
      → IsSteady m.task
      → m.task.sealed ≡ true
      → is_running m.task.state ≡ true
      → (is_running (unit_ends now e m).task.state ≡ false)
        ⊎ (((unit_ends now e m).task.sealed ≡ true)
            × (suc (length (unit_ends now e m).task.queue) ≡ length m.task.queue))
  unfolding unit_done unit_failed
  goes_on now (returned answer) m h sealed runs = ground (arith, h.awaited runs sealed, h.busy)
  goes_on now (threw thrown) m h sealed runs = ground (arith, h.awaited runs sealed, h.busy)

  -- A task that is sealed is over once as many units have ended as were queued, and the one that was
  -- being worked on, whether they return or throw.
  pub units_end-ends :
      (now : ℕ) (es : List Ending) (m : Machine)
      → IsSteady m.task
      → m.task.sealed ≡ true
      → suc (length m.task.queue) ≤ length es
      → is_running (units_end now es m).task.state ≡ false
  units_end-ends now [] m h sealed enough = ground arith
  units_end-ends now (e ∷ es) m h sealed enough = elim (Bool-cases (is_running m.task.state)) [
    | inr over ↦ units_end-over now (e ∷ es) m over
    | inl runs ↦ elim (goes_on now e m h sealed runs) [
      | inl over ↦ units_end-over now es (unit_ends now e m) over
      | inr (still, fewer) ↦
          units_end-ends now es (unit_ends now e m) (unit_ends-IsSteady now e m h) still
            (omega (arith, fewer, enough))
    ]
  ]

  -- A task that ran ends in the given state, with the given result and error and the time of its end,
  -- and this is known to all who are to know: where it is watched, each watcher is
  -- told once, in the order in which they came, and nothing new waits for the owner; where nobody
  -- watches, nobody is told, and unless it was cancelled the report of it is the last that waits. The
  -- promise is resolved with what is then seen of the task, and nothing of it changes how it ended.
  pub settle-IsHeard :
      (now : ℕ) (state : TaskState) (result : Option Text) (error : Option TaskError) (m : Machine)
      → is_running m.task.state ≡ true
      → let after = settle round_percent now state result error m in
        (after.task.state ≡ state)
        × (after.task.result ≡ result)
        × (after.task.error ≡ error)
        × (after.task.finished_at ≡ some now)
        × (after.task.settled ≡ some (public_view round_percent after.task))
        × (((is_watched m.task.watchers ≡ true)
              × (after.told ≡ m.told ++ map (λ w. (w, final_event after.task)) m.task.watchers)
              × (after.news.untold ≡ m.news.untold))
            ⊎ ((m.task.watchers ≡ [])
                × (after.told ≡ m.told)
                × (((state ≡ cancelled) × (after.news.untold ≡ m.news.untold))
                    ⊎ ((kept : List Report) × (after.news.untold
                          ≡ kept ++ report_of (ended now after.task) (outcome_of state) ∷ [])))))
  unfolding settle keep_untold
  settle-IsHeard now state result error m runs = elim (is_watched-cases m.task.watchers) [
    | inl watched ↦ ground (arith, runs, watched)
    | inr alone ↦ elim (is_cancelled-cases state) [
      | inl stopped ↦ (
        ground (arith, runs),
        ground (arith, runs),
        ground (arith, runs),
        ground (arith, runs),
        ground (arith, runs),
        inr (
          alone,
          ground (arith, runs, alone, append-nil m.told),
          inl (stopped, ground (arith, runs, alone, stopped)),
        ),
      )
      | inr other ↦ (
        ground (arith, runs),
        ground (arith, runs),
        ground (arith, runs),
        ground (arith, runs),
        ground (arith, runs),
        inr (
          alone,
          ground (arith, runs, alone, append-nil m.told),
          inr ((room_for m).untold, ground (arith, runs, alone, other)),
        ),
      )
    ]
  ]
