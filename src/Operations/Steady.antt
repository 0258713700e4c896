-- ===== src/Operations/Steady.antt =====
-- What holds of a task of backend/src/services/operationTasks.js between two events.
use next_explorer.Prelude.{
  ℕ, ◌≤◌, ◌≡◌, Bool, true, false, not, List, [], ◌∷◌, ◌++◌, Option, none, some, arith, Text,
  if◌then◌else◌, length, length-append, ltb, leb, filter, ◌==◌,
}
use next_explorer.Operations.News.{max_recorded_paths}
use next_explorer.Operations.Tasks.{Work, Thrown, Task, is_running}
use next_explorer.Operations.Pump.{Machine, drain, unit_done, unit_failed, seal_timer_fires}
use next_explorer.Operations.Handle.{
  Growth, Report, push_names, grow, report, rename, advance, enqueue, seal,
}
use next_explorer.Operations.Register.{max_watchers_per_task, abort, unwatch, add_watcher}

abbrev pub is_busy : Option Work → Bool
is_busy none = false
is_busy (some unit) = true

-- A task that runs is waiting for a unit, or has nothing queued and is not sealed; the seal timer is
-- set only while it waits for more; a task that ended has nothing queued, nobody watching, and is to
-- be forgotten, and no other is.
pub record IsSteady (t : Task) : Type 0 where
  pub busy : t.draining ≡ is_busy t.current
  pub idle : is_running t.state ≡ true → t.draining ≡ false → t.queue ≡ []
  pub awaited : is_running t.state ≡ true → t.sealed ≡ true → t.draining ≡ true
  pub armed : t.seal_timer ≡ true → (t.draining ≡ false) × (is_running t.state ≡ true)
  pub over :
      is_running t.state ≡ false
      → (t.queue ≡ []) × (t.watchers ≡ []) × (t.draining ≡ false) × (t.forget_timer ≡ true)
  pub forgettable : t.forget_timer ≡ true → is_running t.state ≡ false
  pub watched : length t.watchers ≤ max_watchers_per_task
  pub named : length t.item_names ≤ max_recorded_paths
  pub bytes : t.settled_bytes ≤ t.copied_bytes
  pub items : t.settled_items ≤ t.completed_items

push_names-le :
    (known names : List Text)
    → length known ≤ max_recorded_paths
    → length (push_names known names) ≤ max_recorded_paths
push_names-le known [] h = h
push_names-le known (n ∷ ns) h =
    push_names-le (if ltb (length known) max_recorded_paths then known ++ n ∷ [] else known) ns
      (ground (arith, length-append known (n ∷ [])))

module _ (round_percent : ℕ → ℕ → ℕ) where
  pub unit_done-IsSteady :
      (now : ℕ) (answer : Text) (m : Machine)
      → IsSteady m.task
      → IsSteady (unit_done round_percent now answer m).task
  unfolding unit_done
  unit_done-IsSteady now answer m h = ground arith

  pub unit_failed-IsSteady :
      (now : ℕ) (thrown : Thrown) (m : Machine)
      → IsSteady m.task
      → IsSteady (unit_failed round_percent now thrown m).task
  unfolding unit_failed
  unit_failed-IsSteady now thrown m h = ground arith

  pub seal_timer_fires-IsSteady :
      (now : ℕ) (answer : Text) (m : Machine)
      → IsSteady m.task
      → IsSteady (seal_timer_fires round_percent now answer m).task
  unfolding seal_timer_fires
  seal_timer_fires-IsSteady now answer m h = ground arith

  pub grow-IsSteady :
      (g : Growth) (m : Machine) → IsSteady m.task → IsSteady (grow round_percent g m).task
  unfolding grow
  grow-IsSteady g m h = ground (arith, push_names-le m.task.item_names g.names)

  pub report-IsSteady :
      (r : Report) (m : Machine) → IsSteady m.task → IsSteady (report round_percent r m).task
  unfolding report
  report-IsSteady r m h = ground arith

  pub rename-IsSteady :
      (label : Text) (m : Machine) → IsSteady m.task → IsSteady (rename round_percent label m).task
  unfolding rename
  rename-IsSteady [] m h = h
  rename-IsSteady (c ∷ cs) m h = ground arith

  pub advance-IsSteady :
      (items bytes : ℕ) (m : Machine)
      → IsSteady m.task
      → IsSteady (advance round_percent items bytes m).task
  unfolding advance
  advance-IsSteady items bytes m h = ground arith

  pub enqueue-IsSteady :
      (now : ℕ) (answer : Text) (unit : Work) (m : Machine)
      → IsSteady m.task
      → IsSteady (enqueue round_percent now answer unit m).0.task
  unfolding enqueue
  enqueue-IsSteady now answer unit m h = ground arith

  pub seal-IsSteady :
      (now : ℕ) (answer : Text) (m : Machine)
      → IsSteady m.task
      → IsSteady (seal round_percent now answer m).task
  unfolding seal
  seal-IsSteady now answer m h = ground arith

  -- Cancelling is asked of tasks that run.
  pub abort-IsSteady :
      (now : ℕ) (answer : Text) (m : Machine)
      → is_running m.task.state ≡ true
      → IsSteady m.task
      → IsSteady (abort round_percent now answer m).task
  unfolding drain
  abort-IsSteady now answer m r h = ground arith

length-filter-le {ℓ} : {A : Type ℓ} (p : A → Bool) (xs : List A) → length (filter p xs) ≤ length xs
length-filter-le p [] = omega arith
length-filter-le p (x ∷ xs) = ground (arith, length-filter-le p xs)

pub unwatch-IsSteady : (w : ℕ) (m : Machine) → IsSteady m.task → IsSteady (unwatch w m).task
unfolding unwatch
unwatch-IsSteady w m h = ground (arith, length-filter-le (λ v. not (v == w)) m.task.watchers)

pub add_watcher-IsSteady :
    (w : ℕ) (m : Machine)
    → is_running m.task.state ≡ true
    → leb max_watchers_per_task (length m.task.watchers) ≡ false
    → IsSteady m.task
    → IsSteady (add_watcher w m).task
add_watcher-IsSteady w m r free h = ground (arith, length-append m.task.watchers (w ∷ []))
