-- ===== src/Operations/Handle.antt =====
-- The handle through which backend/src/services/operationTasks.js lets a task's work be driven.
use next_explorer.Prelude.{
  ℕ, ◌+◌, max, Bool, true, false, not, ◌&&◌, List, [], ◌∷◌, ◌++◌, Option, none, some, if◌then◌else◌,
  Text, ltb, length,
}
use next_explorer.Operations.News.{max_recorded_paths}
use next_explorer.Operations.Tasks.{Work, Task, Event, progress, is_running, progress_numbers, tell}
use next_explorer.Operations.Pump.{Machine, record_task, drain}

pub record Growth : Type 0 where
  pub more_items : ℕ
  pub more_bytes : ℕ
  pub with_bytes : Bool
  pub names : List Text

-- A number that is not finite, a name that is no text and a percent that is not said are `none`.
pub record Report : Type 0 where
  pub unit_bytes : Option ℕ
  pub unit_items : Option ℕ
  pub current_name : Option Text
  pub percent : Option ℕ

abbrev pub push_names : List Text → List Text → List Text
push_names known [] = known
push_names known (n ∷ ns) =
    push_names (if ltb (length known) max_recorded_paths then known ++ n ∷ [] else known) ns

abbrev or_kept {ℓ} : {V : Type ℓ} → Option V → V → V
or_kept none old = old
or_kept (some v) old = v

abbrev or_old {ℓ} : {V : Type ℓ} → Option V → Option V → Option V
or_old none old = old
or_old (some v) old = some v

abbrev counted_from : ℕ → Option ℕ → ℕ → ℕ
counted_from settled none old = old
counted_from settled (some n) old = settled + n

module _ (round_percent : ℕ → ℕ → ℕ) where
  abbrev progress_event : Option Text → Task → Event
  progress_event name t = progress name (progress_numbers round_percent t)

  unfoldable pub grow : Growth → Machine → Machine
  unfolding progress_numbers
  grow g m =
      let t = record m.task {
        total_items = m.task.total_items + g.more_items;
        total_bytes = m.task.total_bytes + g.more_bytes;
        bytes_known = m.task.bytes_known && g.with_bytes;
        item_names = push_names m.task.item_names g.names;
      } in
      if not (is_running m.task.state) then m else record {
        task = t;
        news = record_task t.id m.news;
        told = m.told ++ tell t (progress_event none t);
      }

  unfoldable pub report : Report → Machine → Machine
  unfolding progress_numbers
  report r m =
      let t = record m.task {
        copied_bytes = counted_from m.task.settled_bytes r.unit_bytes m.task.copied_bytes;
        completed_items = counted_from m.task.settled_items r.unit_items m.task.completed_items;
        current_name = or_kept r.current_name m.task.current_name;
        native_percent = or_old r.percent m.task.native_percent;
      } in
      if not (is_running m.task.state)
      then m
      else record m { task = t; told = m.told ++ tell t (progress_event none t) }

  -- A label that is no text, or empty, is `[]`.
  unfoldable pub rename : Text → Machine → Machine
  unfolding progress_numbers
  rename [] m = m
  rename (c ∷ cs) m =
      let t = record m.task { label = c ∷ cs } in
      if not (is_running m.task.state)
      then m
      else record m { task = t; told = m.told ++ tell t (progress_event (some (c ∷ cs)) t) }

  unfoldable pub advance : ℕ → ℕ → Machine → Machine
  advance items bytes m = record m {
    task = record m.task {
      settled_items = m.task.settled_items + items;
      completed_items = max m.task.completed_items (m.task.settled_items + items);
      settled_bytes = m.task.settled_bytes + bytes;
      copied_bytes = max m.task.copied_bytes (m.task.settled_bytes + bytes);
      native_percent = none;
    };
  }

  unfoldable pub enqueue : ℕ → Text → Work → Machine → Machine × Bool
  unfolding drain
  enqueue now answer unit m = if not (is_running m.task.state) then (m, false) else (
    drain round_percent now answer (record m {
      task = record m.task { seal_timer = false; queue = m.task.queue ++ unit ∷ [] };
    }),
    true,
  )

  unfoldable pub seal : ℕ → Text → Machine → Machine
  unfolding drain
  seal now answer m =
      drain round_percent now answer (record m { task = record m.task { sealed = true } })
