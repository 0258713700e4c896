-- ===== src/Operations/Register.antt =====
-- The register of tasks of backend/src/services/operationTasks.js: the map `tasks`, in the order of
-- its keys, with what waits to be told and what the watchers were told. A handle finds its task by
-- the task's id, which is generated and so fresh.
use next_explorer.Prelude.{
  ℕ, Bool, true, false, not, ◌&&◌, ◌||◌, List, [], ◌∷◌, ◌++◌, map, Option, none, some,
  if◌then◌else◌, Text, text_eq, leb, ◌==◌, length, filter, find?,
}
use next_explorer.Prelude.Sort.{sort}
use next_explorer.Paths.Segments.{is_empty}
use next_explorer.Operations.Owners.{Owner, owner_key, same_owner, share_text}
use next_explorer.Operations.News.{State}
use next_explorer.Operations.Tasks.{
  running, Work, Thrown, Task, Event, PublicView, is_running, public_view, start_event, final_event,
}
use next_explorer.Operations.Pump.{
  Machine, record_task, drain, unit_done, unit_failed, seal_timer_fires,
}
use next_explorer.Operations.Handle.{Growth, Report, grow, report, rename, advance, enqueue, seal}

pub record Register : Type 0 where
  pub tasks : List Task
  pub news : State
  pub told : List (ℕ × Event)

pub data Refusal : Type 0 where
  no_owner too_many_tasks too_many_watchers : Refusal

abbrev pub max_running_per_owner : ℕ
max_running_per_owner = 10

abbrev pub max_watchers_per_task : ℕ
max_watchers_per_task = 8

unfoldable pub visible_to : Option Owner → Option Text → Task → Bool
visible_to owner share_id t =
    same_owner t.owner owner && text_eq (share_text t.share_id) (share_text share_id)

abbrev pub counts_for : Option Owner → Task → Bool
counts_for owner t = is_running t.state && same_owner t.owner owner

unfoldable pub running_for : Option Owner → List Task → ℕ
running_for owner ts = length (filter (counts_for owner) ts)

abbrev pub task_at : Text → List Task → Option Task
task_at id ts = find? (λ t. text_eq t.id id) ts

-- The task with the id is changed where it stands.
unfoldable pub on_tasks :
    Text → (Machine → Machine) → List Task → State → List (ℕ × Event) → Register
on_tasks id f [] news told = record { tasks = []; news = news; told = told }
on_tasks id f (t ∷ ts) news told =
    let changed = f (record { task = t; news = news; told = told }) in
    let rest = on_tasks id f ts news told in
    if text_eq t.id id
    then record { tasks = changed.task ∷ ts; news = changed.news; told = changed.told }
    else record rest { tasks = t ∷ rest.tasks }

unfoldable pub on_task : Text → (Machine → Machine) → Register → Register
unfolding on_tasks
on_task id f r = on_tasks id f r.tasks r.news r.told

unfoldable pub find : Text → Option Owner → Option Text → Register → Option Task
find id owner share_id r = elim (task_at id r.tasks) [
  | none ↦ none
  | some t ↦ if visible_to owner share_id t then some t else none
]

pub record Opening : Type 0 where
  pub kind : Text
  pub owner : Option Owner
  pub share_id : Option Text
  pub destination : Text
  pub label : Text

abbrev pub new_task : Text → ℕ → Opening → Task
new_task id now o = record {
  id = id;
  kind = o.kind;
  owner = o.owner;
  share_id = o.share_id;
  destination = o.destination;
  label = o.label;
  state = running;
  started_at = now;
  finished_at = none;
  item_names = [];
  total_items = 0;
  completed_items = 0;
  total_bytes = 0;
  copied_bytes = 0;
  settled_bytes = 0;
  settled_items = 0;
  bytes_known = true;
  native_percent = none;
  current_name = [];
  result = none;
  error = none;
  queue = [];
  current = none;
  sealed = false;
  seal_timer = false;
  forget_timer = false;
  draining = false;
  aborted = false;
  watchers = [];
  settled = none;
}

-- the id that is generated, the clock, and the options
unfoldable pub open_task : Text → ℕ → Opening → Register → Register × Option Refusal
unfolding running_for
open_task id now o r = elim (owner_key o.owner) [
  | none ↦ (r, some no_owner)
  | some key ↦
      if leb max_running_per_owner (running_for o.owner r.tasks)
      then (r, some too_many_tasks)
      else (
        record r { tasks = r.tasks ++ new_task id now o ∷ []; news = record_task id r.news },
        none,
      )
]

abbrev agrees : Text → Option Text → Bool
agrees text none = true
agrees text (some wanted) = text_eq text wanted

-- An empty kind is none that is asked for.
abbrev agrees_unless_empty : Text → Option Text → Bool
agrees_unless_empty text none = true
agrees_unless_empty text (some wanted) = is_empty wanted || text_eq text wanted

unfoldable pub reopen :
    Text → Option Owner → Option Text → Option Text → Option Text → Register → Option Text
unfolding find
reopen id owner share_id kind destination r = elim (find id owner share_id r) [
  | none ↦ none
  | some t ↦
      if not (is_running t.state)
      then none
      else if not (agrees_unless_empty t.kind kind)
      then none
      else if not (agrees t.destination destination)
      then none
      else some t.id
]

-- what `watch` returns, called
unfoldable pub unwatch : ℕ → Machine → Machine
unwatch w m = record m {
  task = record m.task { watchers = filter (λ v. not (v == w)) m.task.watchers };
}

-- The task's forget timer, where it is set, goes off.
unfoldable pub forget : Text → Register → Register
forget id r = record r { tasks = filter (λ t. not (text_eq t.id id && t.forget_timer)) r.tasks }

-- everything that happens to a register
pub data Happening : Type 0 where
  opens : Text → Opening → Happening
  watches : ℕ → Text → Option Owner → Option Text → Happening
  unwatches : ℕ → Text → Happening
  cancels : Text → Text → Option Owner → Option Text → Happening
  grows : Text → Growth → Happening
  reports : Text → Report → Happening
  renames : Text → Text → Happening
  advances : Text → ℕ → ℕ → Happening
  enqueues : Text → Text → Work → Happening
  seals : Text → Text → Happening
  unit_returns : Text → Text → Happening
  unit_throws : Text → Thrown → Happening
  seal_timer_ends : Text → Text → Happening
  forget_timer_ends : Text → Happening

abbrev pub add_watcher : ℕ → Machine → Machine
add_watcher w m = record m { task = record m.task { watchers = m.task.watchers ++ w ∷ [] } }

module _ (round_percent : ℕ → ℕ → ℕ) where
  abbrev pub tell_one : ℕ → List Event → Register → Register
  tell_one w es r = record r { told = r.told ++ map (λ e. (w, e)) es }

  -- `none` where there is no such task for the caller; else the watcher is told, or refused
  unfoldable pub watch :
      ℕ → Text → Option Owner → Option Text → Register → Register × Option (Option Refusal)
  unfolding find on_task start_event final_event
  watch w id owner share_id r = elim (find id owner share_id r) [
    | none ↦ (r, none)
    | some t ↦
        if leb max_watchers_per_task (length t.watchers)
        then (r, some (some too_many_watchers))
        else if not (is_running t.state)
        then (tell_one w (start_event round_percent t ∷ final_event t ∷ []) r, some none)
        else (
          on_task id (add_watcher w) (tell_one w (start_event round_percent t ∷ []) r),
          some none,
        )
  ]

  unfoldable pub list_for : Option Owner → Option Text → Register → List PublicView
  unfolding visible_to public_view
  list_for owner share_id r =
      map (public_view round_percent)
        (sort (λ s t. leb s.started_at t.started_at) (filter (visible_to owner share_id) r.tasks))

  abbrev pub abort : ℕ → Text → Machine → Machine
  abort now answer m =
      drain round_percent now answer (record m { task = record m.task { aborted = true } })

  unfoldable pub cancel : ℕ → Text → Text → Option Owner → Option Text → Register → Register × Bool
  unfolding find on_task drain
  cancel now answer id owner share_id r = elim (find id owner share_id r) [
    | none ↦ (r, false)
    | some t ↦
        if not (is_running t.state) then (r, true) else (on_task id (abort now answer) r, true)
  ]

  unfoldable pub step : ℕ → Happening → Register → Register
  unfolding open_task watch unwatch cancel grow report rename advance enqueue seal unit_done
      unit_failed seal_timer_fires forget on_task
  step now (opens id o) r = (open_task id now o r).0
  step now (watches w id owner share_id) r = (watch w id owner share_id r).0
  step now (unwatches w id) r = on_task id (unwatch w) r
  step now (cancels id answer owner share_id) r = (cancel now answer id owner share_id r).0
  step now (grows id g) r = on_task id (grow round_percent g) r
  step now (reports id p) r = on_task id (report round_percent p) r
  step now (renames id label) r = on_task id (rename round_percent label) r
  step now (advances id items bytes) r = on_task id (advance round_percent items bytes) r
  step now (enqueues id answer unit) r =
      on_task id (λ m. (enqueue round_percent now answer unit m).0) r
  step now (seals id answer) r = on_task id (seal round_percent now answer) r
  step now (unit_returns id answer) r = on_task id (unit_done round_percent now answer) r
  step now (unit_throws id thrown) r = on_task id (unit_failed round_percent now thrown) r
  step now (seal_timer_ends id answer) r = on_task id (seal_timer_fires round_percent now answer) r
  step now (forget_timer_ends id) r = forget id r
