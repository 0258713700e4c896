-- ===== src/Operations/Tasks.antt =====
-- A task of backend/src/services/operationTasks.js, and what is seen of it from outside. A watcher
-- is a number; what the opener's `collect` answers is a text. The quotient of `percentOf` is one of
-- floating point, and its rounding is an argument.
use next_explorer.Prelude.{
  ℕ, Bool, true, false, ◌||◌, List, [], ◌∷◌, map, Option, none, some, if◌then◌else◌, Text, leb,
  ◌==◌, take, codes,
}
use next_explorer.Operations.Owners.{Owner}

pub data TaskState : Type 0 where
  running done failed cancelled : TaskState

pub record TaskError : Type 0 where
  pub code : Text
  pub message : Text

-- What a unit of work throws.
pub record Thrown : Type 0 where
  pub thrown_code : Text

-- A unit of work: what it makes of an error, where it says so.
pub record Work : Type 0 where
  pub describe_error : Option (Thrown → TaskError)

pub record PublicView : Type 0 where
  pub id : Text
  pub kind : Text
  pub state : TaskState
  pub destination : Text
  pub name : Text
  pub item_names : List Text
  pub total_items : ℕ
  pub completed_items : ℕ
  pub total_bytes : ℕ
  pub copied_bytes : ℕ
  pub current_name : Text
  pub percent : Option ℕ
  pub started_at : ℕ
  pub finished_at : Option ℕ
  pub error : Option TaskError

pub record Task : Type 0 where
  pub id : Text
  pub kind : Text
  pub owner : Option Owner
  pub share_id : Option Text
  pub destination : Text
  pub label : Text
  pub state : TaskState
  pub started_at : ℕ
  pub finished_at : Option ℕ
  pub item_names : List Text
  pub total_items : ℕ
  pub completed_items : ℕ
  pub total_bytes : ℕ
  pub copied_bytes : ℕ
  pub settled_bytes : ℕ
  pub settled_items : ℕ
  pub bytes_known : Bool
  pub native_percent : Option ℕ
  pub current_name : Text
  pub result : Option Text
  pub error : Option TaskError
  pub queue : List Work
  -- the unit that `pump` waits for
  pub current : Option Work
  pub sealed : Bool
  pub seal_timer : Bool
  pub forget_timer : Bool
  pub draining : Bool
  pub aborted : Bool
  pub watchers : List ℕ
  -- what the promise `settled` was resolved with
  pub settled : Option PublicView

abbrev pub is_running : TaskState → Bool
is_running running = true
is_running _ = false

abbrev pub is_cancelled : TaskState → Bool
is_cancelled cancelled = true
is_cancelled _ = false

abbrev known_bytes : Task → ℕ
known_bytes t = if t.bytes_known then t.total_bytes else 0

pub record Numbers : Type 0 where
  pub copied_bytes : ℕ
  pub total_bytes : ℕ
  pub completed_items : ℕ
  pub total_items : ℕ
  pub current_name : Text
  pub percent : Option ℕ

pub record Start : Type 0 where
  pub task_id : Text
  pub kind : Text
  pub destination : Text
  pub name : Text
  pub total_bytes : ℕ
  pub total_items : ℕ
  pub copied_bytes : ℕ
  pub completed_items : ℕ
  pub percent : Option ℕ

-- What a watcher is told; a name that is not said is `none`.
pub data Event : Type 0 where
  start : Start → Event
  progress : Option Text → Numbers → Event
  finished : Option Text → Event
  error : TaskError → Event

abbrev no_percent : Task → Bool
no_percent t = t.bytes_known || t.total_items == 0

module _ (round_percent : ℕ → ℕ → ℕ) where
  unfoldable pub percent_of : Task → Option ℕ
  percent_of t =
      let counted =
        if no_percent t then none else some (round_percent t.completed_items t.total_items) in
      elim t.native_percent [
        | some percent ↦ if leb t.total_items 1 then some percent else counted
        | none ↦ counted
      ]

  unfoldable pub public_view : Task → PublicView
  unfolding percent_of
  public_view t = record {
    id = t.id;
    kind = t.kind;
    state = t.state;
    destination = t.destination;
    name = t.label;
    item_names = take 3 t.item_names;
    total_items = t.total_items;
    completed_items = t.completed_items;
    total_bytes = known_bytes t;
    copied_bytes = t.copied_bytes;
    current_name = t.current_name;
    percent = percent_of t;
    started_at = t.started_at;
    finished_at = t.finished_at;
    error = t.error;
  }

  unfoldable pub start_event : Task → Event
  unfolding percent_of
  start_event t = start (record {
    task_id = t.id;
    kind = t.kind;
    destination = t.destination;
    name = t.label;
    total_bytes = known_bytes t;
    total_items = t.total_items;
    copied_bytes = t.copied_bytes;
    completed_items = t.completed_items;
    percent = percent_of t;
  })

  unfoldable pub progress_numbers : Task → Numbers
  unfolding percent_of
  progress_numbers t = record {
    copied_bytes = t.copied_bytes;
    total_bytes = known_bytes t;
    completed_items = t.completed_items;
    total_items = t.total_items;
    current_name = t.current_name;
    percent = percent_of t;
  }

abbrev is_done : TaskState → Bool
is_done done = true
is_done _ = false

abbrev pub operation_failed : TaskError
operation_failed = record { code = codes "OPERATION_FAILED"; message = codes "Operation failed." }

abbrev pub operation_cancelled : TaskError
operation_cancelled = record { code = codes "OPERATION_CANCELLED"; message = codes "Cancelled." }

-- `text || fallback`
abbrev or_text : Text → Text → Text
or_text [] fallback = fallback
or_text (c ∷ cs) fallback = c ∷ cs

abbrev or_failed : Option TaskError → TaskError
or_failed none = operation_failed
or_failed (some e) = record {
  code = or_text e.code operation_failed.code;
  message = or_text e.message operation_failed.message;
}

unfoldable pub final_event : Task → Event
final_event t = if is_done t.state then finished t.result else error (or_failed t.error)

-- `tell`: every watcher, in the order in which they came
abbrev pub tell : Task → Event → List (ℕ × Event)
tell t e = map (λ w. (w, e)) t.watchers
