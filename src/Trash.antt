-- ===== src/Trash.antt =====
-- backend/src/services/trash/policy.js: what the trash keeps and what it lets go.
-- Times are milliseconds and sizes are bytes. `none` is `Infinity` for a budget and for free space.
pub mod Zone
pub mod Least
pub mod Maintenance
mod Examples
use next_explorer.Prelude.{
  ℕ, ◌+◌, ◌-◌, ◌*◌, ◌/◌, ◌≤◌, Bool, true, false, not, ◌&&◌, ◌||◌, List, [], ◌∷◌, ◌++◌, map, Option,
  none, some, String, min, ltb, leb, ◌==◌, if◌then◌else◌, str_eq, filter, sum_by, map_get, map_set,
}
use next_explorer.Prelude.Sort.{Collation, sort}

abbrev pub day_ms : ℕ
day_ms = 24 * 60 * 60 * 1000

-- Why something leaves: its retention is over, a version is thinned out, over its file's limit or
-- left by a file that is gone; or the zone is over its budget or the volume under its floor.
pub data Reason : Type 0 where
  expired thinned limit orphaned budget space : Reason

pub record Item : Type 0 where
  pub id : String
  pub size : ℕ
  pub deleted_at : ℕ

-- `expired` is what the caller found: `none` is a version that stays for now.
pub record Version : Type 0 where
  pub id : String
  pub size : ℕ
  pub modified_at : ℕ
  pub file_id : String
  pub pinned : Bool
  pub expired : Option Reason

pub record Decision : Type 0 where
  pub id : String
  pub reason : Reason
  pub early : Bool

-- What bounds a zone.
pub record Bounds : Type 0 where
  pub budget_bytes : Option ℕ
  pub floor_bytes : ℕ

abbrev pub is_positive : Option ℕ → Bool
is_positive none = false
is_positive (some n) = ltb 0 n

abbrev pub or_zero : Option ℕ → ℕ
or_zero none = 0
or_zero (some n) = n

abbrev pub least_from : ℕ → List ℕ → ℕ
least_from m [] = m
least_from m (x ∷ xs) = least_from (min m x) xs

-- `Math.min(...limits)`, or `Infinity` with no limit
abbrev pub least : List ℕ → Option ℕ
least [] = none
least (x ∷ xs) = some (least_from x xs)

pub budget_for : Option ℕ → Option ℕ → Option ℕ → Option ℕ
budget_for total_bytes max_percent max_bytes = least (
    (if is_positive total_bytes && is_positive max_percent
      then or_zero total_bytes * or_zero max_percent / 100 ∷ []
      else [])
    ++ (if is_positive max_bytes then or_zero max_bytes ∷ [] else []))

pub data Admission : Type 0 where
  too_large fits : Admission

-- `used > budgetBytes`
abbrev pub over : ℕ → Option ℕ → Bool
over used none = false
over used (some b) = ltb b used

-- `free < floorBytes`
abbrev pub under : Option ℕ → ℕ → Bool
under none floor = false
under (some f) floor = ltb f floor

abbrev pub add_free : Option ℕ → ℕ → Option ℕ
add_free none n = none
add_free (some f) n = some (f + n)

pub admission : ℕ → Option ℕ → Admission
admission size budget_bytes = if over size budget_bytes then too_large else fits

module _ (c : Collation) where
  pub by_age : Item → Item → Bool
  by_age left right =
      if left.deleted_at == right.deleted_at
      then c.le left.id right.id
      else ltb left.deleted_at right.deleted_at

  pub by_modified : Version → Version → Bool
  by_modified left right =
      if left.modified_at == right.modified_at
      then c.le left.id right.id
      else ltb left.modified_at right.modified_at

-- What a first pass over the sorted entries leaves: what goes, what remains, and the free space.
pub record Sweep (A : Type 0) : Type 0 where
  pub purge : List Decision
  pub remaining : List A
  pub free : Option ℕ

abbrev pub is_due : ℕ → ℕ → Item → Bool
is_due now retention_ms e = leb (e.deleted_at + retention_ms) now

-- the loop over the items: what has reached its retention goes, whatever the space
pub sweep_items : ℕ → ℕ → Option ℕ → List Item → Sweep Item
sweep_items now retention_ms free [] = record { purge = []; remaining = []; free = free }
sweep_items now retention_ms free (e ∷ es) =
    let due = is_due now retention_ms e in
    let rest = sweep_items now retention_ms (if due then add_free free e.size else free) es in
    if due
    then record rest { purge = record { id = e.id; reason = expired; early = false } ∷ rest.purge }
    else record rest { remaining = e ∷ rest.remaining }

-- the loop over the versions: those that the caller marked go
pub sweep_versions : Option ℕ → List Version → Sweep Version
sweep_versions free [] = record { purge = []; remaining = []; free = free }
sweep_versions free (v ∷ vs) = elim v.expired [
  | some cause ↦
      let rest = sweep_versions (add_free free v.size) vs in
      record rest { purge = record { id = v.id; reason = cause; early = false } ∷ rest.purge }
  | none ↦ let rest = sweep_versions free vs in record rest { remaining = v ∷ rest.remaining }
]

pub record Plan : Type 0 where
  pub purge : List Decision
  pub used_after : ℕ
  pub free_after : Option ℕ

abbrev pub evicted : String → Bool → Decision
evicted id over_budget = record {
  id = id;
  reason = if over_budget then budget else space;
  early = true;
}

-- the `while` loop of `planMaintenance`, over the items that remain
pub evict_items : Bounds → ℕ → Option ℕ → List Item → Plan
evict_items b used free [] = record { purge = []; used_after = used; free_after = free }
evict_items b used free (e ∷ es) =
    let rest = evict_items b (used - e.size) (add_free free e.size) es in
    if over used b.budget_bytes || under free b.floor_bytes
    then record rest { purge = evicted e.id (over used b.budget_bytes) ∷ rest.purge }
    else record { purge = []; used_after = used; free_after = free }

abbrev pub item_size : Item → ℕ
item_size e = e.size

abbrev pub version_size : Version → ℕ
version_size v = v.size

module _ (c : Collation) where
  pub plan_maintenance : List Item → ℕ → ℕ → Bounds → Option ℕ → Plan
  unfolding by_age sweep_items evict_items
  plan_maintenance items now retention_days b free_bytes =
      let swept = sweep_items now (retention_days * day_ms) free_bytes (sort (by_age c) items) in
      let plan = evict_items b (sum_by item_size swept.remaining) swept.free swept.remaining in
      record plan { purge = swept.purge ++ plan.purge }
