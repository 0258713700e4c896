-- ===== src/Trash/Zone.antt =====
-- backend/src/services/trash/policy.js, `planZone`: one budget for what was deleted and for earlier
-- versions of files.
pub mod Evictions
pub mod Tiers
pub mod Latest
pub mod Plans
use next_explorer.Prelude.{
  ℕ, ◌+◌, ◌-◌, ◌*◌, Bool, true, false, not, ◌&&◌, ◌||◌, List, [], ◌∷◌, ◌++◌, map, Option, none,
  some, String, if◌then◌else◌, str_eq, filter, sum_by, map_get, map_set,
}
use next_explorer.Prelude.Sort.{Collation, sort}
use next_explorer.Trash.{
  Item, Version, Decision, Bounds, day_ms, over, under, add_free, evicted, by_age, by_modified,
  sweep_items, sweep_versions, item_size, version_size,
}

-- An entry that may be evicted, with the `kind` that the source gives it.
pub data Candidate : Type 0 where
  item : Item → Candidate
  version : Version → Candidate

abbrev pub candidate_size : Candidate → ℕ
candidate_size (item e) = e.size
candidate_size (version v) = v.size

abbrev pub candidate_id : Candidate → String
candidate_id (item e) = e.id
candidate_id (version v) = v.id

pub record ZonePlan : Type 0 where
  pub purge : List Decision
  pub purge_versions : List Decision
  pub used_after : ℕ
  pub free_after : Option ℕ

-- `if (kind === 'item') purge.push(decision); else purgeVersions.push(decision);`, at the front of
-- what the later rounds push
abbrev pub push_decision : Candidate → Decision → ZonePlan → ZonePlan
push_decision (item e) d p = record p { purge = d ∷ p.purge }
push_decision (version v) d p = record p { purge_versions = d ∷ p.purge_versions }

-- the `while` loop of `planZone`
pub evict_zone : Bounds → ℕ → Option ℕ → List Candidate → ZonePlan
evict_zone b used free [] = record {
  purge = [];
  purge_versions = [];
  used_after = used;
  free_after = free;
}
evict_zone b used free (e ∷ es) =
    let rest = evict_zone b (used - candidate_size e) (add_free free (candidate_size e)) es in
    if over used b.budget_bytes || under free b.floor_bytes
    then push_decision e (evicted (candidate_id e) (over used b.budget_bytes)) rest
    else record { purge = []; purge_versions = []; used_after = used; free_after = free }

-- The versions are database rows, whose ids tell them apart: `===` compares by id.
abbrev pub same_version : Option Version → Version → Bool
same_version none v = false
same_version (some latest) v = str_eq latest.id v.id

module _ (c : Collation) where
  -- one round of the loop that fills `latestOf`
  abbrev pub note_latest : List (String × Version) → Version → List (String × Version)
  note_latest m v = elim (map_get v.file_id m) [
    | none ↦ map_set v.file_id v m
    | some latest ↦ if by_modified c v latest then m else map_set v.file_id v m
  ]

  pub latest_of : List (String × Version) → List Version → List (String × Version)
  unfolding by_modified
  latest_of m [] = m
  latest_of m (v ∷ vs) = latest_of (if v.pinned then m else note_latest m v) vs

abbrev pub is_latest : List (String × Version) → Version → Bool
is_latest m v = same_version (map_get v.file_id m) v

abbrev pub is_earlier : List (String × Version) → Version → Bool
is_earlier m v = not v.pinned && not (is_latest m v)

abbrev pub is_pinned : Version → Bool
is_pinned v = v.pinned

-- the order of eviction: earlier versions, deleted items, the latest version of each file, pinned ones
pub candidates : List (String × Version) → List Item → List Version → List Candidate
candidates m items versions =
    map version (filter (is_earlier m) versions)
    ++ (map item items
        ++ (map version (filter (is_latest m) versions) ++ map version (filter is_pinned versions)))

module _ (c : Collation) where
  unfoldable pub plan_zone : List Item → List Version → ℕ → ℕ → Bounds → Option ℕ → ZonePlan
  unfolding by_age by_modified sweep_items sweep_versions latest_of candidates evict_zone
  plan_zone items versions now retention_days b free_bytes =
      let swept = sweep_items now (retention_days * day_ms) free_bytes (sort (by_age c) items) in
      let kept = sweep_versions swept.free (sort (by_modified c) versions) in
      let entries = candidates (latest_of c [] kept.remaining) swept.remaining kept.remaining in
      let used = sum_by item_size swept.remaining + sum_by version_size kept.remaining in
      let plan = evict_zone b used kept.free entries in
      record plan {
        purge = swept.purge ++ plan.purge;
        purge_versions = kept.purge ++ plan.purge_versions;
      }
