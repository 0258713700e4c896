-- ===== src/Trash/Examples.antt =====
-- The trash policy at concrete zones.
use mathlib.Core.List.{Perm}
use next_explorer.Prelude.{
  ◌*◌, ◌≡◌, ◌≤◌, refl, ◌⊎◌, true, false, List, [], ◌∷◌, ◌++◌, map, none, some, arith, length, codes,
  leb, String, All, sum_by, eq_iff,
}
use next_explorer.Prelude.Sort.{Collation, sort}
use next_explorer.Trash.{
  Item, Version, Bounds, thinned, day_ms, by_age, by_modified, item_size, version_size, add_free,
  plan_maintenance,
}
use next_explorer.Trash.Zone.Latest.{FindsLatest}
use next_explorer.Trash.Zone.{Candidate, item, version, candidate_size, plan_zone}
use next_explorer.Trash.Least.{IsLeast, decision_id, item_id}
use next_explorer.Trash.Maintenance.{due_items, staying_items, plan_maintenance-IsLeast}
use next_explorer.Trash.Zone.Evictions.{
  items_of, versions_of, version_id, marked_versions, unmarked_versions,
}
use next_explorer.Trash.Zone.Tiers.{tier}
use next_explorer.Trash.Zone.Plans.{IdsTellPins, plan_zone-IsLeast}

by_length_total :
    (a b : String)
    → (leb (length (codes a)) (length (codes b)) ≡ true)
      ⊎ (leb (length (codes b)) (length (codes a)) ≡ true)
by_length_total a b = ground arith

by_length_trans :
    (a b c : String)
    → leb (length (codes a)) (length (codes b)) ≡ true
    → leb (length (codes b)) (length (codes c)) ≡ true
    → leb (length (codes a)) (length (codes c)) ≡ true
by_length_trans a b c h k = ground arith

-- A collation that orders texts by their length.
abbrev by_length : Collation
by_length = record {
  le = λ a b. leb (length (codes a)) (length (codes b));
  total = by_length_total;
  trans = by_length_trans;
}

abbrev old_item : Item
old_item = record { id = "old"; size = 5; deleted_at = 0 }

abbrev big_item : Item
big_item = record { id = "big"; size = 8; deleted_at = 3 * day_ms }

abbrev new_item : Item
new_item = record { id = "new"; size = 3; deleted_at = 4 * day_ms }

abbrev trash : List Item
trash = new_item ∷ old_item ∷ big_item ∷ []

abbrev ten_bytes : Bounds
ten_bytes = record { budget_bytes = some 10; floor_bytes = 0 }

abbrev draft : Version
draft = record {
  id = "v1";
  size = 4;
  modified_at = 1;
  file_id = "f";
  pinned = false;
  expired = none;
}

abbrev final : Version
final = record {
  id = "v2";
  size = 4;
  modified_at = 2;
  file_id = "f";
  pinned = false;
  expired = none;
}

abbrev keepsake : Version
keepsake = record {
  id = "v3";
  size = 4;
  modified_at = 0;
  file_id = "f";
  pinned = true;
  expired = none;
}

abbrev stale : Version
stale = record {
  id = "v4";
  size = 4;
  modified_at = 0;
  file_id = "f";
  pinned = false;
  expired = some thinned;
}

abbrev history : List Version
history = final ∷ keepsake ∷ stale ∷ draft ∷ []

-- The overdue item goes, and one more to come within ten bytes.
runs :
    map decision_id (plan_maintenance by_length trash (5 * day_ms) 4 ten_bytes none).purge
    ≡ "old" ∷ "big" ∷ []
unfolding plan_maintenance
runs = refl

-- Under a budget of ten bytes the draft goes first, then the items; the file's latest version and the
-- pinned one stay.
runs_zone :
    let plan = plan_zone by_length trash history (5 * day_ms) 4 ten_bytes none in
    (map decision_id plan.purge_versions ≡ "v4" ∷ "v1" ∷ [])
    × (map decision_id plan.purge ≡ "old" ∷ "big" ∷ "new" ∷ [])
unfolding plan_zone
runs_zone = (refl, refl)

plan_maintenance-IsLeast_example :
    let plan = plan_maintenance by_length trash (5 * day_ms) 4 ten_bytes (some 100) in
    (taken : List Item) × (kept : List Item) × (staying_items
        (5 * day_ms)
        (4 * day_ms)
        (sort (by_age by_length) trash)
      ≡ taken ++ kept)
    × (map decision_id plan.purge
        ≡ map item_id (due_items (5 * day_ms) (4 * day_ms) (sort (by_age by_length) trash))
          ++ map item_id taken)
    × IsLeast item_size ten_bytes
        (add_free
          (some 100)
          (sum_by item_size (due_items (5 * day_ms) (4 * day_ms) (sort (by_age by_length) trash))))
        taken
        kept
        plan.used_after
        plan.free_after
plan_maintenance-IsLeast_example =
    plan_maintenance-IsLeast by_length trash (5 * day_ms) 4 ten_bytes (some 100)

history-IdsTellPins : IdsTellPins history
history-IdsTellPins = ground (
  arith,
  eq_iff "v2" "v3",
  eq_iff "v3" "v2",
  eq_iff "v4" "v3",
  eq_iff "v3" "v4",
  eq_iff "v1" "v3",
  eq_iff "v3" "v1",
)

plan_zone-IsLeast_example :
    let aged = sort (by_age by_length) trash in
    let listed = sort (by_modified by_length) history in
    let due = due_items (5 * day_ms) (4 * day_ms) aged in
    let stored = unmarked_versions listed in
    let plan = plan_zone by_length trash history (5 * day_ms) 4 ten_bytes none in
    (m : List (String × Version)) × FindsLatest by_length stored m stored
    × (taken : List Candidate) × (kept : List Candidate) × Perm
        (taken ++ kept)
        (map item (staying_items (5 * day_ms) (4 * day_ms) aged) ++ map version stored)
    × All (λ e. All (λ f. tier m e ≤ tier m f) kept) taken
    × (map decision_id plan.purge ≡ map item_id due ++ map item_id (items_of taken))
    × (map decision_id plan.purge_versions
        ≡ map version_id (marked_versions listed) ++ map version_id (versions_of taken))
    × IsLeast candidate_size ten_bytes
        (add_free
          (add_free none (sum_by item_size due))
          (sum_by version_size (marked_versions listed)))
        taken
        kept
        plan.used_after
        plan.free_after
plan_zone-IsLeast_example =
    plan_zone-IsLeast by_length trash history (5 * day_ms) 4 ten_bytes none history-IdsTellPins
