-- ===== src/Trash/Zone/Plans.antt =====
-- The whole of `planZone` of backend/src/services/trash/policy.js, and `planMaintenance` as its case
-- with no versions.
use mathlib.Core.List.{Perm, map-append, append-nil}
use native.Mathlib.Nat.{add-zero}
use next_explorer.Prelude.{
  ℕ, ◌+◌, ◌-◌, ◌*◌, ◌≡◌, refl, sym, ap, ap₂, ◌∙◌, ◌≤◌, ◌≢◌, true, false, List, [], ◌∷◌, ◌++◌, map,
  Option, some, String, arith, if◌then◌else◌, sum_by, sum_by-append, All, All-filter, Option-cases,
  inl, inr, map_get, map_set, eq_iff,
}
use next_explorer.Prelude.Sort.{Collation, sort, All-sort, sum_by-perm}
use next_explorer.Trash.{
  Item, Version, Bounds, day_ms, add_free, by_age, by_modified, item_size, version_size,
  sweep_items, sweep_versions, evict_items, plan_maintenance,
}
use next_explorer.Trash.Zone.{
  Candidate, item, version, candidate_size, candidates, evict_zone, latest_of, note_latest,
  plan_zone, is_latest,
}
use next_explorer.Trash.Least.{IsLeast, decision_id, item_id}
use next_explorer.Trash.Maintenance.{due_items, staying_items, sweep_items_lem}
use next_explorer.Trash.Zone.Latest.{FindsLatest, latest_of-FindsLatest}
use next_explorer.Trash.Zone.Evictions.{
  items_of, versions_of, version_id, marked_versions, unmarked_versions, sweep_versions_lem,
  evict_zone-Evicts,
}
use next_explorer.Trash.Zone.Tiers.{
  tier, PinsApart, candidates-InTiers, InTiers-split, candidates-perm,
}

-- Versions that share an id are pinned alike; so it is where ids are unique.
abbrev pub IdsTellPins : List Version → Type 0
IdsTellPins versions = All (λ v. All (λ w. v.id ≡ w.id → v.pinned ≡ w.pinned) versions) versions

module _ (P : Version → Type 0) where
  abbrev AllValues : List (String × Version) → Type 0
  AllValues m = All (λ kv. P kv.1) m

  AllValues-set :
      (k : String) (v : Version) (m : List (String × Version))
      → P v
      → AllValues m
      → AllValues (map_set k v m)
  AllValues-set k v [] p h = (p, tt)
  AllValues-set k v ((j, w) ∷ m) p h = ground (arith, AllValues-set k v m p h.1)

  AllValues-get :
      (k : String) (m : List (String × Version)) (w : Version)
      → AllValues m
      → map_get k m ≡ some w
      → P w
  AllValues-get k [] w h e = cc
  AllValues-get k ((j, v) ∷ m) w h e = ground (arith, AllValues-get k m w h.1)

  -- Only versions that are not pinned are ever the latest of a file.
  latest_of-AllValues :
      (c : Collation) (m : List (String × Version)) (vs : List Version)
      → AllValues m
      → All (λ v. v.pinned ≡ false → P v) vs
      → AllValues (latest_of c m vs)
  unfolding latest_of
  latest_of-AllValues c m [] h k = h
  latest_of-AllValues c m (v ∷ vs) h k =
      latest_of-AllValues c (if v.pinned then m else note_latest c m v) vs
        (ground (arith, k.0, AllValues-set v.file_id v m)) k.1

-- Nothing pinned has the id of `w`.
abbrev IsUnlikePins : List Version → Version → Type 0
IsUnlikePins vs w = All (λ v. v.pinned ≡ true → w.id ≢ v.id) vs

unlike_pins :
    (w : Version) (vs : List Version)
    → All (λ v. w.id ≡ v.id → w.pinned ≡ v.pinned) vs
    → w.pinned ≡ false
    → IsUnlikePins vs w
unlike_pins w [] h f = tt
unlike_pins w (v ∷ vs) h f = ((λ p e. cc (h.0 e)), unlike_pins w vs h.1 f)

All-IsUnlikePins :
    (all vs : List Version)
    → All (λ v. All (λ w. v.id ≡ w.id → v.pinned ≡ w.pinned) all) vs
    → All (λ w. w.pinned ≡ false → IsUnlikePins all w) vs
All-IsUnlikePins all [] h = tt
All-IsUnlikePins all (v ∷ vs) h = (unlike_pins v all h.0, All-IsUnlikePins all vs h.1)

abbrev GetsUnlike : List (String × Version) → Version → Type 0
GetsUnlike m v = (w : Version) → map_get v.file_id m ≡ some w → w.id ≢ v.id

apart_of_unlike :
    (m : List (String × Version)) (vs : List Version)
    → ((k : String) (w : Version) → map_get k m ≡ some w → IsUnlikePins vs w)
    → PinsApart m vs
apart_of_unlike m [] h = tt
apart_of_unlike m (v ∷ vs) h = (here, apart_of_unlike m vs (λ k w e. (h k w e).1))
  where
    here : v.pinned ≡ true → is_latest m v ≡ false
    here p = elim (Option-cases (map_get v.file_id m)) [
      | inl e ↦ rw e
      | inr (w, e) ↦ rw e (ground (arith, eq_iff w.id v.id, (h v.file_id w e).0 p))
    ]

latest_of-PinsApart :
    (c : Collation) (vs : List Version) → IdsTellPins vs → PinsApart (latest_of c [] vs) vs
latest_of-PinsApart c vs tell = apart_of_unlike (latest_of c [] vs) vs λ k w e.
    AllValues-get (IsUnlikePins vs) k (latest_of c [] vs) w
      (latest_of-AllValues (IsUnlikePins vs) c [] vs tt (All-IsUnlikePins vs vs tell)) e

-- The property passes to what sorting and sweeping leave.
IdsTellPins-kept :
    (c : Collation) (vs : List Version)
    → IdsTellPins vs
    → IdsTellPins (unmarked_versions (sort (by_modified c) vs))
IdsTellPins-kept c vs tell =
    let kept = unmarked_versions (sort (by_modified c) vs) in
    inner vs kept (
      All-filter (λ v. All (λ w. v.id ≡ w.id → v.pinned ≡ w.pinned) vs) _ _
        (All-sort (by_modified c) (λ v. All (λ w. v.id ≡ w.id → v.pinned ≡ w.pinned) vs) vs tell))
  where
    inner :
        (vs us : List Version)
        → All (λ v. All (λ w. v.id ≡ w.id → v.pinned ≡ w.pinned) vs) us
        → All
            (λ v.
              All
                (λ w. v.id ≡ w.id → v.pinned ≡ w.pinned)
                (unmarked_versions (sort (by_modified c) vs)))
            us
    inner vs [] h = tt
    inner vs (u ∷ us) h = (
      All-filter (λ w. u.id ≡ w.id → u.pinned ≡ w.pinned) _ _
          (All-sort (by_modified c) (λ w. u.id ≡ w.id → u.pinned ≡ w.pinned) vs h.0),
      inner vs us h.1,
    )

sum_by-map_item : (es : List Item) → sum_by candidate_size (map item es) ≡ sum_by item_size es
sum_by-map_item [] = refl
sum_by-map_item (e ∷ es) = omega (arith, sum_by-map_item es)

sum_by-map_version :
    (vs : List Version) → sum_by candidate_size (map version vs) ≡ sum_by version_size vs
sum_by-map_version [] = refl
sum_by-map_version (v ∷ vs) = omega (arith, sum_by-map_version vs)

sum_by-candidates :
    (m : List (String × Version)) (items : List Item) (vs : List Version)
    → PinsApart m vs
    → sum_by candidate_size (candidates m items vs)
      ≡ sum_by item_size items + sum_by version_size vs
sum_by-candidates m items vs apart = omega (
  arith,
  sum_by-perm candidate_size (candidates-perm m items vs apart),
  sum_by-append candidate_size (map item items) (map version vs),
  sum_by-map_item items,
  sum_by-map_version vs,
)

-- Where versions that share an id are pinned alike, the items that are due and the marked versions
-- go. Of the rest as few go as the bounds allow, and in the documented order: earlier versions, items,
-- the latest version of each file, pinned versions; where the latest of a file is one of its versions
-- that are stored and not pinned than which none of those was modified later.
pub plan_zone-IsLeast :
    (c : Collation) (items : List Item) (versions : List Version) (now retention_days : ℕ)
    (b : Bounds) (free : Option ℕ)
    → IdsTellPins versions
    → let aged = sort (by_age c) items in
      let listed = sort (by_modified c) versions in
      let due = due_items now (retention_days * day_ms) aged in
      let staying = staying_items now (retention_days * day_ms) aged in
      let stored = unmarked_versions listed in
      let plan = plan_zone c items versions now retention_days b free in
      (m : List (String × Version)) × FindsLatest c stored m stored
      × (taken : List Candidate) × (kept : List Candidate) × Perm
          (taken ++ kept)
          (map item staying ++ map version stored)
      × All (λ e. All (λ f. tier m e ≤ tier m f) kept) taken
      × (map decision_id plan.purge ≡ map item_id due ++ map item_id (items_of taken))
      × (map decision_id plan.purge_versions
          ≡ map version_id (marked_versions listed) ++ map version_id (versions_of taken))
      × IsLeast candidate_size b
          (add_free
            (add_free free (sum_by item_size due))
            (sum_by version_size (marked_versions listed)))
          taken
          kept
          plan.used_after
          plan.free_after
unfolding plan_zone
plan_zone-IsLeast c items versions now retention_days b free tell =
    let aged = sort (by_age c) items in
    let listed = sort (by_modified c) versions in
    let ms = retention_days * day_ms in
    let swept = sweep_items now ms free aged in
    let left = sweep_versions swept.free listed in
    let (ids, staying, freed) = sweep_items_lem now ms free aged in
    let (version_ids, stored, version_freed) = sweep_versions_lem swept.free listed in
    let apart : PinsApart (latest_of c [] left.remaining) left.remaining =
      rw stored (latest_of-PinsApart c _ (IdsTellPins-kept c versions tell)) in
    let m = latest_of c [] left.remaining in
    let (taken, kept, split, least, items_gone, versions_gone) =
      evict_zone-Evicts b (sum_by item_size swept.remaining + sum_by version_size left.remaining)
        left.free (candidates m swept.remaining left.remaining)
        (sym (sum_by-candidates m swept.remaining left.remaining apart)) in
    (
      m,
      rw (← stored) (latest_of-FindsLatest c left.remaining left.remaining),
      taken,
      kept,
      rw (← split, ← staying, ← stored) (candidates-perm m swept.remaining left.remaining apart),
      InTiers-split m taken kept
          (rw (← split) (candidates-InTiers m swept.remaining left.remaining apart)),
      map-append _ _ _ ∙ ap₂ ◌++◌ ids items_gone,
      map-append _ _ _ ∙ ap₂ ◌++◌ version_ids versions_gone,
      rw (← freed, ← version_freed) least,
    )

-- With items alone the loop of `planZone` makes the decisions of the loop of `planMaintenance`.
evict_zone-evict_items :
    (b : Bounds) (used : ℕ) (free : Option ℕ) (items : List Item)
    → let zone = evict_zone b used free (map item items) in
      let plan = evict_items b used free items in
      (zone.purge ≡ plan.purge)
      × (zone.purge_versions ≡ [])
      × (zone.used_after ≡ plan.used_after)
      × (zone.free_after ≡ plan.free_after)
unfolding evict_zone evict_items
evict_zone-evict_items b used free [] = (refl, refl, refl, refl)
evict_zone-evict_items b used free (e ∷ es) =
    ground (arith, evict_zone-evict_items b (used - e.size) (add_free free e.size) es)

-- A zone with no versions is planned as the trash alone is.
plan_zone-no_versions :
    (c : Collation) (items : List Item) (now retention_days : ℕ) (b : Bounds) (free : Option ℕ)
    → let zone = plan_zone c items [] now retention_days b free in
      let plan = plan_maintenance c items now retention_days b free in
      (zone.purge ≡ plan.purge)
      × (zone.purge_versions ≡ [])
      × (zone.used_after ≡ plan.used_after)
      × (zone.free_after ≡ plan.free_after)
unfolding plan_zone plan_maintenance candidates latest_of sweep_versions
plan_zone-no_versions c items now retention_days b free =
    let swept = sweep_items now (retention_days * day_ms) free (sort (by_age c) items) in
    let used = sum_by item_size swept.remaining in
    rw (append-nil (map item swept.remaining), add-zero used)
      (let (purge, purge_versions, used_after, free_after) =
          evict_zone-evict_items b used swept.free swept.remaining in
        (ap (◌++◌ swept.purge) purge, purge_versions, used_after, free_after))
