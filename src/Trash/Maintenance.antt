-- ===== src/Trash/Maintenance.antt =====
-- What `planMaintenance` of backend/src/services/trash/policy.js decides.
use next_explorer.Prelude.{
  ℕ, ◌+◌, ◌*◌, ◌≡◌, refl, sym, ap, ap₂, ◌∙◌, ◌≤◌, ◌↔◌, ◌⊎◌, inl, inr, true, false, not, List, [],
  ◌∷◌, ◌++◌, map, Option, arith, sum_by, filter, Bool-cases,
}
use next_explorer.Prelude.Sort.{Collation, sort}
use next_explorer.Trash.{
  Item, Bounds, fits, over, under, add_free, item_size, evict_items, admission, is_due, sweep_items,
  plan_maintenance, by_age, day_ms, budget_for, is_positive, or_zero,
}
use next_explorer.Trash.Least.{
  IsLeast, evict_items-IsLeast, decision_id, item_id, add_free-zero, add_free-add,
}
use mathlib.Core.List.{map-append}

-- The items that a sweep takes and those that it leaves.
abbrev pub due_items : ℕ → ℕ → List Item → List Item
due_items now retention_ms = filter (is_due now retention_ms)

abbrev pub staying_items : ℕ → ℕ → List Item → List Item
staying_items now retention_ms = filter (λ e. not (is_due now retention_ms e))

pub sweep_items_lem :
    (now retention_ms : ℕ) (free : Option ℕ) (items : List Item)
    → let swept = sweep_items now retention_ms free items in
      (map decision_id swept.purge ≡ map item_id (due_items now retention_ms items))
      × (swept.remaining ≡ staying_items now retention_ms items)
      × (swept.free ≡ add_free free (sum_by item_size (due_items now retention_ms items)))
unfolding sweep_items
sweep_items_lem now retention_ms free [] = (refl, refl, sym (add_free-zero free))
sweep_items_lem now retention_ms free (e ∷ es) = elim (Bool-cases (is_due now retention_ms e)) [
  | inl due ↦
      let (ids, left, freed) = sweep_items_lem now retention_ms (add_free free e.size) es in
      rw due (ap (◌∷◌ e.id) ids, left, freed ∙ add_free-add free e.size _)
  | inr early ↦
      let (ids, left, freed) = sweep_items_lem now retention_ms free es in
      rw early (ids, ap (◌∷◌ e) left, freed)
]

-- What has reached its retention goes, all of it and whatever the space; of the rest the oldest go,
-- as few as the bounds allow.
pub plan_maintenance-IsLeast :
    (c : Collation) (items : List Item) (now retention_days : ℕ) (b : Bounds) (free : Option ℕ)
    → let retention_ms = retention_days * day_ms in
      let sorted = sort (by_age c) items in
      let due = due_items now retention_ms sorted in
      let plan = plan_maintenance c items now retention_days b free in
      (taken : List Item) × (kept : List Item) × (staying_items now retention_ms sorted
        ≡ taken ++ kept)
      × (map decision_id plan.purge ≡ map item_id due ++ map item_id taken)
      × IsLeast item_size b
          (add_free free (sum_by item_size due))
          taken
          kept
          plan.used_after
          plan.free_after
unfolding plan_maintenance
plan_maintenance-IsLeast c items now retention_days b free =
    let sorted = sort (by_age c) items in
    let swept = sweep_items now (retention_days * day_ms) free sorted in
    let (ids, left, freed) = sweep_items_lem now (retention_days * day_ms) free sorted in
    let (taken, kept, split, least, gone) =
      evict_items-IsLeast b (sum_by item_size swept.remaining) swept.free swept.remaining refl in
    (taken, kept, sym left ∙ split, map-append _ _ _ ∙ ap₂ ◌++◌ ids gone, rw (← freed) least)

last_taken :
    (before taken kept : List Item) (e : Item)
    → before ++ e ∷ [] ≡ taken ++ kept
    → ((rest : List Item) × (kept ≡ rest ++ e ∷ [])) ⊎ ((kept ≡ []) × (taken ≡ before ++ e ∷ []))
last_taken before [] kept e h = inl (before, sym h)
last_taken [] (t ∷ []) kept e h = ground arith
last_taken [] (t ∷ u ∷ ts) kept e h = ground arith
last_taken (x ∷ before) (t ∷ ts) kept e h = ground (arith, last_taken before ts kept e)

no_pressure :
    (e : Item) (b : Bounds) (free : Option ℕ) (kept older : List Item)
    → admission e.size b.budget_bytes ≡ fits
    → b.floor_bytes ≡ 0
    → kept ≡ []
    → (over (sum_by item_size (e ∷ []) + sum_by item_size kept) b.budget_bytes ≡ true)
      ⊎ (under (add_free free (sum_by item_size older)) b.floor_bytes ≡ true)
    → ⊥
unfolding admission
no_pressure e b free kept older fit no_floor none_kept (inl h) =
    ground (arith, ap (sum_by item_size) none_kept)
no_pressure e b free kept older fit no_floor none_kept (inr h) = ground arith

-- What `admission` lets in fits: older items make room for it, and the loop never gives up the
-- newest item while the volume keeps its floor.
admitted_stays :
    (b : Bounds) (used : ℕ) (free : Option ℕ) (older : List Item) (e : Item)
    → admission e.size b.budget_bytes ≡ fits
    → b.floor_bytes ≡ 0
    → used ≡ sum_by item_size (older ++ e ∷ [])
    → (taken : List Item) × (kept : List Item) × (older ++ e ∷ [] ≡ taken ++ (kept ++ e ∷ []))
      × (map decision_id (evict_items b used free (older ++ e ∷ [])).purge ≡ map item_id taken)
unfolding admission
admitted_stays b used free older e fit no_floor total =
    let (taken, kept, split, least, ids) =
      evict_items-IsLeast b used free (older ++ e ∷ []) total in
    elim (last_taken older taken kept e split) [
      | inl (rest, e_kept) ↦ (taken, rest, split ∙ ap (◌++◌ taken) e_kept, ids)
      | inr (none_kept, all_taken) ↦ absurd (
          no_pressure e b free kept older fit no_floor none_kept
            (least.needed older e [] all_taken))
    ]

-- What a zone holds is within its budget exactly when it is within the configured size, where there
-- is one, and within the configured share of the volume, where that and the volume are known.
within_budget_for_iff :
    (total_bytes max_percent max_bytes : Option ℕ) (used : ℕ)
    → (over used (budget_for total_bytes max_percent max_bytes) ≡ false) ↔ (
        (is_positive max_bytes ≡ true → used ≤ or_zero max_bytes)
        × (is_positive total_bytes ≡ true
            → is_positive max_percent ≡ true
            → used * 100 ≤ or_zero total_bytes * or_zero max_percent))
unfolding budget_for
within_budget_for_iff total_bytes max_percent max_bytes used =
    (λ h. (λ s. ground arith, λ t p. ground arith), λ h. ground (arith, h.0, h.1))
