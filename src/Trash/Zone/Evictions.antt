-- ===== src/Trash/Zone/Evictions.antt =====
-- What `planZone` of backend/src/services/trash/policy.js decides.
use next_explorer.Prelude.{
  ℕ, ◌-◌, ◌≡◌, refl, sym, ap, inl, inr, Bool, true, false, not, ◌||◌, List, [], ◌∷◌, ◌++◌, map,
  Option, none, some, String, arith, sum_by, filter, Bool-cases,
}
use next_explorer.Trash.{
  Item, Version, Bounds, over, under, add_free, version_size, sweep_versions, evicted,
}
use next_explorer.Trash.Zone.{
  Candidate, item, version, candidate_size, candidate_id, ZonePlan, push_decision, evict_zone,
}
use next_explorer.Trash.Least.{
  IsLeast, IsLeast-stop, IsLeast-step, decision_id, item_id, add_free-zero, add_free-add,
}

abbrev pub version_id : Version → String
version_id v = v.id

-- The items and the versions among some candidates, in their order.
abbrev pub items_of : List Candidate → List Item
items_of [] = []
items_of (item e ∷ es) = e ∷ items_of es
items_of (version v ∷ es) = items_of es

abbrev pub versions_of : List Candidate → List Version
versions_of [] = []
versions_of (item e ∷ es) = versions_of es
versions_of (version v ∷ es) = v ∷ versions_of es

abbrev pub Evicts : Bounds → Option ℕ → List Candidate → ZonePlan → Type 0
Evicts b free entries plan =
    (taken : List Candidate) × (kept : List Candidate) × (entries ≡ taken ++ kept)
    × IsLeast candidate_size b free taken kept plan.used_after plan.free_after
    × (map decision_id plan.purge ≡ map item_id (items_of taken))
    × (map decision_id plan.purge_versions ≡ map version_id (versions_of taken))

-- A round under pressure, for either kind of candidate.
pressed_round :
    (b : Bounds) (used : ℕ) (free : Option ℕ) (e : Candidate) (es : List Candidate) (o : Bool)
    (rest : ZonePlan)
    → used ≡ sum_by candidate_size (e ∷ es)
    → (over used b.budget_bytes || under free b.floor_bytes) ≡ true
    → Evicts b (add_free free (candidate_size e)) es rest
    → Evicts b free (e ∷ es) (push_decision e (evicted (candidate_id e) o) rest)
pressed_round b used free (item e) es o rest h pressed
      (taken, kept, split, least, items, versions) =
    (
      item e ∷ taken,
      kept,
      ap (◌∷◌ (item e)) split,
      IsLeast-step candidate_size b free (item e) taken kept used _ _
          (omega (arith, ap (sum_by candidate_size) split)) pressed least,
      ap (◌∷◌ e.id) items,
      versions,
    )
pressed_round b used free (version v) es o rest h pressed
      (taken, kept, split, least, items, versions) =
    (
      version v ∷ taken,
      kept,
      ap (◌∷◌ (version v)) split,
      IsLeast-step candidate_size b free (version v) taken kept used _ _
          (omega (arith, ap (sum_by candidate_size) split)) pressed least,
      items,
      ap (◌∷◌ v.id) versions,
    )

pub evict_zone-Evicts :
    (b : Bounds) (used : ℕ) (free : Option ℕ) (entries : List Candidate)
    → used ≡ sum_by candidate_size entries
    → Evicts b free entries (evict_zone b used free entries)
unfolding evict_zone
evict_zone-Evicts b used free [] h =
    ([], [], refl, IsLeast-stop candidate_size b free [] used h (inl refl), refl, refl)
evict_zone-Evicts b used free (e ∷ es) h =
    elim (Bool-cases (over used b.budget_bytes || under free b.floor_bytes)) [
      | inl pressed ↦ rw pressed (
          pressed_round b used free e es (over used b.budget_bytes) _ h pressed (
            evict_zone-Evicts b (used - candidate_size e) (add_free free (candidate_size e)) es
              (omega arith)))
      | inr calm ↦ rw calm (
        [],
        e ∷ es,
        refl,
        IsLeast-stop candidate_size b free (e ∷ es) used h (inr (ground arith)),
        refl,
        refl,
      )
    ]

-- The versions that the caller did not mark, and those that it did.
abbrev pub is_marked : Version → Bool
is_marked v = elim v.expired [ none ↦ false | some cause ↦ true ]

abbrev pub marked_versions : List Version → List Version
marked_versions = filter is_marked

abbrev pub unmarked_versions : List Version → List Version
unmarked_versions = filter (λ v. not (is_marked v))

pub sweep_versions_lem :
    (free : Option ℕ) (versions : List Version)
    → let swept = sweep_versions free versions in
      (map decision_id swept.purge ≡ map version_id (marked_versions versions))
      × (swept.remaining ≡ unmarked_versions versions)
      × (swept.free ≡ add_free free (sum_by version_size (marked_versions versions)))
unfolding sweep_versions
sweep_versions_lem free [] = (refl, refl, sym (add_free-zero free))
sweep_versions_lem free (v ∷ vs) = ground (
  arith,
  sweep_versions_lem free vs,
  sweep_versions_lem (add_free free v.size) vs,
  add_free-add free v.size (sum_by version_size (marked_versions vs)),
)
