-- ===== src/Trash/Least.antt =====
-- What makes an eviction the least one: the independent description that both loops meet.
use next_explorer.Prelude.{
  ℕ, ◌+◌, ◌-◌, ◌≡◌, refl, sym, ap, ◌∙◌, ◌⊎◌, inl, inr, Bool, true, false, ◌||◌, List, [], ◌∷◌, ◌++◌,
  map, Option, none, some, String, arith, sum_by, sum_by-append, Bool-cases,
}
use next_explorer.Trash.{Item, Bounds, Decision, over, under, add_free, item_size, evict_items}

-- The oldest entries, `taken`, are given up and `kept` stays, of which the sums are what the plan
-- reports; the bounds are met unless nothing is left; and each entry that goes did so while what was
-- then held broke a bound.
pub record IsLeast {A : Type 0} (size : A → ℕ) (b : Bounds) (free : Option ℕ) (taken kept : List A)
    (used_after : ℕ) (free_after : Option ℕ) : Type 0 where
  pub used : used_after ≡ sum_by size kept
  pub freed : free_after ≡ add_free free (sum_by size taken)
  pub met :
      (kept ≡ [])
      ⊎ ((over used_after b.budget_bytes ≡ false) × (under free_after b.floor_bytes ≡ false))
  pub needed :
      (before : List A) (e : A) (after : List A)
      → taken ≡ before ++ e ∷ after
      → (over (sum_by size (e ∷ after) + sum_by size kept) b.budget_bytes ≡ true)
        ⊎ (under (add_free free (sum_by size before)) b.floor_bytes ≡ true)

pub add_free-zero : (free : Option ℕ) → add_free free 0 ≡ free
add_free-zero none = refl
add_free-zero (some f) = ground arith

pub add_free-add :
    (free : Option ℕ) (m n : ℕ) → add_free (add_free free m) n ≡ add_free free (m + n)
add_free-add none m n = refl
add_free-add (some f) m n = ground arith

not_nil : {A : Type 0} (before : List A) (e : A) (after : List A) → [] ≡ before ++ e ∷ after → ⊥
not_nil [] e after h = cc
not_nil (x ∷ before) e after h = cc

pub cons_injective : {A : Type 0} {x y : A} {xs ys : List A} → x ∷ xs ≡ y ∷ ys → (x ≡ y) × (xs ≡ ys)
cons_injective h = (cc, cc)

or_true : (p q : Bool) → (p || q) ≡ true → (p ≡ true) ⊎ (q ≡ true)
or_true true q h = inl refl
or_true false q h = inr h

module _ {A : Type 0} (size : A → ℕ) (b : Bounds) (free : Option ℕ) where
  -- The loop stops: it has met the bounds, or nothing is left.
  pub IsLeast-stop :
      (entries : List A) (used : ℕ)
      → used ≡ sum_by size entries
      → ((entries ≡ []) ⊎ ((over used b.budget_bytes ≡ false) × (under free b.floor_bytes ≡ false)))
      → IsLeast size b free [] entries used free
  IsLeast-stop entries used total met = record {
    used = total;
    freed = sym (add_free-zero free);
    met = met;
    needed = λ before e after h. absurd (not_nil before e after h);
  }

  -- A round under pressure: the first entry goes, and the rest is as the later rounds leave it.
  pub IsLeast-step :
      (e : A) (taken kept : List A) (used used_after : ℕ) (free_after : Option ℕ)
      → used ≡ size e + sum_by size (taken ++ kept)
      → (over used b.budget_bytes || under free b.floor_bytes) ≡ true
      → IsLeast size b (add_free free (size e)) taken kept used_after free_after
      → IsLeast size b free (e ∷ taken) kept used_after free_after
  IsLeast-step e taken kept used used_after free_after total pressed rest = record {
    used = rest.used;
    freed = rest.freed ∙ add_free-add free (size e) (sum_by size taken);
    met = rest.met;
    needed = justify;
  }
    where
      total_here : used ≡ sum_by size (e ∷ taken) + sum_by size kept
      total_here = omega (arith, sum_by-append size taken kept, total)

      here :
          (over (sum_by size (e ∷ taken) + sum_by size kept) b.budget_bytes ≡ true)
          ⊎ (under (add_free free 0) b.floor_bytes ≡ true)
      here = rw (← total_here, add_free-zero free) (or_true _ _ pressed)

      justify :
          (before : List A) (x : A) (after : List A)
          → e ∷ taken ≡ before ++ x ∷ after
          → (over (sum_by size (x ∷ after) + sum_by size kept) b.budget_bytes ≡ true)
            ⊎ (under (add_free free (sum_by size before)) b.floor_bytes ≡ true)
      justify [] x after h =
          let (same, rest_same) = cons_injective h in rw (← same, ← rest_same) here
      justify (y ∷ before) x after h =
          let (same, rest_same) = cons_injective h in
          rw (← same, ← add_free-add free (size e) (sum_by size before))
            (rest.needed before x after rest_same)

abbrev pub decision_id : Decision → String
decision_id d = d.id

abbrev pub item_id : Item → String
item_id e = e.id

-- What the eviction loop of `planMaintenance` does, with the items that it names.
pub evict_items-IsLeast :
    (b : Bounds) (used : ℕ) (free : Option ℕ) (entries : List Item)
    → used ≡ sum_by item_size entries
    → let plan = evict_items b used free entries in
      (taken : List Item) × (kept : List Item) × (entries ≡ taken ++ kept)
      × IsLeast item_size b free taken kept plan.used_after plan.free_after
      × (map decision_id plan.purge ≡ map item_id taken)
unfolding evict_items
evict_items-IsLeast b used free [] h =
    ([], [], refl, IsLeast-stop item_size b free [] used h (inl refl), refl)
evict_items-IsLeast b used free (e ∷ es) h =
    let (taken, kept, split, rest, ids) =
      evict_items-IsLeast b (used - e.size) (add_free free e.size) es (omega arith) in
    elim (Bool-cases (over used b.budget_bytes || under free b.floor_bytes)) [
      | inl pressed ↦ rw pressed (
        e ∷ taken,
        kept,
        ap (◌∷◌ e) split,
        IsLeast-step item_size b free e taken kept used _ _
            (omega (arith, ap (sum_by item_size) split)) pressed rest,
        ap (◌∷◌ e.id) ids,
      )
      | inr calm ↦ rw calm (
        [],
        e ∷ es,
        refl,
        IsLeast-stop item_size b free (e ∷ es) used h (inr (ground arith)),
        refl,
      )
    ]
