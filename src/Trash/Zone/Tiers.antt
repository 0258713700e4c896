-- ===== src/Trash/Zone/Tiers.antt =====
-- The order in which `planZone` of backend/src/services/trash/policy.js offers entries for eviction.
use mathlib.Core.List.{perm_middle, Perm, append-nil}
use mathlib.Core.List.Perm
use next_explorer.Prelude.{
  ℕ, ◌≡◌, refl, subst, ◌≤◌, true, false, List, [], ◌∷◌, ◌++◌, map, String, arith, if◌then◌else◌,
  filter, All, All-append,
}
use next_explorer.Trash.{Item, Version}
use next_explorer.Trash.Zone.{
  Candidate, item, version, candidates, is_latest, is_earlier, is_pinned,
}

-- Which step of the documented order an entry belongs to.
abbrev pub tier : List (String × Version) → Candidate → ℕ
tier m (item e) = 1
tier m (version v) = if v.pinned then 3 else if is_latest m v then 2 else 0

-- No pinned version is mistaken for the latest of its file.
abbrev pub PinsApart : List (String × Version) → List Version → Type 0
PinsApart m versions = All (λ v. v.pinned ≡ true → is_latest m v ≡ false) versions

-- Entries whose tiers never fall.
abbrev pub InTiers : List (String × Version) → List Candidate → Type 0
InTiers m [] = Unit
InTiers m (e ∷ es) = All (λ f. tier m e ≤ tier m f) es × InTiers m es

to_front {ℓ} :
    {A : Type ℓ} (e : A) (xs ys zs : List A) → Perm (xs ++ (ys ++ e ∷ zs)) (e ∷ (xs ++ (ys ++ zs)))
to_front e xs ys zs =
    Perm.trans (Perm.append_left xs (perm_middle ys zs)) (perm_middle xs (ys ++ zs))

module _ (m : List (String × Version)) where
  InTiers-block :
      (k : ℕ) (xs ys : List Candidate)
      → All (λ e. tier m e ≡ k) xs
      → All (λ e. k ≤ tier m e) ys
      → InTiers m ys
      → InTiers m (xs ++ ys)
  InTiers-block k [] ys same above h = h
  InTiers-block k (x ∷ xs) ys same above h = (
    All-append (λ f. tier m x ≤ tier m f) xs ys (same_tier xs same.1) (above_tier ys above),
    InTiers-block k xs ys same.1 above h,
  )
    where
      same_tier :
          (es : List Candidate) → All (λ e. tier m e ≡ k) es → All (λ f. tier m x ≤ tier m f) es
      same_tier [] h = tt
      same_tier (e ∷ es) h = (omega (arith, h.0, same.0), same_tier es h.1)

      above_tier :
          (es : List Candidate) → All (λ e. k ≤ tier m e) es → All (λ f. tier m x ≤ tier m f) es
      above_tier [] h = tt
      above_tier (e ∷ es) h = (omega (arith, h.0, same.0), above_tier es h.1)

  weaken_tier :
      (j k : ℕ) (es : List Candidate)
      → j ≤ k
      → All (λ e. tier m e ≡ k) es
      → All (λ e. j ≤ tier m e) es
  weaken_tier j k [] h same = tt
  weaken_tier j k (e ∷ es) h same = (omega (arith, same.0), weaken_tier j k es h same.1)

  earlier_tier :
      (vs : List Version) → All (λ e. tier m e ≡ 0) (map version (filter (is_earlier m) vs))
  earlier_tier [] = tt
  earlier_tier (v ∷ vs) = ground (arith, earlier_tier vs)

  item_tier : (es : List Item) → All (λ e. tier m e ≡ 1) (map item es)
  item_tier [] = tt
  item_tier (e ∷ es) = (refl, item_tier es)

  latest_tier :
      (vs : List Version)
      → PinsApart m vs
      → All (λ e. tier m e ≡ 2) (map version (filter (is_latest m) vs))
  latest_tier [] h = tt
  latest_tier (v ∷ vs) h = ground (arith, latest_tier vs h.1, h.0)

  pinned_tier : (vs : List Version) → All (λ e. tier m e ≡ 3) (map version (filter is_pinned vs))
  pinned_tier [] = tt
  pinned_tier (v ∷ vs) = ground (arith, pinned_tier vs)

  -- The candidates come in the documented order.
  pub candidates-InTiers :
      (items : List Item) (vs : List Version) → PinsApart m vs → InTiers m (candidates m items vs)
  unfolding candidates
  candidates-InTiers items vs apart =
      let pinned = map version (filter is_pinned vs) in
      let latest = map version (filter (is_latest m) vs) in
      let fourth : InTiers m pinned =
        subst (InTiers m) (append-nil pinned) (InTiers-block 3 pinned [] (pinned_tier vs) tt tt) in
      let third =
        InTiers-block 2 latest pinned (latest_tier vs apart)
          (weaken_tier 2 3 pinned (omega arith) (pinned_tier vs)) fourth in
      let above : All (λ e. 1 ≤ tier m e) (latest ++ pinned) =
        All-append (λ e. 1 ≤ tier m e) latest pinned
          (weaken_tier 1 2 latest (omega arith) (latest_tier vs apart))
          (weaken_tier 1 3 pinned (omega arith) (pinned_tier vs)) in
      let second =
        InTiers-block 1 (map item items) (latest ++ pinned) (item_tier items) above third in
      InTiers-block 0 (map version (filter (is_earlier m) vs))
        (map item items ++ (latest ++ pinned)) (earlier_tier vs)
        (all_above_zero (map item items ++ (latest ++ pinned))) second
    where
      all_above_zero : (es : List Candidate) → All (λ e. 0 ≤ tier m e) es
      all_above_zero [] = tt
      all_above_zero (e ∷ es) = (omega arith, all_above_zero es)

  -- Of two parts of such a list, nothing in the first is in a later tier than anything in the second.
  pub InTiers-split :
      (taken kept : List Candidate)
      → InTiers m (taken ++ kept)
      → All (λ e. All (λ f. tier m e ≤ tier m f) kept) taken
  InTiers-split [] kept h = tt
  InTiers-split (e ∷ es) kept h = (later es h.0, InTiers-split es kept h.1)
    where
      later :
          (es : List Candidate)
          → All (λ f. tier m e ≤ tier m f) (es ++ kept)
          → All (λ f. tier m e ≤ tier m f) kept
      later [] h = h
      later (x ∷ xs) h = later xs h.1

  -- Each entry is a candidate exactly once.
  pub candidates-perm :
      (items : List Item) (vs : List Version)
      → PinsApart m vs
      → Perm (candidates m items vs) (map item items ++ map version vs)
  unfolding candidates
  candidates-perm items [] apart = Perm.refl _
  candidates-perm items (v ∷ vs) apart =
      let earlier = map version (filter (is_earlier m) vs) in
      let latest = map version (filter (is_latest m) vs) in
      let pinned = map version (filter is_pinned vs) in
      let items' = map item items in
      let rest =
        Perm.trans (Perm.cons (version v) (candidates-perm items vs apart.1))
          (Perm.symm (perm_middle items' (map version vs))) in
      let as_latest = Perm.trans (to_front (version v) earlier items' (latest ++ pinned)) rest in
      let as_pinned =
        Perm.trans (Perm.append_left earlier (Perm.append_left items' (perm_middle latest pinned)))
          as_latest in
      ground (arith, apart.0, rest, as_latest, as_pinned)
