-- ===== src/Versions/Retention.antt =====
-- How much `thinVersions` of backend/src/services/versions/policy.js keeps.
use mathlib.Core.List.{Perm}
use next_explorer.Prelude.{
  ℕ, zero, suc, ◌≡◌, refl, ◌≤◌, ◌⊎◌, inl, inr, true, not, List, [], ◌∷◌, ◌++◌, map, arith, All,
  length, take, drop, filter, max,
}
use next_explorer.Prelude.Sort.{Collation, sort, IsSorted, sort-IsSorted}
use next_explorer.Versions.{
  Version, Settings, thinned, limit, by_newest, thin_loop, unpinned, limit_of, thin_versions,
}
use next_explorer.Versions.Thinning.{
  retained, over_limit, thinned_out, split-perm, by_newest_total, by_newest_trans, by_newest-later,
}
use next_explorer.Versions.Idempotence.{kept-IsSorted}

length-take-le {ℓ} : {A : Type ℓ} (n : ℕ) (xs : List A) → length (take n xs) ≤ n
length-take-le zero xs = omega arith
length-take-le (suc n) [] = omega arith
length-take-le (suc n) (x ∷ xs) = omega (arith, length-take-le n xs)

-- Nothing is left over unless as many as may be are taken.
drop-empty_or_full {ℓ} :
    {A : Type ℓ} (n : ℕ) (xs : List A) → (drop n xs ≡ []) ⊎ (length (take n xs) ≡ n)
drop-empty_or_full zero xs = inr refl
drop-empty_or_full (suc n) [] = inl refl
drop-empty_or_full (suc n) (x ∷ xs) = elim (drop-empty_or_full n xs) [
  | inl none_left ↦ inl none_left
  | inr full ↦ inr (omega (arith, full))
]

module _ (c : Collation) where
  drop-older :
      (n : ℕ) (v : Version) (vs : List Version)
      → All (λ w. by_newest c v w ≡ true) vs
      → All (λ w. w.modified_at ≤ v.modified_at) (drop n vs)
  drop-older zero v [] h = tt
  drop-older zero v (w ∷ vs) h = (by_newest-later c v w h.0, drop-older zero v vs h.1)
  drop-older (suc n) v [] h = tt
  drop-older (suc n) v (w ∷ vs) h = drop-older n v vs h.1

  take-newer :
      (n : ℕ) (vs : List Version)
      → IsSorted (by_newest c) vs
      → All (λ v. All (λ w. w.modified_at ≤ v.modified_at) (drop n vs)) (take n vs)
  take-newer zero vs h = tt
  take-newer (suc n) [] h = tt
  take-newer (suc n) (v ∷ vs) h = (drop-older n v vs h.0, take-newer n vs h.1)

-- Of the versions that are not pinned some are kept, and each of the others is let go for one reason,
-- while pinned ones are let be: the kept ones are no more than the limit and at least one may be
-- kept; unless the limit is reached none goes for its sake; and none that goes for its sake is newer
-- than one that is kept.
pub thin_versions-IsSplit :
    (c : Collation) (versions : List Version) (now : ℕ) (s : Settings)
    → (kept : List Version) × (limited : List Version) × (spaced : List Version) × Perm
        (kept ++ (limited ++ spaced))
        (filter (λ v. not v.pinned) versions)
      × (thin_versions c versions now s
          ≡ map (λ v. record { id = v.id; reason = thinned }) spaced
            ++ map (λ v. record { id = v.id; reason = limit }) limited)
      × (length kept ≤ max 1 s.max_per_file)
      × ((limited ≡ []) ⊎ (length kept ≡ max 1 s.max_per_file))
      × All (λ v. All (λ w. w.modified_at ≤ v.modified_at) limited) kept
unfolding thin_versions
thin_versions-IsSplit c versions now s =
    let sorted = sort (by_newest c) (unpinned versions) in
    let passed = (thin_loop now s [] sorted).kept in
    (
      retained c versions now s,
      over_limit c versions now s,
      thinned_out c versions now s,
      split-perm c versions now s,
      refl,
      length-take-le (limit_of s) passed,
      drop-empty_or_full (limit_of s) passed,
      take-newer c (limit_of s) passed (
          kept-IsSorted c now s [] sorted (
            sort-IsSorted (by_newest c) (by_newest_total c) (by_newest_trans c)
              (unpinned versions))),
    )
