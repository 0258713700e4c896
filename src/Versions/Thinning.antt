-- ===== src/Versions/Thinning.antt =====
-- What `thinVersions` of backend/src/services/versions/policy.js keeps.
use mathlib.Core.List.{Perm, perm_middle, append_assoc}
use mathlib.Core.List.Perm
use next_explorer.Prelude.{
  ℕ, suc, ◌-◌, ◌≡◌, refl, ◌≤◌, ◌⊎◌, Bool, true, false, ◌&&◌, any, ◌∙◌, inl, inr, Bool-cases, List,
  [], ◌∷◌, ◌++◌, Option, none, some, arith, if◌then◌else◌, All, take, drop, take-append-drop,
}
use next_explorer.Prelude.Sort.{Collation, sort, sort-perm, IsSorted}
use next_explorer.Versions.{
  Version, Settings, Bucket, bucket_eq, bucket_of, by_newest, is_crowded, see, thin_loop, unpinned,
  limit_of,
}

-- The versions that a file keeps of those that are not pinned.
abbrev pub retained : Collation → List Version → ℕ → Settings → List Version
retained c versions now s =
    take (limit_of s) (thin_loop now s [] (sort (by_newest c) (unpinned versions))).kept

module _ (c : Collation) where
  pub by_newest_total : (v w : Version) → (by_newest c v w ≡ true) ⊎ (by_newest c w v ≡ true)
  unfolding by_newest
  by_newest_total v w = ground (arith, c.total v.id w.id)

  pub by_newest_trans :
      (u v w : Version) → by_newest c u v ≡ true → by_newest c v w ≡ true → by_newest c u w ≡ true
  unfolding by_newest
  by_newest_trans u v w h k = ground (arith, c.trans u.id v.id w.id)

pub by_newest-later :
    (c : Collation) (v w : Version) → by_newest c v w ≡ true → w.modified_at ≤ v.modified_at
unfolding by_newest
by_newest-later c v w h = ground arith

thin_loop-perm :
    (now : ℕ) (s : Settings) (seen : List Bucket) (vs : List Version)
    → let thin = thin_loop now s seen vs in Perm (thin.kept ++ thin.dropped) vs
unfolding thin_loop
thin_loop-perm now s seen [] = Perm.refl _
thin_loop-perm now s seen (v ∷ vs) =
    let b = bucket_of v.modified_at now s in
    let rest = thin_loop now s (if is_crowded seen b then seen else see seen b) vs in
    let ih = thin_loop-perm now s (if is_crowded seen b then seen else see seen b) vs in
    ground (arith, Perm.cons v ih, Perm.trans (perm_middle rest.kept rest.dropped) (Perm.cons v ih))

-- The versions that the rule lets go, for each reason.
abbrev pub thinned_out : Collation → List Version → ℕ → Settings → List Version
thinned_out c versions now s = (thin_loop now s [] (sort (by_newest c) (unpinned versions))).dropped

abbrev pub over_limit : Collation → List Version → ℕ → Settings → List Version
over_limit c versions now s =
    drop (limit_of s) (thin_loop now s [] (sort (by_newest c) (unpinned versions))).kept

-- What passes the thinning, and what does not, are the versions that are not pinned.
pub split-perm :
    (c : Collation) (versions : List Version) (now : ℕ) (s : Settings)
    → Perm
        (retained c versions now s ++ (over_limit c versions now s ++ thinned_out c versions now s))
        (unpinned versions)
split-perm c versions now s =
    let thin = thin_loop now s [] (sort (by_newest c) (unpinned versions)) in
    rw
      (
        ← append_assoc (take (limit_of s) thin.kept) (drop (limit_of s) thin.kept) thin.dropped,
        take-append-drop (limit_of s) thin.kept,
      )
      (Perm.trans (thin_loop-perm now s [] (sort (by_newest c) (unpinned versions)))
        (sort-perm (by_newest c) (unpinned versions)))

not_crowded : (b : Option Bucket) → is_crowded [] b ≡ false
not_crowded none = refl
not_crowded (some b) = refl

-- The newest version that is not pinned is kept, whatever the settings.
newest-retained :
    (c : Collation) (versions : List Version) (now : ℕ) (s : Settings) (v : Version)
    (vs : List Version)
    → sort (by_newest c) (unpinned versions) ≡ v ∷ vs
    → (rest : List Version) × (retained c versions now s ≡ v ∷ rest)
unfolding thin_loop
newest-retained c versions now s v vs h =
    let room : limit_of s ≡ suc (limit_of s - 1) = omega arith in
    rw (h, room, not_crowded (bucket_of v.modified_at now s)) (_, refl)

-- The versions of `before` stand for these buckets.
abbrev pub buckets : ℕ → Settings → List Version → List Bucket
buckets now s [] = []
buckets now s (v ∷ vs) = see (buckets now s vs) (bucket_of v.modified_at now s)

abbrev pub same_bucket : Option Bucket → Option Bucket → Bool
same_bucket none b = false
same_bucket (some a) none = false
same_bucket (some a) (some b) = bucket_eq b a

-- `e` is in the hour, day or week of `v`, and is not older.
abbrev pub stands_for : Collation → ℕ → Settings → Version → Version → Bool
stands_for c now s v e =
    by_newest c e v && same_bucket (bucket_of e.modified_at now s) (bucket_of v.modified_at now s)

module _ (c : Collation) (now : ℕ) (s : Settings) where
  abbrev pub NotOlder : List Version → Version → Type 0
  NotOlder before v = All (λ e. by_newest c e v ≡ true) before

  any_stands :
      (before : List Version) (v : Version)
      → NotOlder before v
      → is_crowded (buckets now s before) (bucket_of v.modified_at now s) ≡ true
      → any (stands_for c now s v) before ≡ true
  any_stands [] v h crowded = ground arith
  any_stands (e ∷ before) v h crowded = ground (arith, h.0, any_stands before v h.1)

  any_middle :
      (p : Version → Bool) (xs : List Version) (y : Version) (ys : List Version)
      → any p (xs ++ y ∷ ys) ≡ any p ((y ∷ xs) ++ ys)
  any_middle p [] y ys = refl
  any_middle p (x ∷ xs) y ys = ground (arith, any_middle p xs y ys)

  any_left : (p : Version → Bool) (xs ys : List Version) → any p xs ≡ true → any p (xs ++ ys) ≡ true
  any_left p [] ys h = ground arith
  any_left p (x ∷ xs) ys h = ground (arith, any_left p xs ys)

  -- The versions of `before` came first and are kept; each version that the loop then drops has one
  -- that stands for it among those and the ones that the loop keeps.
  abbrev pub HasStand : List Version → List Version → Type 0
  HasStand kept dropped = All (λ d. any (stands_for c now s d) kept ≡ true) dropped

  HasStand-middle :
      (xs : List Version) (y : Version) (ys ds : List Version)
      → HasStand ((y ∷ xs) ++ ys) ds
      → HasStand (xs ++ y ∷ ys) ds
  HasStand-middle xs y ys [] h = tt
  HasStand-middle xs y ys (d ∷ ds) h =
      (any_middle (stands_for c now s d) xs y ys ∙ h.0, HasStand-middle xs y ys ds h.1)

  NotOlder-cons :
      (v : Version) (before vs : List Version)
      → All (λ w. by_newest c v w ≡ true) vs
      → All (NotOlder before) vs
      → All (NotOlder (v ∷ before)) vs
  NotOlder-cons v before [] h k = tt
  NotOlder-cons v before (w ∷ vs) h k = ((h.0, k.0), NotOlder-cons v before vs h.1 k.1)

  pub NotOlder-nil : (vs : List Version) → All (NotOlder []) vs
  NotOlder-nil [] = tt
  NotOlder-nil (v ∷ vs) = (tt, NotOlder-nil vs)

  pub thin_loop-HasStand :
      (before vs : List Version)
      → IsSorted (by_newest c) vs
      → All (NotOlder before) vs
      → let thin = thin_loop now s (buckets now s before) vs in
        HasStand (before ++ thin.kept) thin.dropped
  unfolding thin_loop
  thin_loop-HasStand before [] h k = tt
  thin_loop-HasStand before (v ∷ vs) h k =
      elim (Bool-cases (is_crowded (buckets now s before) (bucket_of v.modified_at now s))) [
        | inl crowded ↦ rw crowded (
          any_left _ before _ (any_stands before v k.0 crowded),
          thin_loop-HasStand before vs h.1 k.1,
        )
        | inr free ↦ rw free (
            HasStand-middle before v _ _
              (thin_loop-HasStand (v ∷ before) vs h.1 (NotOlder-cons v before vs h.0 k.1)))
      ]
