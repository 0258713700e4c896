-- ===== src/Versions/Idempotence.antt =====
-- Running `thinVersions` of backend/src/services/versions/policy.js on what it kept changes nothing.
use next_explorer.Prelude.{
  ℕ, zero, suc, ◌≡◌, refl, ap₂, ◌∙◌, inl, inr, true, false, not, List, [], ◌∷◌, ◌++◌, arith, All,
  All-take, take, drop, filter, filter-append, Bool-cases,
}
use next_explorer.Prelude.Sort.{
  Collation, sort, IsSorted, sort-IsSorted, take-IsSorted, sort_of_IsSorted, All-sort,
}
use next_explorer.Versions.{
  Version, Settings, Bucket, bucket_of, by_newest, is_crowded, see, thin_loop, unpinned, limit_of,
  thin_versions,
}
use next_explorer.Versions.Thinning.{retained, by_newest_total, by_newest_trans}

module _ (now : ℕ) (s : Settings) where
  -- No version falls into a bucket that an earlier one, or one in `seen`, stands for.
  abbrev IsThin : List Bucket → List Version → Type 0
  IsThin seen [] = Unit
  IsThin seen (v ∷ vs) =
      (is_crowded seen (bucket_of v.modified_at now s) ≡ false)
      × IsThin (see seen (bucket_of v.modified_at now s)) vs

  IsThin-kept :
      (seen : List Bucket) (vs : List Version) → IsThin seen (thin_loop now s seen vs).kept
  unfolding thin_loop
  IsThin-kept seen [] = tt
  IsThin-kept seen (v ∷ vs) =
      ground (arith, IsThin-kept seen vs, IsThin-kept (see seen (bucket_of v.modified_at now s)) vs)

  IsThin-take :
      (n : ℕ) (seen : List Bucket) (vs : List Version) → IsThin seen vs → IsThin seen (take n vs)
  IsThin-take zero seen vs h = tt
  IsThin-take (suc n) seen [] h = tt
  IsThin-take (suc n) seen (v ∷ vs) h =
      (h.0, IsThin-take n (see seen (bucket_of v.modified_at now s)) vs h.1)

  thin_loop_of_IsThin :
      (seen : List Bucket) (vs : List Version)
      → IsThin seen vs
      → thin_loop now s seen vs ≡ record { dropped = []; kept = vs }
  unfolding thin_loop
  thin_loop_of_IsThin seen [] h = refl
  thin_loop_of_IsThin seen (v ∷ vs) h =
      ground (arith, h.0, thin_loop_of_IsThin (see seen (bucket_of v.modified_at now s)) vs h.1)

abbrev IsUnpinned : List Version → Type 0
IsUnpinned vs = All (λ v. v.pinned ≡ false) vs

unpinned_of_IsUnpinned : (vs : List Version) → IsUnpinned vs → unpinned vs ≡ vs
unpinned_of_IsUnpinned [] h = refl
unpinned_of_IsUnpinned (v ∷ vs) h = ground (arith, unpinned_of_IsUnpinned vs h.1, h.0)

IsUnpinned-unpinned : (vs : List Version) → IsUnpinned (unpinned vs)
IsUnpinned-unpinned [] = tt
IsUnpinned-unpinned (v ∷ vs) = ground (arith, IsUnpinned-unpinned vs)

abbrev pub pins : List Version → List Version
pins = filter (λ v. v.pinned)

unpinned-pins : (vs : List Version) → unpinned (pins vs) ≡ []
unpinned-pins [] = refl
unpinned-pins (v ∷ vs) = ground (arith, unpinned-pins vs)

All-kept :
    (P : Version → Type 0) (now : ℕ) (s : Settings) (seen : List Bucket) (vs : List Version)
    → All P vs
    → All P (thin_loop now s seen vs).kept
unfolding thin_loop
All-kept P now s seen [] h = tt
All-kept P now s seen (v ∷ vs) h = ground (
  arith,
  h.0,
  All-kept P now s seen vs h.1,
  All-kept P now s (see seen (bucket_of v.modified_at now s)) vs h.1,
)

pub kept-IsSorted :
    (c : Collation) (now : ℕ) (s : Settings) (seen : List Bucket) (vs : List Version)
    → IsSorted (by_newest c) vs
    → IsSorted (by_newest c) (thin_loop now s seen vs).kept
unfolding thin_loop
kept-IsSorted c now s seen [] h = tt
kept-IsSorted c now s seen (v ∷ vs) h =
    let later = see seen (bucket_of v.modified_at now s) in
    elim (Bool-cases (is_crowded seen (bucket_of v.modified_at now s))) [
      | inl e ↦ rw e (kept-IsSorted c now s seen vs h.1)
      | inr e ↦ rw e (
        All-kept (λ w. by_newest c v w ≡ true) now s later vs h.0,
        kept-IsSorted c now s later vs h.1,
      )
    ]

drop-take {ℓ} : {A : Type ℓ} (n : ℕ) (xs : List A) → drop n (take n xs) ≡ []
drop-take zero xs = refl
drop-take (suc n) [] = refl
drop-take (suc n) (x ∷ xs) = drop-take n xs

-- Thinning what was kept, the pinned versions with it, lets nothing more go.
pub thin_versions-retained :
    (c : Collation) (versions : List Version) (now : ℕ) (s : Settings)
    → thin_versions c (pins versions ++ retained c versions now s) now s ≡ []
unfolding thin_versions
thin_versions-retained c versions now s =
    let sorted = sort (by_newest c) (unpinned versions) in
    let kept = (thin_loop now s [] sorted).kept in
    let left = retained c versions now s in
    let open_ones : IsUnpinned left =
      All-take (λ v. v.pinned ≡ false) (limit_of s) kept
        (All-kept (λ v. v.pinned ≡ false) now s [] sorted
          (All-sort (by_newest c) (λ v. v.pinned ≡ false) (unpinned versions)
            (IsUnpinned-unpinned versions))) in
    let rule_sees : unpinned (pins versions ++ left) ≡ left =
      filter-append (λ v. not v.pinned) (pins versions) left
      ∙ ap₂ ◌++◌ (unpinned-pins versions) (unpinned_of_IsUnpinned left open_ones) in
    let in_order : sort (by_newest c) left ≡ left = sort_of_IsSorted (by_newest c) left (
      take-IsSorted (by_newest c) (limit_of s) kept (
        kept-IsSorted c now s [] sorted (
          sort-IsSorted (by_newest c) (by_newest_total c) (by_newest_trans c)
            (unpinned versions)))) in
    let untouched : thin_loop now s [] left ≡ record { dropped = []; kept = left } =
      thin_loop_of_IsThin now s [] left
        (IsThin-take now s (limit_of s) [] kept (IsThin-kept now s [] sorted)) in
    rw (rule_sees, in_order, untouched, drop-take (limit_of s) kept)
