-- ===== src/Versions/Stretches.antt =====
-- When `thinVersions` of backend/src/services/versions/policy.js thins a version out.
use next_explorer.Prelude.{
  ℕ, ◌+◌, ◌-◌, ◌*◌, ◌/◌, ◌≡◌, refl, ap, ◌≤◌, ◌<◌, true, any, inl, inr, Bool-cases, List, [], ◌∷◌,
  ◌++◌, Option, none, some, arith, All,
}
use next_explorer.Prelude.Sort.{Collation, sort, sort-IsSorted}
use next_explorer.Versions.{
  Version, Settings, Bucket, hour, day, week, bucket_of, by_newest, thin_loop, unpinned,
}
use next_explorer.Versions.Thinning.{
  thinned_out, by_newest_total, by_newest_trans, by_newest-later, same_bucket, stands_for, HasStand,
  thin_loop-HasStand, NotOlder-nil,
}

-- Two times within one stretch of the calendar of this length.
abbrev pub IsWithinOne : ℕ → ℕ → ℕ → Type 0
IsWithinOne span a b =
    (n : ℕ) × (n * span ≤ a) × (a < n * span + span) × (n * span ≤ b) × (b < n * span + span)

-- Two versions of which the settings keep only one, by how old both are: of one hour where they are
-- older than the hours in which all are kept, of one day where they are older, too, than the days
-- that are kept by the hour, and of one week where they are older, too, than those that are kept by
-- the day.
pub data SameStretch (now : ℕ) (s : Settings) (v w : Version) : Type 0 where
  one_hour :
      s.keep_all_hours * 3_600_000 ≤ now - v.modified_at
      → s.keep_all_hours * 3_600_000 ≤ now - w.modified_at
      → now - v.modified_at < s.hourly_days * 86_400_000
      → now - w.modified_at < s.hourly_days * 86_400_000
      → IsWithinOne 3_600_000 v.modified_at w.modified_at
      → SameStretch now s v w
  one_day :
      s.keep_all_hours * 3_600_000 ≤ now - v.modified_at
      → s.keep_all_hours * 3_600_000 ≤ now - w.modified_at
      → s.hourly_days * 86_400_000 ≤ now - v.modified_at
      → s.hourly_days * 86_400_000 ≤ now - w.modified_at
      → now - v.modified_at < s.daily_days * 86_400_000
      → now - w.modified_at < s.daily_days * 86_400_000
      → IsWithinOne 86_400_000 v.modified_at w.modified_at
      → SameStretch now s v w
  one_week :
      s.keep_all_hours * 3_600_000 ≤ now - v.modified_at
      → s.keep_all_hours * 3_600_000 ≤ now - w.modified_at
      → s.hourly_days * 86_400_000 ≤ now - v.modified_at
      → s.hourly_days * 86_400_000 ≤ now - w.modified_at
      → s.daily_days * 86_400_000 ≤ now - v.modified_at
      → s.daily_days * 86_400_000 ≤ now - w.modified_at
      → IsWithinOne 604_800_000 v.modified_at w.modified_at
      → SameStretch now s v w

-- Where a bucket comes from.
abbrev IsBucketOf : ℕ → ℕ → Settings → Option Bucket → Type 0
IsBucketOf m now s none = Unit
IsBucketOf m now s (some (hour n)) =
    (n ≡ m / 3_600_000)
    × (s.keep_all_hours * 3_600_000 ≤ now - m)
    × (now - m < s.hourly_days * 86_400_000)
IsBucketOf m now s (some (day n)) =
    (n ≡ m / 86_400_000)
    × (s.hourly_days * 86_400_000 ≤ now - m)
    × (now - m < s.daily_days * 86_400_000)
    × (s.keep_all_hours * 3_600_000 ≤ now - m)
IsBucketOf m now s (some (week n)) =
    (n ≡ m / 604_800_000)
    × (s.daily_days * 86_400_000 ≤ now - m)
    × (s.keep_all_hours * 3_600_000 ≤ now - m)
    × (s.hourly_days * 86_400_000 ≤ now - m)

bucket_of-IsBucketOf : (m now : ℕ) (s : Settings) → IsBucketOf m now s (bucket_of m now s)
unfolding bucket_of
bucket_of-IsBucketOf m now s = ground arith

module _ (now : ℕ) (s : Settings) (v w : Version) where
  bucket-SameStretch :
      (a b : Option Bucket)
      → IsBucketOf v.modified_at now s a
      → IsBucketOf w.modified_at now s b
      → same_bucket a b ≡ true
      → SameStretch now s v w
  bucket-SameStretch none b h k e = ground arith
  bucket-SameStretch (some a) none h k e = ground arith
  bucket-SameStretch (some (hour m)) (some (hour n)) h k e =
      let same : m ≡ n = ground arith in
      one_hour h.1 k.1 h.2 k.2 (
        m,
        omega (arith, h, k, same),
        omega (arith, h, k, same),
        omega (arith, h, k, same),
        omega (arith, h, k, same),
      )
  bucket-SameStretch (some (day m)) (some (day n)) h k e =
      let same : m ≡ n = ground arith in
      one_day h.3 k.3 h.1 k.1 h.2 k.2 (
        m,
        omega (arith, h, k, same),
        omega (arith, h, k, same),
        omega (arith, h, k, same),
        omega (arith, h, k, same),
      )
  bucket-SameStretch (some (week m)) (some (week n)) h k e =
      let same : m ≡ n = ground arith in
      one_week h.2 k.2 h.3 k.3 h.1 k.1 (
        m,
        omega (arith, h, k, same),
        omega (arith, h, k, same),
        omega (arith, h, k, same),
        omega (arith, h, k, same),
      )
  bucket-SameStretch (some (hour m)) (some (day n)) h k e = ground arith
  bucket-SameStretch (some (hour m)) (some (week n)) h k e = ground arith
  bucket-SameStretch (some (day m)) (some (hour n)) h k e = ground arith
  bucket-SameStretch (some (day m)) (some (week n)) h k e = ground arith
  bucket-SameStretch (some (week m)) (some (hour n)) h k e = ground arith
  bucket-SameStretch (some (week m)) (some (day n)) h k e = ground arith

-- One of the versions, which is not older and of the same stretch.
abbrev pub HasStandIn : ℕ → Settings → List Version → Version → Type 0
HasStandIn now s vs d =
    (front : List Version) × (e : Version) × (back : List Version) × (vs ≡ front ++ e ∷ back)
    × (d.modified_at ≤ e.modified_at)
    × SameStretch now s e d

module _ (c : Collation) (now : ℕ) (s : Settings) where
  any-HasStandIn :
      (vs : List Version) (d : Version)
      → any (stands_for c now s d) vs ≡ true
      → HasStandIn now s vs d
  any-HasStandIn [] d h = ground arith
  any-HasStandIn (v ∷ vs) d h = elim (Bool-cases (stands_for c now s d v)) [
    | inl stands ↦ (
      [],
      v,
      vs,
      refl,
      by_newest-later c v d (ground arith),
      bucket-SameStretch now s v d (bucket_of v.modified_at now s) (bucket_of d.modified_at now s)
          (bucket_of-IsBucketOf v.modified_at now s) (bucket_of-IsBucketOf d.modified_at now s)
          (ground arith),
    )
    | inr not_it ↦
        let (front, e, back, split, later, same) = any-HasStandIn vs d (ground (arith, not_it)) in
        (v ∷ front, e, back, ap (◌∷◌ v) split, later, same)
  ]

  All-HasStandIn : (vs ds : List Version) → HasStand c now s vs ds → All (HasStandIn now s vs) ds
  All-HasStandIn vs [] h = tt
  All-HasStandIn vs (d ∷ ds) h = (any-HasStandIn vs d h.0, All-HasStandIn vs ds h.1)

-- A version is thinned out only when another passes the thinning that is not older and is of the
-- same hour, day or week, the stretch of which their ages say that one is kept.
pub thinned_out-HasStand :
    (c : Collation) (versions : List Version) (now : ℕ) (s : Settings)
    → All
        (HasStandIn now s (thin_loop now s [] (sort (by_newest c) (unpinned versions))).kept)
        (thinned_out c versions now s)
thinned_out-HasStand c versions now s =
    let sorted = sort (by_newest c) (unpinned versions) in
    let thin = thin_loop now s [] sorted in
    All-HasStandIn c now s thin.kept thin.dropped (
      thin_loop-HasStand c now s [] sorted
        (sort-IsSorted (by_newest c) (by_newest_total c) (by_newest_trans c) (unpinned versions))
        (NotOlder-nil c now s sorted))
