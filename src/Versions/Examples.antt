-- ===== src/Versions/Examples.antt =====
-- The policy at three versions of one file.
use mathlib.Core.List.{Perm}
use next_explorer.Prelude.{
  ◌*◌, ◌≡◌, ◌≤◌, ◌↔◌, ◌⊎◌, refl, true, false, List, [], ◌∷◌, ◌++◌, map, some, arith, length, codes,
  leb, String, All, filter, not, max,
}
use next_explorer.Prelude.Sort.{Collation, sort}
use next_explorer.Versions.{
  Version, Settings, History, Session, thinned, limit, skip, day_ms, by_newest, unpinned, thin_loop,
  thin_versions, session_decision,
}
use next_explorer.Versions.Thinning.{retained, thinned_out}
use next_explorer.Versions.Stretches.{HasStandIn, thinned_out-HasStand}
use next_explorer.Versions.Retention.{thin_versions-IsSplit}
use next_explorer.Versions.Idempotence.{pins, thin_versions-retained}
use next_explorer.Versions.Sessions.{IsRepeat, session_decision-skip_iff}

by_length_total :
    (a b : String)
    → (leb (length (codes a)) (length (codes b)) ≡ true)
      ⊎ (leb (length (codes b)) (length (codes a)) ≡ true)
by_length_total a b = ground arith

by_length_trans :
    (a b c : String)
    → leb (length (codes a)) (length (codes b)) ≡ true
    → leb (length (codes b)) (length (codes c)) ≡ true
    → leb (length (codes a)) (length (codes c)) ≡ true
by_length_trans a b c h k = ground arith

-- A collation that orders texts by their length.
abbrev by_length : Collation
by_length = record {
  le = λ a b. leb (length (codes a)) (length (codes b));
  total = by_length_total;
  trans = by_length_trans;
}

abbrev morning : Version
morning = record { id = "a"; modified_at = 1000; pinned = false }

abbrev noon : Version
noon = record { id = "bb"; modified_at = 2000; pinned = false }

abbrev marked : Version
marked = record { id = "c"; modified_at = 3000; pinned = true }

abbrev versions : List Version
versions = morning ∷ noon ∷ marked ∷ []

abbrev settings : Settings
settings = record { keep_all_hours = 1; hourly_days = 1; daily_days = 7; max_per_file = 5 }

-- Two days on, both fall into one day and the earlier one is thinned out.
thinned_morning :
    thin_versions by_length versions (2 * day_ms) settings
    ≡ record { id = "a"; reason = thinned } ∷ []
unfolding thin_versions
thinned_morning = refl

thin_versions-IsSplit_example :
    (kept : List Version) × (limited : List Version) × (spaced : List Version) × Perm
      (kept ++ (limited ++ spaced))
      (filter (λ v. not v.pinned) versions)
    × (thin_versions by_length versions (2 * day_ms) settings
        ≡ map (λ v. record { id = v.id; reason = thinned }) spaced
          ++ map (λ v. record { id = v.id; reason = limit }) limited)
    × (length kept ≤ max 1 settings.max_per_file)
    × ((limited ≡ []) ⊎ (length kept ≡ max 1 settings.max_per_file))
    × All (λ v. All (λ w. w.modified_at ≤ v.modified_at) limited) kept
thin_versions-IsSplit_example = thin_versions-IsSplit by_length versions (2 * day_ms) settings

thinned_out-HasStand_example :
    All
      (HasStandIn
        (2 * day_ms)
        settings
        (thin_loop (2 * day_ms) settings [] (sort (by_newest by_length) (unpinned versions))).kept)
      (thinned_out by_length versions (2 * day_ms) settings)
thinned_out-HasStand_example = thinned_out-HasStand by_length versions (2 * day_ms) settings

thin_versions-retained_example :
    thin_versions by_length
      (pins versions ++ retained by_length versions (2 * day_ms) settings)
      (2 * day_ms)
      settings
    ≡ []
thin_versions-retained_example = thin_versions-retained by_length versions (2 * day_ms) settings

abbrev edited : History
edited = record {
  current_session = some "s1";
  current_explicit = false;
  session_checkpoint_at = some 1000;
  restored_at = some 5000;
}

abbrev editing : Session
editing = record { key = some "s1"; started_at = some 4000 }

session_decision-skip_iff_example :
    (session_decision (some edited) true (some editing) 2000 10 ≡ skip)
    ↔ IsRepeat (some edited) true (some editing) 2000 10
session_decision-skip_iff_example =
    session_decision-skip_iff (some edited) true (some editing) 2000 10
