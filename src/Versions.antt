-- ===== src/Versions.antt =====
-- backend/src/services/versions/policy.js: which earlier versions of a file are worth keeping.
-- Times are milliseconds; a stored time is `none` where `Date.parse` would give NaN.
pub mod Thinning
pub mod Idempotence
pub mod Retention
pub mod Stretches
pub mod Sessions
mod Examples
use next_explorer.Prelude.{
  ℕ, ◌+◌, ◌-◌, ◌*◌, ◌/◌, ◌≡◌, Bool, true, false, not, ◌&&◌, ◌||◌, List, [], ◌∷◌, ◌++◌, map, Option,
  none, some, String, max, ltb, leb, ◌==◌, if◌then◌else◌, str_eq, filter, take, drop, any,
}
use next_explorer.Prelude.Sort.{Collation, sort}

abbrev pub minute_ms : ℕ
minute_ms = 60 * 1000

abbrev pub hour_ms : ℕ
hour_ms = 60 * minute_ms

abbrev pub day_ms : ℕ
day_ms = 24 * hour_ms

abbrev pub week_ms : ℕ
week_ms = 7 * day_ms

pub record Version : Type 0 where
  pub id : String
  pub modified_at : ℕ
  pub pinned : Bool

pub record Settings : Type 0 where
  pub keep_all_hours : ℕ
  pub hourly_days : ℕ
  pub daily_days : ℕ
  pub max_per_file : ℕ

pub data Reason : Type 0 where
  thinned limit : Reason

pub record Drop : Type 0 where
  pub id : String
  pub reason : Reason

-- The texts `h…`, `d…` and `w…` of `bucketOf`.
pub data Bucket : Type 0 where
  hour day week : ℕ → Bucket

abbrev pub bucket_eq : Bucket → Bucket → Bool
bucket_eq (hour m) (hour n) = m == n
bucket_eq (day m) (day n) = m == n
bucket_eq (week m) (week n) = m == n
bucket_eq _ _ = false

-- the comparison `byNewest`: not positive
pub by_newest : Collation → Version → Version → Bool
by_newest c left right =
    if left.modified_at == right.modified_at
    then c.le left.id right.id
    else ltb right.modified_at left.modified_at

-- `Math.max(0, now - modifiedAt)` is the subtraction of ℕ.
pub bucket_of : ℕ → ℕ → Settings → Option Bucket
bucket_of modified_at now s =
    let age = now - modified_at in
    if ltb age (s.keep_all_hours * hour_ms)
    then none
    else if ltb age (s.hourly_days * day_ms)
    then some (hour (modified_at / hour_ms))
    else if ltb age (s.daily_days * day_ms)
    then some (day (modified_at / day_ms))
    else some (week (modified_at / week_ms))

-- `seen.has(bucket)`, of a set in no order
abbrev pub has_seen : List Bucket → Bucket → Bool
has_seen seen b = any (bucket_eq b) seen

pub record Thinned : Type 0 where
  pub dropped : List Version
  pub kept : List Version

-- `bucket !== null && seen.has(bucket)`
abbrev pub is_crowded : List Bucket → Option Bucket → Bool
is_crowded seen none = false
is_crowded seen (some b) = has_seen seen b

abbrev pub see : List Bucket → Option Bucket → List Bucket
see seen none = seen
see seen (some b) = b ∷ seen

-- the loop of `thinVersions`
pub thin_loop : ℕ → Settings → List Bucket → List Version → Thinned
thin_loop now s seen [] = record { dropped = []; kept = [] }
thin_loop now s seen (v ∷ vs) =
    let bucket = bucket_of v.modified_at now s in
    let crowded = is_crowded seen bucket in
    let rest = thin_loop now s (if crowded then seen else see seen bucket) vs in
    if crowded
    then record rest { dropped = v ∷ rest.dropped }
    else record rest { kept = v ∷ rest.kept }

abbrev pub unpinned : List Version → List Version
unpinned = filter (λ v. not v.pinned)

abbrev pub limit_of : Settings → ℕ
limit_of s = max 1 s.max_per_file

unfoldable pub thin_versions : Collation → List Version → ℕ → Settings → List Drop
unfolding thin_loop bucket_of by_newest
thin_versions c versions now s =
    let thin = thin_loop now s [] (sort (by_newest c) (unpinned versions)) in
    map (λ v. record { id = v.id; reason = thinned }) thin.dropped
    ++ map (λ v. record { id = v.id; reason = limit }) (drop (limit_of s) thin.kept)

-- What was recorded about a file's current content.
pub record History : Type 0 where
  pub current_session : Option String
  pub current_explicit : Bool
  pub session_checkpoint_at : Option ℕ
  pub restored_at : Option ℕ

-- `started_at` is `none` where the session cannot say when it began.
pub record Session : Type 0 where
  pub key : Option String
  pub started_at : Option ℕ

pub data Choice : Type 0 where
  keep skip : Choice

abbrev same_key : Option String → String → Bool
same_key none key = false
same_key (some k) key = str_eq k key

-- `session?.key`, which an empty text does not pass for
abbrev pub session_key : Option Session → Option String
session_key none = none
session_key (some s) = elim s.key [ none ↦ none | some k ↦ if str_eq k "" then none else some k ]

-- the tests of `sessionDecision` behind the one for a session
pub checkpoint_decision : History → String → ℕ → ℕ → Choice
checkpoint_decision h key now checkpoint_minutes =
    if not (same_key h.current_session key)
    then keep
    else if h.current_explicit
    then keep
    else elim h.session_checkpoint_at [
      | none ↦ keep
      | some checkpoint ↦
          if leb (checkpoint + checkpoint_minutes * minute_ms) now then keep else skip
    ]

unfoldable pub session_decision : Option History → Bool → Option Session → ℕ → ℕ → Choice
unfolding checkpoint_decision
session_decision none matches session now checkpoint_minutes = keep
session_decision (some h) matches session now checkpoint_minutes =
    if not matches then keep else elim (session_key session) [
      | none ↦ keep
      | some key ↦ checkpoint_decision h key now checkpoint_minutes
    ]

abbrev restored : Option History → Option ℕ
restored none = none
restored (some h) = h.restored_at

abbrev started : Option Session → Option ℕ
started none = none
started (some s) = s.started_at

unfoldable pub is_stale_save : Option History → Option Session → Bool
is_stale_save history session = elim (started session) [
  | none ↦ false
  | some start ↦ elim (restored history) [
    | none ↦ false
    | some back ↦ ltb (start / 1000) (back / 1000)
  ]
]
