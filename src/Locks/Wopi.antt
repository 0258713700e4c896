-- ===== src/Locks/Wopi.antt =====
-- backend/src/services/wopiLockService.js: one lock for each file, held under an id until it expires.
-- The clock is an argument of each call.
mod Examples
pub mod Exclusion
use next_explorer.Prelude.{
  ℕ, ◌+◌, Bool, true, false, not, ◌&&◌, List, [], ◌∷◌, Option, none, some, String, leb, str_eq,
  if◌then◌else◌, map_get, map_set, map_delete,
}

pub record Entry : Type 0 where
  pub lock_id : String
  pub expires_at_ms : ℕ

-- the module's `locks`
abbrev pub Locks : Type 0
Locks = List (String × Entry)

-- `{ ok: true }`, or `{ ok: false, currentLockId }`
pub data Answer : Type 0 where
  granted : Answer
  refused : Option String → Answer

pub purge_if_expired : String → ℕ → Locks → Locks × Option Entry
purge_if_expired file_id now locks = elim (map_get file_id locks) [
  | none ↦ (locks, none)
  | some entry ↦
      if leb entry.expires_at_ms now then (map_delete file_id locks, none) else (locks, some entry)
]

unfoldable pub get_lock : String → ℕ → Locks → Locks × Option String
get_lock file_id now locks =
    let (kept, entry) = purge_if_expired file_id now locks in
    (kept, elim entry [ none ↦ none | some e ↦ some e.lock_id ])

abbrev hold : String → String → ℕ → ℕ → Locks → Locks
hold file_id lock_id now ttl =
    map_set file_id (record { lock_id = lock_id; expires_at_ms = now + ttl })

pub try_lock : String → String → ℕ → ℕ → Locks → Locks × Answer
try_lock file_id lock_id now ttl locks =
    let (kept, entry) = purge_if_expired file_id now locks in
    elim entry [
      | none ↦ (hold file_id lock_id now ttl kept, granted)
      | some e ↦
          if not (str_eq e.lock_id lock_id)
          then (kept, refused (some e.lock_id))
          else (hold file_id lock_id now ttl kept, granted)
    ]

pub try_unlock : String → String → ℕ → Locks → Locks × Answer
try_unlock file_id lock_id now locks =
    let (kept, entry) = purge_if_expired file_id now locks in
    elim entry [
      | none ↦ (kept, granted)
      | some e ↦
          if not (str_eq e.lock_id lock_id)
          then (kept, refused (some e.lock_id))
          else (map_delete file_id kept, granted)
    ]

pub try_refresh_lock : String → String → ℕ → ℕ → Locks → Locks × Answer
try_refresh_lock file_id lock_id now ttl locks =
    let (kept, entry) = purge_if_expired file_id now locks in
    elim entry [
      | none ↦ (kept, refused none)
      | some e ↦
          if not (str_eq e.lock_id lock_id)
          then (kept, refused (some e.lock_id))
          else (hold file_id lock_id now ttl kept, granted)
    ]

pub try_unlock_and_relock : String → String → String → ℕ → ℕ → Locks → Locks × Answer
try_unlock_and_relock file_id old_id new_id now ttl locks =
    let (kept, entry) = purge_if_expired file_id now locks in
    elim entry [
      | none ↦ (hold file_id new_id now ttl kept, granted)
      | some e ↦
          if not (str_eq e.lock_id old_id)
          then (kept, refused (some e.lock_id))
          else (hold file_id new_id now ttl kept, granted)
    ]

abbrev pub reset_all_locks : Locks → Locks
reset_all_locks locks = []

-- A call of the register, by the lock id that its caller presents.
pub data Call : Type 0 where
  gets : String → Call
  locks : String → String → ℕ → Call
  unlocks : String → String → Call
  refreshes : String → String → ℕ → Call
  relocks : String → String → String → ℕ → Call

-- The register after a call at a time.
unfoldable pub step : Locks → ℕ × Call → Locks
unfolding get_lock try_lock try_unlock try_refresh_lock try_unlock_and_relock
step s (now, gets f) = (get_lock f now s).0
step s (now, locks f id ttl) = (try_lock f id now ttl s).0
step s (now, unlocks f id) = (try_unlock f id now s).0
step s (now, refreshes f id ttl) = (try_refresh_lock f id now ttl s).0
step s (now, relocks f old new ttl) = (try_unlock_and_relock f old new now ttl s).0

pub run : Locks → List (ℕ × Call) → Locks
run s [] = s
run s (c ∷ cs) = run (step s c) cs
