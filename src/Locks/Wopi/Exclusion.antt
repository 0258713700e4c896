-- ===== src/Locks/Wopi/Exclusion.antt =====
-- Who may hold a lock of backend/src/services/wopiLockService.js.
use mathlib.Core.Option
use next_explorer.Prelude.{
  ℕ, ◌+◌, ◌≡◌, refl, ◌≢◌, ◌↔◌, Option-cases, ◌<◌, inl, inr, List, [], ◌∷◌, Option, none, some,
  String, arith, leb, str_eq, eq_iff, if◌then◌else◌, map_get, map_get-set, map_get-delete, All,
}
use next_explorer.Locks.Wopi.{
  Entry, Locks, granted, Call, gets, locks, unlocks, refreshes, relocks, get_lock, try_lock,
  try_unlock, try_refresh_lock, try_unlock_and_relock, step, run, purge_if_expired,
}

abbrev pub file_of : Call → String
file_of (gets f) = f
file_of (locks f id ttl) = f
file_of (unlocks f id) = f
file_of (refreshes f id ttl) = f
file_of (relocks f old new ttl) = f

-- A call on the file that does not present this lock id.
abbrev pub IsForeign : String → String → ℕ × Call → Type 0
IsForeign f held (now, gets g) = Unit
IsForeign f held (now, locks g id ttl) = f ≡ g → id ≢ held
IsForeign f held (now, unlocks g id) = f ≡ g → id ≢ held
IsForeign f held (now, refreshes g id ttl) = f ≡ g → id ≢ held
IsForeign f held (now, relocks g old new ttl) = f ≡ g → old ≢ held

-- The entry of a file that has not expired.
unfoldable pub live : String → ℕ → Locks → Option Entry
live f now s = elim (map_get f s) [
  | none ↦ none
  | some e ↦ if leb e.expires_at_ms now then none else some e
]

purge-live : (f : String) (now : ℕ) (s : Locks) → (purge_if_expired f now s).1 ≡ live f now s
unfolding purge_if_expired live
purge-live f now s = ground arith

purge-get :
    (f g : String) (now : ℕ) (s : Locks)
    → map_get g (purge_if_expired f now s).0 ≡ (if str_eq f g then live f now s else map_get g s)
unfolding purge_if_expired live
purge-get f g now s = ground (arith, eq_iff f g, map_get-delete f g s)

-- What a call makes of the entry of its own file: the specification of the register.
unfoldable pub after_call : ℕ → Call → Option Entry → Option Entry
after_call now (gets f) e = e
after_call now (locks f id ttl) none = some (record { lock_id = id; expires_at_ms = now + ttl })
after_call now (locks f id ttl) (some e) =
    if str_eq e.lock_id id
    then some (record { lock_id = id; expires_at_ms = now + ttl })
    else some e
after_call now (unlocks f id) none = none
after_call now (unlocks f id) (some e) = if str_eq e.lock_id id then none else some e
after_call now (refreshes f id ttl) none = none
after_call now (refreshes f id ttl) (some e) =
    if str_eq e.lock_id id
    then some (record { lock_id = id; expires_at_ms = now + ttl })
    else some e
after_call now (relocks f old new ttl) none =
    some (record { lock_id = new; expires_at_ms = now + ttl })
after_call now (relocks f old new ttl) (some e) =
    if str_eq e.lock_id old
    then some (record { lock_id = new; expires_at_ms = now + ttl })
    else some e

-- Each call changes the entry of its own file as the specification says, which an expired entry
-- enters as none, and no other.
pub step-get :
    (s : Locks) (now : ℕ) (c : Call) (g : String)
    → map_get g (step s (now, c))
      ≡ (if str_eq (file_of c) g then after_call now c (live (file_of c) now s) else map_get g s)
unfolding step after_call
step-get s now (gets f) g = ground (arith, purge-live f now s, purge-get f g now s)
step-get s now (locks f id ttl) g = ground (
  arith,
  purge-live f now s,
  purge-get f g now s,
  map_get-set f g (record { lock_id = id; expires_at_ms = now + ttl }) (purge_if_expired f now s).0,
)
step-get s now (unlocks f id) g = ground (
  arith,
  purge-live f now s,
  purge-get f g now s,
  map_get-delete f g (purge_if_expired f now s).0,
)
step-get s now (refreshes f id ttl) g = ground (
  arith,
  purge-live f now s,
  purge-get f g now s,
  map_get-set f g (record { lock_id = id; expires_at_ms = now + ttl }) (purge_if_expired f now s).0,
)
step-get s now (relocks f old id ttl) g = ground (
  arith,
  purge-live f now s,
  purge-get f g now s,
  map_get-set f g (record { lock_id = id; expires_at_ms = now + ttl }) (purge_if_expired f now s).0,
)

abbrev pub held_until : String → ℕ → Entry
held_until id until = record { lock_id = id; expires_at_ms = until }

after_call_foreign :
    (f held : String) (until now : ℕ) (c : Call)
    → IsForeign f held (now, c)
    → f ≡ file_of c
    → after_call now c (some (held_until held until)) ≡ some (held_until held until)
unfolding after_call
after_call_foreign f held until now (gets g) h e = refl
after_call_foreign f held until now (locks g id ttl) h e = ground (arith, eq_iff held id, h e)
after_call_foreign f held until now (unlocks g id) h e = ground (arith, eq_iff held id, h e)
after_call_foreign f held until now (refreshes g id ttl) h e = ground (arith, eq_iff held id, h e)
after_call_foreign f held until now (relocks g old new ttl) h e =
    ground (arith, eq_iff held old, h e)

step_foreign :
    (s : Locks) (f held : String) (until now : ℕ) (c : Call)
    → map_get f s ≡ some (held_until held until)
    → IsForeign f held (now, c)
    → now < until
    → map_get f (step s (now, c)) ≡ some (held_until held until)
unfolding live
step_foreign s f held until now c h foreign early =
    ground (
      arith,
      step-get s now c f,
      eq_iff (file_of c) f,
      after_call_foreign f held until now c foreign,
    )

-- Until a lock expires, no sequence of calls in which nobody presents its id takes it away or changes
-- it: the file stays locked under that id and until that time.
pub run_foreign :
    (s : Locks) (f held : String) (until : ℕ) (cs : List (ℕ × Call))
    → map_get f s ≡ some (held_until held until)
    → All (λ c. IsForeign f held c × (c.0 < until)) cs
    → map_get f (run s cs) ≡ some (held_until held until)
unfolding run
run_foreign s f held until [] h ok = h
run_foreign s f held until ((now, c) ∷ cs) h ok =
    run_foreign (step s (now, c)) f held until cs
      (step_foreign s f held until now c h ok.0.0 ok.0.1) ok.1

-- Nobody holds the file, or the entry that does is under this id.
abbrev pub IsOpenTo : String → Option Entry → Type 0
IsOpenTo id none = Unit
IsOpenTo id (some e) = e.lock_id ≡ id

-- Locking, unlocking and relocking are granted exactly when no live lock is under another id, and
-- refreshing exactly when there is a live lock and it is under this one; what is read is the live
-- lock's id.
pub granted_iff :
    (f id new : String) (now ttl : ℕ) (s : Locks)
    → (((try_lock f id now ttl s).1 ≡ granted) ↔ IsOpenTo id (live f now s))
      × (((try_unlock f id now s).1 ≡ granted) ↔ IsOpenTo id (live f now s))
      × (((try_unlock_and_relock f id new now ttl s).1 ≡ granted) ↔ IsOpenTo id (live f now s))
      × (((try_refresh_lock f id now ttl s).1 ≡ granted)
          ↔ ((live f now s ≢ none) × IsOpenTo id (live f now s)))
      × ((get_lock f now s).1 ≡ Option.map (λ e. e.lock_id) (live f now s))
unfolding try_lock try_unlock try_unlock_and_relock try_refresh_lock get_lock
granted_iff f id new now ttl s = elim (Option-cases (live f now s)) [
  | inl e ↦ ground (arith, purge-live f now s, e)
  | inr (entry, e) ↦ ground (arith, purge-live f now s, e, eq_iff entry.lock_id id)
]
