-- ===== src/Locks/Lockout.antt =====
-- backend/src/services/users/lockout.js: the register of failed sign-in attempts, the table
-- `auth_locks`. A stored time is its milliseconds since the epoch; the clock is an argument.
pub mod Attempts
pub mod Ledger
mod Examples
use next_explorer.Prelude.{
  ℕ, suc, ◌+◌, ◌*◌, ◌≡◌, ◌≢◌, refl, ◌≤◌, ◌<◌, ◌↔◌, not, Bool, true, false, List, [], ◌∷◌, Option,
  none, some, String, arith, ltb, leb, str_eq, eq_iff, if◌then◌else◌, map_get, map_set, map_get-set,
  length, any, ◌++◌,
}

-- `MAX_FAILED_ATTEMPTS` and `LOCKOUT_MINUTES`, from the environment
pub record Policy : Type 0 where
  pub max_failed_attempts : ℕ
  pub lockout_minutes : ℕ

pub record Row : Type 0 where
  pub failed_count : ℕ
  pub locked_until : Option ℕ

abbrev pub Table : Type 0
Table = List (String × Row)

pub get_lock : String → Table → Row
get_lock key t = elim (map_get key t) [
  | none ↦ record { failed_count = 0; locked_until = none }
  | some row ↦ row
]

abbrev pub set_lock : String → ℕ → Option ℕ → Table → Table
set_lock key failed_count locked_until t =
    map_set key (record { failed_count = failed_count; locked_until = locked_until }) t

pub clear_lock : String → Table → Table
clear_lock key t = set_lock key 0 none t

pub is_locked : String → ℕ → Table → Bool
is_locked key now t = elim (get_lock key t).locked_until [
  | none ↦ false
  | some until ↦ ltb now until
]

pub increment_failed_attempts : Policy → String → ℕ → Table → Table
increment_failed_attempts p key now t =
    let failed = (get_lock key t).failed_count + 1 in
    set_lock key failed
      (if leb p.max_failed_attempts failed
        then some (now + p.lockout_minutes * 60 * 1000)
        else none)
      t

-- the loop over the rows of `listActiveLocks`
pub list_active_locks : ℕ → Table → Table
list_active_locks now [] = []
list_active_locks now ((key, row) ∷ t) =
    let rest = list_active_locks now t in
    elim row.locked_until [
      | none ↦ rest
      | some until ↦ if ltb now until then (key, row) ∷ rest else rest
    ]

-- A sign-in as `attemptLocalLogin` of backend/src/services/users/localAuth.js sees it when it begins:
-- the account that was named, if any, and whether it has a password.
pub record Attempt : Type 0 where
  pub account : Option String
  pub has_password : Bool
  pub now : ℕ

-- `comparing` is no answer yet: the attempt waits for what bcrypt says of the password.
pub data Answer : Type 0 where
  refused signed_in : Answer
  locked : Option ℕ → Answer
  comparing : String → Answer

-- `attemptLocalLogin` to its wait for `bcrypt.compare`. The waits before it are for the database, which
-- is open, so that nothing else runs in them.
unfoldable pub begin_login : Policy → Attempt → Table → Table × Answer
unfolding is_locked increment_failed_attempts
begin_login p a t = elim a.account [
  | none ↦ (t, refused)
  | some key ↦
      if is_locked key a.now t
      then (t, locked (get_lock key t).locked_until)
      else if not a.has_password
      then (increment_failed_attempts p key a.now t, refused)
      else (t, comparing key)
]

-- the rest of `attemptLocalLogin`, once bcrypt has answered
unfoldable pub end_login : Policy → String → Bool → ℕ → Table → Table × Answer
unfolding increment_failed_attempts clear_lock
end_login p key valid now t =
    if not valid
    then (increment_failed_attempts p key now t, refused)
    else (clear_lock key t, signed_in)

-- The table, and the account of each attempt that waits for bcrypt.
pub record SignIns : Type 0 where
  pub table : Table
  pub waiting : List String

pub data Event : Type 0 where
  begins : Attempt → Event
  compared : String → Bool → ℕ → Event

-- an answer, to an attempt on an account if it named one, and when
pub record Told : Type 0 where
  pub account : Option String
  pub answer : Answer
  pub now : ℕ

abbrev enter : Answer → List String → List String
enter (comparing key) waiting = key ∷ waiting
enter _ waiting = waiting

-- one attempt less on the account
abbrev pub leave : String → List String → List String
leave key [] = []
leave key (k ∷ ks) = let rest = leave key ks in if str_eq k key then ks else k ∷ rest

abbrev pub is_waiting : String → List String → Bool
is_waiting key waiting = any (λ k. str_eq k key) waiting

-- What runs between two waits, and what is answered. bcrypt answers only who waits.
unfoldable pub step : Policy → Event → SignIns → SignIns × List Told
unfolding begin_login end_login
step p (begins a) s =
    let out = begin_login p a s.table in
    (
      record { table = out.0; waiting = enter out.1 s.waiting },
      record { account = a.account; answer = out.1; now = a.now } ∷ [],
    )
step p (compared key valid now) s =
    let out = end_login p key valid now s.table in
    if is_waiting key s.waiting
    then (
      record { table = out.0; waiting = leave key s.waiting },
      record { account = some key; answer = out.1; now = now } ∷ [],
    )
    else (s, [])

pub run : Policy → List Event → SignIns → SignIns × List Told
run p [] s = (s, [])
run p (e ∷ es) s = let one = step p e s in let rest = run p es one.0 in (rest.0, one.1 ++ rest.1)
