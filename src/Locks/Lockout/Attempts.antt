-- ===== src/Locks/Lockout/Attempts.antt =====
-- What repeated sign-in attempts lead to under backend/src/services/users/lockout.js, in whatever order
-- they begin and bcrypt answers.
use next_explorer.Prelude.{
  ℕ, suc, ◌+◌, ◌-◌, ◌*◌, ◌≡◌, refl, Bool, true, false, not, List, [], ◌∷◌, Option, none, some,
  String, arith, ltb, leb, str_eq, eq_iff, if◌then◌else◌, map_get-set, Option-cases, Bool-cases,
  inl, inr, length, filter,
}
use next_explorer.Locks.Lockout.{
  Policy, Row, Table, get_lock, set_lock, is_locked, clear_lock, increment_failed_attempts, SignIns,
  Event, begins, compared, leave, is_waiting, begin_login, end_login, step,
}

abbrev pub lockout_ms : Policy → ℕ
lockout_ms p = p.lockout_minutes * 60 * 1000

abbrev pub clear_row : Row
clear_row = record { failed_count = 0; locked_until = none }

pub get_lock-set :
    (k j : String) (n : ℕ) (u : Option ℕ) (t : Table)
    → get_lock j (set_lock k n u t)
      ≡ (if str_eq k j then record { failed_count = n; locked_until = u } else get_lock j t)
unfolding get_lock
get_lock-set k j n u t =
    ground (arith, map_get-set k j (record { failed_count = n; locked_until = u }) t)

-- How many attempts on an account wait.
abbrev pub waiting_on : String → List String → ℕ
waiting_on key waiting = length (filter (λ k. str_eq k key) waiting)

pub leave-own :
    (key : String) (ws : List String)
    → is_waiting key ws ≡ true
    → suc (waiting_on key (leave key ws)) ≡ waiting_on key ws
leave-own key [] h = ground arith
leave-own key (w ∷ ws) h = elim (Bool-cases (str_eq w key)) [
  | inl own ↦ ground (arith, own)
  | inr other ↦ ground (arith, other, leave-own key ws (ground (arith, other)))
]

pub leave-other :
    (key k : String) (ws : List String)
    → str_eq k key ≡ false
    → waiting_on key (leave k ws) ≡ waiting_on key ws
leave-other key k [] apart = refl
leave-other key k (w ∷ ws) apart = elim (Bool-cases (str_eq w k)) [
  | inl own ↦ ground (arith, own, apart, (eq_iff w k).0 own)
  | inr other ↦ ground (arith, other, leave-other key k ws apart)
]

-- Nobody waits on an account that is not waited on.
none_waiting : (key : String) (ws : List String) → is_waiting key ws ≡ false → waiting_on key ws ≡ 0
none_waiting key [] h = refl
none_waiting key (w ∷ ws) h = ground (arith, none_waiting key ws)

-- What is known of one account.
pub record Account : Type 0 where
  pub row : Row
  pub waiting : ℕ

abbrev pub view : String → SignIns → Account
view key s = record { row = get_lock key s.table; waiting = waiting_on key s.waiting }

-- One more failure: the specification.
abbrev pub failed : Policy → ℕ → Row → Row
failed p now row = record {
  failed_count = suc row.failed_count;
  locked_until =
      if leb p.max_failed_attempts (suc row.failed_count) then some (now + lockout_ms p) else none;
}

abbrev pub is_shut : ℕ → Row → Bool
is_shut now row = elim row.locked_until [ none ↦ false | some until ↦ ltb now until ]

abbrev pub names : String → Option String → Bool
names key none = false
names key (some k) = str_eq k key

-- What an event makes of the account that it names: the specification. A lock keeps attempts from
-- beginning, and has no say in how one ends that waits already.
unfoldable pub next : Policy → String → Event → Account → Account
next p key (begins a) acct =
    if not (names key a.account)
    then acct
    else if is_shut a.now acct.row
    then acct
    else if a.has_password
    then record acct { waiting = suc acct.waiting }
    else record acct { row = failed p a.now acct.row }
next p key (compared k valid now) acct =
    if not (str_eq k key) then acct else if leb acct.waiting 0 then acct else record {
      row = if valid then clear_row else failed p now acct.row;
      waiting = acct.waiting - 1;
    }

-- Each event changes what is known of the account that it names as the specification says, and nothing
-- of any other.
pub step-view :
    (p : Policy) (e : Event) (key : String) (s : SignIns)
    → view key (step p e s).0 ≡ next p key e (view key s)
unfolding step begin_login end_login next is_locked increment_failed_attempts clear_lock
step-view p (begins a) key s = elim (Option-cases a.account) [
  | inl nobody ↦ ground (arith, nobody)
  | inr (k, named) ↦ ground (
    arith,
    named,
    eq_iff k key,
    get_lock-set k key ((get_lock k s.table).failed_count + 1) (some (a.now + lockout_ms p))
        s.table,
    get_lock-set k key ((get_lock k s.table).failed_count + 1) none s.table,
  )
]
step-view p (compared k valid now) key s = elim (Bool-cases (str_eq k key)) [
  | inr apart ↦ ground (
    arith,
    apart,
    leave-other key k s.waiting apart,
    get_lock-set k key 0 none s.table,
    get_lock-set k key ((get_lock k s.table).failed_count + 1) (some (now + lockout_ms p)) s.table,
    get_lock-set k key ((get_lock k s.table).failed_count + 1) none s.table,
  )
  | inl own ↦
      let same = (eq_iff k key).0 own in
      elim (Bool-cases (is_waiting k s.waiting)) [
        | inl waits ↦ ground (
          arith,
          own,
          same,
          waits,
          leave-own k s.waiting waits,
          get_lock-set k key 0 none s.table,
          get_lock-set k key ((get_lock k s.table).failed_count + 1) (some (now + lockout_ms p))
              s.table,
          get_lock-set k key ((get_lock k s.table).failed_count + 1) none s.table,
        )
        | inr idle ↦ ground (arith, own, same, idle, none_waiting k s.waiting idle)
      ]
]
