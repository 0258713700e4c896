-- ===== src/Locks/Lockout/Ledger.antt =====
-- What the answers of backend/src/services/users/localAuth.js say of the rows that
-- backend/src/services/users/lockout.js keeps, whatever order attempts begin and end in.
use next_explorer.Prelude.{
  ℕ, ◌+◌, ◌≡◌, ◌≤◌, ◌<◌, refl, ap, ◌∙◌, false, not, List, [], ◌∷◌, ◌++◌, none, some, String, arith,
  leb, str_eq, eq_iff, if◌then◌else◌, Option-cases, Bool-cases, inl, inr, length, All, ◌&&◌, subst,
  sym,
}
use next_explorer.Locks.Lockout.{
  Policy, Row, get_lock, is_locked, clear_lock, increment_failed_attempts, refused, signed_in,
  locked, comparing, SignIns, Event, begins, compared, Told, is_waiting, begin_login, end_login,
  step, run,
}
use next_explorer.Locks.Lockout.Attempts.{
  Account, lockout_ms, clear_row, names, waiting_on, get_lock-set, leave-own, leave-other, view,
  next, step-view, failed,
}

-- The times at which attempts on an account were refused since it was last signed in to, the latest
-- first, behind those of before.
abbrev pub note : String → Told → List ℕ → List ℕ
note key t times = if not (names key t.account) then times else elim t.answer [
  | refused ↦ t.now ∷ times
  | signed_in ↦ []
  | locked until ↦ times
  | comparing k ↦ times
]

abbrev pub refusals : String → List Told → List ℕ → List ℕ
refusals key [] times = times
refusals key (t ∷ ts) times = refusals key ts (note key t times)

refusals-append :
    (key : String) (ts us : List Told) (times : List ℕ)
    → refusals key (ts ++ us) times ≡ refusals key us (refusals key ts times)
refusals-append key [] us times = refl
refusals-append key (t ∷ ts) us times = refusals-append key ts us (note key t times)

-- The row after refusals at these times.
abbrev pub row_of : Policy → List ℕ → Row
row_of p [] = clear_row
row_of p (t ∷ ts) = record {
  failed_count = length (t ∷ ts);
  locked_until =
      if leb p.max_failed_attempts (length (t ∷ ts)) then some (t + lockout_ms p) else none;
}

row_of-count : (p : Policy) (times : List ℕ) → (row_of p times).failed_count ≡ length times
row_of-count p [] = refl
row_of-count p (t ∷ ts) = refl

step-row_of :
    (p : Policy) (e : Event) (key : String) (s : SignIns) (times : List ℕ)
    → get_lock key s.table ≡ row_of p times
    → get_lock key (step p e s).0.table ≡ row_of p (refusals key (step p e s).1 times)
unfolding step begin_login end_login is_locked increment_failed_attempts clear_lock
step-row_of p (begins a) key s times h = elim (Option-cases a.account) [
  | inl nobody ↦ ground (arith, nobody, h)
  | inr (k, named) ↦ elim (Bool-cases (str_eq k key)) [
    | inr apart ↦ ground (
      arith,
      named,
      apart,
      h,
      get_lock-set k key ((get_lock k s.table).failed_count + 1) (some (a.now + lockout_ms p))
          s.table,
      get_lock-set k key ((get_lock k s.table).failed_count + 1) none s.table,
    )
    | inl own ↦ ground (
      arith,
      named,
      own,
      (eq_iff k key).0 own,
      h,
      row_of-count p times,
      get_lock-set k key ((get_lock k s.table).failed_count + 1) (some (a.now + lockout_ms p))
          s.table,
      get_lock-set k key ((get_lock k s.table).failed_count + 1) none s.table,
    )
  ]
]
step-row_of p (compared k valid now) key s times h = elim (Bool-cases (str_eq k key)) [
  | inr apart ↦ ground (
    arith,
    apart,
    h,
    get_lock-set k key 0 none s.table,
    get_lock-set k key ((get_lock k s.table).failed_count + 1) (some (now + lockout_ms p)) s.table,
    get_lock-set k key ((get_lock k s.table).failed_count + 1) none s.table,
  )
  | inl own ↦ ground (
    arith,
    own,
    (eq_iff k key).0 own,
    h,
    row_of-count p times,
    get_lock-set k key 0 none s.table,
    get_lock-set k key ((get_lock k s.table).failed_count + 1) (some (now + lockout_ms p)) s.table,
    get_lock-set k key ((get_lock k s.table).failed_count + 1) none s.table,
  )
]

-- Whatever attempts begin and in whatever order bcrypt answers them, the row of an account follows from
-- what was answered, if it does so at the start: the count is that of the attempts on it that were
-- refused since it was last signed in to, and it has a lock exactly where there are such and they are
-- as many as the limit or more, until the lockout time after the last of them.
pub run-row_of :
    (p : Policy) (key : String) (es : List Event) (s : SignIns) (times : List ℕ)
    → get_lock key s.table ≡ row_of p times
    → get_lock key (run p es s).0.table ≡ row_of p (refusals key (run p es s).1 times)
unfolding run
run-row_of p key [] s times h = h
run-row_of p key (e ∷ es) s times h =
    let one = step p e s in
    let later =
      run-row_of p key es one.0 (refusals key one.1 times) (step-row_of p e key s times h) in
    later ∙ ap (row_of p) (sym (refusals-append key one.1 (run p es one.0).1 times))

-- Between two times nobody's password for the account is right.
abbrev pub IsWrongBetween : String → ℕ → ℕ → Event → Type 0
IsWrongBetween key from until (begins a) = (from ≤ a.now) × (a.now < until)
IsWrongBetween key from until (compared k valid now) =
    (from ≤ now) × (now < until) × ((str_eq k key && valid) ≡ false)

-- Shut at least until then.
abbrev pub IsShutPast : Policy → ℕ → Row → Type 0
IsShutPast p until row =
    (p.max_failed_attempts ≤ row.failed_count)
    × ((u : ℕ) × (row.locked_until ≡ some u) × (until ≤ u))

next-shut :
    (p : Policy) (key : String) (from until : ℕ) (e : Event) (acct : Account)
    → until ≤ from + lockout_ms p
    → IsWrongBetween key from until e
    → IsShutPast p until acct.row
    → IsShutPast p until (next p key e acct).row
unfolding next
next-shut p key from until (begins a) acct short (early, late) (full, (u, shut, past)) =
    let same : acct.row ≡ (next p key (begins a) acct).row = ground (arith, shut) in
    subst (IsShutPast p until) same (full, (u, shut, past))
next-shut p key from until (compared k valid now) acct short wrong (full, (u, shut, past)) =
    elim (Bool-cases (str_eq k key && not (leb acct.waiting 0))) [
      | inr idle ↦
          let same : acct.row ≡ (next p key (compared k valid now) acct).row =
            ground (arith, idle) in
          subst (IsShutPast p until) same (full, (u, shut, past))
      | inl waits ↦
          let same : failed p now acct.row ≡ (next p key (compared k valid now) acct).row =
            ground (arith, waits, wrong) in
          subst (IsShutPast p until) same
            (omega (arith, full), (now + lockout_ms p, ground (arith, full), omega (arith, wrong)))
    ]

step-shut :
    (p : Policy) (key : String) (from until : ℕ) (e : Event) (s : SignIns)
    → until ≤ from + lockout_ms p
    → IsWrongBetween key from until e
    → IsShutPast p until (get_lock key s.table)
    → IsShutPast p until (get_lock key (step p e s).0.table)
step-shut p key from until e s short wrong h =
    subst (IsShutPast p until) (ap (λ acct. acct.row) (sym (step-view p e key s)))
      (next-shut p key from until e (view key s) short wrong h)

-- While the account is shut, each refusal is one attempt less that waits.
step-bounded :
    (p : Policy) (key : String) (from until : ℕ) (e : Event) (s : SignIns) (times : List ℕ)
    → IsWrongBetween key from until e
    → IsShutPast p until (get_lock key s.table)
    → length (refusals key (step p e s).1 times) + waiting_on key (step p e s).0.waiting
      ≡ length times + waiting_on key s.waiting
unfolding step begin_login end_login is_locked
step-bounded p key from until (begins a) s times (early, late) (full, (u, shut, past)) =
    elim (Option-cases a.account) [
      | inl nobody ↦ ground (arith, nobody)
      | inr (k, named) ↦ ground (arith, named, shut, eq_iff k key)
    ]
step-bounded p key from until (compared k valid now) s times wrong (full, (u, shut, past)) =
    elim (Bool-cases (is_waiting k s.waiting)) [
      | inr idle ↦ ground (arith, idle)
      | inl waits ↦ elim (Bool-cases (str_eq k key)) [
        | inr apart ↦ ground (arith, waits, apart, leave-other key k s.waiting apart)
        | inl own ↦
            ground (arith, waits, own, wrong, (eq_iff k key).0 own, leave-own k s.waiting waits)
      ]
    ]

run-shut_behind :
    (p : Policy) (key : String) (from until : ℕ) (es : List Event) (s : SignIns) (times : List ℕ)
    → until ≤ from + lockout_ms p
    → All (IsWrongBetween key from until) es
    → IsShutPast p until (get_lock key s.table)
    → IsShutPast p until (get_lock key (run p es s).0.table)
      × (length (refusals key (run p es s).1 times) + waiting_on key (run p es s).0.waiting
          ≡ length times + waiting_on key s.waiting)
unfolding run
run-shut_behind p key from until [] s times short wrong h = (h, refl)
run-shut_behind p key from until (e ∷ es) s times short wrong h =
    let one = step p e s in
    let (shut, later) =
      run-shut_behind p key from until es one.0 (refusals key one.1 times) short wrong.1
        (step-shut p key from until e s short wrong.0 h) in
    (
      shut,
      ground (
        arith,
        refusals-append key one.1 (run p es one.0).1 times,
        later,
        step-bounded p key from until e s times wrong.0 h,
      ),
    )

-- Where an account is locked, and nobody's password for it is right, whatever begins and is answered
-- before the lock's time is over leaves it locked until then or later, and only attempts that waited
-- already when these events began have their passwords compared: those on it that are refused and those
-- that wait still are together as many as waited then. The lock's time is at most the lockout time
-- later than these events, as that of a lock that was set before them.
pub run-shut :
    (p : Policy) (key : String) (from until : ℕ) (es : List Event) (s : SignIns)
    → until ≤ from + lockout_ms p
    → All (IsWrongBetween key from until) es
    → IsShutPast p until (get_lock key s.table)
    → IsShutPast p until (get_lock key (run p es s).0.table)
      × (length (refusals key (run p es s).1 []) + waiting_on key (run p es s).0.waiting
          ≡ waiting_on key s.waiting)
run-shut p key from until es s short wrong h =
    let (shut, bounded) = run-shut_behind p key from until es s [] short wrong h in
    (shut, ground (arith, bounded))
