-- ===== src/Locks/Wopi/Examples.antt =====
-- Two editors and one file.
use next_explorer.Prelude.{
  ℕ, ◌≡◌, refl, ◌≢◌, ◌↔◌, List, [], ◌∷◌, none, some, String, arith, str_eq, eq_iff, if◌then◌else◌,
  map_get,
}
use mathlib.Core.Option
use next_explorer.Locks.Wopi.{
  Locks, Call, granted, locks, unlocks, relocks, step, run, try_lock, try_unlock, try_refresh_lock,
  try_unlock_and_relock, get_lock, purge_if_expired,
}
use next_explorer.Locks.Wopi.Exclusion.{
  after_call, live, held_until, step-get, run_foreign, granted_iff, IsOpenTo,
}

abbrev one_lock : Locks
one_lock = ("doc", record { lock_id = "alice"; expires_at_ms = 100 }) ∷ []

abbrev rivals : List (ℕ × Call)
rivals =
    (10, locks "doc" "bob" 1000)
    ∷ (20, unlocks "doc" "bob")
    ∷ (30, locks "other" "alice" 50)
    ∷ (99, relocks "doc" "bob" "carol" 5)
    ∷ []

run-rivals : map_get "doc" (run one_lock rivals) ≡ some (held_until "alice" 100)
unfolding run step purge_if_expired
run-rivals = refl

after_expiry :
    map_get "doc" (step one_lock (100, locks "doc" "bob" 1000)) ≡ some (held_until "bob" 1100)
unfolding step purge_if_expired
after_expiry = refl

step-get_example : map_get "doc" (step one_lock (100, locks "doc" "bob" 1000)) ≡ (
    if str_eq "doc" "doc"
    then after_call 100 (locks "doc" "bob" 1000) (live "doc" 100 one_lock)
    else map_get "doc" one_lock)
step-get_example = step-get one_lock 100 (locks "doc" "bob" 1000) "doc"

bob_is_not_alice : ◌≢◌ {A = String} "bob" "alice"
bob_is_not_alice = ground (arith, eq_iff "bob" "alice")

other_is_not_doc : ◌≢◌ {A = String} "doc" "other"
other_is_not_doc = ground (arith, eq_iff "doc" "other")

run_foreign_example : map_get "doc" (run one_lock rivals) ≡ some (held_until "alice" 100)
run_foreign_example = run_foreign one_lock "doc" "alice" 100 rivals refl (
  ((λ e. bob_is_not_alice), omega arith),
  (
    ((λ e. bob_is_not_alice), omega arith),
    (
      ((λ e. absurd (other_is_not_doc e)), omega arith),
      (((λ e. bob_is_not_alice), omega arith), tt),
    ),
  ),
)

granted_iff_example :
    (((try_lock "doc" "bob" 50 9 one_lock).1 ≡ granted) ↔ IsOpenTo "bob" (live "doc" 50 one_lock))
    × (((try_unlock "doc" "bob" 50 one_lock).1 ≡ granted) ↔ IsOpenTo "bob" (live "doc" 50 one_lock))
    × (((try_unlock_and_relock "doc" "bob" "carol" 50 9 one_lock).1 ≡ granted)
        ↔ IsOpenTo "bob" (live "doc" 50 one_lock))
    × (((try_refresh_lock "doc" "bob" 50 9 one_lock).1 ≡ granted)
        ↔ ((live "doc" 50 one_lock ≢ none) × IsOpenTo "bob" (live "doc" 50 one_lock)))
    × ((get_lock "doc" 50 one_lock).1 ≡ Option.map (λ e. e.lock_id) (live "doc" 50 one_lock))
granted_iff_example = granted_iff "doc" "bob" "carol" 50 9 one_lock
