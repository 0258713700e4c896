-- ===== src/Downloads/Plans.antt =====
-- The plans of backend/src/services/downloadPlans.js, in the order in which they were made. The clock
-- and the token that is drawn are arguments.
use next_explorer.Prelude.{
  ℕ, ◌+◌, ◌*◌, Bool, true, false, not, ◌||◌, List, [], ◌∷◌, ◌++◌, Option, none, some, if◌then◌else◌,
  Text, codes, text_eq, ltb, leb, length, filter,
}
use next_explorer.Downloads.Names.{File, with_distinct_names}

abbrev pub idle_ms : ℕ
idle_ms = 10 * 60 * 1000

abbrev pub max_plans : ℕ
max_plans = 200

pub record Plan : Type 0 where
  pub owner_key : Text
  pub base_path : Text
  pub files : List File
  pub archive : Option Text
  pub created_at : ℕ
  pub last_used_at : ℕ

abbrev pub Plans : Type 0
Plans = List (Text × Plan)

abbrev pub is_given : Text → Bool
is_given [] = false
is_given (c ∷ cs) = true

abbrev given : Option Text → Option Text
given none = none
given (some []) = none
given (some (c ∷ cs)) = some (c ∷ cs)

-- The ids of the guest session and of the account, where there are such.
unfoldable pub owner_key_for : Option Text → Option Text → Option Text
owner_key_for guest_session_id user_id = elim (given guest_session_id) [
  | some id ↦ some (codes "guest:" ++ id)
  | none ↦ elim (given user_id) [ some id ↦ some (codes "user:" ++ id) | none ↦ none ]
]

abbrev pub is_idle : ℕ → Plan → Bool
is_idle now plan = ltb (plan.last_used_at + idle_ms) now

-- the loop that lets the oldest go
abbrev pub newest_of : Plans → Plans
newest_of [] = []
newest_of (p ∷ ps) =
    let rest = newest_of ps in if leb (length (p ∷ ps)) max_plans then p ∷ ps else rest

unfoldable pub sweep : ℕ → Plans → Plans
sweep now plans = newest_of (filter (λ (token, plan). not (is_idle now plan)) plans)

abbrev pub get : Text → Plans → Option Plan
get token [] = none
get token ((t, plan) ∷ plans) =
    let rest = get token plans in if text_eq t token then some plan else rest

-- `plans.set(token, plan)`
abbrev pub set : Text → Plan → Plans → Plans
set token plan [] = (token, plan) ∷ []
set token plan ((t, old) ∷ plans) =
    let rest = set token plan plans in
    if text_eq t token then (t, plan) ∷ plans else (t, old) ∷ rest

pub record Selection : Type 0 where
  pub base_path : Text
  pub files : List File
  pub archive : Option Text

module _ (to_lower_case : Text → Text) where
  abbrev pub new_plan : Text → ℕ → Selection → Plan
  new_plan owner now s = record {
    owner_key = owner;
    base_path = s.base_path;
    files = with_distinct_names to_lower_case s.files;
    archive = s.archive;
    created_at = now;
    last_used_at = now;
  }

  -- `none` where it throws, for want of an owner
  unfoldable pub create_plan : Text → ℕ → Text → Selection → Plans → Option Plans
  unfolding sweep with_distinct_names
  create_plan token now owner s plans =
      if is_given owner then some (set token (new_plan owner now s) (sweep now plans)) else none

unfoldable pub read_plan : Text → Text → ℕ → Plans → Plans × Option Plan
read_plan token owner now plans =
    if not (is_given token) || not (is_given owner) then (plans, none) else elim (get token plans) [
      | none ↦ (plans, none)
      | some plan ↦
          let used = record plan { last_used_at = now } in
          if is_idle now plan
          then (filter (λ (t, p). not (text_eq t token)) plans, none)
          else if not (text_eq plan.owner_key owner)
          then (plans, none)
          else (set token used plans, some used)
    ]
