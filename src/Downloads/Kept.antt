-- ===== src/Downloads/Kept.antt =====
-- What the functions of backend/src/services/downloadPlans.js keep of the plans.
use next_explorer.Prelude.{
  ℕ, suc, ◌+◌, ◌≤◌, ◌≡◌, ap, sym, ◌∙◌, subst, inl, inr, Bool, not, ◌||◌, List, [], ◌∷◌, some, arith,
  Text, text_eq, text_eq_iff, length, filter, All, All-filter, Bool-cases, Option-cases, leb,
}
use next_explorer.Downloads.Plans.{
  Plan, Plans, idle_ms, max_plans, is_given, is_idle, newest_of, sweep, get, set, read_plan,
}

abbrev pub used_again : ℕ → Plan → Plan
used_again now plan = record plan { last_used_at = now }

-- A plan, but for when it was last used.
abbrev pub IsPlanOf : Plan → Plan → Type 0
IsPlanOf made plan = record made { last_used_at = plan.last_used_at } ≡ plan

-- What holds of a plan whenever it was last used.
pub record IsLasting (K : Text → Plan → Type 0) : Type 0 where
  pub touched :
      (token : Text) (plan : Plan) (now : ℕ)
      → K token plan
      → K token (record plan { last_used_at = now })

abbrev pub Each : (Text → Plan → Type 0) → Plans → Type 0
Each K plans = All (λ p. K p.0 p.1) plans

module _ (K : Text → Plan → Type 0) where
  pub newest_of-Each : (plans : Plans) → Each K plans → Each K (newest_of plans)
  newest_of-Each [] h = tt
  newest_of-Each (p ∷ plans) h = elim (Bool-cases (leb (length (p ∷ plans)) max_plans)) [
    | inl few ↦
        subst (Each K) (let same : p ∷ plans ≡ newest_of (p ∷ plans) = ground (arith, few) in same)
          h
    | inr many ↦
        subst (Each K)
          (let same : newest_of plans ≡ newest_of (p ∷ plans) = ground (arith, many) in same)
          (newest_of-Each plans h.1)
  ]

  pub sweep-Each : (now : ℕ) (plans : Plans) → Each K plans → Each K (sweep now plans)
  unfolding sweep
  sweep-Each now plans h =
      newest_of-Each (filter (λ (token, plan). not (is_idle now plan)) plans)
        (All-filter (λ p. K p.0 p.1) (λ (token, plan). not (is_idle now plan)) plans h)

  pub set-Each :
      (token : Text) (plan : Plan) (plans : Plans)
      → K token plan
      → Each K plans
      → Each K (set token plan plans)
  set-Each token plan [] k h = (k, tt)
  set-Each token plan ((t, old) ∷ plans) k h = elim (Bool-cases (text_eq t token)) [
    | inl hit ↦
        let named : token ≡ t = sym ((text_eq_iff t token).0 hit) in
        subst (Each K)
          (let same : (t, plan) ∷ plans ≡ set token plan ((t, old) ∷ plans) = ground (arith, hit) in
            same)
          (subst (λ t. K t plan) named k, h.1)
    | inr miss ↦
        subst (Each K)
          (let same : (t, old) ∷ set token plan plans ≡ set token plan ((t, old) ∷ plans) =
              ground (arith, miss) in
            same)
          (h.0, set-Each token plan plans k h.1)
  ]

  pub get-Each :
      (token : Text) (plan : Plan) (plans : Plans)
      → get token plans ≡ some plan
      → Each K plans
      → K token plan
  get-Each token plan [] found h = absurd (ground (arith, found))
  get-Each token plan ((t, old) ∷ plans) found h = elim (Bool-cases (text_eq t token)) [
    | inl hit ↦
        let named : t ≡ token = (text_eq_iff t token).0 hit in
        let same : old ≡ plan = ground (arith, hit, found) in
        subst (λ p. K token p) same (subst (λ t. K t old) named h.0)
    | inr miss ↦ get-Each token plan plans (ground (arith, miss, found)) h.1
  ]

-- What a plan that is read was: it is the caller's, it stands in the table, and it was used in the
-- last ten minutes; it is given as it stands, but that it is used now.
pub record IsRead (token owner : Text) (now : ℕ) (plans : Plans) (plan : Plan) : Type 0 where
  pub before : Plan
  pub found : get token plans ≡ some before
  pub given : plan ≡ record before { last_used_at = now }
  pub mine : plan.owner_key ≡ owner
  pub used : now ≤ before.last_used_at + idle_ms

pub read_plan-IsRead :
    (token owner : Text) (now : ℕ) (plans : Plans) (plan : Plan)
    → (read_plan token owner now plans).1 ≡ some plan
    → IsRead token owner now plans plan
unfolding read_plan
read_plan-IsRead token owner now plans plan h =
    elim (Bool-cases (not (is_given token) || not (is_given owner))) [
      | inl missing ↦ absurd (ground (arith, missing, h))
      | inr there ↦ elim (Option-cases (get token plans)) [
        | inl nothing ↦ absurd (ground (arith, there, nothing, h))
        | inr (before, found) ↦ elim (Bool-cases (is_idle now before)) [
          | inl idle ↦ absurd (ground (arith, there, found, idle, h))
          | inr fresh ↦ elim (Bool-cases (text_eq before.owner_key owner)) [
            | inr other ↦ absurd (ground (arith, there, found, fresh, other, h))
            | inl mine ↦
                let given : plan ≡ record before { last_used_at = now } =
                  ground (arith, there, found, fresh, mine, h) in
                record {
                  before = before;
                  found = found;
                  given = given;
                  mine = ap (λ p. p.owner_key) given ∙ (text_eq_iff before.owner_key owner).0 mine;
                  used = ground (arith, fresh);
                }
          ]
        ]
      ]
    ]

pub length-newest_of : (plans : Plans) → length (newest_of plans) ≤ max_plans
length-newest_of [] = omega arith
length-newest_of (p ∷ plans) = ground (arith, length-newest_of plans)

pub length-set :
    (token : Text) (plan : Plan) (plans : Plans)
    → length (set token plan plans) ≤ suc (length plans)
length-set token plan [] = omega arith
length-set token plan ((t, old) ∷ plans) = ground (arith, length-set token plan plans)

pub length-set_found :
    (token : Text) (old plan : Plan) (plans : Plans)
    → get token plans ≡ some old
    → length (set token plan plans) ≡ length plans
length-set_found token old plan [] h = absurd (ground (arith, h))
length-set_found token old plan ((t, other) ∷ plans) h = elim (Bool-cases (text_eq t token)) [
  | inl hit ↦ ground (arith, hit)
  | inr miss ↦ ground (arith, miss, length-set_found token old plan plans (ground (arith, miss, h)))
]

pub length-filter_le {ℓ} :
    {A : Type ℓ} (p : A → Bool) (xs : List A) → length (filter p xs) ≤ length xs
length-filter_le p [] = omega arith
length-filter_le p (x ∷ xs) = ground (arith, length-filter_le p xs)
