-- ===== src/Downloads/Runs.antt =====
-- What holds of the plans of backend/src/services/downloadPlans.js whatever is made and read.
use next_explorer.Prelude.{
  ℕ, suc, ◌≤◌, ◌≡◌, ◌⊎◌, refl, sym, subst, inl, inr, not, ◌||◌, List, [], ◌∷◌, map, none, some,
  arith, Text, text_eq, length, filter, All, All-filter, Bool-cases, Option-cases,
}
use next_explorer.Downloads.Plans.{
  Plan, Plans, Selection, max_plans, is_given, is_idle, newest_of, sweep, get, set, new_plan,
  create_plan, read_plan,
}
use next_explorer.Downloads.Names.{paths-distinct}
use next_explorer.Downloads.Kept.{
  IsLasting, Each, sweep-Each, set-Each, get-Each, IsRead, read_plan-IsRead, length-newest_of,
  length-set, length-set_found, length-filter_le,
}

pub data Event : Type 0 where
  creates : Text → ℕ → Text → Selection → Event
  reads : Text → Text → ℕ → Event

All-both {ℓ κ μ} :
    {A : Type ℓ} (P : A → Type κ) (Q : A → Type μ) (f : (a : A) → P a → Q a) (xs : List A)
    → All P xs
    → All Q xs
All-both P Q f [] h = tt
All-both P Q f (x ∷ xs) h = (f x h.0, All-both P Q f xs h.1)

module _ (to_lower_case : Text → Text) where
  abbrev pub step : Event → Plans → Plans
  step (creates token now owner s) plans =
      elim (create_plan to_lower_case token now owner s plans) [ none ↦ plans | some after ↦ after ]
  step (reads token owner now) plans = (read_plan token owner now plans).0

  abbrev pub run : List Event → Plans → Plans
  run [] plans = plans
  run (e ∷ es) plans = run es (step e plans)

  abbrev pub IsMade : Event → Text → Plan → Type 0
  IsMade (creates t now owner s) token plan =
      (t ≡ token)
      × (plan.owner_key ≡ owner)
      × (plan.created_at ≡ now)
      × (plan.base_path ≡ s.base_path)
      × (plan.archive ≡ s.archive)
      × (map (λ f. f.path) plan.files ≡ map (λ f. f.path) s.files)
  IsMade (reads t owner now) token plan = ⊥

  abbrev pub MadeIn : List Event → Text → Plan → Type 0
  MadeIn [] token plan = ⊥
  MadeIn (e ∷ es) token plan = IsMade e token plan ⊎ MadeIn es token plan

  abbrev OrMade : (Text → Plan → Type 0) → Event → Text → Plan → Type 0
  OrMade K e token plan = K token plan ⊎ IsMade e token plan

  IsMade-touched :
      (e : Event) (token : Text) (plan : Plan) (now : ℕ)
      → IsMade e token plan
      → IsMade e token (record plan { last_used_at = now })
  IsMade-touched (creates t n owner s) token plan now made = made
  IsMade-touched (reads t owner n) token plan now made = made

  MadeIn-touched :
      (es : List Event) (token : Text) (plan : Plan) (now : ℕ)
      → MadeIn es token plan
      → MadeIn es token (record plan { last_used_at = now })
  MadeIn-touched [] token plan now made = made
  MadeIn-touched (e ∷ es) token plan now (inl made) = inl (IsMade-touched e token plan now made)
  MadeIn-touched (e ∷ es) token plan now (inr later) = inr (MadeIn-touched es token plan now later)

  OrMade-IsLasting : (K : Text → Plan → Type 0) (e : Event) → IsLasting K → IsLasting (OrMade K e)
  OrMade-IsLasting K e lasting = record {
    touched = λ token plan now k. elim k [
      | inl known ↦ inl (lasting.touched token plan now known)
      | inr made ↦ inr (IsMade-touched e token plan now made)
    ];
  }

  step-Each :
      (K : Text → Plan → Type 0) (e : Event) (plans : Plans)
      → IsLasting K
      → Each K plans
      → Each (OrMade K e) (step e plans)
  unfolding create_plan read_plan
  step-Each K (creates token now owner s) plans lasting h =
      let known =
        All-both (λ p. K p.0 p.1) (λ p. OrMade K (creates token now owner s) p.0 p.1) (λ p k. inl k)
          plans h in
      elim (Bool-cases (is_given owner)) [
        | inr nobody ↦
            subst (Each (OrMade K (creates token now owner s)))
              (let same : plans ≡ step (creates token now owner s) plans = ground (arith, nobody) in
                same)
              known
        | inl somebody ↦
            let plan = new_plan to_lower_case owner now s in
            subst (Each (OrMade K (creates token now owner s)))
              (let same : set token plan (sweep now plans)
                    ≡ step (creates token now owner s) plans =
                  ground (arith, somebody) in
                same)
              (set-Each (OrMade K (creates token now owner s)) token plan (sweep now plans)
                (inr (refl, refl, refl, refl, refl, paths-distinct to_lower_case s.files))
                (sweep-Each (OrMade K (creates token now owner s)) now plans known))
      ]
  step-Each K (reads token owner now) plans lasting h =
      let e = reads token owner now in
      let known = All-both (λ p. K p.0 p.1) (λ p. OrMade K e p.0 p.1) (λ p k. inl k) plans h in
      elim (Bool-cases (not (is_given token) || not (is_given owner))) [
        | inl missing ↦
            subst (Each (OrMade K e))
              (let same : plans ≡ step e plans = ground (arith, missing) in same) known
        | inr there ↦ elim (Option-cases (get token plans)) [
          | inl nothing ↦
              subst (Each (OrMade K e))
                (let same : plans ≡ step e plans = ground (arith, there, nothing) in same) known
          | inr (plan, found) ↦ elim (Bool-cases (is_idle now plan)) [
            | inl idle ↦
                subst (Each (OrMade K e))
                  (let same : filter (λ (t, p). not (text_eq t token)) plans ≡ step e plans =
                      ground (arith, there, found, idle) in
                    same)
                  (All-filter (λ p. OrMade K e p.0 p.1) (λ (t, p). not (text_eq t token)) plans
                    known)
            | inr fresh ↦ elim (Bool-cases (text_eq plan.owner_key owner)) [
              | inr other ↦
                  subst (Each (OrMade K e))
                    (let same : plans ≡ step e plans = ground (arith, there, found, fresh, other) in
                      same)
                    known
              | inl mine ↦
                  let used = record plan { last_used_at = now } in
                  subst (Each (OrMade K e))
                    (let same : set token used plans ≡ step e plans =
                        ground (arith, there, found, fresh, mine) in
                      same)
                    (set-Each (OrMade K e) token used plans
                      (inl (lasting.touched token plan now (get-Each K token plan plans found h)))
                      known)
            ]
          ]
        ]
      ]

  run-Each :
      (K : Text → Plan → Type 0) (es : List Event) (plans : Plans)
      → IsLasting K
      → Each K plans
      → Each (λ token plan. K token plan ⊎ MadeIn es token plan) (run es plans)
  run-Each K [] plans lasting h =
      All-both (λ p. K p.0 p.1) (λ p. K p.0 p.1 ⊎ MadeIn [] p.0 p.1) (λ p k. inl k) plans h
  run-Each K (e ∷ es) plans lasting h =
      All-both (λ p. OrMade K e p.0 p.1 ⊎ MadeIn es p.0 p.1)
        (λ p. K p.0 p.1 ⊎ MadeIn (e ∷ es) p.0 p.1)
        (λ p k. elim k [
          | inl (inl known) ↦ inl known
          | inl (inr made) ↦ inr (inl made)
          | inr later ↦ inr (inr later)
        ])
        (run es (step e plans))
        (run-Each (OrMade K e) es (step e plans) (OrMade-IsLasting K e lasting)
          (step-Each K e plans lasting h))

  nothing_known : IsLasting (λ token plan. ⊥)
  nothing_known = record { touched = λ token plan now k. k }

  -- Whatever was made and read before, a plan that is read is the caller's own, was used in the last
  -- ten minutes, and is one that was made under that token: for that owner, at the time of its
  -- making, with the place and the archive that were asked for and the same files in the same order,
  -- but for the names under which they are given.
  pub read_plan-MadeIn :
      (es : List Event) (token owner : Text) (now : ℕ) (plan : Plan)
      → (read_plan token owner now (run es [])).1 ≡ some plan
      → IsRead token owner now (run es []) plan × MadeIn es token plan
  read_plan-MadeIn es token owner now plan h =
      let read = read_plan-IsRead token owner now (run es []) plan h in
      let known = run-Each (λ token plan. ⊥) es [] nothing_known tt in
      let made : MadeIn es token read.before =
        elim (get-Each (λ token plan. ⊥ ⊎ MadeIn es token plan) token read.before (run es [])
          read.found known) [ inl absurdity ↦ absurd absurdity | inr made ↦ made ] in
      (
        read,
        subst (MadeIn es token) (sym read.given) (MadeIn-touched es token read.before now made),
      )

  -- Never more than one plan above the bound.
  few-step :
      (e : Event) (plans : Plans)
      → length plans ≤ suc max_plans
      → length (step e plans) ≤ suc max_plans
  unfolding create_plan read_plan sweep
  few-step (creates token now owner s) plans few = elim (Bool-cases (is_given owner)) [
    | inr nobody ↦ ground (arith, nobody, few)
    | inl somebody ↦
        let fresh = filter (λ (token, plan). not (is_idle now plan)) plans in
        ground (
          arith,
          somebody,
          length-newest_of fresh,
          length-set token (new_plan to_lower_case owner now s) (newest_of fresh),
        )
  ]
  few-step (reads token owner now) plans few = elim (Option-cases (get token plans)) [
    | inl nothing ↦ ground (arith, few, nothing)
    | inr (plan, found) ↦ ground (
      arith,
      few,
      found,
      length-filter_le (λ (t, p). not (text_eq t token)) plans,
      length-set_found token plan (record plan { last_used_at = now }) plans found,
    )
  ]

  -- Whatever is made and read, there are never more than 201 plans: the bound is kept before each plan
  -- that is made.
  pub length-run :
      (es : List Event) (plans : Plans)
      → length plans ≤ suc max_plans
      → length (run es plans) ≤ suc max_plans
  length-run [] plans few = few
  length-run (e ∷ es) plans few = length-run es (step e plans) (few-step e plans few)
