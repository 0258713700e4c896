-- ===== src/SecondFactor/Replay.antt =====
-- No step of a one-time code and no recovery code of backend/src/services/users/twoFactor.js serves
-- twice.
use next_explorer.Prelude.{
  ℕ, ◌+◌, ◌≤◌, ◌≡◌, refl, ap, sym, ◌∙◌, subst, inl, inr, false, List, [], ◌∷◌, ◌++◌, Option, some,
  arith, Text, text_eq, text_eq_iff, find?, Bool-cases, if◌then◌else◌,
}
use next_explorer.SecondFactor.Totp.{IsLater}
use next_explorer.SecondFactor.TwoFactor.{
  Crypto, Tables, Answer, denied, by_phone, by_paper, thrown, used_at_step, credential_for,
  codes_left, verify_second_factor,
}
use next_explorer.SecondFactor.Updates.{update_credential-other, codes_left-use_code}
use next_explorer.SecondFactor.Attempts.{last_step_of, IsProven, verify_second_factor-IsProven}

pub record Attempt : Type 0 where
  pub user : Text
  pub code : Text
  pub now : ℕ

-- What attempts are answered, in their order, with whose they are.
abbrev pub answers : Crypto → List Attempt → Tables → List (Text × Answer)
answers x [] db = []
answers x (a ∷ later) db =
    let out = verify_second_factor x a.user a.code a.now db in
    (a.user, out.1) ∷ answers x later out.0

abbrev step_of : Answer → List ℕ
step_of (by_phone step) = step ∷ []
step_of _ = []

abbrev paper_of : Answer → ℕ
paper_of (by_paper left) = 1
paper_of _ = 0

abbrev pub steps_of : Text → List (Text × Answer) → List ℕ
steps_of user [] = []
steps_of user ((u, a) ∷ later) =
    let rest = steps_of user later in if text_eq u user then step_of a ++ rest else rest

abbrev pub papers_of : Text → List (Text × Answer) → ℕ
papers_of user [] = 0
papers_of user ((u, a) ∷ later) =
    let rest = papers_of user later in if text_eq u user then paper_of a + rest else rest

-- Each step is later than the one before it, and the first than the last that was accepted.
abbrev pub IsIncreasing : Option ℕ → List ℕ → Type 0
IsIncreasing after [] = Unit
IsIncreasing after (step ∷ steps) = IsLater after step × IsIncreasing (some step) steps

abbrev pub IsSpentOnce : Text → Tables → List (Text × Answer) → Type 0
IsSpentOnce user db told =
    IsIncreasing (last_step_of (credential_for user db)) (steps_of user told)
    × (papers_of user told ≤ codes_left user db.recovery_codes)

record Same (user : Text) (db after : Tables) : Type 0 where
  step : last_step_of (credential_for user after) ≡ last_step_of (credential_for user db)
  fewer : codes_left user after.recovery_codes ≤ codes_left user db.recovery_codes

untold :
    (user : Text) (db after : Tables) (told : List (Text × Answer))
    → Same user db after
    → IsSpentOnce user after told
    → IsSpentOnce user db told
untold user db after told same h = (
  subst (λ last. IsIncreasing last (steps_of user told)) same.step h.0,
  omega (arith, same.fewer, h.1),
)

unchanged : (user : Text) (db after : Tables) → after ≡ db → Same user db after
unchanged user db after same = record {
  step = ap (λ d. last_step_of (credential_for user d)) same;
  fewer = ground (arith, ap (λ d. codes_left user d.recovery_codes) same);
}

foreign-Same :
    (x : Crypto) (user : Text) (a : Attempt) (db : Tables) (out : Tables × Answer)
    → text_eq a.user user ≡ false
    → IsProven x a.user a.code a.now db out
    → Same user db out.0
unfolding credential_for
foreign-Same x user a db (after, denied) other p = unchanged user db after p
foreign-Same x user a db (after, thrown) other p = unchanged user db after p
foreign-Same x user a db (after, by_phone step) other p = record {
  step =
      ap (λ cs. last_step_of (find? (λ c. text_eq c.user_id user) cs)) p.used
      ∙ ap last_step_of (
          update_credential-other a.user user (used_at_step step a.now) db.credentials (λ d. refl)
            other);
  fewer = ground (arith, ap (codes_left user) p.codes_kept);
}
foreign-Same x user a db (after, by_paper left) other p = record {
  step = ap (λ cs. last_step_of (find? (λ c. text_eq c.user_id user) cs)) p.credentials_kept;
  fewer = ground (
    arith,
    ap (codes_left user) p.marked,
    codes_left-use_code user p.recovery_code.id a.now db.recovery_codes,
  );
}

own :
    (x : Crypto) (user : Text) (a : Attempt) (db : Tables) (out : Tables × Answer)
    (told : List (Text × Answer))
    → IsProven x user a.code a.now db out
    → IsSpentOnce user out.0 told
    → IsIncreasing (last_step_of (credential_for user db)) (step_of out.1 ++ steps_of user told)
      × (paper_of out.1 + papers_of user told ≤ codes_left user db.recovery_codes)
unfolding credential_for
own x user a db (after, denied) told p h =
    let same = untold user db after told (unchanged user db after p) h in
    (same.0, omega (arith, same.1))
own x user a db (after, thrown) told p h =
    let same = untold user db after told (unchanged user db after p) h in
    (same.0, omega (arith, same.1))
own x user a db (after, by_phone step) told p h = (
  (
    subst (λ last. IsLater last step) (sym (ap last_step_of p.found)) p.timely.fits.later,
    subst (λ last. IsIncreasing last (steps_of user told)) p.spent h.0,
  ),
  ground (arith, h.1, ap (codes_left user) p.codes_kept),
)
own x user a db (after, by_paper left) told p h = (
  subst (λ last. IsIncreasing last (steps_of user told))
      (ap (λ cs. last_step_of (find? (λ c. text_eq c.user_id user) cs)) p.credentials_kept) h.0,
  ground (arith, h.1, p.told, p.spent),
)

-- Over any attempts, on any accounts, the steps whose codes an account is let in by grow, from the
-- last one that was accepted before: no step serves twice, nor one that is older. And no more
-- recovery codes are accepted for it than it had left.
pub answers-IsSpentOnce :
    (x : Crypto) (user : Text) (attempts : List Attempt) (db : Tables)
    → IsSpentOnce user db (answers x attempts db)
answers-IsSpentOnce x user [] db = (tt, omega arith)
answers-IsSpentOnce x user (a ∷ later) db =
    let out = verify_second_factor x a.user a.code a.now db in
    let told = answers x later out.0 in
    let rest = answers-IsSpentOnce x user later out.0 in
    let proven = verify_second_factor-IsProven x a.user a.code a.now db in
    elim (Bool-cases (text_eq a.user user)) [
      | inr other ↦
          let steps : steps_of user told ≡ steps_of user ((a.user, out.1) ∷ told) =
            ground (arith, other) in
          let kept = untold user db out.0 told (foreign-Same x user a db out other proven) rest in
          (
            subst (IsIncreasing (last_step_of (credential_for user db))) steps kept.0,
            ground (arith, other, kept.1),
          )
      | inl mine ↦
          let steps : step_of out.1 ++ steps_of user told ≡ steps_of user ((a.user, out.1) ∷ told) =
            ground (arith, mine) in
          let named : a.user ≡ user = (text_eq_iff a.user user).0 mine in
          let kept =
            own x user a db out told (subst (λ u. IsProven x u a.code a.now db out) named proven)
              rest in
          (
            subst (IsIncreasing (last_step_of (credential_for user db))) steps kept.0,
            ground (arith, mine, kept.1),
          )
    ]
