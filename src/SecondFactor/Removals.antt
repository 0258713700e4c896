-- ===== src/SecondFactor/Removals.antt =====
-- The deletions and insertions of backend/src/services/users/twoFactor.js.
use mathlib.Core.List.{append-nil}
use next_explorer.Prelude.{
  ℕ, ◌+◌, ◌≡◌, ◌↔◌, refl, ap, ap₂, ◌∙◌, inl, inr, Bool, true, false, not, List, [], ◌∷◌, ◌++◌, map,
  none, some, arith, Text, text_eq, text_eq_iff, ltb, length, length-append, find?, filter,
  filter-append, Bool-cases,
}
use next_explorer.SecondFactor.TwoFactor.{
  Crypto, Credential, RecoveryCode, Draw, codes_left, is_unused, new_code,
}
use next_explorer.SecondFactor.Updates.{names}

pub removed-own :
    (user : Text) (cs : List Credential)
    → find? (names user) (filter (λ c. not (names user c)) cs) ≡ none
removed-own user [] = refl
removed-own user (c ∷ cs) = ground (arith, removed-own user cs)

pub removed-other :
    (user other : Text) (cs : List Credential)
    → text_eq user other ≡ false
    → find? (names other) (filter (λ c. not (names user c)) cs) ≡ find? (names other) cs
removed-other user other [] apart = refl
removed-other user other (c ∷ cs) apart = elim (Bool-cases (names user c)) [
  | inl own ↦
      ground
        (arith, own, apart, (text_eq_iff c.user_id user).0 own, removed-other user other cs apart)
  | inr kept ↦ ground (arith, kept, removed-other user other cs apart)
]

pub added :
    (p : Credential → Bool) (cs : List Credential) (c : Credential)
    → find? p cs ≡ none
    → p c ≡ true
    → find? p (cs ++ c ∷ []) ≡ some c
added p [] c h hit = ground (arith, hit)
added p (d ∷ cs) c h hit = ground (arith, h, hit, added p cs c (ground (arith, h)) hit)

pub added-other :
    (p : Credential → Bool) (cs : List Credential) (c : Credential)
    → p c ≡ false
    → find? p (cs ++ c ∷ []) ≡ find? p cs
added-other p [] c miss = ground (arith, miss)
added-other p (d ∷ cs) c miss = ground (arith, miss, added-other p cs c miss)

abbrev pub owned : Text → RecoveryCode → Bool
owned user r = text_eq r.user_id user

pub codes_left-removed :
    (user : Text) (rs : List RecoveryCode)
    → codes_left user (filter (λ r. not (owned user r)) rs) ≡ 0
unfolding codes_left
codes_left-removed user [] = refl
codes_left-removed user (r ∷ rs) = ground (arith, codes_left-removed user rs)

pub codes_left-kept :
    (user other : Text) (rs : List RecoveryCode)
    → text_eq user other ≡ false
    → codes_left other (filter (λ r. not (owned user r)) rs) ≡ codes_left other rs
unfolding codes_left
codes_left-kept user other [] apart = refl
codes_left-kept user other (r ∷ rs) apart = elim (Bool-cases (owned user r)) [
  | inl own ↦
      ground
        (arith, own, apart, (text_eq_iff r.user_id user).0 own, codes_left-kept user other rs apart)
  | inr kept ↦ ground (arith, kept, codes_left-kept user other rs apart)
]

pub codes_left-append :
    (user : Text) (rs more : List RecoveryCode)
    → codes_left user (rs ++ more) ≡ codes_left user rs + codes_left user more
unfolding codes_left
codes_left-append user rs more =
    ap length (filter-append (is_unused user) rs more)
    ∙ length-append (filter (is_unused user) rs) (filter (is_unused user) more)

pub codes_left-new :
    (x : Crypto) (user : Text) (now : ℕ) (draws : List Draw)
    → codes_left user (map (new_code x user now) draws) ≡ length draws
unfolding codes_left
codes_left-new x user now [] = refl
codes_left-new x user now (d ∷ draws) =
    ground (arith, (text_eq_iff user user).1 refl, codes_left-new x user now draws)

pub codes_left-new_other :
    (x : Crypto) (user other : Text) (now : ℕ) (draws : List Draw)
    → text_eq user other ≡ false
    → codes_left other (map (new_code x user now) draws) ≡ 0
unfolding codes_left
codes_left-new_other x user other now [] apart = refl
codes_left-new_other x user other now (d ∷ draws) apart =
    ground (arith, apart, codes_left-new_other x user other now draws apart)

-- What a deletion of rows by their account leaves of that account, and of another.
module _ {ℓ} {A : Type ℓ} (account : A → Text) where
  abbrev is_of : Text → A → Bool
  is_of user a = text_eq (account a) user

  rows_gone :
      (user : Text) (rows : List A)
      → filter (is_of user) (filter (λ a. not (is_of user a)) rows) ≡ []
  rows_gone user [] = refl
  rows_gone user (a ∷ rows) = elim (Bool-cases (is_of user a)) [
    | inl own ↦ ground (arith, own, rows_gone user rows)
    | inr kept ↦ ground (arith, kept, rows_gone user rows)
  ]

  rows_kept :
      (user other : Text) (rows : List A)
      → text_eq user other ≡ false
      → filter (is_of other) (filter (λ a. not (is_of user a)) rows) ≡ filter (is_of other) rows
  rows_kept user other [] apart = refl
  rows_kept user other (a ∷ rows) apart = elim (Bool-cases (is_of user a)) [
    | inl own ↦
        ground
          (arith, own, apart, (text_eq_iff (account a) user).0 own, rows_kept user other rows apart)
    | inr kept ↦ ground (arith, kept, rows_kept user other rows apart)
  ]

pub credentials_gone :
    (user : Text) (cs : List Credential)
    → filter (names user) (filter (λ c. not (names user c)) cs) ≡ []
credentials_gone user cs = rows_gone (λ c. c.user_id) user cs

pub credentials_kept :
    (user other : Text) (cs : List Credential)
    → text_eq user other ≡ false
    → filter (names other) (filter (λ c. not (names user c)) cs) ≡ filter (names other) cs
credentials_kept user other cs apart = rows_kept (λ c. c.user_id) user other cs apart

pub credentials_added :
    (user other : Text) (cs : List Credential) (c : Credential)
    → text_eq user other ≡ false
    → c.user_id ≡ user
    → filter (names other) (filter (λ d. not (names user d)) cs ++ c ∷ []) ≡ filter (names other) cs
credentials_added user other cs c apart named = ground (
  arith,
  filter-append (names other) (filter (λ d. not (names user d)) cs) (c ∷ []),
  credentials_kept user other cs apart,
  append-nil (filter (names other) cs),
)

pub recovery_codes_gone :
    (user : Text) (rs : List RecoveryCode)
    → filter (owned user) (filter (λ r. not (owned user r)) rs) ≡ []
recovery_codes_gone user rs = rows_gone (λ r. r.user_id) user rs

pub recovery_codes_kept :
    (user other : Text) (rs : List RecoveryCode)
    → text_eq user other ≡ false
    → filter (owned other) (filter (λ r. not (owned user r)) rs) ≡ filter (owned other) rs
recovery_codes_kept user other rs apart = rows_kept (λ r. r.user_id) user other rs apart

none_new :
    (x : Crypto) (user other : Text) (now : ℕ) (draws : List Draw)
    → text_eq user other ≡ false
    → filter (owned other) (map (new_code x user now) draws) ≡ []
none_new x user other now [] apart = refl
none_new x user other now (d ∷ draws) apart =
    ground (arith, apart, none_new x user other now draws apart)

pub recovery_codes_issued :
    (x : Crypto) (user other : Text) (now : ℕ) (draws : List Draw) (rs : List RecoveryCode)
    → text_eq user other ≡ false
    → filter (owned other) (filter (λ r. not (owned user r)) rs ++ map (new_code x user now) draws)
      ≡ filter (owned other) rs
recovery_codes_issued x user other now draws rs apart =
    let new = map (new_code x user now) draws in
    let old = filter (λ r. not (owned user r)) rs in
    filter-append (owned other) old new
    ∙ ap₂ ◌++◌ (recovery_codes_kept user other rs apart) (none_new x user other now draws apart)
    ∙ append-nil (filter (owned other) rs)

pub none_named :
    (user : Text) (cs : List Credential)
    → (ltb 0 (length (filter (names user) cs)) ≡ false) ↔ (find? (names user) cs ≡ none)
none_named user [] = (λ h. refl, λ h. refl)
none_named user (c ∷ cs) = ground (arith, none_named user cs)
