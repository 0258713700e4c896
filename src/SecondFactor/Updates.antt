-- ===== src/SecondFactor/Updates.antt =====
-- The updates of the tables of backend/src/services/users/twoFactor.js.
use next_explorer.Prelude.{
  ℕ, suc, ◌≤◌, ◌≡◌, refl, inl, inr, Bool, false, List, [], ◌∷◌, some, arith, Text, text_eq,
  text_eq_iff, filter, find?, Bool-cases,
}
use next_explorer.SecondFactor.TwoFactor.{
  Crypto, Credential, RecoveryCode, codes_left, update_credential, use_code, matches,
}

abbrev pub names : Text → Credential → Bool
names user c = text_eq c.user_id user

pub update_credential-own :
    (user : Text) (f : Credential → Credential) (cs : List Credential) (c : Credential)
    → ((d : Credential) → (f d).user_id ≡ d.user_id)
    → find? (names user) cs ≡ some c
    → find? (names user) (update_credential user f cs) ≡ some (f c)
update_credential-own user f [] c keeps h = ground (arith, h)
update_credential-own user f (d ∷ cs) c keeps h = elim (Bool-cases (names user d)) [
  | inl own ↦ ground (arith, own, h, keeps d)
  | inr other ↦
      ground (arith, other, h, update_credential-own user f cs c keeps (ground (arith, other, h)))
]

pub update_credential-other :
    (user other : Text) (f : Credential → Credential) (cs : List Credential)
    → ((d : Credential) → (f d).user_id ≡ d.user_id)
    → text_eq user other ≡ false
    → find? (names other) (update_credential user f cs) ≡ find? (names other) cs
update_credential-other user other f [] keeps apart = refl
update_credential-other user other f (d ∷ cs) keeps apart = elim (Bool-cases (names user d)) [
  | inl own ↦ ground (
    arith,
    own,
    apart,
    keeps d,
    (text_eq_iff d.user_id user).0 own,
    update_credential-other user other f cs keeps apart,
  )
  | inr apart_too ↦ ground (arith, apart_too, update_credential-other user other f cs keeps apart)
]

-- The rows of another account are the same ones.
pub update_credential-rows :
    (user other : Text) (f : Credential → Credential) (cs : List Credential)
    → ((d : Credential) → (f d).user_id ≡ d.user_id)
    → text_eq user other ≡ false
    → filter (names other) (update_credential user f cs) ≡ filter (names other) cs
update_credential-rows user other f [] keeps apart = refl
update_credential-rows user other f (d ∷ cs) keeps apart = elim (Bool-cases (names user d)) [
  | inl own ↦ ground (
    arith,
    own,
    apart,
    keeps d,
    (text_eq_iff d.user_id user).0 own,
    update_credential-rows user other f cs keeps apart,
  )
  | inr apart_too ↦ ground (arith, apart_too, update_credential-rows user other f cs keeps apart)
]

pub codes_left-use_code :
    (user id : Text) (now : ℕ) (rs : List RecoveryCode)
    → codes_left user (use_code id now rs) ≤ codes_left user rs
unfolding codes_left
codes_left-use_code user id now [] = omega arith
codes_left-use_code user id now (r ∷ rs) = ground (arith, codes_left-use_code user id now rs)

-- A code that matched was unused, and is no longer.
pub codes_left-match :
    (user hash : Text) (now : ℕ) (rs : List RecoveryCode) (x : Crypto) (r : RecoveryCode)
    → find? (matches x user hash) rs ≡ some r
    → suc (codes_left user (use_code r.id now rs)) ≤ codes_left user rs
unfolding codes_left
codes_left-match user hash now [] x r h = ground (arith, h)
codes_left-match user hash now (s ∷ rs) x r h = elim (Bool-cases (matches x user hash s)) [
  | inl hit ↦
      let same : s ≡ r = ground (arith, hit, h) in
      ground
        (arith, hit, same, codes_left-use_code user r.id now rs, (text_eq_iff s.id s.id).1 refl)
  | inr miss ↦ ground (arith, codes_left-match user hash now rs x r (ground (arith, miss, h)))
]
