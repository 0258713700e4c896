-- ===== src/SecondFactor/Attempts.antt =====
-- Why backend/src/services/users/twoFactor.js accepts a second factor.
use next_explorer.Prelude.{
  ℕ, ◌/◌, ◌⊎◌, suc, ◌≤◌, ◌≡◌, refl, ap, subst, inl, inr, true, List, Option, none, some, arith,
  Text, ltb, length, find?, Bool-cases, Option-cases,
}
use next_explorer.SecondFactor.Base32.{decode_base32}
use next_explorer.SecondFactor.Totp.{
  Verdict, accepted, refused, range_error, verify_totp, verify_totp-Answers, Fits, Answers,
  six_digits, without_spaces, step_ms,
}
use next_explorer.SecondFactor.TwoFactor.{
  Crypto, Credential, RecoveryCode, Tables, Answer, denied, by_phone, by_paper, thrown, is_set,
  used_at_step, credential_for, codes_left, update_credential, use_code, matches,
  normalize_recovery_code, hash_recovery_code, checked, try_recovery_code, verify_second_factor,
}
use next_explorer.SecondFactor.Updates.{update_credential-own, codes_left-match}

-- Why a one-time code was accepted.
pub record IsTimely (x : Crypto) (secret code : Text) (now : ℕ) (after : Option ℕ) (step : ℕ)
    : Type 0 where
  pub key : List ℕ
  pub readable : decode_base32 x.to_upper_case secret ≡ some key
  pub six : six_digits (without_spaces code) ≡ true
  pub fits : Fits x.hmac 1 key (without_spaces code) after (now / step_ms) step

pub accepted-IsTimely :
    (x : Crypto) (secret code : Text) (now : ℕ) (after : Option ℕ) (step : ℕ)
    → verify_totp x.hmac x.to_upper_case secret code now 1 after ≡ accepted step
    → IsTimely x secret code now after step
unfolding verify_totp
accepted-IsTimely x secret code now after step h =
    elim (Bool-cases (six_digits (without_spaces code))) [
      | inr other ↦ absurd (ground (arith, other, h))
      | inl six ↦ elim (Option-cases (decode_base32 x.to_upper_case secret)) [
        | inl unreadable ↦ absurd (ground (arith, six, unreadable, h))
        | inr (key, readable) ↦
            let told =
              verify_totp-Answers x.hmac x.to_upper_case secret code now 1 after key six readable in
            let there : Answers x.hmac 1 key (without_spaces code) after (now / step_ms)
                (now / step_ms) (accepted step) =
              subst
                (Answers x.hmac 1 key (without_spaces code) after (now / step_ms) (now / step_ms)) h
                told in
            record { key = key; readable = readable; six = six; fits = there.0 }
      ]
    ]

abbrev pub last_step_of : Option Credential → Option ℕ
last_step_of none = none
last_step_of (some c) = c.last_step

-- What an attempt of an account comes to.
pub record ByPhone (x : Crypto) (user code : Text) (now : ℕ) (db after : Tables) (step : ℕ)
    : Type 0 where
  pub credential : Credential
  pub found : credential_for user db ≡ some credential
  pub confirmed : is_set credential.confirmed_at ≡ true
  pub secret : Text
  pub opened : x.open_secret credential.secret ≡ some secret
  pub timely : IsTimely x secret code now credential.last_step step
  pub spent : last_step_of (credential_for user after) ≡ some step
  pub used : after.credentials ≡ update_credential user (used_at_step step now) db.credentials
  pub codes_kept : after.recovery_codes ≡ db.recovery_codes

pub record ByPaper (x : Crypto) (user code : Text) (now : ℕ) (db after : Tables) (left : ℕ)
    : Type 0 where
  pub credential : Credential
  pub found : credential_for user db ≡ some credential
  pub confirmed : is_set credential.confirmed_at ≡ true
  pub recovery_code : RecoveryCode
  pub matched :
      find?
        (matches x user (hash_recovery_code x (normalize_recovery_code x code)))
        db.recovery_codes
      ≡ some recovery_code
  pub long_enough : 8 ≤ length (normalize_recovery_code x code)
  pub told : left ≡ codes_left user after.recovery_codes
  pub spent : suc left ≤ codes_left user db.recovery_codes
  pub marked : after.recovery_codes ≡ use_code recovery_code.id now db.recovery_codes
  pub credentials_kept : after.credentials ≡ db.credentials

abbrev pub IsProven :
    (x : Crypto) (user code : Text) (now : ℕ) (db : Tables) (after : Tables × Answer) → Type 0
IsProven x user code now db (after, denied) = after ≡ db
IsProven x user code now db (after, thrown) = after ≡ db
IsProven x user code now db (after, by_phone step) = ByPhone x user code now db after step
IsProven x user code now db (after, by_paper left) = ByPaper x user code now db after left

record Found (user : Text) (db : Tables) : Type 0 where
  credential : Credential
  there : credential_for user db ≡ some credential
  confirmed : is_set credential.confirmed_at ≡ true

try_recovery_code-IsProven :
    (x : Crypto) (user code : Text) (now : ℕ) (db : Tables)
    → Found user db
    → IsProven x user code now db (try_recovery_code x user code now db)
unfolding try_recovery_code
try_recovery_code-IsProven x user code now db f =
    let normalized = normalize_recovery_code x code in
    elim (Bool-cases (ltb (length normalized) 8)) [
      | inl short ↦
          let same : (db, denied) ≡ try_recovery_code x user code now db = ground (arith, short) in
          subst (IsProven x user code now db) same refl
      | inr long ↦
          elim (Option-cases
            (find? (matches x user (hash_recovery_code x normalized)) db.recovery_codes)) [
              | inl nothing ↦
                  let same : (db, denied) ≡ try_recovery_code x user code now db =
                    ground (arith, long, nothing) in
                  subst (IsProven x user code now db) same refl
              | inr (r, matched) ↦
                  let after = use_code r.id now db.recovery_codes in
                  let same : (
                    record db { recovery_codes = after },
                    by_paper (codes_left user after),
                  )
                      ≡ try_recovery_code x user code now db =
                    ground (arith, long, matched) in
                  subst (IsProven x user code now db) same (record {
                    credential = f.credential;
                    found = f.there;
                    confirmed = f.confirmed;
                    recovery_code = r;
                    matched = matched;
                    long_enough = ground (arith, long);
                    told = refl;
                    spent =
                        codes_left-match user (hash_recovery_code x normalized) now
                          db.recovery_codes x r matched;
                    marked = refl;
                    credentials_kept = refl;
                  })
            ]
    ]

pub Verdict-cases :
    (v : Verdict) → (v ≡ refused) ⊎ (v ≡ range_error) ⊎ ((step : ℕ) × (v ≡ accepted step))
Verdict-cases refused = inl refl
Verdict-cases range_error = inr (inl refl)
Verdict-cases (accepted step) = inr (inr (step, refl))

pub checked-accepted :
    (x : Crypto) (c : Credential) (code : Text) (now : ℕ) (after : Option ℕ) (step : ℕ)
    → checked x c code now after ≡ accepted step
    → (secret : Text) × (x.open_secret c.secret ≡ some secret)
      × (verify_totp x.hmac x.to_upper_case secret code now 1 after ≡ accepted step)
checked-accepted x c code now after step h = elim (Option-cases (x.open_secret c.secret)) [
  | inl unreadable ↦ absurd (ground (arith, unreadable, h))
  | inr (secret, opened) ↦ (secret, opened, ground (arith, opened, h))
]

-- An attempt that is refused changes nothing. One is accepted by a code of the phone only for an
-- account whose second factor is confirmed, whose secret can be read, and where the code is that of
-- a step at most one away from now and later than the last one accepted; that step is then the
-- last. One is accepted by a recovery code only where the code is that of an unused row of the
-- account, which leaves fewer than there were, as many as the answer says.
pub verify_second_factor-IsProven :
    (x : Crypto) (user code : Text) (now : ℕ) (db : Tables)
    → IsProven x user code now db (verify_second_factor x user code now db)
unfolding verify_second_factor credential_for
verify_second_factor-IsProven x user code now db = elim (Option-cases (credential_for user db)) [
  | inl nothing ↦
      let same : (db, denied) ≡ verify_second_factor x user code now db = ground (arith, nothing) in
      subst (IsProven x user code now db) same refl
  | inr (c, there) ↦ elim (Bool-cases (is_set c.confirmed_at)) [
    | inr pending ↦
        let same : (db, denied) ≡ verify_second_factor x user code now db =
          ground (arith, there, pending) in
        subst (IsProven x user code now db) same refl
    | inl confirmed ↦ elim (Verdict-cases (checked x c code now c.last_step)) [
      | inl unfit ↦
          let same : try_recovery_code x user code now db
              ≡ verify_second_factor x user code now db =
            ground (arith, there, confirmed, unfit) in
          subst (IsProven x user code now db) same (
            try_recovery_code-IsProven x user code now db
              (record { credential = c; there = there; confirmed = confirmed }))
      | inr (inl early) ↦
          let same : (db, thrown) ≡ verify_second_factor x user code now db =
            ground (arith, there, confirmed, early) in
          subst (IsProven x user code now db) same refl
      | inr (inr (step, fit)) ↦
          let used = update_credential user (used_at_step step now) db.credentials in
          let same : (record db { credentials = used }, by_phone step)
              ≡ verify_second_factor x user code now db =
            ground (arith, there, confirmed, fit) in
          let (secret, opened, verified) = checked-accepted x c code now c.last_step step fit in
          subst (IsProven x user code now db) same (record {
            credential = c;
            found = there;
            confirmed = confirmed;
            secret = secret;
            opened = opened;
            timely = accepted-IsTimely x secret code now c.last_step step verified;
            spent = ap last_step_of (
                update_credential-own user (used_at_step step now) db.credentials c (λ d. refl)
                  there);
            used = refl;
            codes_kept = refl;
          })
    ]
  ]
]
