-- ===== src/SecondFactor/TwoFactor.antt =====
-- backend/src/services/users/twoFactor.js: the tables `totp_credentials` and `totp_recovery_codes`.
-- The clock, what is drawn at random and the sealed secret of an enrolment come in as arguments, and
-- so do HMAC, SHA-256, `toUpperCase` and `openSecret`, which reads a secret under the server's key.
use next_explorer.Prelude.{
  ℕ, ◌%◌, Bool, true, false, not, ◌&&◌, ◌||◌, List, [], ◌∷◌, ◌++◌, map, Option, none, some,
  if◌then◌else◌, Text, codes, text_eq, ltb, leb, filter, find?, get_or, take, drop, length,
}
use next_explorer.SecondFactor.Totp.{Verdict, accepted, refused, range_error, verify_totp}

pub record Credential : Type 0 where
  pub user_id : Text
  pub secret : Text
  pub confirmed_at : Option ℕ
  pub last_step : Option ℕ
  pub last_used_at : Option ℕ
  pub created_at : ℕ

pub record RecoveryCode : Type 0 where
  pub id : Text
  pub user_id : Text
  pub code_hash : Text
  pub used_at : Option ℕ
  pub created_at : ℕ

pub record Tables : Type 0 where
  pub credentials : List Credential
  pub recovery_codes : List RecoveryCode

abbrev pub recovery_code_count : ℕ
recovery_code_count = 10

abbrev pub recovery_alphabet : Text
recovery_alphabet = codes "ABCDEFGHJKLMNPQRSTUVWXYZ23456789"

abbrev pub draw_recovery_code : List ℕ → Text
draw_recovery_code bytes =
    let letters =
      map (λ byte. get_or recovery_alphabet (byte % length recovery_alphabet) 0) bytes in
    take 5 letters ++ codes "-" ++ drop 5 letters

abbrev pub is_set {ℓ} : {V : Type ℓ} → Option V → Bool
is_set none = false
is_set (some v) = true

unfoldable pub credential_for : Text → Tables → Option Credential
credential_for user db = find? (λ c. text_eq c.user_id user) db.credentials

abbrev pub is_confirmed : Option Credential → Bool
is_confirmed none = false
is_confirmed (some c) = is_set c.confirmed_at

unfoldable pub two_factor_required : Text → Tables → Bool
unfolding credential_for
two_factor_required user db = is_confirmed (credential_for user db)

abbrev pub is_unused : Text → RecoveryCode → Bool
is_unused user r = text_eq r.user_id user && not (is_set r.used_at)

-- SELECT COUNT(*) … AND used_at IS NULL
unfoldable pub codes_left : Text → List RecoveryCode → ℕ
codes_left user rs = length (filter (is_unused user) rs)

pub record Status : Type 0 where
  pub enabled : Bool
  pub pending : Bool
  pub confirmed_at : Option ℕ
  pub recovery_codes_left : ℕ

abbrev confirmation : Option Credential → Option ℕ
confirmation none = none
confirmation (some c) = c.confirmed_at

unfoldable pub two_factor_status : Text → Tables → Status
unfolding credential_for codes_left
two_factor_status user db =
    let found = credential_for user db in
    record {
      enabled = is_confirmed found;
      pending = is_set found && not (is_confirmed found);
      confirmed_at = confirmation found;
      recovery_codes_left = codes_left user db.recovery_codes;
    }

abbrev pub pending_row : Text → ℕ → Text → Credential
pending_row user now sealed = record {
  user_id = user;
  secret = sealed;
  confirmed_at = none;
  last_step = none;
  last_used_at = none;
  created_at = now;
}

-- `none` where it is refused, with status 409
unfoldable pub begin_enrolment : Text → ℕ → Text → Tables → Option Tables
unfolding two_factor_required
begin_enrolment user now sealed db =
    if two_factor_required user db
    then none
    else some (record db {
      credentials =
          filter (λ c. not (text_eq c.user_id user)) db.credentials
          ++ pending_row user now sealed ∷ [];
    })

-- an id that is generated, and ten random bytes
pub record Draw : Type 0 where
  pub id : Text
  pub bytes : List ℕ

unfoldable pub disable_two_factor : Text → Tables → Tables × Bool
disable_two_factor user db = (
  record {
    credentials = filter (λ c. not (text_eq c.user_id user)) db.credentials;
    recovery_codes = filter (λ r. not (text_eq r.user_id user)) db.recovery_codes;
  },
  ltb 0 (length (filter (λ c. text_eq c.user_id user) db.credentials)),
)

-- UPDATE totp_credentials … WHERE user_id = ?
abbrev pub update_credential : Text → (Credential → Credential) → List Credential → List Credential
update_credential user f [] = []
update_credential user f (c ∷ cs) =
    let rest = update_credential user f cs in
    if text_eq c.user_id user then f c ∷ rest else c ∷ rest

abbrev pub used_at_step : ℕ → ℕ → Credential → Credential
used_at_step step now c = record c { last_step = some step; last_used_at = some now }

abbrev pub confirmed_at_step : ℕ → ℕ → Credential → Credential
confirmed_at_step step now c = record c {
  confirmed_at = some now;
  last_step = some step;
  last_used_at = some now;
}

-- UPDATE totp_recovery_codes SET used_at = ? WHERE id = ?
abbrev pub use_code : Text → ℕ → List RecoveryCode → List RecoveryCode
use_code id now [] = []
use_code id now (r ∷ rs) =
    let rest = use_code id now rs in
    if text_eq r.id id then record r { used_at = some now } ∷ rest else r ∷ rest

-- `verifySecondFactor`: refused, a code of the phone, or one of the paper with how many are left
pub data Answer : Type 0 where
  denied : Answer
  by_phone : ℕ → Answer
  by_paper : ℕ → Answer
  thrown : Answer

pub record Crypto : Type 0 where
  pub hmac : List ℕ → List ℕ → List ℕ
  pub sha256_hex : Text → Text
  pub to_upper_case : Text → Text
  pub open_secret : Text → Option Text

-- What `confirmEnrolment` and `replaceRecoveryCodes` answer: the 409, null, a RangeError, or codes.
pub data Issue : Type 0 where
  conflict no_match failed : Issue
  issued : List Text → Issue

module _ (x : Crypto) where
  -- `[A-Z0-9]`
  abbrev pub normalize_recovery_code : Text → Text
  normalize_recovery_code code =
      filter (λ c. leb 65 c && leb c 90 || leb 48 c && leb c 57) (x.to_upper_case code)

  abbrev pub hash_recovery_code : Text → Text
  hash_recovery_code code = x.sha256_hex (normalize_recovery_code code)

  abbrev pub new_code : Text → ℕ → Draw → RecoveryCode
  new_code user now d = record {
    id = d.id;
    user_id = user;
    code_hash = hash_recovery_code (draw_recovery_code d.bytes);
    used_at = none;
    created_at = now;
  }

  unfoldable pub issue_recovery_codes :
      Text → ℕ → List Draw → List RecoveryCode → List RecoveryCode × List Text
  issue_recovery_codes user now draws rs =
      let drawn = take recovery_code_count draws in
      (
        filter (λ r. not (text_eq r.user_id user)) rs ++ map (new_code user now) drawn,
        map (λ d. draw_recovery_code d.bytes) drawn,
      )

  unfoldable pub confirmed : Text → ℕ → ℕ → List Draw → Tables → Tables × Issue
  unfolding issue_recovery_codes
  confirmed user step now draws db =
      let fresh = issue_recovery_codes user now draws db.recovery_codes in
      (
        record {
          credentials = update_credential user (confirmed_at_step step now) db.credentials;
          recovery_codes = fresh.0;
        },
        issued fresh.1,
      )

  abbrev pub checked : Credential → Text → ℕ → Option ℕ → Verdict
  checked c code now after = elim (x.open_secret c.secret) [
    | none ↦ refused
    | some secret ↦ verify_totp x.hmac x.to_upper_case secret code now 1 after
  ]

  unfoldable pub confirm_enrolment : Text → Text → ℕ → List Draw → Tables → Tables × Issue
  unfolding credential_for verify_totp confirmed
  confirm_enrolment user code now draws db = elim (credential_for user db) [
    | none ↦ (db, conflict)
    | some c ↦ if is_set c.confirmed_at then (db, conflict) else elim (checked c code now none) [
      | refused ↦ (db, no_match)
      | range_error ↦ (db, failed)
      | accepted step ↦ confirmed user step now draws db
    ]
  ]

  unfoldable pub replace_recovery_codes : Text → ℕ → List Draw → Tables → Tables × Issue
  unfolding two_factor_required issue_recovery_codes
  replace_recovery_codes user now draws db =
      let fresh = issue_recovery_codes user now draws db.recovery_codes in
      if not (two_factor_required user db)
      then (db, conflict)
      else (record db { recovery_codes = fresh.0 }, issued fresh.1)

  abbrev pub matches : Text → Text → RecoveryCode → Bool
  matches user hash r = is_unused user r && text_eq r.code_hash hash

  -- the second half of `verifySecondFactor`
  unfoldable pub try_recovery_code : Text → Text → ℕ → Tables → Tables × Answer
  unfolding codes_left
  try_recovery_code user code now db =
      let normalized = normalize_recovery_code code in
      if ltb (length normalized) 8
      then (db, denied)
      else elim (find? (matches user (hash_recovery_code normalized)) db.recovery_codes) [
        | none ↦ (db, denied)
        | some r ↦ (
          record db { recovery_codes = use_code r.id now db.recovery_codes },
          by_paper (codes_left user (use_code r.id now db.recovery_codes)),
        )
      ]

  unfoldable pub verify_second_factor : Text → Text → ℕ → Tables → Tables × Answer
  unfolding credential_for verify_totp try_recovery_code
  verify_second_factor user code now db = elim (credential_for user db) [
    | none ↦ (db, denied)
    | some c ↦
        if not (is_set c.confirmed_at)
        then (db, denied)
        else elim (checked c code now c.last_step) [
          | refused ↦ try_recovery_code user code now db
          | range_error ↦ (db, thrown)
          | accepted step ↦ (
            record db {
              credentials = update_credential user (used_at_step step now) db.credentials;
            },
            by_phone step,
          )
        ]
  ]
