-- ===== src/SecondFactor/Enrolment.antt =====
-- How backend/src/services/users/twoFactor.js turns the second factor of an account on and off.
use next_explorer.Prelude.{
  ℕ, ◌≡◌, ◌↔◌, ◌⊎◌, refl, ap, ◌∙◌, subst, inl, inr, true, false, not, List, [], ◌∷◌, ◌++◌, map,
  Option, none, some, arith, Text, text_eq, text_eq_iff, length, filter, take, Bool-cases,
  Option-cases,
}
use next_explorer.SecondFactor.TwoFactor.{
  Crypto, Credential, Tables, Draw, Issue, conflict, no_match, failed, issued, denied,
  recovery_code_count, draw_recovery_code, is_set, is_confirmed, credential_for,
  two_factor_required, two_factor_status, codes_left, confirmed_at_step, pending_row, confirmed,
  begin_enrolment, disable_two_factor, new_code, issue_recovery_codes, checked, confirm_enrolment,
  verify_second_factor,
}
use next_explorer.SecondFactor.Updates.{
  names, update_credential-own, update_credential-other, update_credential-rows,
}
use next_explorer.SecondFactor.Attempts.{
  IsTimely, accepted-IsTimely, checked-accepted, Verdict-cases, last_step_of,
}
use next_explorer.SecondFactor.Removals.{
  owned, removed-own, removed-other, added, added-other, credentials_gone, credentials_kept,
  credentials_added, recovery_codes_gone, recovery_codes_kept, recovery_codes_issued,
  codes_left-removed, codes_left-kept, codes_left-append, codes_left-new, codes_left-new_other,
  none_named,
}

-- What is another account's is not touched: its rows are the same in both tables.
pub record IsUntouched (other : Text) (db after : Tables) : Type 0 where
  pub credential : credential_for other after ≡ credential_for other db
  pub credentials : filter (names other) after.credentials ≡ filter (names other) db.credentials
  pub recovery_codes :
      filter (owned other) after.recovery_codes ≡ filter (owned other) db.recovery_codes
  pub codes : codes_left other after.recovery_codes ≡ codes_left other db.recovery_codes

-- Turned off, an account has no second factor and no row of one in either table, so that no code of
-- any kind is accepted for it; the answer says whether there was a credential; and the rows of
-- another account are as they were.
pub disable_two_factor-IsOff :
    (x : Crypto) (user other code : Text) (now : ℕ) (db : Tables)
    → text_eq user other ≡ false
    → let out = disable_two_factor user db in
      (two_factor_status user out.0
        ≡ record { enabled = false; pending = false; confirmed_at = none; recovery_codes_left = 0 })
      × (verify_second_factor x user code now out.0 ≡ (out.0, denied))
      × ((out.1 ≡ false) ↔ (credential_for user db ≡ none))
      × (filter (names user) out.0.credentials ≡ [])
      × (filter (owned user) out.0.recovery_codes ≡ [])
      × IsUntouched other db out.0
unfolding disable_two_factor two_factor_status verify_second_factor credential_for
disable_two_factor-IsOff x user other code now db apart =
    let gone = removed-own user db.credentials in
    (
      ground (arith, gone, codes_left-removed user db.recovery_codes),
      ground (arith, gone),
      none_named user db.credentials,
      credentials_gone user db.credentials,
      recovery_codes_gone user db.recovery_codes,
      record {
        credentials = credentials_kept user other db.credentials apart;
        recovery_codes = recovery_codes_kept user other db.recovery_codes apart;
        credential = removed-other user other db.credentials apart;
        codes = codes_left-kept user other db.recovery_codes apart;
      },
    )

abbrev secret_of : Option Credential → Option Text
secret_of none = none
secret_of (some c) = some c.secret

-- An enrolment is refused where the second factor is on already. Otherwise it leaves the account
-- with the new secret alone, which is not confirmed: the second factor is still off, no code is
-- accepted, the recovery codes are as they were, and so is what is another account's.
begin_enrolment-IsPending :
    (x : Crypto) (user other sealed code : Text) (now later : ℕ) (db : Tables)
    → text_eq user other ≡ false
    → ((two_factor_required user db ≡ true) × (begin_enrolment user now sealed db ≡ none))
      ⊎ ((after : Tables) × (begin_enrolment user now sealed db ≡ some after)
          × (two_factor_required user after ≡ false)
          × (verify_second_factor x user code later after ≡ (after, denied))
          × (secret_of (credential_for user after) ≡ some sealed)
          × (after.recovery_codes ≡ db.recovery_codes)
          × IsUntouched other db after)
unfolding begin_enrolment two_factor_required verify_second_factor credential_for
begin_enrolment-IsPending x user other sealed code now later db apart =
    elim (Bool-cases (two_factor_required user db)) [
      | inl on ↦ inl (on, ground (arith, on))
      | inr off ↦
          let row = pending_row user now sealed in
          let others = filter (λ c. not (names user c)) db.credentials in
          let mine =
            added (names user) others row (removed-own user db.credentials)
              ((text_eq_iff user user).1 refl) in
          inr (
            record db { credentials = others ++ row ∷ [] },
            ground (arith, off),
            ground (arith, mine),
            ground (arith, mine),
            ap secret_of mine,
            refl,
            record {
              credential =
                  added-other (names other) others row apart
                  ∙ removed-other user other db.credentials apart;
              credentials = credentials_added user other db.credentials row apart refl;
              recovery_codes = refl;
              codes = refl;
            },
          )
    ]

pub record IsOn (x : Crypto) (user other code : Text) (now : ℕ) (draws : List Draw)
    (db after : Tables) (codes : List Text) : Type 0 where
  pub credential : Credential
  pub found : credential_for user db ≡ some credential
  pub unconfirmed : is_set credential.confirmed_at ≡ false
  pub secret : Text
  pub opened : x.open_secret credential.secret ≡ some secret
  pub step : ℕ
  pub timely : IsTimely x secret code now none step
  pub on : two_factor_required user after ≡ true
  pub spent : last_step_of (credential_for user after) ≡ some step
  pub shown : codes ≡ map (λ d. draw_recovery_code d.bytes) (take recovery_code_count draws)
  pub left : codes_left user after.recovery_codes ≡ length (take recovery_code_count draws)
  pub untouched : IsUntouched other db after

abbrev pub IsAnswered :
    Crypto → Text → Text → Text → ℕ → List Draw → Tables → Tables × Issue → Type 0
IsAnswered x user other code now draws db (after, conflict) =
    (after ≡ db) × ((credential_for user db ≡ none) ⊎ (two_factor_required user db ≡ true))
IsAnswered x user other code now draws db (after, no_match) = after ≡ db
IsAnswered x user other code now draws db (after, failed) = after ≡ db
IsAnswered x user other code now draws db (after, issued codes) =
    IsOn x user other code now draws db after codes

issued-IsOn :
    (x : Crypto) (user other code : Text) (now : ℕ) (draws : List Draw) (db : Tables)
    (c : Credential) (secret : Text) (step : ℕ)
    → text_eq user other ≡ false
    → credential_for user db ≡ some c
    → is_set c.confirmed_at ≡ false
    → x.open_secret c.secret ≡ some secret
    → IsTimely x secret code now none step
    → let out = confirmed x user step now draws db in IsAnswered x user other code now draws db out
unfolding confirmed credential_for two_factor_required issue_recovery_codes
issued-IsOn x user other code now draws db c secret step apart there pending opened timely =
    let own =
      update_credential-own user (confirmed_at_step step now) db.credentials c (λ d. refl) there in
    let kept = filter (λ r. not (owned user r)) db.recovery_codes in
    let drawn = take recovery_code_count draws in
    let new = map (new_code x user now) drawn in
    record {
      credential = c;
      found = there;
      unconfirmed = pending;
      secret = secret;
      opened = opened;
      step = step;
      timely = timely;
      on = ap is_confirmed own;
      spent = ap last_step_of own;
      shown = refl;
      left = ground (
        arith,
        codes_left-append user kept new,
        codes_left-removed user db.recovery_codes,
        codes_left-new x user now drawn,
      );
      untouched = record {
        credential =
            update_credential-other user other (confirmed_at_step step now) db.credentials
              (λ d. refl) apart;
        credentials =
            update_credential-rows user other (confirmed_at_step step now) db.credentials
              (λ d. refl) apart;
        recovery_codes = recovery_codes_issued x user other now drawn db.recovery_codes apart;
        codes = ground (
          arith,
          codes_left-append other kept new,
          codes_left-kept user other db.recovery_codes apart,
          codes_left-new_other x user other now drawn apart,
        );
      };
    }

-- Confirming turns the second factor on only with a code of the secret that waits, of a step at
-- most one away from now, which is then the last that was accepted; the account then has as many
-- recovery codes as were drawn, at most ten, and those are what is answered. It is refused with
-- nothing changed where none waits, and where the code is not right; and the rows of another account
-- stay as they are.
pub confirm_enrolment-IsAnswered :
    (x : Crypto) (user other code : Text) (now : ℕ) (draws : List Draw) (db : Tables)
    → text_eq user other ≡ false
    → IsAnswered x user other code now draws db (confirm_enrolment x user code now draws db)
unfolding confirm_enrolment two_factor_required credential_for
confirm_enrolment-IsAnswered x user other code now draws db apart =
    elim (Option-cases (credential_for user db)) [
      | inl nothing ↦
          let same : (db, conflict) ≡ confirm_enrolment x user code now draws db =
            ground (arith, nothing) in
          subst (IsAnswered x user other code now draws db) same (refl, inl nothing)
      | inr (c, there) ↦ elim (Bool-cases (is_set c.confirmed_at)) [
        | inl on ↦
            let same : (db, conflict) ≡ confirm_enrolment x user code now draws db =
              ground (arith, there, on) in
            subst (IsAnswered x user other code now draws db) same
              (refl, inr (ap is_confirmed there ∙ on))
        | inr pending ↦ elim (Verdict-cases (checked x c code now none)) [
          | inl unfit ↦
              let same : (db, no_match) ≡ confirm_enrolment x user code now draws db =
                ground (arith, there, pending, unfit) in
              subst (IsAnswered x user other code now draws db) same refl
          | inr (inl early) ↦
              let same : (db, failed) ≡ confirm_enrolment x user code now draws db =
                ground (arith, there, pending, early) in
              subst (IsAnswered x user other code now draws db) same refl
          | inr (inr (step, fit)) ↦
              let same : confirmed x user step now draws db
                  ≡ confirm_enrolment x user code now draws db =
                ground (arith, there, pending, fit) in
              let (secret, opened, verified) = checked-accepted x c code now none step fit in
              subst (IsAnswered x user other code now draws db) same (
                issued-IsOn x user other code now draws db c secret step apart there pending opened
                  (accepted-IsTimely x secret code now none step verified))
        ]
      ]
    ]
