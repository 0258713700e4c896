-- ===== src/SecondFactor/Totp.antt =====
-- backend/src/utils/totp.js: one-time codes. HMAC-SHA1, which Node computes, is an argument, and so is
-- `toUpperCase`. A step that does not fit eight bytes is out of the range of dates, and not modelled.
use next_explorer.Prelude.{
  ℕ, zero, suc, ◌+◌, ◌-◌, ◌*◌, ◌/◌, ◌%◌, ◌^◌, ◌≤◌, ◌<◌, ◌≡◌, subst, inl, inr, Bool, true, false,
  not, ◌&&◌, ◌||◌, List, [], ◌∷◌, ◌++◌, Option, none, some, arith, if◌then◌else◌, Text, text_eq,
  text_eq_iff, ltb, leb, ◌==◌, all, filter, get_or, length, Bool-cases, Option-cases,
}
use next_explorer.SecondFactor.Base32.{is_space, decode_base32}

-- `String(value).padStart(width, '0')` of a value of at most so many digits
abbrev pub padded_decimal : ℕ → ℕ → Text
padded_decimal zero value = []
padded_decimal (suc width) value = padded_decimal width (value / 10) ++ (48 + value % 10) ∷ []

-- `writeUInt32BE`
abbrev pub big_endian : ℕ → List ℕ
big_endian n = n / 2 ^ 24 ∷ n / 2 ^ 16 % 256 ∷ n / 2 ^ 8 % 256 ∷ n % 256 ∷ []

abbrev pub step_ms : ℕ
step_ms = 30 * 1000

abbrev pub digit_count : ℕ
digit_count = 6

abbrev pub is_digit : ℕ → Bool
is_digit c = leb 48 c && leb c 57

abbrev pub six_digits : Text → Bool
six_digits digits = length digits == 6 && all is_digit digits

abbrev pub without_spaces : Text → Text
without_spaces code = filter (λ c. not (is_space c)) code

-- What `verifyTotp` answers: a step, null, or the RangeError of a step below 0.
pub data Verdict : Type 0 where
  accepted : ℕ → Verdict
  refused range_error : Verdict

-- `after !== null && step <= after`; a step is below 0 where it is before the first
abbrev pub is_spent : Option ℕ → Bool → ℕ → Bool
is_spent none below step = false
is_spent (some after) below step = below || leb step after

-- A step later than the one that was accepted last, if any was.
abbrev pub IsLater : Option ℕ → ℕ → Type 0
IsLater none step = Unit
IsLater (some after) step = after < step

IsLater-spent :
    (after : Option ℕ) (shifted window step : ℕ)
    → is_spent after (ltb shifted window) (shifted - window) ≡ true
    → step + window ≡ shifted
    → IsLater after step
    → ⊥
IsLater-spent none shifted window step spent here later = ground (arith, spent)
IsLater-spent (some after) shifted window step spent here later = ground (arith, spent, here, later)

IsLater-fresh :
    (after : Option ℕ) (below : Bool) (step : ℕ)
    → is_spent after below step ≡ false
    → IsLater after step
IsLater-fresh none below step fresh = tt
IsLater-fresh (some after) below step fresh = ground (arith, fresh)

module _ (hmac : List ℕ → List ℕ → List ℕ) where
  unfoldable pub code_for_step : List ℕ → ℕ → Text
  code_for_step key step =
      let digest = hmac key (big_endian (step / 2 ^ 32) ++ big_endian (step % 2 ^ 32)) in
      let offset = get_or digest (length digest - 1) 0 % 16 in
      let binary =
        get_or digest offset 0 % 128 * 2 ^ 24
        + get_or digest (offset + 1) 0 * 2 ^ 16
        + get_or digest (offset + 2) 0 * 2 ^ 8
        + get_or digest (offset + 3) 0 in
      padded_decimal digit_count (binary % 10 ^ digit_count)

  -- The loop over the drifts that are left; a step is counted from the first, `window` below 0.
  unfoldable pub try_steps : ℕ → List ℕ → Text → Option ℕ → ℕ → ℕ → Verdict
  unfolding code_for_step
  try_steps window key digits after zero shifted = refused
  try_steps window key digits after (suc left) shifted =
      let rest = try_steps window key digits after left (shifted + 1) in
      if is_spent after (ltb shifted window) (shifted - window)
      then rest
      else if ltb shifted window
      then range_error
      else if text_eq (code_for_step key (shifted - window)) digits
      then accepted (shifted - window)
      else rest

  unfoldable pub verify_totp : (Text → Text) → Text → Text → ℕ → ℕ → Option ℕ → Verdict
  unfolding decode_base32 try_steps
  verify_totp to_upper_case secret code at window after =
      let digits = without_spaces code in
      if not (six_digits digits) then refused else elim (decode_base32 to_upper_case secret) [
        | none ↦ refused
        | some key ↦ try_steps window key digits after (2 * window + 1) (at / step_ms)
      ]

  -- A step whose code is the one given, near enough, and later than the last that was accepted.
  pub record Fits (window : ℕ) (key : List ℕ) (digits : Text) (after : Option ℕ) (current step : ℕ)
      : Type 0 where
    pub not_long_ago : current ≤ step + window
    pub not_far_ahead : step ≤ current + window
    pub later : IsLater after step
    pub same_code : code_for_step key step ≡ digits

  -- What the loop answers of the steps from one on.
  abbrev pub Answers : ℕ → List ℕ → Text → Option ℕ → ℕ → ℕ → Verdict → Type 0
  Answers window key digits after current from (accepted step) =
      Fits window key digits after current step
      × ((earlier : ℕ)
          → from ≤ earlier + window
          → earlier < step
          → Fits window key digits after current earlier
          → ⊥)
  Answers window key digits after current from refused =
      (step : ℕ) → from ≤ step + window → Fits window key digits after current step → ⊥
  Answers window key digits after current from range_error = (after ≡ none) × (from < window)

  widen :
      (window : ℕ) (key : List ℕ) (digits : Text) (after : Option ℕ) (current from : ℕ)
      (v : Verdict)
      → Answers window key digits after current (from + 1) v
      → ((step : ℕ) → step + window ≡ from → Fits window key digits after current step → ⊥)
      → Answers window key digits after current from v
  widen window key digits after current from (accepted step) told here = (
    told.0,
    λ earlier late before fits. elim (Bool-cases (earlier + window == from)) [
      | inl same ↦ here earlier (ground (arith, same)) fits
      | inr other ↦ told.1 earlier (ground (arith, other, late)) before fits
    ],
  )
  widen window key digits after current from refused told here = λ step late fits.
      elim (Bool-cases (step + window == from)) [
        | inl same ↦ here step (ground (arith, same)) fits
        | inr other ↦ told step (ground (arith, other, late)) fits
      ]
  widen window key digits after current from range_error told here = (told.0, omega (arith, told.1))

  try_steps-Answers :
      (window : ℕ) (key : List ℕ) (digits : Text) (after : Option ℕ) (current left shifted : ℕ)
      → shifted + left ≡ current + 2 * window + 1
      → current ≤ shifted
      → Answers window key digits after current shifted
          (try_steps window key digits after left shifted)
  unfolding try_steps
  try_steps-Answers window key digits after current zero shifted total from =
      λ step late fits. omega (arith, late, fits.not_far_ahead, total)
  try_steps-Answers window key digits after current (suc left) shifted total from =
      let rest = try_steps window key digits after left (shifted + 1) in
      let told =
        try_steps-Answers window key digits after current left (shifted + 1) (omega (arith, total))
          (omega (arith, from)) in
      let now = try_steps window key digits after (suc left) shifted in
      elim (Bool-cases (is_spent after (ltb shifted window) (shifted - window))) [
        | inl spent ↦
            let same : rest ≡ now = ground (arith, spent) in
            subst (Answers window key digits after current shifted) same (
              widen window key digits after current shifted rest told
                (λ step here fits. IsLater-spent after shifted window step spent here fits.later))
        | inr fresh ↦ elim (Bool-cases (ltb shifted window)) [
          | inl below ↦
              let same : range_error ≡ now = ground (arith, fresh, below) in
              subst (Answers window key digits after current shifted) same
                (elim (Option-cases after) [
                  | inl first ↦ (first, ground (arith, below))
                  | inr (a, some_after) ↦ absurd (ground (arith, fresh, below, some_after))
                ])
          | inr reached ↦
              elim (Bool-cases (text_eq (code_for_step key (shifted - window)) digits)) [
                | inl hit ↦
                    let same : accepted (shifted - window) ≡ now =
                      ground (arith, fresh, reached, hit) in
                    subst (Answers window key digits after current shifted) same (
                      record {
                        not_long_ago = ground (arith, reached, from);
                        not_far_ahead = ground (arith, reached, total);
                        later = IsLater-fresh after (ltb shifted window) (shifted - window) fresh;
                        same_code =
                            (text_eq_iff (code_for_step key (shifted - window)) digits).0 hit;
                      },
                      λ earlier late before fits. ground (arith, late, before, reached),
                    )
                | inr miss ↦
                    let same : rest ≡ now = ground (arith, fresh, reached, miss) in
                    subst (Answers window key digits after current shifted) same (
                      widen window key digits after current shifted rest told (λ step here fits.
                        let one : step ≡ shifted - window = omega (arith, here) in
                        ground (
                          arith,
                          miss,
                          (text_eq_iff (code_for_step key (shifted - window)) digits).1
                              (subst (λ n. code_for_step key n ≡ digits) one fits.same_code),
                        )))
              ]
        ]
      ]

  -- What `verifyTotp` says of six digits and a secret that can be read: a step that it accepts is at
  -- most the window away from now and later than the last that was accepted, its code is the one
  -- given, and no earlier step would do; it refuses only where no step would do; and it throws only
  -- where none was accepted before, within the window of the epoch.
  pub verify_totp-Answers :
      (to_upper_case : Text → Text) (secret code : Text) (at window : ℕ) (after : Option ℕ)
      (key : List ℕ)
      → six_digits (without_spaces code) ≡ true
      → decode_base32 to_upper_case secret ≡ some key
      → Answers window key
          (without_spaces code)
          after
          (at / step_ms)
          (at / step_ms)
          (verify_totp to_upper_case secret code at window after)
  unfolding verify_totp
  verify_totp-Answers to_upper_case secret code at window after key six readable =
      let current = at / step_ms in
      let digits = without_spaces code in
      let same : try_steps window key digits after (2 * window + 1) current
          ≡ verify_totp to_upper_case secret code at window after =
        ground (arith, six, readable) in
      subst (Answers window key digits after current current) same (
        try_steps-Answers window key digits after current (2 * window + 1) current (omega arith)
          (omega arith))
