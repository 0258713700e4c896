-- ===== src/SecondFactor/Examples.antt =====
-- An account with an authenticator and two recovery codes, one of them used.
use next_explorer.Prelude.{
  ℕ, ◌-◌, ◌/◌, ◌≡◌, ◌↔◌, refl, Bool, false, ◌&&◌, List, [], ◌∷◌, ◌++◌, map, none, some, arith, Text,
  codes, if◌then◌else◌, leb, drop, All, filter,
}
use next_explorer.SecondFactor.Base32.{cleaned, encode_base32, decode_base32}
use next_explorer.SecondFactor.Encoding.{IsByte, IsLetter}
use next_explorer.SecondFactor.RoundTrip.{decode_base32-encode_base32}
use next_explorer.SecondFactor.Totp.{
  code_for_step, verify_totp, verify_totp-Answers, Answers, without_spaces, step_ms,
}
use next_explorer.SecondFactor.TwoFactor.{
  Crypto, Credential, RecoveryCode, Tables, Draw, Issue, denied, by_phone, by_paper, credential_for,
  two_factor_status, disable_two_factor, confirm_enrolment, verify_second_factor,
}
use next_explorer.SecondFactor.Attempts.{IsProven, verify_second_factor-IsProven}
use next_explorer.SecondFactor.Replay.{Attempt, answers, IsSpentOnce, answers-IsSpentOnce}
use next_explorer.SecondFactor.Updates.{names}
use next_explorer.SecondFactor.Removals.{owned}
use next_explorer.SecondFactor.Enrolment.{
  IsUntouched, IsAnswered, confirm_enrolment-IsAnswered, disable_two_factor-IsOff,
}

abbrev capital : ℕ → ℕ
capital c = if leb 97 c && leb c 122 then c - 32 else c

abbrev capitals : Text → Text
capitals text = map capital text

capitals-letters : (text : Text) → All IsLetter text → capitals text ≡ text
capitals-letters [] h = refl
capitals-letters (c ∷ text) h = ground (arith, h.0, capitals-letters text h.1)

-- The first test vectors of RFC 4648.
encode-foobar : encode_base32 (codes "foobar") ≡ codes "MZXW6YTBOI"
unfolding encode_base32
encode-foobar = refl

abbrev foobar : List ℕ
foobar = codes "foobar"

foobar-bytes : All IsByte foobar
foobar-bytes = ground arith

decode_base32-encode_base32_example :
    (decode_base32 capitals (codes "mzxw 6ytb-oi==") ≡ some foobar)
    × (decode_base32 capitals (encode_base32 foobar) ≡ some foobar)
    × (cleaned capitals (encode_base32 foobar) ≡ encode_base32 foobar)
unfolding encode_base32
decode_base32-encode_base32_example =
    decode_base32-encode_base32 capitals capitals-letters foobar foobar-bytes
      (λ same. ground (arith, same)) (codes "mzxw 6ytb-oi==") refl

-- Twenty bytes that change with the step.
abbrev spread : List ℕ → List ℕ → List ℕ
spread key message = let low = drop 4 message in low ++ low ++ low ++ low ++ low

abbrev toy : Crypto
toy = record {
  hmac = spread;
  sha256_hex = λ text. text;
  to_upper_case = capitals;
  open_secret = λ sealed. some sealed;
}

abbrev noon : ℕ
noon = 1_700_000_000_000

abbrev now_step : ℕ
now_step = noon / step_ms

abbrev code_now : Text
code_now = code_for_step spread foobar now_step

verify_totp-Answers_example :
    Answers spread 1 foobar
      (without_spaces (codes "123 456"))
      (some 7)
      (noon / step_ms)
      (noon / step_ms)
      (verify_totp spread capitals (codes "MZXW6YTBOI") (codes "123 456") noon 1 (some 7))
unfolding decode_base32
verify_totp-Answers_example =
    verify_totp-Answers spread capitals (codes "MZXW6YTBOI") (codes "123 456") noon 1 (some 7)
      foobar refl refl

abbrev phone : Credential
phone = record {
  user_id = codes "ann";
  secret = codes "MZXW6YTBOI";
  confirmed_at = some 5;
  last_step = none;
  last_used_at = none;
  created_at = 4;
}

abbrev paper : RecoveryCode
paper = record {
  id = codes "r1";
  user_id = codes "ann";
  code_hash = codes "ABCDEFGHJK";
  used_at = none;
  created_at = 5;
}

abbrev tables : Tables
tables = record {
  credentials = phone ∷ [];
  recovery_codes = paper ∷ record paper { id = codes "r2"; used_at = some 9 } ∷ [];
}

abbrev phone_attempt : Attempt
phone_attempt = record { user = codes "ann"; code = code_now; now = noon }

abbrev paper_attempt : Attempt
paper_attempt = record { user = codes "ann"; code = codes "abcde-fghjk"; now = noon }

-- The same code again, and the same recovery code again, are refused.
answers-twice :
    map
      (λ a. a.1)
      (answers toy (phone_attempt ∷ phone_attempt ∷ paper_attempt ∷ paper_attempt ∷ []) tables)
    ≡ by_phone now_step ∷ denied ∷ by_paper 0 ∷ denied ∷ []
unfolding verify_second_factor code_for_step
answers-twice = refl

verify_second_factor-IsProven_example :
    IsProven toy
      (codes "ann")
      (codes "abcde-fghjk")
      noon
      tables
      (verify_second_factor toy (codes "ann") (codes "abcde-fghjk") noon tables)
verify_second_factor-IsProven_example =
    verify_second_factor-IsProven toy (codes "ann") (codes "abcde-fghjk") noon tables

answers-IsSpentOnce_example :
    IsSpentOnce
      (codes "ann")
      tables
      (answers toy (phone_attempt ∷ phone_attempt ∷ paper_attempt ∷ []) tables)
answers-IsSpentOnce_example =
    answers-IsSpentOnce toy (codes "ann") (phone_attempt ∷ phone_attempt ∷ paper_attempt ∷ [])
      tables

abbrev turned_off : Tables × Bool
turned_off = disable_two_factor (codes "ann") tables

disable_two_factor-IsOff_example :
    (two_factor_status (codes "ann") turned_off.0
      ≡ record { enabled = false; pending = false; confirmed_at = none; recovery_codes_left = 0 })
    × (verify_second_factor toy (codes "ann") (codes "abcde-fghjk") noon turned_off.0
        ≡ (turned_off.0, denied))
    × ((turned_off.1 ≡ false) ↔ (credential_for (codes "ann") tables ≡ none))
    × (filter (names (codes "ann")) turned_off.0.credentials ≡ [])
    × (filter (owned (codes "ann")) turned_off.0.recovery_codes ≡ [])
    × IsUntouched (codes "bob") tables turned_off.0
disable_two_factor-IsOff_example =
    disable_two_factor-IsOff toy (codes "ann") (codes "bob") (codes "abcde-fghjk") noon tables refl

abbrev waiting : Tables
waiting = record tables { credentials = record phone { confirmed_at = none } ∷ [] }

abbrev draws : List Draw
draws = record { id = codes "r3"; bytes = 0 ∷ 1 ∷ 2 ∷ 3 ∷ 4 ∷ 5 ∷ 6 ∷ 7 ∷ 8 ∷ 255 ∷ [] } ∷ []

confirm-shows :
    (confirm_enrolment toy (codes "ann") code_now noon draws waiting).1
    ≡ Issue.issued (codes "ABCDE-FGHJ9" ∷ [])
unfolding confirm_enrolment code_for_step
confirm-shows = refl

confirm_enrolment-IsAnswered_example :
    IsAnswered toy
      (codes "ann")
      (codes "bob")
      code_now
      noon
      draws
      waiting
      (confirm_enrolment toy (codes "ann") code_now noon draws waiting)
confirm_enrolment-IsAnswered_example =
    confirm_enrolment-IsAnswered toy (codes "ann") (codes "bob") code_now noon draws waiting refl
