-- ===== src/SecondFactor/BitStreams.antt =====
-- The streams of bits that backend/src/utils/base32.js reads and writes.
use native.Mathlib.Nat.{div-div-eq-div-mul}
use mathlib.Core.List.{append-nil, append_assoc}
use next_explorer.Prelude.{
  ℕ, zero, suc, ◌+◌, ◌*◌, ◌/◌, ◌%◌, ◌^◌, ◌<◌, ◌≡◌, refl, ap, sym, ◌∙◌, List, [], ◌∷◌, ◌++◌, arith,
  length, length-append,
}

-- the last bits of a number, the highest first
abbrev pub bits_of : ℕ → ℕ → List ℕ
bits_of zero v = []
bits_of (suc w) v = bits_of w (v / 2) ++ v % 2 ∷ []

pub length-bits_of : (w v : ℕ) → length (bits_of w v) ≡ w
length-bits_of zero v = refl
length-bits_of (suc w) v =
    ground (arith, length-append (bits_of w (v / 2)) (v % 2 ∷ []), length-bits_of w (v / 2))

pub bits_of-add : (a k v : ℕ) → bits_of (a + k) v ≡ bits_of a (v / 2 ^ k) ++ bits_of k v
bits_of-add a zero v =
    let whole : v ≡ v / 2 ^ 0 = omega arith in
    let plain : a + 0 ≡ a = omega arith in
    ap (λ w. bits_of w v) plain ∙ ap (bits_of a) whole ∙ sym (append-nil (bits_of a (v / 2 ^ 0)))
bits_of-add a (suc k) v =
    let halved : v / 2 / 2 ^ k ≡ v / 2 ^ suc k =
      div-div-eq-div-mul v 2 (2 ^ k) ∙ ap (λ n. v / n) (omega arith) in
    let more : a + suc k ≡ suc (a + k) = omega arith in
    ap (λ w. bits_of w v) more
    ∙ ap (λ bs. bs ++ v % 2 ∷ []) (bits_of-add a k (v / 2))
    ∙ append_assoc (bits_of a (v / 2 / 2 ^ k)) (bits_of k (v / 2)) (v % 2 ∷ [])
    ∙ ap (λ n. bits_of a n ++ (bits_of k (v / 2) ++ v % 2 ∷ [])) halved

pub bits_of-octet : (v : ℕ) → bits_of 8 (v % 256) ≡ bits_of 8 v
bits_of-octet v = ground arith

pub bits_of-quintet : (v : ℕ) → bits_of 5 (v % 32) ≡ bits_of 5 v
bits_of-quintet v = ground arith

pub octet-same : (a b : ℕ) → a < 256 → b < 256 → bits_of 8 a ≡ bits_of 8 b → a ≡ b
octet-same a b ha hb h = ground arith

bits_of-same : (w a b : ℕ) → w < 8 → a % 128 ≡ b % 128 → bits_of w a ≡ bits_of w b
bits_of-same zero a b small h = refl
bits_of-same (suc zero) a b small h = ground arith
bits_of-same (suc (suc zero)) a b small h = ground arith
bits_of-same (suc (suc (suc zero))) a b small h = ground arith
bits_of-same (suc (suc (suc (suc zero)))) a b small h = ground arith
bits_of-same (suc (suc (suc (suc (suc zero))))) a b small h = ground arith
bits_of-same (suc (suc (suc (suc (suc (suc zero)))))) a b small h = ground arith
bits_of-same (suc (suc (suc (suc (suc (suc (suc zero))))))) a b small h = ground arith
bits_of-same (suc (suc (suc (suc (suc (suc (suc (suc w)))))))) a b small h =
    absurd (omega (arith, small))

-- A byte that is shifted in stands behind the bits that were there.
pub bits_of-byte :
    (w v byte : ℕ)
    → w < 8
    → byte < 256
    → bits_of (w + 8) (v * 2 ^ 8 % 2 ^ 32 + byte) ≡ bits_of w v ++ bits_of 8 byte
bits_of-byte w v byte small h =
    let next = v * 2 ^ 8 % 2 ^ 32 + byte in
    let front = bits_of-same w (next / 2 ^ 8) v small (omega arith) in
    let same : next % 256 ≡ byte = omega arith in
    bits_of-add w 8 next
    ∙ ap (λ bs. bs ++ bits_of 8 next) front
    ∙ ap (λ bs. bits_of w v ++ bs) (sym (bits_of-octet next) ∙ ap (bits_of 8) same)

-- So does a letter.
pub bits_of-digit :
    (w v digit : ℕ)
    → w < 8
    → digit < 32
    → bits_of (w + 5) (v * 2 ^ 5 % 2 ^ 32 + digit) ≡ bits_of w v ++ bits_of 5 digit
bits_of-digit w v digit small h =
    let next = v * 2 ^ 5 % 2 ^ 32 + digit in
    let front = bits_of-same w (next / 2 ^ 5) v small (omega arith) in
    let same : next % 32 ≡ digit = omega arith in
    bits_of-add w 5 next
    ∙ ap (λ bs. bs ++ bits_of 5 next) front
    ∙ ap (λ bs. bits_of w v ++ bs) (sym (bits_of-quintet next) ∙ ap (bits_of 5) same)
