-- ===== src/SecondFactor/Encoding.antt =====
-- What the loops of `encodeBase32` of backend/src/utils/base32.js write, as a stream of bits.
use mathlib.Core.List.{append-nil, append_assoc}
use next_explorer.Prelude.{
  ℕ, zero, suc, ◌+◌, ◌-◌, ◌*◌, ◌/◌, ◌%◌, ◌^◌, ◌<◌, ◌≤◌, ◌≡◌, refl, ap, sym, ◌∙◌, subst, inl, inr,
  Bool, true, ◌&&◌, List, [], ◌∷◌, ◌++◌, arith, Text, length, All, All-append, Bool-cases, leb,
  ◌==◌, ==_iff,
}
use next_explorer.SecondFactor.Base32.{letter, value_of, is_letter, flush, encode_loop}
use next_explorer.SecondFactor.BitStreams.{bits_of, bits_of-add, bits_of-quintet, bits_of-byte}

abbrev all_below : ℕ → (ℕ → Bool) → Bool
all_below zero p = true
all_below (suc n) p = p n && all_below n p

below : (n d : ℕ) (p : ℕ → Bool) → all_below n p ≡ true → d < n → p d ≡ true
below zero d p h less = absurd (omega (arith, less))
below (suc n) d p h less = elim (Bool-cases (d == n)) [
  | inl same ↦ subst (λ m. p m ≡ true) (sym ((==_iff d n).0 same)) (ground arith)
  | inr other ↦ below n d p (ground arith) (ground (arith, other, less))
]

-- Each digit has its letter.
letter-value : (d : ℕ) → d < 32 → (value_of (letter d) ≡ d) × (is_letter (letter d) ≡ true)
unfolding letter value_of
letter-value d less =
    let each : (value_of (letter d) == d && is_letter (letter d)) ≡ true =
      below 32 d (λ d. value_of (letter d) == d && is_letter (letter d)) refl less in
    ((==_iff (value_of (letter d)) d).0 (ground (arith, each)), ground (arith, each))

abbrev pub quintets : Text → List ℕ
quintets [] = []
quintets (c ∷ cs) = bits_of 5 (value_of c) ++ quintets cs

abbrev pub octets : List ℕ → List ℕ
octets [] = []
octets (b ∷ bs) = bits_of 8 b ++ octets bs

abbrev pub IsByte : ℕ → Type 0
IsByte b = b < 256

abbrev pub IsLetter : ℕ → Type 0
IsLetter c = is_letter c ≡ true

quintets-append : (s t : Text) → quintets (s ++ t) ≡ quintets s ++ quintets t
quintets-append [] t = refl
quintets-append (c ∷ s) t =
    ap (λ bs. bits_of 5 (value_of c) ++ bs) (quintets-append s t)
    ∙ sym (append_assoc (bits_of 5 (value_of c)) (quintets s) (quintets t))

record Flushed (value bits : ℕ) (out : Text × ℕ) : Type 0 where
  left : out.1 < 5
  same : quintets out.0 ++ bits_of out.1 value ≡ bits_of bits value
  letters : All IsLetter out.0

-- The inner loop stops with fewer than five bits left, and loses none.
flush-Flushed : (fuel value bits : ℕ) → bits ≤ fuel → Flushed value bits (flush fuel value bits)
unfolding flush
flush-Flushed zero value bits enough = ground (arith, enough)
flush-Flushed (suc fuel) value bits enough = elim (Bool-cases (leb 5 bits)) [
  | inr few ↦ ground (arith, few)
  | inl more ↦
      let rest = flush-Flushed fuel value (bits - 5) (ground (arith, more, enough)) in
      let digit = value / 2 ^ (bits - 5) % 32 in
      let known = letter-value digit (omega arith) in
      let out = flush fuel value (bits - 5) in
      let split : bits_of 5 digit ++ bits_of (bits - 5) value ≡ bits_of bits value =
        ap (λ bs. bs ++ bits_of (bits - 5) value) (bits_of-quintet (value / 2 ^ (bits - 5)))
        ∙ sym (bits_of-add 5 (bits - 5) value)
        ∙ ap (λ n. bits_of n value) (let n : 5 + (bits - 5) ≡ bits = ground (arith, more) in n) in
      let same : (letter digit ∷ out.0, out.1) ≡ flush (suc fuel) value bits =
        ground (arith, more) in
      subst (Flushed value bits) same (record {
        left = rest.left;
        same =
            ap (λ d. (bits_of 5 d ++ quintets out.0) ++ bits_of out.1 value) known.0
            ∙ append_assoc (bits_of 5 digit) (quintets out.0) (bits_of out.1 value)
            ∙ ap (λ bs. bits_of 5 digit ++ bs) rest.same
            ∙ split;
        letters = (known.1, rest.letters);
      })
]

abbrev pub last_digit : ℕ → ℕ → ℕ
last_digit value bits = value * 2 ^ (5 - bits) % 2 ^ 32 % 32

record Padded (digit value bits : ℕ) : Type 0 where
  padding : List ℕ
  short : length padding < 5
  same : bits_of 5 digit ≡ bits_of bits value ++ padding

last_digit-Padded :
    (value bits : ℕ) → zero < bits → bits < 5 → Padded (last_digit value bits) value bits
last_digit-Padded value zero some_left few = absurd (omega (arith, some_left))
last_digit-Padded value (suc zero) some_left few = record {
  padding = 0 ∷ 0 ∷ 0 ∷ 0 ∷ [];
  short = omega arith;
  same = ground arith;
}
last_digit-Padded value (suc (suc zero)) some_left few = record {
  padding = 0 ∷ 0 ∷ 0 ∷ [];
  short = omega arith;
  same = ground arith;
}
last_digit-Padded value (suc (suc (suc zero))) some_left few = record {
  padding = 0 ∷ 0 ∷ [];
  short = omega arith;
  same = ground arith;
}
last_digit-Padded value (suc (suc (suc (suc zero)))) some_left few = record {
  padding = 0 ∷ [];
  short = omega arith;
  same = ground arith;
}
last_digit-Padded value (suc (suc (suc (suc (suc bits))))) some_left few =
    absurd (omega (arith, few))

pub record Encoded (stream : List ℕ) (out : Text) : Type 0 where
  pub padding : List ℕ
  pub short : length padding < 5
  pub same : quintets out ≡ stream ++ padding
  pub letters : All IsLetter out

pub encode_loop-Encoded :
    (value bits : ℕ) (bytes : List ℕ)
    → bits < 5
    → All IsByte bytes
    → Encoded (bits_of bits value ++ octets bytes) (encode_loop value bits bytes)
unfolding encode_loop
encode_loop-Encoded value zero [] few h = record {
  padding = [];
  short = omega arith;
  same = refl;
  letters = tt;
}
encode_loop-Encoded value (suc n) [] few h =
    let last = last_digit-Padded value (suc n) (omega arith) few in
    let digit = last_digit value (suc n) in
    let known = letter-value digit (omega arith) in
    let same : letter digit ∷ [] ≡ encode_loop value (suc n) [] = ground arith in
    subst (Encoded (bits_of (suc n) value ++ [])) same (record {
      padding = last.padding;
      short = last.short;
      same =
          append-nil (bits_of 5 (value_of (letter digit)))
          ∙ ap (bits_of 5) known.0
          ∙ last.same
          ∙ ap (λ bs. bs ++ last.padding) (sym (append-nil (bits_of (suc n) value)));
      letters = (known.1, tt);
    })
encode_loop-Encoded value bits (byte ∷ bytes) few h =
    let next = value * 2 ^ 8 % 2 ^ 32 + byte in
    let out = flush (bits + 8) next (bits + 8) in
    let flushed = flush-Flushed (bits + 8) next (bits + 8) (omega arith) in
    let rest = encode_loop-Encoded next out.1 bytes flushed.left h.1 in
    record {
      padding = rest.padding;
      short = rest.short;
      same =
          quintets-append out.0 (encode_loop next out.1 bytes)
          ∙ ap (λ bs. quintets out.0 ++ bs) rest.same
          ∙ sym (append_assoc (quintets out.0) (bits_of out.1 next ++ octets bytes) rest.padding)
          ∙ ap (λ bs. bs ++ rest.padding)
              (sym (append_assoc (quintets out.0) (bits_of out.1 next) (octets bytes))
                ∙ ap (λ bs. bs ++ octets bytes)
                    (flushed.same ∙ bits_of-byte bits value byte (omega (arith, few)) h.0)
                ∙ append_assoc (bits_of bits value) (bits_of 8 byte) (octets bytes));
      letters =
          All-append IsLetter out.0 (encode_loop next out.1 bytes) flushed.letters rest.letters;
    }
