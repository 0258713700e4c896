-- ===== src/SecondFactor/RoundTrip.antt =====
-- What backend/src/utils/base32.js encodes is decoded again.
use mathlib.Core.List.{append-nil, append_assoc}
use next_explorer.Prelude.{
  ℕ, zero, ◌+◌, ◌-◌, ◌*◌, ◌/◌, ◌%◌, ◌^◌, ◌<◌, ◌≤◌, ◌≡◌, ◌≢◌, refl, ap, ap₂, sym, ◌∙◌, subst, none,
  if◌then◌else◌, inl, inr, true, false, not, ◌||◌, List, [], ◌∷◌, ◌++◌, some, arith, Text, length,
  All, all, filter, Bool-cases, leb, ◌==◌,
}
use next_explorer.SecondFactor.Base32.{
  alphabet, index_of, value_of, is_letter, is_space, hyphen, is_empty_text, without_padding,
  cleaned, encode_base32, decode_loop, decode_base32,
}
use next_explorer.SecondFactor.BitStreams.{
  length-bits_of, bits_of, bits_of-add, bits_of-octet, octet-same, bits_of-digit,
}
use next_explorer.SecondFactor.Encoding.{quintets, octets, IsByte, IsLetter, encode_loop-Encoded}

record Decoded (stream : List ℕ) (bytes : List ℕ) : Type 0 where
  rest : List ℕ
  short : length rest < 8
  same : octets bytes ++ rest ≡ stream
  all_bytes : All IsByte bytes

index_of-lt :
    (c from bound : ℕ) (xs : Text)
    → zero < bound
    → from + length xs ≤ bound
    → index_of c from xs < bound
index_of-lt c from bound [] one_at_least room = one_at_least
index_of-lt c from bound (x ∷ xs) one_at_least room =
    ground (arith, index_of-lt c (from + 1) bound xs one_at_least (omega (arith, room)), room)

value_of-lt : (c : ℕ) → value_of c < 32
unfolding value_of
value_of-lt c = index_of-lt c 0 32 alphabet (omega arith) (omega arith)

-- The first byte of more than eight bits.
Decoded-byte :
    (next bits : ℕ) (more bytes : List ℕ)
    → 8 ≤ bits
    → Decoded (bits_of (bits - 8) next ++ more) bytes
    → Decoded (bits_of bits next ++ more) (next / 2 ^ (bits - 8) % 256 ∷ bytes)
Decoded-byte next bits more bytes full d = record {
  rest = d.rest;
  short = d.short;
  same =
      append_assoc (bits_of 8 (next / 2 ^ (bits - 8) % 256)) (octets bytes) d.rest
      ∙ ap (λ bs. bits_of 8 (next / 2 ^ (bits - 8) % 256) ++ bs) d.same
      ∙ ap (λ bs. bs ++ (bits_of (bits - 8) next ++ more)) (bits_of-octet (next / 2 ^ (bits - 8)))
      ∙ sym (append_assoc (bits_of 8 (next / 2 ^ (bits - 8))) (bits_of (bits - 8) next) more)
      ∙ ap (λ bs. bs ++ more)
          (sym (bits_of-add 8 (bits - 8) next)
            ∙ ap (λ n. bits_of n next) (let n : 8 + (bits - 8) ≡ bits = omega (arith, full) in n));
  all_bytes = (omega arith, d.all_bytes);
}

decode_loop-Decoded :
    (value bits : ℕ) (cs : Text)
    → bits < 8
    → Decoded (bits_of bits value ++ quintets cs) (decode_loop value bits cs)
unfolding decode_loop
decode_loop-Decoded value bits [] few = record {
  rest = bits_of bits value;
  short = subst (λ n. n < 8) (sym (length-bits_of bits value)) few;
  same = sym (append-nil (bits_of bits value));
  all_bytes = tt;
}
decode_loop-Decoded value bits (c ∷ cs) few =
    let next = value * 2 ^ 5 % 2 ^ 32 + value_of c in
    let stream : bits_of (bits + 5) next ++ quintets cs ≡ bits_of bits value ++ quintets (c ∷ cs) =
      ap (λ bs. bs ++ quintets cs) (bits_of-digit bits value (value_of c) few (value_of-lt c))
      ∙ append_assoc (bits_of bits value) (bits_of 5 (value_of c)) (quintets cs) in
    elim (Bool-cases (leb 8 (bits + 5))) [
      | inl full ↦
          let rest = decode_loop-Decoded next (bits + 5 - 8) cs (omega (arith, few)) in
          let same : next / 2 ^ (bits + 5 - 8) % 256 ∷ decode_loop next (bits + 5 - 8) cs
              ≡ decode_loop value bits (c ∷ cs) =
            ground (arith, full) in
          subst (λ s. Decoded s (decode_loop value bits (c ∷ cs))) stream
            (subst (Decoded (bits_of (bits + 5) next ++ quintets cs)) same (
              Decoded-byte next (bits + 5) (quintets cs) (decode_loop next (bits + 5 - 8) cs)
                (ground (arith, full)) rest))
      | inr short ↦
          let rest = decode_loop-Decoded next (bits + 5) cs (ground (arith, short)) in
          let same : decode_loop next (bits + 5) cs ≡ decode_loop value bits (c ∷ cs) =
            ground (arith, short) in
          subst (λ s. Decoded s (decode_loop value bits (c ∷ cs))) stream
            (subst (Decoded (bits_of (bits + 5) next ++ quintets cs)) same rest)
    ]

-- Two streams of bytes with fewer than eight bits behind them.
octets-same :
    (xs ys more rest : List ℕ)
    → length more < 8
    → length rest < 8
    → All IsByte xs
    → All IsByte ys
    → octets xs ++ more ≡ octets ys ++ rest
    → xs ≡ ys
octets-same [] [] more rest hm hr hx hy h = refl
octets-same [] (y ∷ ys) more rest hm hr hx hy h = absurd (ground (arith, ap length h, hm))
octets-same (x ∷ xs) [] more rest hm hr hx hy h = absurd (ground (arith, ap length h, hr))
octets-same (x ∷ xs) (y ∷ ys) more rest hm hr hx hy h =
    let tails : octets xs ++ more ≡ octets ys ++ rest = ground (arith, h) in
    let heads : bits_of 8 x ≡ bits_of 8 y = ground (arith, h) in
    let same = octet-same x y hx.0 hy.0 heads in
    ap₂ (λ b bs. b ∷ bs) same (octets-same xs ys more rest hm hr hx.1 hy.1 tails)

letters-kept : (s : Text) → All IsLetter s → filter (λ c. not (is_space c || c == hyphen)) s ≡ s
letters-kept [] h = refl
letters-kept (c ∷ s) h = ground (arith, h.0, letters-kept s h.1)

letters-plain : (s : Text) → All IsLetter s → without_padding s ≡ s
letters-plain [] h = refl
letters-plain (c ∷ s) h = ground (arith, h.0, letters-plain s h.1)

all-IsLetter : (s : Text) → All IsLetter s → all is_letter s ≡ true
all-IsLetter [] h = refl
all-IsLetter (c ∷ s) h = ground (arith, h.0, all-IsLetter s h.1)

decoded : (bytes : List ℕ) → All IsByte bytes → decode_loop 0 0 (encode_base32 bytes) ≡ bytes
unfolding encode_base32
decoded bytes h =
    let encoded = encode_loop-Encoded 0 0 bytes (omega arith) h in
    let read = decode_loop-Decoded 0 0 (encode_base32 bytes) (omega arith) in
    octets-same (decode_loop 0 0 (encode_base32 bytes)) bytes read.rest encoded.padding read.short
      (omega (arith, encoded.short)) read.all_bytes h (read.same ∙ encoded.same)

letters-encode_base32 : (bytes : List ℕ) → All IsByte bytes → All IsLetter (encode_base32 bytes)
unfolding encode_base32
letters-encode_base32 bytes h = (encode_loop-Encoded 0 0 bytes (omega arith) h).letters

is_empty_text-encode_base32 :
    (bytes : List ℕ) → All IsByte bytes → bytes ≢ [] → is_empty_text (encode_base32 bytes) ≡ false
unfolding decode_loop
is_empty_text-encode_base32 bytes h some_bytes =
    elim (Bool-cases (is_empty_text (encode_base32 bytes))) [
      | inr full ↦ full
      | inl empty ↦ absurd (
          some_bytes
            (sym (decoded bytes h) ∙ ap (decode_loop 0 0) (nothing (encode_base32 bytes) empty)))
    ]
  where
    nothing : (s : Text) → is_empty_text s ≡ true → s ≡ []
    nothing [] e = refl
    nothing (c ∷ s) e = ground (arith, e)

-- Bytes that are encoded are decoded again, where there are any: from any text that comes down to what
-- was encoded once it is cleaned, with spaces, hyphens or padding in it or in lower case, and so from
-- what was encoded itself. That needs of `toUpperCase` that it leaves a text of capital letters and
-- digits as it is.
pub decode_base32-encode_base32 :
    (to_upper_case : Text → Text)
    → ((text : Text) → All IsLetter text → to_upper_case text ≡ text)
    → (bytes : List ℕ) → All IsByte bytes
    → bytes ≢ []
    → (typed : Text) → cleaned to_upper_case typed ≡ cleaned to_upper_case (encode_base32 bytes)
    → (decode_base32 to_upper_case typed ≡ some bytes)
      × (decode_base32 to_upper_case (encode_base32 bytes) ≡ some bytes)
      × (cleaned to_upper_case (encode_base32 bytes) ≡ encode_base32 bytes)
unfolding decode_base32
decode_base32-encode_base32 to_upper_case upper bytes h some_bytes typed comes_down =
    let letters : All IsLetter (encode_base32 bytes) = letters-encode_base32 bytes h in
    let clean : cleaned to_upper_case (encode_base32 bytes) ≡ encode_base32 bytes =
      ap (λ s. to_upper_case (without_padding s)) (letters-kept (encode_base32 bytes) letters)
      ∙ ap to_upper_case (letters-plain (encode_base32 bytes) letters)
      ∙ upper (encode_base32 bytes) letters in
    let read : (s : Text)
        → s ≡ encode_base32 bytes
        → (if is_empty_text s || not (all is_letter s) then none else some (decode_loop 0 0 s))
          ≡ some bytes =
      λ s same.
        subst
          (λ s.
            (if is_empty_text s || not (all is_letter s) then none else some (decode_loop 0 0 s))
            ≡ some bytes)
          (sym same)
          (ground (
            arith,
            is_empty_text-encode_base32 bytes h some_bytes,
            all-IsLetter (encode_base32 bytes) letters,
            decoded bytes h,
          )) in
    (
      read (cleaned to_upper_case typed) (comes_down ∙ clean),
      read (cleaned to_upper_case (encode_base32 bytes)) clean,
      clean,
    )
