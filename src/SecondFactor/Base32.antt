-- ===== src/SecondFactor/Base32.antt =====
-- backend/src/utils/base32.js. The 32 bits of `value` are read without a sign, and `|` adds, since the
-- bits that it sets were shifted in as zeros. `toUpperCase`, a table of Unicode, is an argument.
use next_explorer.Prelude.{
  ℕ, zero, suc, ◌+◌, ◌-◌, ◌*◌, ◌/◌, ◌%◌, ◌^◌, Bool, true, false, not, ◌&&◌, ◌||◌, List, [], ◌∷◌,
  ◌++◌, Option, none, some, if◌then◌else◌, Text, codes, ltb, leb, ◌==◌, all, filter, get_or,
}

abbrev pub alphabet : Text
alphabet = codes "ABCDEFGHIJKLMNOPQRSTUVWXYZ234567"

unfoldable pub letter : ℕ → ℕ
letter digit = get_or alphabet digit 0

-- `VALUES.get(letter)`, counted from the index of the first
abbrev pub index_of : ℕ → ℕ → Text → ℕ
index_of c from [] = 0
index_of c from (x ∷ xs) = let rest = index_of c (from + 1) xs in if x == c then from else rest

unfoldable pub value_of : ℕ → ℕ
value_of c = index_of c 0 alphabet

-- the `while` of `encodeBase32`: what it writes, and the bits that are left
unfoldable pub flush : ℕ → ℕ → ℕ → Text × ℕ
unfolding letter
flush zero value bits = ([], bits)
flush (suc fuel) value bits =
    let rest = flush fuel value (bits - 5) in
    if leb 5 bits then (letter (value / 2 ^ (bits - 5) % 32) ∷ rest.0, rest.1) else ([], bits)

unfoldable pub encode_loop : ℕ → ℕ → List ℕ → Text
unfolding flush letter
encode_loop value bits [] =
    if ltb 0 bits then letter (value * 2 ^ (5 - bits) % 2 ^ 32 % 32) ∷ [] else []
encode_loop value bits (byte ∷ bytes) =
    let next = value * 2 ^ 8 % 2 ^ 32 + byte in
    let written = flush (bits + 8) next (bits + 8) in written.0 ++ encode_loop next written.1 bytes

unfoldable pub encode_base32 : List ℕ → Text
unfolding encode_loop
encode_base32 bytes = encode_loop 0 0 bytes

-- `\s` of a regular expression
abbrev pub is_space : ℕ → Bool
is_space c =
    leb 9 c && leb c 13
    || c == 32
    || c == 160
    || c == 5760
    || leb 8192 c && leb c 8202
    || c == 8232
    || c == 8233
    || c == 8239
    || c == 8287
    || c == 12288
    || c == 65279

abbrev pub hyphen : ℕ
hyphen = 45

abbrev pub equals_sign : ℕ
equals_sign = 61

abbrev pub is_empty_text : Text → Bool
is_empty_text [] = true
is_empty_text (c ∷ cs) = false

-- `.replace(/=+$/, '')`
abbrev pub without_padding : Text → Text
without_padding [] = []
without_padding (c ∷ cs) =
    let rest = without_padding cs in if c == equals_sign && is_empty_text rest then [] else c ∷ rest

abbrev pub cleaned : (Text → Text) → Text → Text
cleaned to_upper_case text =
    to_upper_case (without_padding (filter (λ c. not (is_space c || c == hyphen)) text))

-- `[A-Z2-7]`
abbrev pub is_letter : ℕ → Bool
is_letter c = leb 65 c && leb c 90 || leb 50 c && leb c 55

unfoldable pub decode_loop : ℕ → ℕ → Text → List ℕ
unfolding value_of
decode_loop value bits [] = []
decode_loop value bits (c ∷ cs) =
    let next = value * 2 ^ 5 % 2 ^ 32 + value_of c in
    let rest = decode_loop next (if leb 8 (bits + 5) then bits + 5 - 8 else bits + 5) cs in
    if leb 8 (bits + 5) then next / 2 ^ (bits + 5 - 8) % 256 ∷ rest else rest

-- `none` where it throws
unfoldable pub decode_base32 : (Text → Text) → Text → Option (List ℕ)
unfolding decode_loop
decode_base32 to_upper_case text =
    let letters = cleaned to_upper_case text in
    if is_empty_text letters || not (all is_letter letters)
    then none
    else some (decode_loop 0 0 letters)
