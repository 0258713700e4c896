-- ===== src/Downloads/Names.antt =====
-- `withDistinctNames` of backend/src/services/downloadPlans.js. `toLowerCase` is an argument.
use next_explorer.Prelude.{
  ◌*◌, ◌-◌, ◌<◌, ◌≡◌, refl, inl, inr, arith, Bool-cases, ℕ, zero, suc, ◌+◌, ◌/◌, ◌%◌, List, [], ◌∷◌,
  ◌++◌, map, Option, none, some, if◌then◌else◌, Text, codes, text_eq, ltb, ◌==◌,
}

-- A file of a selection: its name, and what else is known of it.
pub record File : Type 0 where
  pub name : Text
  pub path : Text

abbrev pub dot : ℕ
dot = 46

-- `lastIndexOf('.')`: what is before the last dot, and what is from it on
abbrev pub split_at_last_dot : Text → Option (Text × Text)
split_at_last_dot [] = none
split_at_last_dot (c ∷ cs) = elim (split_at_last_dot cs) [
  | some (stem, extension) ↦ some (c ∷ stem, extension)
  | none ↦ if c == dot then some ([], c ∷ cs) else none
]

-- A dot at the very start begins no extension.
abbrev pub stem_and_extension : Text → Text × Text
stem_and_extension name = elim (split_at_last_dot name) [
  | none ↦ (name, [])
  | some (stem, extension) ↦ elim stem [ [] ↦ (name, []) | c ∷ cs ↦ (c ∷ cs, extension) ]
]

-- `String(n)`, on more rounds than it has digits
abbrev decimal_from : ℕ → ℕ → Text
decimal_from zero n = []
decimal_from (suc fuel) n =
    let front = decimal_from fuel (n / 10) in
    if ltb n 10 then (48 + n) ∷ [] else front ++ (48 + n % 10) ∷ []

abbrev pub decimal : ℕ → Text
decimal n = decimal_from (suc n) n

abbrev pub numbered : ℕ → Text → Text
numbered seen name =
    let parts = stem_and_extension name in
    parts.0 ++ codes " (" ++ decimal seen ++ codes ")" ++ parts.1

-- `taken.get(key) || 0`, the latest first
abbrev pub times_taken : Text → List (Text × ℕ) → ℕ
times_taken key [] = 0
times_taken key ((k, n) ∷ taken) =
    let rest = times_taken key taken in if text_eq k key then n else rest

abbrev pub distinct_from : (Text → Text) → List (Text × ℕ) → List File → List File
distinct_from to_lower_case taken [] = []
distinct_from to_lower_case taken (file ∷ files) =
    let key = to_lower_case file.name in
    let seen = times_taken key taken in
    let rest = distinct_from to_lower_case ((key, seen + 1) ∷ taken) files in
    if seen == 0 then file ∷ rest else record file { name = numbered seen file.name } ∷ rest

unfoldable pub with_distinct_names : (Text → Text) → List File → List File
with_distinct_names to_lower_case files = distinct_from to_lower_case [] files

paths-distinct_from :
    (to_lower_case : Text → Text) (taken : List (Text × ℕ)) (files : List File)
    → map (λ f. f.path) (distinct_from to_lower_case taken files) ≡ map (λ f. f.path) files
paths-distinct_from to_lower_case taken [] = refl
paths-distinct_from to_lower_case taken (file ∷ files) =
    let key = to_lower_case file.name in
    let seen = times_taken key taken in
    ground (arith, paths-distinct_from to_lower_case ((key, seen + 1) ∷ taken) files)

-- Made distinct, the files are the same ones in the same order.
pub paths-distinct :
    (to_lower_case : Text → Text) (files : List File)
    → map (λ f. f.path) (with_distinct_names to_lower_case files) ≡ map (λ f. f.path) files
unfolding with_distinct_names
paths-distinct to_lower_case files = paths-distinct_from to_lower_case [] files

-- The number that digits spell, behind others.
abbrev number_of : ℕ → Text → ℕ
number_of n [] = n
number_of n (c ∷ cs) = number_of (n * 10 + (c - 48)) cs

number_of-append : (n d : ℕ) (s : Text) → number_of n (s ++ d ∷ []) ≡ number_of n s * 10 + (d - 48)
number_of-append n d [] = refl
number_of-append n d (c ∷ s) = number_of-append (n * 10 + (c - 48)) d s

-- The digits of a number are written to the last: they spell it.
number_of-decimal_from : (fuel n : ℕ) → n < fuel → number_of 0 (decimal_from fuel n) ≡ n
number_of-decimal_from zero n less = absurd (omega (arith, less))
number_of-decimal_from (suc fuel) n less = elim (Bool-cases (ltb n 10)) [
  | inl one ↦ ground (arith, one)
  | inr more ↦ ground (
    arith,
    more,
    number_of-append 0 (48 + n % 10) (decimal_from fuel (n / 10)),
    number_of-decimal_from fuel (n / 10) (ground (arith, more, less)),
  )
]
