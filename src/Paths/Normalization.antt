-- ===== src/Paths/Normalization.antt =====
-- What `normalizeRelativePath` of backend/src/utils/pathUtils.js leaves of a path.
use mathlib.Core.List.{reverse, reverse_aux, append_assoc, append-nil}
use next_explorer.Prelude.{
  ℕ, ◌≡◌, refl, ap, ◌∙◌, ◌⊎◌, inl, inr, Bool, true, false, not, ◌&&◌, ◌||◌, List, [], ◌∷◌, ◌++◌,
  map, arith, ◌==◌, if◌then◌else◌, Text, text_eq, text_eq_iff, starts_with, any, all, Bool-cases,
}
use next_explorer.Paths.Segments.{
  slash, dot_dot, push_front, split_on, join_with, is_empty, walk, walk_all, starts_at_root,
  ends_with_slash, resolved_segments, normalize, from_segments,
}
use next_explorer.Paths.Logical.{ok, forward, strip_leading, normalize_relative_path}

-- A text with no separator in it.
abbrev clean : Text → Bool
clean = all (λ x. not (x == slash || x == b'\\'))

-- A segment that a path keeps.
abbrev plain : Text → Bool
plain s = not (is_empty s) && clean s

abbrev climbs : List Text → Bool
climbs = any (text_eq dot_dot)

abbrev last_climbs : List Text → Bool
last_climbs [] = false
last_climbs (s ∷ []) = text_eq dot_dot s
last_climbs (s ∷ t ∷ ts) = last_climbs (t ∷ ts)

abbrev first_climbs : List Text → Bool
first_climbs [] = false
first_climbs (s ∷ ss) = text_eq dot_dot s

-- The stack of `walk`: only kept segments, and `..` in it only from its bottom up, or nowhere.
abbrev IsStack : Bool → List Text → Type 0
IsStack above stack =
    (all plain stack ≡ true)
    × (climbs stack ≡ true → last_climbs stack ≡ true)
    × (above ≡ false → climbs stack ≡ false)

pub text_eq_comm : (s t : Text) → text_eq s t ≡ text_eq t s
text_eq_comm [] [] = refl
text_eq_comm [] (y ∷ ys) = refl
text_eq_comm (x ∷ xs) [] = refl
text_eq_comm (x ∷ xs) (y ∷ ys) = ground (arith, text_eq_comm xs ys)

walk-IsStack :
    (above : Bool) (stack : List Text) (segment : Text)
    → clean segment ≡ true
    → IsStack above stack
    → IsStack above (walk above stack segment)
unfolding walk
walk-IsStack above [] segment c h = ground (arith, text_eq_comm segment dot_dot)
walk-IsStack above (s ∷ []) segment c h =
    ground (arith, text_eq_comm segment dot_dot, text_eq_comm s dot_dot)
walk-IsStack above (s ∷ t ∷ ts) segment c h =
    ground (arith, text_eq_comm segment dot_dot, text_eq_comm s dot_dot)

walk_all-IsStack :
    (above : Bool) (stack ss : List Text)
    → all clean ss ≡ true
    → IsStack above stack
    → IsStack above (walk_all above stack ss)
unfolding walk_all
walk_all-IsStack above stack [] c h = h
walk_all-IsStack above stack (s ∷ ss) c h =
    walk_all-IsStack above (walk above stack s) ss (ground arith)
      (walk-IsStack above stack s (ground arith) h)

climbs-reverse_aux : (xs ys : List Text) → climbs (reverse_aux xs ys) ≡ (climbs xs || climbs ys)
climbs-reverse_aux [] ys = refl
climbs-reverse_aux (x ∷ xs) ys = ground (arith, climbs-reverse_aux xs (x ∷ ys))

all-plain-reverse_aux :
    (xs ys : List Text) → all plain (reverse_aux xs ys) ≡ (all plain xs && all plain ys)
all-plain-reverse_aux [] ys = refl
all-plain-reverse_aux (x ∷ xs) ys = ground (arith, all-plain-reverse_aux xs (x ∷ ys))

first_climbs-reverse_aux :
    (x : Text) (xs ys : List Text) → first_climbs (reverse_aux (x ∷ xs) ys) ≡ last_climbs (x ∷ xs)
first_climbs-reverse_aux x [] ys = refl
first_climbs-reverse_aux x (y ∷ xs) ys = first_climbs-reverse_aux y xs (x ∷ ys)

first_climbs-reverse : (xs : List Text) → first_climbs (reverse xs) ≡ last_climbs xs
first_climbs-reverse [] = refl
first_climbs-reverse (x ∷ xs) = first_climbs-reverse_aux x xs []

-- A text with no backslash.
abbrev posix : Text → Bool
posix = all (λ x. not (x == b'\\'))

posix-forward : (s : Text) → posix (map forward s) ≡ true
posix-forward [] = refl
posix-forward (x ∷ xs) = ground (arith, posix-forward xs)

clean-push_front :
    (x : ℕ) (ss : List Text)
    → (x == slash || x == b'\\') ≡ false
    → all clean ss ≡ true
    → all clean (push_front x ss) ≡ true
clean-push_front x [] h c = ground arith
clean-push_front x (s ∷ ss) h c = ground arith

clean-split_on : (s : Text) → posix s ≡ true → all clean (split_on slash s) ≡ true
clean-split_on [] h = refl
clean-split_on (x ∷ xs) h =
    ground (arith, clean-split_on xs (ground arith), clean-push_front x (split_on slash xs))

-- The segments of a path with no backslash.
resolved_lem :
    (s : Text)
    → posix s ≡ true
    → (all plain (resolved_segments s) ≡ true)
      × (climbs (resolved_segments s) ≡ true → first_climbs (resolved_segments s) ≡ true)
      × (starts_at_root s ≡ true → climbs (resolved_segments s) ≡ false)
unfolding resolved_segments
resolved_lem s h =
    let above = not (starts_at_root s) in
    let stack = walk_all above [] (split_on slash s) in
    let is_stack =
      walk_all-IsStack above [] (split_on slash s) (clean-split_on s h)
        (refl, (λ e. e), (λ e. refl)) in
    (
      ground (arith, all-plain-reverse_aux stack [], is_stack.0),
      ground (arith, climbs-reverse_aux stack [], first_climbs-reverse stack, is_stack.1),
      ground (arith, climbs-reverse_aux stack [], is_stack.2),
    )

-- Segments joined and split again.
split_on-clean : (s : Text) → clean s ≡ true → split_on slash s ≡ s ∷ []
split_on-clean [] h = refl
split_on-clean (x ∷ xs) h = ground (arith, split_on-clean xs)

split_on-append :
    (s t : Text) → clean s ≡ true → split_on slash (s ++ slash ∷ t) ≡ s ∷ split_on slash t
split_on-append [] t h = refl
split_on-append (x ∷ xs) t h = ground (arith, split_on-append xs t)

climbs-join_with :
    (ss : List Text)
    → all plain ss ≡ true
    → (climbs (split_on slash (join_with slash ss)) ≡ climbs ss)
      × (climbs (split_on slash (join_with slash ss ++ slash ∷ [])) ≡ climbs ss)
climbs-join_with [] h = (refl, refl)
climbs-join_with (s ∷ []) h = ground (arith, split_on-clean s, split_on-append s [])
climbs-join_with (s ∷ t ∷ ts) h =
    let inner = join_with slash (t ∷ ts) in
    let rest = climbs-join_with (t ∷ ts) (ground arith) in
    (
      ground (arith, split_on-append s inner, rest.0),
      ground (
        arith,
        append_assoc s (slash ∷ inner) (slash ∷ []),
        split_on-append s (inner ++ slash ∷ []),
        rest.1,
      ),
    )

-- A text of kept segments begins with none of the characters that are stripped.
strip_leading-join_with :
    (s : Text) (ss : List Text) (t : Text)
    → all plain (s ∷ ss) ≡ true
    → strip_leading (join_with slash (s ∷ ss) ++ t) ≡ join_with slash (s ∷ ss) ++ t
strip_leading-join_with [] ss t h = ground arith
strip_leading-join_with (x ∷ xs) [] t h = ground arith
strip_leading-join_with (x ∷ xs) (s ∷ ss) t h = ground arith

abbrev refused : Text → Bool
refused s = text_eq s dot_dot || starts_with s (dot_dot ++ slash ∷ [])

-- What may stand behind the segments.
abbrev tail_of : Text → Text
tail_of s = if ends_with_slash s then slash ∷ [] else []

-- A text whose first segment climbs is refused.
refused_of_first :
    (ss : List Text) (p : Text)
    → first_climbs ss ≡ true
    → refused (join_with slash ss ++ tail_of p) ≡ true
refused_of_first [] p h = ground arith
refused_of_first (s ∷ []) p h = ground (arith, (text_eq_iff dot_dot s).0)
refused_of_first (s ∷ t ∷ ts) p h = ground (arith, (text_eq_iff dot_dot s).0)

climbs-tail :
    (ss : List Text) (p : Text)
    → all plain ss ≡ true
    → climbs (split_on slash (join_with slash ss ++ tail_of p)) ≡ climbs ss
climbs-tail ss p h = ground (arith, climbs-join_with ss h, append-nil (join_with slash ss))

-- What normalizing leaves, once its leading separators are stripped.
strip_leading-from_segments :
    (p s : Text) (ss : List Text)
    → all plain (s ∷ ss) ≡ true
    → is_empty p ≡ false
    → strip_leading (from_segments p (s ∷ ss)) ≡ join_with slash (s ∷ ss) ++ tail_of p
strip_leading-from_segments p [] ss h filled = ground arith
strip_leading-from_segments p (x ∷ xs) [] h filled =
    ground (arith, append-nil xs, strip_leading-join_with (x ∷ xs) [] (tail_of p) h)
strip_leading-from_segments p (x ∷ xs) (s ∷ ss) h filled = ground (
  arith,
  append-nil (xs ++ slash ∷ join_with slash (s ∷ ss)),
  strip_leading-join_with (x ∷ xs) (s ∷ ss) (tail_of p) h,
)

climbs_or_refused :
    (p : Text) (ss : List Text)
    → all plain ss ≡ true
    → (climbs ss ≡ true → first_climbs ss ≡ true)
    → (climbs (split_on slash (strip_leading (from_segments p ss))) ≡ false)
      ⊎ (refused (strip_leading (from_segments p ss)) ≡ true)
climbs_or_refused p [] h k = ground arith
climbs_or_refused p (s ∷ ss) h k = elim (Bool-cases (is_empty p)) [
  | inl none_given ↦ inl (ground (arith, none_given))
  | inr filled ↦
      let same = strip_leading-from_segments p s ss h filled in
      elim (Bool-cases (climbs (s ∷ ss))) [
        | inl up ↦ inr (ap refused same ∙ refused_of_first (s ∷ ss) p (k up))
        | inr level ↦
            inl (ap (λ t. climbs (split_on slash t)) same ∙ (climbs-tail (s ∷ ss) p h ∙ level))
      ]
]

-- No segment of a path that normalizes is `..`, so that the path leads nowhere above its root.
pub normalize_relative_path-climbs :
    (s t : Text)
    → normalize_relative_path s ≡ ok t
    → any (text_eq dot_dot) (split_on slash t) ≡ false
unfolding normalize_relative_path normalize
normalize_relative_path-climbs s t h =
    let p = map forward s in
    let (kept, first, rooted) = resolved_lem p (posix-forward s) in
    ground (arith, climbs_or_refused p (resolved_segments p) kept first)
