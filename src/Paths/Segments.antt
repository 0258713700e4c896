-- ===== src/Paths/Segments.antt =====
-- Texts split at a separator and joined again, and `path.posix.normalize` of Node.
use mathlib.Core.List.{reverse}
use next_explorer.Prelude.{
  ℕ, Bool, true, false, not, ◌||◌, List, [], ◌∷◌, ◌++◌, ◌==◌, if◌then◌else◌, Text, text_eq, filter,
}

abbrev pub slash : ℕ
slash = b'/'

abbrev pub dot_text : Text
dot_text = b'.' ∷ []

abbrev pub dot_dot : Text
dot_dot = b'.' ∷ b'.' ∷ []

abbrev pub push_front : ℕ → List Text → List Text
push_front x [] = (x ∷ []) ∷ []
push_front x (s ∷ ss) = (x ∷ s) ∷ ss

-- `text.split(separator)`
abbrev pub split_on : ℕ → Text → List Text
split_on sep [] = [] ∷ []
split_on sep (x ∷ xs) =
    let rest = split_on sep xs in if x == sep then [] ∷ rest else push_front x rest

-- `parts.join(separator)`
abbrev pub join_with : ℕ → List Text → Text
join_with sep [] = []
join_with sep (s ∷ []) = s
join_with sep (s ∷ t ∷ ss) = s ++ sep ∷ join_with sep (t ∷ ss)

abbrev pub is_empty : Text → Bool
is_empty [] = true
is_empty (x ∷ xs) = false

-- `text.split('/').filter(Boolean)`
abbrev pub segments : Text → List Text
segments s = filter (λ t. not (is_empty t)) (split_on slash s)

-- one segment of `normalizeString`; the stack has the last segment at its head
unfoldable pub walk : Bool → List Text → Text → List Text
walk above stack segment =
    if is_empty segment || text_eq segment dot_text
    then stack
    else if not (text_eq segment dot_dot)
    then segment ∷ stack
    else elim stack [
      | [] ↦ if above then dot_dot ∷ [] else []
      | top ∷ rest ↦
          if text_eq top dot_dot then (if above then dot_dot ∷ top ∷ rest else top ∷ rest) else rest
    ]

unfoldable pub walk_all : Bool → List Text → List Text → List Text
walk_all above stack [] = stack
walk_all above stack (s ∷ ss) = walk_all above (walk above stack s) ss

abbrev pub starts_at_root : Text → Bool
starts_at_root [] = false
starts_at_root (x ∷ xs) = x == slash

abbrev pub ends_with_slash : Text → Bool
ends_with_slash [] = false
ends_with_slash (x ∷ []) = x == slash
ends_with_slash (x ∷ y ∷ ys) = ends_with_slash (y ∷ ys)

-- The segments that a path names, `..` only in front.
unfoldable pub resolved_segments : Text → List Text
unfolding walk walk_all
resolved_segments s = reverse (walk_all (not (starts_at_root s)) [] (split_on slash s))

abbrev pub with_trailing : Text → Text → Text
with_trailing s body = if ends_with_slash s then body ++ slash ∷ [] else body

-- what `path.posix.normalize` makes of the segments of `s`
abbrev pub from_segments : Text → List Text → Text
from_segments s ss =
    let body = join_with slash ss in
    if is_empty s
    then dot_text
    else if is_empty body
    then (if starts_at_root s then slash ∷ [] else with_trailing s dot_text)
    else if starts_at_root s
    then slash ∷ with_trailing s body
    else with_trailing s body

-- `path.posix.normalize`
unfoldable pub normalize : Text → Text
unfolding resolved_segments
normalize s = from_segments s (resolved_segments s)

-- `path.resolve` of an absolute folder and one more path
unfoldable pub resolve : Text → Text → Text
unfolding resolved_segments
resolve root s =
    let whole = if starts_at_root s then s else root ++ slash ∷ s in
    slash ∷ join_with slash (resolved_segments (slash ∷ whole))
