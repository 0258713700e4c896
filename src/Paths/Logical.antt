-- ===== src/Paths/Logical.antt =====
-- Logical paths of backend/src/utils/pathUtils.js. The functions that throw return a `Result`.
use next_explorer.Prelude.{
  ℕ, Bool, false, not, ◌&&◌, ◌||◌, List, [], ◌∷◌, ◌++◌, map, ◌==◌, if◌then◌else◌, Text, text_eq,
  codes, starts_with, any,
}
use next_explorer.Paths.Segments.{
  slash, dot_text, dot_dot, split_on, join_with, is_empty, normalize,
}

-- The classes of errors that are thrown; `database` is a constraint of the database that fails.
pub data Failure : Type 0 where
  validation forbidden not_found database : Failure

-- What a call returns, or the error that it throws.
pub data Result {ℓ} (V : Type ℓ) : Type ℓ where
  err : Failure → Result V
  ok : V → Result V

infixl 5 ◌>>=◌
abbrev pub ◌>>=◌ {κ ℓ} : {W : Type κ} {V : Type ℓ} → Result V → (V → Result W) → Result W
err thrown >>= next = err thrown
ok value >>= next = next value

-- `ZONE_DIRECTORY_NAME` of backend/src/config/constants.js
abbrev pub zone_directory_name : Text
zone_directory_name = codes ".nextexplorer"

-- `replace(/\\/g, '/')`
abbrev pub forward : ℕ → ℕ
forward x = if x == b'\\' then slash else x

-- `replace(/^[\\/]+/, '')`
abbrev pub strip_leading : Text → Text
strip_leading [] = []
strip_leading (x ∷ xs) = if x == slash || x == b'\\' then strip_leading xs else x ∷ xs

unfoldable pub normalize_relative_path : Text → Result Text
unfolding normalize
normalize_relative_path s =
    if is_empty s || text_eq s (slash ∷ [])
    then ok []
    else let normalized = strip_leading (normalize (map forward s)) in
      if text_eq normalized dot_text
      then ok []
      else if text_eq normalized dot_dot || starts_with normalized (dot_dot ++ slash ∷ [])
      then err validation
      else ok normalized

-- `split(/[\\/]+/).includes(ZONE_DIRECTORY_NAME)`
abbrev pub names_zone : Text → Bool
names_zone s = any (text_eq zone_directory_name) (split_on slash (map forward s))

pub assert_outside_zone : Text → Result (Unit {0})
assert_outside_zone s = if names_zone s then err forbidden else ok tt

-- A path that does not normalize is not the top level.
unfoldable pub is_top_level_entry : Text → Bool
unfolding normalize_relative_path
is_top_level_entry parent = elim (normalize_relative_path parent) [
  | ok s ↦ is_empty s
  | err e ↦ false
]

pub assert_not_top_level_entry : Text → Bool → Result (Unit {0})
unfolding is_top_level_entry
assert_not_top_level_entry parent is_directory =
    if not is_directory || not (is_top_level_entry parent) then ok tt else err validation

-- `path.posix.join` of two texts
abbrev join_two : Text → Text → Text
join_two a b =
    if is_empty a && is_empty b
    then dot_text
    else if is_empty a
    then normalize b
    else if is_empty b
    then normalize a
    else normalize (a ++ slash ∷ b)

unfoldable pub combine_relative_path : Text → Text → Result Text
unfolding normalize_relative_path normalize
combine_relative_path parent name = do
  base ← normalize_relative_path parent
  normalize_relative_path (join_two base name)

-- `parsePathSpace`: the space, the path in it and, for a share, its token and the path inside it.
pub data PathSpace : Type 0 where
  volume personal : Text → PathSpace
  share : Text → Text → PathSpace

-- `[first, ...rest]` of a path that is not empty, by what the first segment says
parse_segments : Bool → Text → Text → List Text → PathSpace
parse_segments personal_enabled whole first rest =
    if text_eq first (codes "personal")
    then (if personal_enabled then personal (join_with slash rest) else volume whole)
    else if text_eq first (codes "volumes")
    then elim rest [ [] ↦ volume whole | r ∷ rs ↦ volume (join_with slash (r ∷ rs)) ]
    else if text_eq first (codes "share")
    then elim rest [
      | [] ↦ volume whole
      | token ∷ inner ↦ if is_empty token then volume whole else share token (join_with slash inner)
    ]
    else volume whole

parse_normalized : Bool → Text → List Text → PathSpace
unfolding parse_segments
parse_normalized personal_enabled whole [] = volume whole
parse_normalized personal_enabled whole (first ∷ rest) =
    parse_segments personal_enabled whole first rest

unfoldable pub parse_path_space : Bool → Text → Result PathSpace
unfolding normalize_relative_path parse_normalized
parse_path_space personal_enabled s = do
  normalized ← normalize_relative_path s
  ok (
      if is_empty normalized
      then volume []
      else parse_normalized personal_enabled normalized (split_on slash normalized))
