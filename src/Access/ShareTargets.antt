-- ===== src/Access/ShareTargets.antt =====
-- Which shares of backend/src/services/sharesService.js lie at or below the places that an operation
-- is about. SQLite compares texts by their bytes in UTF-8, and so texts are lists of bytes here.
use next_explorer.Prelude.{
  ℕ, Bool, true, false, not, ◌&&◌, ◌||◌, List, [], ◌∷◌, ◌++◌, Option, none, some, if◌then◌else◌,
  Text, text_eq, str_eq, ltb, ◌==◌, filter,
}
use next_explorer.Paths.Segments.{slash, is_empty}
use next_explorer.Access.Records.{SourceSpace, user_volume, Share}

abbrev backslash : ℕ
backslash = 92

-- `.replace(/\\/g, '/')`
abbrev pub with_slashes : Text → Text
with_slashes [] = []
with_slashes (c ∷ cs) = (if c == backslash then slash else c) ∷ with_slashes cs

-- `.replace(/^\/+/, '')`
abbrev pub without_leading : Text → Text
without_leading [] = []
without_leading (c ∷ cs) = let rest = without_leading cs in if c == slash then rest else c ∷ cs

-- `.replace(/\/+$/, '')`
abbrev pub without_trailing : Text → Text
without_trailing [] = []
without_trailing (c ∷ cs) =
    let rest = without_trailing cs in if c == slash && is_empty rest then [] else c ∷ rest

unfoldable pub normalize_share_source_path : Text → Text
normalize_share_source_path path = without_trailing (without_leading (with_slashes path))

-- The order of SQLite.
abbrev pub before : Text → Text → Bool
before [] [] = false
before [] (y ∷ ys) = true
before (x ∷ xs) [] = false
before (x ∷ xs) (y ∷ ys) = ltb x y || x == y && before xs ys

-- the character right after the slash
abbrev pub zero_digit : ℕ
zero_digit = 48

abbrev pub child_range : Text → Text × Text
child_range prefix = (prefix ++ slash ∷ [], prefix ++ zero_digit ∷ [])

abbrev pub same_space : SourceSpace → SourceSpace → Bool
same_space SourceSpace.volume SourceSpace.volume = true
same_space user_volume user_volume = true
same_space SourceSpace.personal SourceSpace.personal = true
same_space _ _ = false

pub record Target : Type 0 where
  pub source_space : Option SourceSpace
  pub source_path : Text
  pub include_children : Bool

-- WHERE source_space = ? AND source_path = ?
abbrev pub exact_rows : SourceSpace → Text → List Share → List Share
exact_rows space path shares =
    filter (λ s. same_space s.source_space space && text_eq s.source_path path) shares

-- WHERE source_space = ? AND source_path >= ? AND source_path < ?
unfoldable pub child_rows : SourceSpace → Text → List Share → List Share
child_rows space path shares =
    let bounds = child_range path in
    filter
      (λ s.
        same_space s.source_space space
        && (not (before s.source_path bounds.0) && before s.source_path bounds.1))
      shares

-- `sharesById.set(row.id, row)`
abbrev pub set_row : Share → List Share → List Share
set_row row [] = row ∷ []
set_row row (s ∷ found) =
    let rest = set_row row found in if str_eq s.id row.id then row ∷ found else s ∷ rest

abbrev pub set_rows : List Share → List Share → List Share
set_rows [] found = found
set_rows (row ∷ rows) found = set_rows rows (set_row row found)

-- One target of the loop of `getSharesForSourceTargets`; one with no space or no path is left out.
abbrev pub with_target : List Share → Target → List Share → List Share
with_target shares t found = elim t.source_space [
  | none ↦ found
  | some space ↦
      let path = normalize_share_source_path t.source_path in
      let exact = set_rows (exact_rows space path shares) found in
      if is_empty path
      then found
      else if t.include_children
      then set_rows (child_rows space path shares) exact
      else exact
]

abbrev pub from_targets : List Share → List Target → List Share → List Share
from_targets shares [] found = found
from_targets shares (t ∷ targets) found = from_targets shares targets (with_target shares t found)

unfoldable pub get_shares_for_source_targets : List Target → List Share → List Share
unfolding child_rows normalize_share_source_path
get_shares_for_source_targets targets shares = from_targets shares targets []
