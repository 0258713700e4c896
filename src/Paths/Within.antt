-- ===== src/Paths/Within.antt =====
-- Containment of paths: `isWithin` of backend/src/utils/bytePath.js, and the personal root of
-- backend/src/utils/pathUtils.js.
use next_explorer.Prelude.{
  Bool, false, not, ◌&&◌, ◌||◌, [], ◌∷◌, ◌++◌, Option, none, some, if◌then◌else◌, Text, text_eq,
  starts_with,
}
use next_explorer.Paths.Segments.{slash, ends_with_slash, is_empty}

unfoldable pub is_within : Text → Text → Bool
is_within target root =
    text_eq target root
    || starts_with target (if ends_with_slash root then root else root ++ slash ∷ [])

-- The configured folders, and what they really are once links are followed.
pub record Directories : Type 0 where
  pub volume : Text
  pub real_volume : Text
  pub user_root : Option Text
  pub real_user_root : Text

-- one round of the loop over the two spellings of the user root
abbrev is_inside_root : Directories → Text → Text → Bool
is_inside_root d target root =
    if text_eq root d.volume || text_eq root d.real_volume then false else is_within target root

unfoldable pub is_inside_personal_root : Directories → Text → Bool
unfolding is_within
is_inside_personal_root d target = elim d.user_root [
  | none ↦ false
  | some root ↦
      if is_empty root
      then false
      else is_inside_root d target root || is_inside_root d target d.real_user_root
]

unfoldable pub reaches_into_personal_root : Directories → Text → Text → Bool
unfolding is_inside_personal_root
reaches_into_personal_root d root target =
    is_inside_personal_root d target && not (is_inside_personal_root d root)
