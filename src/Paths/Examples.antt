-- ===== src/Paths/Examples.antt =====
-- A path with detours, and the guard for the top level.
use next_explorer.Prelude.{◌≡◌, refl, true, false, codes}
use next_explorer.Paths.Segments.{resolve}
use next_explorer.Paths.Logical.{
  ok, err, validation, normalize_relative_path, combine_relative_path, is_top_level_entry,
}
use next_explorer.Paths.Within.{is_within}
use next_explorer.Paths.Containment.{normalize_relative_path-within}

detours : normalize_relative_path (codes "/a/./b//../c/") ≡ ok (codes "a/c/")
unfolding normalize_relative_path
detours = refl

outside : normalize_relative_path (codes "a/../../b") ≡ err validation
unfolding normalize_relative_path
outside = refl

-- The text `./` names the top level, and the guard does not see it.
top_level_unseen : is_top_level_entry (codes "./") ≡ false
unfolding is_top_level_entry
top_level_unseen = refl

top_level_reached : combine_relative_path (codes "./") (codes "Vol") ≡ ok (codes "Vol")
unfolding combine_relative_path
top_level_reached = refl

normalize_relative_path-within_example :
    is_within (resolve (codes "/mnt") (codes "a/c/")) (resolve (codes "/mnt") (codes "")) ≡ true
normalize_relative_path-within_example =
    normalize_relative_path-within (codes "/mnt") (codes "/a/./b//../c/") (codes "a/c/") detours
