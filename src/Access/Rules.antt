-- ===== src/Access/Rules.antt =====
-- backend/src/utils/accessRules.js and the resolver of backend/src/services/accessControlService.js.
use next_explorer.Prelude.{
  Bool, true, false, not, ◌||◌, List, [], ◌∷◌, ◌++◌, Option, none, some, if◌then◌else◌, Text,
  text_eq, starts_with,
}
use next_explorer.Paths.Segments.{slash, is_empty}
use next_explorer.Paths.Logical.{Result, ok, ◌>>=◌, normalize_relative_path}

-- What a rule grants: 'rw', 'ro' or 'hidden'.
pub data Permission : Type 0 where
  rw ro hidden : Permission

-- A rule as it is stored; a field that is missing is `none`.
pub record Rule : Type 0 where
  pub path : Text
  pub recursive : Bool
  pub permissions : Option Permission
  pub applies_to_admins : Option Bool

pub record Access : Type 0 where
  pub rules : List Rule
  pub apply_to_admins : Bool

abbrev pub granted_by : Rule → Permission
granted_by r = elim r.permissions [ none ↦ rw | some p ↦ p ]

abbrev is_hidden : Permission → Bool
is_hidden hidden = true
is_hidden _ = false

unfoldable pub rule_applies_to_admins : Rule → Bool
rule_applies_to_admins r = elim r.applies_to_admins [
  | some flag ↦ flag
  | none ↦ is_hidden (granted_by r)
]

unfoldable pub held_to : Rule → Bool → Bool → Bool
unfolding rule_applies_to_admins
held_to r is_admin apply_to_admins =
    if not is_admin then true else if apply_to_admins then true else rule_applies_to_admins r

-- Whether a rule at `rule_path` is about `rel`.
abbrev pub matches : Bool → Text → Text → Bool
matches recursive rule_path rel =
    if recursive
    then text_eq rel rule_path || starts_with rel (rule_path ++ slash ∷ [])
    else text_eq rel rule_path

-- The loop over the rules: the first match wins. Normalizing a rule's path may throw.
unfoldable pub first_match : Bool → Bool → Text → List Rule → Result Permission
unfolding held_to
first_match is_admin apply_to_admins rel [] = ok rw
first_match is_admin apply_to_admins rel (r ∷ rs) =
    let rest = first_match is_admin apply_to_admins rel rs in
    normalize_relative_path r.path >>= λ rule_path.
    if is_empty rule_path
    then rest
    else if not (held_to r is_admin apply_to_admins)
    then rest
    else if matches r.recursive rule_path rel
    then ok (granted_by r)
    else rest

unfoldable pub resolve_permission : Access → Text → Bool → Result Permission
unfolding first_match
resolve_permission access relative_path is_admin = do
  rel ← normalize_relative_path relative_path
  first_match is_admin access.apply_to_admins rel access.rules
