-- ===== src/Access/RuleLaws.antt =====
-- Which rule of backend/src/services/accessControlService.js decides a path.
use next_explorer.Prelude.{
  ◌≡◌, refl, ap, sym, ◌∙◌, inl, inr, Bool, true, false, List, [], ◌∷◌, arith, if◌then◌else◌, Text,
  Bool-cases, All, filter,
}
use next_explorer.Paths.Segments.{is_empty}
use next_explorer.Paths.Logical.{Result, ok, err, ◌>>=◌, normalize_relative_path}
use next_explorer.Access.Rules.{
  Permission, Rule, Access, granted_by, rule_applies_to_admins, held_to, matches, first_match,
  resolve_permission,
}
use next_explorer.Access.Grants.{>>=-returns, ok_inj}

-- A rule that decides a path for a caller.
pub record Decides (is_admin apply_to_admins : Bool) (rel : Text) (r : Rule) : Type 0 where
  pub rule_path : Text
  pub normal : normalize_relative_path r.path ≡ ok rule_path
  pub named : is_empty rule_path ≡ false
  pub held : held_to r is_admin apply_to_admins ≡ true
  pub matching : matches r.recursive rule_path rel ≡ true

-- The first rule that decides gives the permission, and where none decides it is 'rw'.
pub data IsFirst (is_admin apply_to_admins : Bool) (rel : Text) (p : Permission)
    : List Rule → Type 0 where
  no_rule : p ≡ Permission.rw → IsFirst is_admin apply_to_admins rel p []
  here :
      {r : Rule} {rs : List Rule}
      → Decides is_admin apply_to_admins rel r
      → p ≡ granted_by r
      → IsFirst is_admin apply_to_admins rel p (r ∷ rs)
  later :
      {r : Rule} {rs : List Rule}
      → ¬ Decides is_admin apply_to_admins rel r
      → IsFirst is_admin apply_to_admins rel p rs
      → IsFirst is_admin apply_to_admins rel p (r ∷ rs)

-- A rule whose path is normalized decides by the tests on that path alone.
Decides-tests :
    (is_admin apply_to_admins : Bool) (rel path : Text) (r : Rule)
    → normalize_relative_path r.path ≡ ok path
    → Decides is_admin apply_to_admins rel r
    → (is_empty path ≡ false)
      × (held_to r is_admin apply_to_admins ≡ true)
      × (matches r.recursive path rel ≡ true)
Decides-tests is_admin apply_to_admins rel path r normal d =
    let same : d.rule_path ≡ path = ok_inj (sym d.normal ∙ normal) in
    (
      ap is_empty (sym same) ∙ d.named,
      d.held,
      ap (λ t. matches r.recursive t rel) (sym same) ∙ d.matching,
    )

first_match-IsFirst :
    (is_admin apply_to_admins : Bool) (rel : Text) (rules : List Rule) (p : Permission)
    → first_match is_admin apply_to_admins rel rules ≡ ok p
    → IsFirst is_admin apply_to_admins rel p rules
unfolding first_match
first_match-IsFirst is_admin apply_to_admins rel [] p h = no_rule (sym (ok_inj h))
first_match-IsFirst is_admin apply_to_admins rel (r ∷ rs) p h =
    let (path, normal, rest) = >>=-returns (normalize_relative_path r.path) _ h in
    elim (Bool-cases (is_empty path)) [
      | inl empty ↦
          later
            (λ d. ground (arith, (Decides-tests is_admin apply_to_admins rel path r normal d).0))
            (first_match-IsFirst is_admin apply_to_admins rel rs p (ground (arith, empty)))
      | inr named ↦ elim (Bool-cases (held_to r is_admin apply_to_admins)) [
        | inr free ↦
            later (λ d. ground (arith, d.held))
              (first_match-IsFirst is_admin apply_to_admins rel rs p (ground (arith, named, free)))
        | inl held ↦ elim (Bool-cases (matches r.recursive path rel)) [
          | inl matching ↦
              here
                (record {
                  rule_path = path;
                  normal = normal;
                  named = named;
                  held = held;
                  matching = matching;
                })
                (ground (arith, named, held, matching))
          | inr apart ↦
              later
                (λ d.
                  ground (arith, (Decides-tests is_admin apply_to_admins rel path r normal d).2))
                (first_match-IsFirst is_admin apply_to_admins rel rs p
                  (ground (arith, named, held, apart)))
        ]
      ]
    ]

-- The permission of a path is that of the first rule that decides it, and 'rw' where none does.
pub resolve_permission-IsFirst :
    (access : Access) (path : Text) (is_admin : Bool) (p : Permission)
    → resolve_permission access path is_admin ≡ ok p
    → (rel : Text) × (normalize_relative_path path ≡ ok rel)
      × IsFirst is_admin access.apply_to_admins rel p access.rules
unfolding resolve_permission
resolve_permission-IsFirst access path is_admin p h =
    let (rel, normal, decided) = >>=-returns (normalize_relative_path path) _ h in
    (rel, normal, first_match-IsFirst is_admin access.apply_to_admins rel access.rules p decided)

-- A rule whose path can be normalized.
abbrev pub IsReadable : Rule → Type 0
IsReadable r = (path : Text) × (normalize_relative_path r.path ≡ ok path)

first_match-admin :
    (rel : Text) (rules : List Rule)
    → All IsReadable rules
    → first_match true false rel rules
      ≡ first_match false false rel (filter rule_applies_to_admins rules)
unfolding first_match held_to
first_match-admin rel [] h = refl
first_match-admin rel (r ∷ rs) ((path, normal), h) = elim (Bool-cases (rule_applies_to_admins r)) [
  | inl bound ↦ ground (arith, normal, bound, first_match-admin rel rs h)
  | inr free ↦ ground (arith, normal, free, first_match-admin rel rs h)
]

first_match-everyone :
    (is_admin : Bool) (rel : Text) (rules : List Rule)
    → first_match is_admin true rel rules ≡ first_match false true rel rules
unfolding first_match held_to
first_match-everyone is_admin rel [] = refl
first_match-everyone is_admin rel (r ∷ rs) = ground (arith, first_match-everyone is_admin rel rs)

>>=-ap {ℓ κ} :
    {A : Type ℓ} {B : Type κ} (m : Result A) (f g : A → Result B)
    → ((a : A) → f a ≡ g a)
    → (m >>= f) ≡ (m >>= g)
>>=-ap (ok a) f g h = h a
>>=-ap (err e) f g h = refl

-- The rules that administrators are held to, for everyone.
abbrev pub for_admins : Access → Access
for_admins access = record {
  rules =
      if access.apply_to_admins then access.rules else filter rule_applies_to_admins access.rules;
  apply_to_admins = access.apply_to_admins;
}

permission_of_flag :
    (flag : Bool) (rules : List Rule) (path : Text)
    → All IsReadable rules
    → resolve_permission (record { rules = rules; apply_to_admins = flag }) path true
      ≡ resolve_permission
          (for_admins (record { rules = rules; apply_to_admins = flag }))
          path
          false
unfolding resolve_permission
permission_of_flag true rules path h =
    >>=-ap (normalize_relative_path path) _ _ (λ rel. first_match-everyone true rel rules)
permission_of_flag false rules path h =
    >>=-ap (normalize_relative_path path) _ _ (λ rel. first_match-admin rel rules h)

-- Where every rule's path can be normalized, an administrator has the permission that everyone would
-- have under the rules for administrators: all of them where rules apply to administrators, and
-- else those that say so, or hide and do not say.
resolve_permission-admin :
    (access : Access) (path : Text)
    → All IsReadable access.rules
    → resolve_permission access path true ≡ resolve_permission (for_admins access) path false
resolve_permission-admin access path readable =
    permission_of_flag access.apply_to_admins access.rules path readable
