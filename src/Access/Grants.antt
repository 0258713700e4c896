-- ===== src/Access/Grants.antt =====
-- What stands behind a grant of backend/src/services/accessManager.js.
use next_explorer.Prelude.{
  ◌≡◌, ◌≢◌, refl, ap, sym, ◌∙◌, ◌⊎◌, inl, inr, true, false, not, ◌&&◌, ◌||◌, none, some, arith,
  if◌then◌else◌, Text, Bool-cases, Option-cases,
}
use next_explorer.Paths.Segments.{segments, resolve}
use next_explorer.Paths.Logical.{Result, ok, err, ◌>>=◌}
use next_explorer.Paths.Within.{reaches_into_personal_root}
use next_explorer.Access.Rules.{Permission, ro, hidden, resolve_permission}
use next_explorer.Access.Records.{User, Context, UserVolume, get_user_volume_for_path}
use next_explorer.Access.Manager.{
  World, AccessInfo, own_access, is_admin, known_user, has_guest, is_anonymous, is_readonly, is_ro,
  inner_path, unless_hidden, assigned_volume_access, whole_volume_access, get_volume_access,
}

pub ok_inj {ℓ} : {A : Type ℓ} {a b : A} → ok a ≡ ok b → a ≡ b
ok_inj h = cc

-- A chain that returns has a first call that returns.
pub >>=-returns {κ ℓ} :
    {W : Type κ} {V : Type ℓ} (call : Result V) (next : V → Result W) {given : W}
    → (call >>= next) ≡ ok given
    → (value : V) × (call ≡ ok value) × (next value ≡ ok given)
>>=-returns (err thrown) next returned = cc
>>=-returns (ok value) next returned = (value, refl, returned)

-- The grant of a volume that an account was assigned.
pub record IsAssigned (w : World) (x : Context) (rel : Text) (i : AccessInfo) : Type 0 where
  pub user : User
  pub known : known_user x ≡ some user
  pub ordinary : is_admin user ≡ false
  pub assigned : UserVolume
  pub held : get_user_volume_for_path w.tables user.id rel ≡ some assigned
  pub apart :
      reaches_into_personal_root w.directories assigned.path
        (resolve assigned.path (inner_path (segments rel)))
      ≡ false
  pub permission : Permission
  pub ruled : resolve_permission w.access rel false ≡ ok permission
  pub shown : permission ≢ hidden
  pub writes : i.can_write ≡ not (is_readonly assigned.access_mode || is_ro permission)

-- The grant of a path in the whole volume.
pub record IsWhole (w : World) (x : Context) (rel : Text) (i : AccessInfo) : Type 0 where
  pub user : User
  pub known : known_user x ≡ some user
  pub free : (w.user_volumes_enabled && not (is_admin user)) ≡ false
  pub apart :
      reaches_into_personal_root w.directories w.directories.volume
        (resolve w.directories.volume rel)
      ≡ false
  pub permission : Permission
  pub ruled : resolve_permission w.access rel (is_admin user) ≡ ok permission
  pub shown : permission ≢ hidden
  pub writes : i.can_write ≡ not (is_ro permission)

granted_of_unless_hidden :
    (p : Permission) (g i : AccessInfo)
    → unless_hidden p g ≡ i
    → i.can_access ≡ true
    → (p ≢ hidden) × (i ≡ g)
granted_of_unless_hidden Permission.rw g i h a = ((λ e. cc), sym h)
granted_of_unless_hidden ro g i h a = ((λ e. cc), sym h)
granted_of_unless_hidden hidden g i h a = ground arith

-- An answer of the form that both branches share.
granted-eq :
    (m : Result Permission) (f : Permission → AccessInfo) (i : AccessInfo)
    → (m >>= λ p. ok (unless_hidden p (f p))) ≡ ok i
    → i.can_access ≡ true
    → (p : Permission) × (m ≡ ok p) × (p ≢ hidden) × (i ≡ f p)
granted-eq m f i h a =
    let (p, ruled, given) = >>=-returns m _ h in
    let (shown, same) = granted_of_unless_hidden p (f p) i (ok_inj given) a in
    (p, ruled, shown, same)

abbrev assigned_grant : UserVolume → Permission → AccessInfo
assigned_grant uv p =
    let effective_read_only = is_readonly uv.access_mode || is_ro p in
    own_access (not effective_read_only) (some uv)
      (if effective_read_only then ro else Permission.rw)

assigned_of_held :
    (w : World) (u : User) (rel : Text) (uv : UserVolume)
    → get_user_volume_for_path w.tables u.id rel ≡ some uv
    → reaches_into_personal_root w.directories uv.path (resolve uv.path (inner_path (segments rel)))
      ≡ false
    → assigned_volume_access w u rel
      ≡ (resolve_permission w.access rel false >>= λ p. ok (unless_hidden p (assigned_grant uv p)))
unfolding assigned_volume_access
assigned_of_held w u rel uv held apart = ground (arith, held, apart)

assigned_volume_access-IsAssigned :
    (w : World) (x : Context) (u : User) (rel : Text) (i : AccessInfo)
    → known_user x ≡ some u
    → is_admin u ≡ false
    → assigned_volume_access w u rel ≡ ok i
    → i.can_access ≡ true
    → IsAssigned w x rel i
unfolding assigned_volume_access
assigned_volume_access-IsAssigned w x u rel i known ordinary h a =
    elim (Option-cases (get_user_volume_for_path w.tables u.id rel)) [
      | inl none_held ↦ ground (arith, none_held)
      | inr (uv, held) ↦
          elim (Bool-cases (
            reaches_into_personal_root w.directories uv.path
              (resolve uv.path (inner_path (segments rel))))) [
                | inl reaches ↦ ground (arith, held, reaches)
                | inr apart ↦
                    let (p, ruled, shown, same) =
                      granted-eq (resolve_permission w.access rel false) (assigned_grant uv) i
                        (sym (assigned_of_held w u rel uv held apart) ∙ h) a in
                    record {
                      user = u;
                      known = known;
                      ordinary = ordinary;
                      assigned = uv;
                      held = held;
                      apart = apart;
                      permission = p;
                      ruled = ruled;
                      shown = shown;
                      writes = ap (λ i. i.can_write) same;
                    }
              ]
    ]

abbrev whole_grant : Permission → AccessInfo
whole_grant p = own_access (not (is_ro p)) none p

whole_volume_access-IsWhole :
    (w : World) (x : Context) (u : User) (rel : Text) (i : AccessInfo)
    → known_user x ≡ some u
    → (w.user_volumes_enabled && not (is_admin u)) ≡ false
    → whole_volume_access w u rel ≡ ok i
    → i.can_access ≡ true
    → IsWhole w x rel i
unfolding whole_volume_access
whole_volume_access-IsWhole w x u rel i known free h a =
    elim (Bool-cases (
      reaches_into_personal_root w.directories w.directories.volume
        (resolve w.directories.volume rel))) [
          | inl reaches ↦ ground (arith, reaches)
          | inr apart ↦
              let shown_eq : whole_volume_access w u rel ≡ (
                  resolve_permission w.access rel (is_admin u) >>= λ p.
                  ok (unless_hidden p (whole_grant p))) =
                rw apart refl in
              let (p, ruled, shown, same) =
                granted-eq (resolve_permission w.access rel (is_admin u)) whole_grant i
                  (sym shown_eq ∙ h) a in
              record {
                user = u;
                known = known;
                free = free;
                apart = apart;
                permission = p;
                ruled = ruled;
                shown = shown;
                writes = ap (λ i. i.can_write) same;
              }
        ]

-- A volume's path is granted only to a signed-in account, for a volume that it was assigned or for
-- the whole volume, outside the personal root, by a rule that does not hide it, and writable only
-- where neither the assignment nor the rule is read-only.
pub get_volume_access-grant :
    (w : World) (x : Context) (rel : Text) (i : AccessInfo)
    → get_volume_access w x rel ≡ ok i
    → i.can_access ≡ true
    → IsAssigned w x rel i ⊎ IsWhole w x rel i
unfolding get_volume_access
get_volume_access-grant w x rel i h a = elim (Bool-cases (has_guest x && is_anonymous x)) [
  | inl guest ↦ ground (arith, guest)
  | inr other ↦ elim (Option-cases (known_user x)) [
    | inl nobody ↦ ground (arith, other, nobody)
    | inr (u, known) ↦ elim (Bool-cases (w.user_volumes_enabled && not (is_admin u))) [
      | inl held ↦ inl (
          assigned_volume_access-IsAssigned w x u rel i known (ground arith)
            (ground (arith, other, known, held)) a)
      | inr free ↦ inr (
          whole_volume_access-IsWhole w x u rel i known free (ground (arith, other, known, free)) a)
    ]
  ]
]
