-- ===== src/Access/Manager.antt =====
-- backend/src/services/accessManager.js: what a caller may do with a path. The caches that a caller
-- may hand in only save lookups and are left out; the clock and the tables are arguments.
use next_explorer.Prelude.{
  ℕ, Bool, true, false, not, ◌&&◌, ◌||◌, List, [], ◌∷◌, Option, none, some, String, str_eq,
  if◌then◌else◌, Text, any,
}
use next_explorer.Paths.Segments.{slash, segments, join_with, resolve}
use next_explorer.Paths.Logical.{Result, ok, ◌>>=◌}
use next_explorer.Paths.Within.{Directories, reaches_into_personal_root}
use next_explorer.Access.Rules.{Permission, rw, ro, hidden, Access, resolve_permission}
use next_explorer.Access.Records.{
  User, Context, AccessMode, readonly, readwrite, Expiry, Share, UserVolume, Tables,
  get_user_volume_for_path,
}

-- What the server knows when it is asked.
pub record World : Type 0 where
  pub auth_enabled : Bool
  pub user_volumes_enabled : Bool
  pub personal_enabled : Bool
  pub directories : Directories
  pub access : Access
  pub tables : Tables
  pub now : ℕ

pub record ShareInfo : Type 0 where
  pub share_id : String
  pub share_token : Text
  pub access_mode : AccessMode
  pub expires_at : Expiry
  pub is_owner : Bool
  pub label : Option String

pub data DenialReason : Type 0 where
  guests_not_volumes authentication_required no_volume_access personal_space path_hidden :
      DenialReason
  guests_not_personal share_not_found share_expired access_denied share_access_required :
      DenialReason
  wrong_guest_session password_required unknown_sharing_type invalid_source_volume : DenialReason
  source_volume_not_found source_volume_mismatch token_required unknown_action : DenialReason

pub record AccessInfo : Type 0 where
  pub can_access : Bool
  pub can_read : Bool
  pub can_write : Bool
  pub can_delete : Bool
  pub can_upload : Bool
  pub can_create_folder : Bool
  pub can_create_file : Bool
  pub can_share : Bool
  pub can_download : Bool
  pub is_shared : Bool
  pub share_info : Option ShareInfo
  pub share : Option Share
  pub user_volume : Option UserVolume
  pub effective_permission : Permission
  pub denial_reason : Option DenialReason

abbrev pub create_denied_access : DenialReason → AccessInfo
create_denied_access reason = record {
  can_access = false;
  can_read = false;
  can_write = false;
  can_delete = false;
  can_upload = false;
  can_create_folder = false;
  can_create_file = false;
  can_share = false;
  can_download = false;
  is_shared = false;
  share_info = none;
  share = none;
  user_volume = none;
  effective_permission = hidden;
  denial_reason = some reason;
}

-- The grant on a volume or in the personal space.
abbrev pub own_access : Bool → Option UserVolume → Permission → AccessInfo
own_access writes uv permission = record {
  can_access = true;
  can_read = true;
  can_write = writes;
  can_delete = writes;
  can_upload = writes;
  can_create_folder = writes;
  can_create_file = writes;
  can_share = true;
  can_download = true;
  is_shared = false;
  share_info = none;
  share = none;
  user_volume = uv;
  effective_permission = permission;
  denial_reason = none;
}

abbrev pub is_admin : User → Bool
is_admin u = any (str_eq "admin") u.roles

abbrev pub has_guest : Context → Bool
has_guest x = elim x.guest_session [ none ↦ false | some g ↦ true ]

abbrev pub is_readonly : AccessMode → Bool
is_readonly readonly = true
is_readonly readwrite = false

-- The caller, if an account with an id is signed in.
abbrev pub known_user : Context → Option User
known_user x = elim x.user [ none ↦ none | some u ↦ if str_eq u.id "" then none else some u ]

abbrev pub is_anonymous : Context → Bool
is_anonymous x = elim x.user [ none ↦ true | some u ↦ false ]

abbrev pub is_ro : Permission → Bool
is_ro ro = true
is_ro _ = false

unfoldable pub share_password_applies : World → Share → Option User → Bool
share_password_applies w s user =
    s.has_password
    && w.auth_enabled
    && not (elim user [ none ↦ false | some u ↦ str_eq u.id s.owner_id ])

-- The answer where a rule's permission is known: `hidden` denies.
abbrev pub unless_hidden : Permission → AccessInfo → AccessInfo
unless_hidden hidden grant = create_denied_access path_hidden
unless_hidden _ grant = grant

-- `slice(1).join('/')`
abbrev pub inner_path : List Text → Text
inner_path [] = []
inner_path (first ∷ rest) = join_with slash rest

-- the part of `getVolumeAccess` for an account that is held to its assigned volumes
unfoldable pub assigned_volume_access : World → User → Text → Result AccessInfo
assigned_volume_access w u relative_path =
    elim (get_user_volume_for_path w.tables u.id relative_path) [
      | none ↦ ok (create_denied_access no_volume_access)
      | some uv ↦
          if reaches_into_personal_root w.directories uv.path
            (resolve uv.path (inner_path (segments relative_path)))
          then ok (create_denied_access personal_space)
          else resolve_permission w.access relative_path false >>= λ permission.
              let effective_read_only = is_readonly uv.access_mode || is_ro permission in
              ok (
                unless_hidden permission (
                  own_access (not effective_read_only) (some uv)
                    (if effective_read_only then ro else rw)))
    ]

-- the part of `getVolumeAccess` for administrators, and where volumes are not assigned
unfoldable pub whole_volume_access : World → User → Text → Result AccessInfo
whole_volume_access w u relative_path =
    if reaches_into_personal_root w.directories w.directories.volume
      (resolve w.directories.volume relative_path)
    then ok (create_denied_access personal_space)
    else resolve_permission w.access relative_path (is_admin u) >>= λ permission.
        ok (unless_hidden permission (own_access (not (is_ro permission)) none permission))

unfoldable pub get_volume_access : World → Context → Text → Result AccessInfo
unfolding assigned_volume_access whole_volume_access
get_volume_access w x relative_path =
    if has_guest x && is_anonymous x
    then ok (create_denied_access guests_not_volumes)
    else elim (known_user x) [
      | none ↦ ok (create_denied_access authentication_required)
      | some u ↦
          if w.user_volumes_enabled && not (is_admin u)
          then assigned_volume_access w u relative_path
          else whole_volume_access w u relative_path
    ]

unfoldable pub get_personal_access : Context → AccessInfo
get_personal_access x =
    if has_guest x && is_anonymous x
    then create_denied_access guests_not_personal
    else elim (known_user x) [
      | none ↦ create_denied_access authentication_required
      | some u ↦ own_access true none rw
    ]
