-- ===== src/Access/Sharing.antt =====
-- The shares of backend/src/services/accessManager.js, and `getAccessInfo` over all three spaces.
use next_explorer.Prelude.{
  Bool, true, false, not, ◌&&◌, List, [], ◌∷◌, ◌++◌, Option, none, some, str_eq, if◌then◌else◌,
  Text,
}
use next_explorer.Paths.Segments.{slash, is_empty, segments, join_with, resolve}
use next_explorer.Paths.Logical.{
  Result, ok, ◌>>=◌, PathSpace, volume, personal, share, parse_path_space, combine_relative_path,
}
use next_explorer.Paths.Within.{reaches_into_personal_root}
use next_explorer.Access.Rules.{Permission, rw, ro, hidden, resolve_permission}
use next_explorer.Access.Records.{
  Context, users, anyone, unknown, SourceSpace, user_volume, readonly, readwrite, Share, UserVolume,
  get_share_by_token, has_user_permission, is_share_expired, get_volume_by_id,
}
use next_explorer.Access.Manager.{
  World, DenialReason, share_not_found, share_expired, authentication_required, access_denied,
  share_access_required, wrong_guest_session, password_required, unknown_sharing_type,
  personal_space, path_hidden, invalid_source_volume, source_volume_not_found,
  source_volume_mismatch, token_required, AccessInfo, create_denied_access, has_guest, is_anonymous,
  is_readonly, known_user, share_password_applies, get_volume_access, get_personal_access,
}

unfoldable pub share_is_unusable : World → Option Share → Option DenialReason
share_is_unusable w none = some share_not_found
share_is_unusable w (some s) = if is_share_expired w.now s then some share_expired else none

-- `guestSession.shareId === share.id`, false with no session
abbrev pub guest_of : Context → Share → Bool
guest_of x s = elim x.guest_session [ none ↦ false | some g ↦ str_eq g.share_id s.id ]

-- `none` where the caller may open the share
unfoldable pub caller_may_not_open : World → Share → Context → Option DenialReason
caller_may_not_open w s x = elim s.sharing_type [
  | users ↦ elim (known_user x) [
    | none ↦ some authentication_required
    | some u ↦ if has_user_permission w.tables s.id u.id then none else some access_denied
  ]
  | anyone ↦
      if is_anonymous x && not (has_guest x)
      then some share_access_required
      else if has_guest x && is_anonymous x && not (guest_of x s)
      then some wrong_guest_session
      else if share_password_applies w s x.user && not (guest_of x s)
      then some password_required
      else none
  | unknown ↦ some unknown_sharing_type
]

-- `{ denial }`, or `{ readOnly }`
pub data Limits : Type 0 where
  denial : DenialReason → Limits
  read_only : Bool → Limits

-- The limits where a rule's permission is known.
abbrev pub limits_of : Bool → Permission → Limits
limits_of base_read_only hidden = denial path_hidden
limits_of base_read_only ro = read_only true
limits_of base_read_only rw = read_only base_read_only

-- `under`: the path inside the share, appended for a folder
unfoldable pub under : Share → Text → Text → Result Text
under s inner base =
    if s.is_directory && not (is_empty inner) then combine_relative_path base inner else ok base

-- the branch of `readSourceLimits` for a share of a volume
unfoldable pub volume_limits : World → Share → Text → Result Limits
volume_limits w s inner = do
  path ← under s inner s.source_path
  if reaches_into_personal_root w.directories w.directories.volume
        (resolve w.directories.volume path)
      then ok (denial personal_space)
      else (resolve_permission w.access path false >>= λ permission.
          ok (limits_of false permission))

-- the branch for a share of an assigned volume, with the volume and the path in it
unfoldable pub assigned_limits : World → Share → UserVolume → Text → Text → Result Limits
assigned_limits w s uv rest inner = do
  path ← under s inner rest
  if reaches_into_personal_root w.directories uv.path (resolve uv.path path)
      then ok (denial personal_space)
      else (resolve_permission w.access
            (if is_empty path then uv.label else uv.label ++ slash ∷ path) false
          >>= λ permission. ok (limits_of (is_readonly uv.access_mode) permission))

-- the volume that the first segment of the source path names
unfoldable pub user_volume_limits : World → Share → Text → List Text → Result Limits
unfolding assigned_limits
user_volume_limits w s inner [] = ok (denial invalid_source_volume)
user_volume_limits w s inner (volume_id ∷ rest) = elim (get_volume_by_id w.tables volume_id) [
  | none ↦ ok (denial source_volume_not_found)
  | some uv ↦
      if not (str_eq uv.user_id s.owner_id)
      then ok (denial source_volume_mismatch)
      else assigned_limits w s uv (join_with slash rest) inner
]

unfoldable pub read_source_limits : World → Share → Text → Result Limits
unfolding volume_limits user_volume_limits
read_source_limits w s inner = elim s.source_space [
  | SourceSpace.volume ↦ volume_limits w s inner
  | user_volume ↦ user_volume_limits w s inner (segments s.source_path)
  | SourceSpace.personal ↦ ok (read_only false)
]

abbrev is_owner : Context → Share → Bool
is_owner x s = elim x.user [ none ↦ false | some u ↦ str_eq u.id s.owner_id ]

unfoldable pub grant_for : Share → Context → Bool → AccessInfo
grant_for s x source_read_only =
    let is_read_write = not (is_readonly s.access_mode) && not source_read_only in
    record {
      can_access = true;
      can_read = true;
      can_write = is_read_write;
      can_delete = is_read_write && s.allow_delete;
      can_upload = is_read_write && s.allow_upload;
      can_create_folder = is_read_write && s.allow_create_folder;
      can_create_file = is_read_write && s.allow_create_file;
      can_share = false;
      can_download = s.allow_download;
      is_shared = true;
      share_info = some (record {
        share_id = s.id;
        share_token = s.share_token;
        access_mode = if is_read_write then readwrite else readonly;
        expires_at = s.expires_at;
        is_owner = is_owner x s;
        label = s.label;
      });
      share = some s;
      user_volume = none;
      effective_permission = if is_read_write then rw else ro;
      denial_reason = none;
    }

-- the rest of `getShareAccess` once a share is known to be usable
unfoldable pub open_share : World → Context → Share → Text → Result AccessInfo
unfolding caller_may_not_open read_source_limits grant_for
open_share w x s inner = elim (caller_may_not_open w s x) [
  | some reason ↦ ok (create_denied_access reason)
  | none ↦ read_source_limits w s inner >>= λ limits. ok (elim limits [
    | denial reason ↦ create_denied_access reason
    | read_only source_read_only ↦ grant_for s x source_read_only
  ])
]

-- `getShareAccess` behind `loadShare`
unfoldable pub open_loaded : World → Context → Text → Option Share → Result AccessInfo
unfolding share_is_unusable open_share
open_loaded w x inner found = elim (share_is_unusable w found) [
  | some reason ↦ ok (create_denied_access reason)
  | none ↦ elim found [
    | none ↦ ok (create_denied_access share_not_found)
    | some s ↦ open_share w x s inner
  ]
]

unfoldable pub get_share_access : World → Context → Text → Text → Result AccessInfo
unfolding open_loaded
get_share_access w x token inner =
    if is_empty token
    then ok (create_denied_access token_required)
    else open_loaded w x inner (get_share_by_token w.tables token)

-- The space of the path decides who answers.
unfoldable pub access_in_space : World → Context → PathSpace → Result AccessInfo
unfolding get_volume_access get_personal_access get_share_access
access_in_space w x (volume rel) = get_volume_access w x rel
access_in_space w x (personal rel) = ok (get_personal_access x)
access_in_space w x (share token inner) = get_share_access w x token inner

unfoldable pub get_access_info : World → Context → Text → Result AccessInfo
unfolding access_in_space
get_access_info w x relative_path = do
  space ← parse_path_space w.personal_enabled relative_path
  access_in_space w x space
