-- ===== src/Access/Examples.antt =====
-- A server with one rule, one assigned volume and two shares.
use next_explorer.Prelude.{◌≡◌, ◌↔◌, refl, true, false, [], ◌∷◌, none, some, Text, codes}
use next_explorer.Paths.Logical.{
  Result, ok, share, parse_path_space, normalize_relative_path, combine_relative_path,
}
use next_explorer.Paths.Segments.{resolve}
use next_explorer.Paths.Within.{Directories, reaches_into_personal_root}
use next_explorer.Access.Rules.{Permission, ro, Rule, Access, resolve_permission}
use next_explorer.Access.Records.{
  Context, anyone, SourceSpace, readwrite, expires, Share, get_share_by_token, is_share_expired,
}
use next_explorer.Access.Manager.{World, AccessInfo, share_password_applies}
use next_explorer.Access.Sharing.{
  caller_may_not_open, guest_of, grant_for, under, read_only, read_source_limits, get_access_info,
}
use next_explorer.Access.ShareGrants.{
  MayOpen, SourceAllows, caller_may_not_open_iff, read_source_limits-SourceAllows,
}
use next_explorer.Access.Soundness.{IsGranted, get_access_info-IsGranted}
use next_explorer.Access.Coherence.{IsCoherent, get_access_info-IsCoherent}
use next_explorer.Access.Authorization.{write, authorize_path, Resolved, authorize_and_resolve}
use next_explorer.Access.Verdicts.{
  changes, authorize_path-IsGranted, authorize_and_resolve-agrees, anonymous_is_confined,
}
use next_explorer.Access.RuleLaws.{IsFirst, IsReadable, resolve_permission-IsFirst}

abbrev directories : Directories
directories = record {
  volume = codes "/mnt";
  real_volume = codes "/mnt";
  user_root = some (codes "/mnt/.users");
  real_user_root = codes "/mnt/.users";
}

-- `Media` is read-only for everyone but administrators.
abbrev media_rule : Rule
media_rule = record {
  path = codes "/Media";
  recursive = true;
  permissions = some ro;
  applies_to_admins = none;
}

abbrev access : Access
access = record { rules = media_rule ∷ []; apply_to_admins = false }

abbrev link : Share
link = record {
  id = "s1";
  share_token = codes "tok";
  owner_id = "ann";
  source_space = SourceSpace.volume;
  source_path = codes "Docs";
  is_directory = true;
  access_mode = readwrite;
  allow_delete = false;
  allow_create_folder = true;
  allow_create_file = true;
  allow_upload = true;
  allow_download = true;
  sharing_type = anyone;
  has_password = true;
  expires_at = expires 100;
  label = none;
  versions_visible = false;
  versions_download = false;
}

abbrev world : World
world = record {
  auth_enabled = true;
  user_volumes_enabled = false;
  personal_enabled = true;
  directories = directories;
  access = access;
  tables = record { shares = link ∷ []; share_permissions = []; user_volumes = [] };
  now = 50;
}

abbrev guest : Context
guest = record { user = none; guest_session = some (record { id = "g"; share_id = "s1" }) }

abbrev ann : Context
ann = record { user = some (record { id = "ann"; roles = [] }); guest_session = none }

abbrev shared_path : Text
shared_path = codes "share/tok/notes"

shared_answer : get_access_info world guest shared_path ≡ ok (grant_for link guest false)
unfolding get_access_info parse_path_space get_share_by_token is_share_expired
    share_password_applies under combine_relative_path reaches_into_personal_root resolve
    resolve_permission
shared_answer = refl

get_access_info-IsGranted_example : IsGranted world guest shared_path (grant_for link guest false)
unfolding grant_for
get_access_info-IsGranted_example =
    get_access_info-IsGranted world guest shared_path (grant_for link guest false) shared_answer
      refl

get_access_info-IsCoherent_example : IsCoherent (grant_for link guest false)
get_access_info-IsCoherent_example =
    get_access_info-IsCoherent world guest shared_path (grant_for link guest false) shared_answer

anonymous_is_confined_example :
    (token : Text) × (inner : Text) × (s : Share) × (parse_path_space true shared_path
      ≡ ok (share token inner))
    × (get_share_by_token world.tables token ≡ some s)
    × (s.sharing_type ≡ anyone)
    × (guest_of guest s ≡ true)
unfolding grant_for
anonymous_is_confined_example =
    anonymous_is_confined world guest shared_path (grant_for link guest false) shared_answer refl
      refl

write_is_allowed :
    authorize_path world guest shared_path write
    ≡ ok (record { allowed = true; access_info = grant_for link guest false })
unfolding authorize_path get_access_info parse_path_space get_share_by_token is_share_expired
    share_password_applies under combine_relative_path reaches_into_personal_root resolve
    resolve_permission
write_is_allowed = refl

authorize_path-IsGranted_example :
    IsGranted world guest shared_path (grant_for link guest false)
    × (changes write ≡ true → (grant_for link guest false).effective_permission ≡ Permission.rw)
authorize_path-IsGranted_example =
    authorize_path-IsGranted world guest shared_path write
      (record { allowed = true; access_info = grant_for link guest false }) write_is_allowed refl

-- A resolver that finds every path.
abbrev found : AccessInfo → Result Text
found i = ok (codes "/mnt/Docs/notes")

abbrev write_resolved : Resolved Text
write_resolved = record {
  allowed = true;
  access_info = grant_for link guest false;
  resolved = some (codes "/mnt/Docs/notes");
}

write_is_resolved : authorize_and_resolve found world guest shared_path write ≡ ok write_resolved
unfolding authorize_and_resolve get_access_info parse_path_space get_share_by_token is_share_expired
    share_password_applies under combine_relative_path reaches_into_personal_root resolve
    resolve_permission
write_is_resolved = refl

authorize_and_resolve-agrees_example :
    (authorize_path world guest shared_path write
      ≡ ok (record { allowed = true; access_info = grant_for link guest false }))
    × (write_resolved.allowed ≡ false → write_resolved.resolved ≡ none)
    × (write_resolved.allowed ≡ true
        → (place : Text) × (found write_resolved.access_info ≡ ok place)
          × (write_resolved.resolved ≡ some place))
authorize_and_resolve-agrees_example =
    authorize_and_resolve-agrees found world guest shared_path write write_resolved
      write_is_resolved

caller_may_not_open_iff_example :
    (caller_may_not_open world link guest ≡ none) ↔ MayOpen world link guest
caller_may_not_open_iff_example = caller_may_not_open_iff world link guest

shared_limits : read_source_limits world link (codes "notes") ≡ ok (read_only false)
unfolding read_source_limits under combine_relative_path reaches_into_personal_root resolve
    resolve_permission
shared_limits = refl

read_source_limits-SourceAllows_example : SourceAllows world link (codes "notes") false
read_source_limits-SourceAllows_example =
    read_source_limits-SourceAllows world link (codes "notes") false shared_limits

media_is_read_only : resolve_permission access (codes "Media/a") false ≡ ok ro
unfolding resolve_permission normalize_relative_path
media_is_read_only = refl

resolve_permission-IsFirst_example :
    (rel : Text) × (normalize_relative_path (codes "Media/a") ≡ ok rel)
    × IsFirst false false rel ro (media_rule ∷ [])
resolve_permission-IsFirst_example =
    resolve_permission-IsFirst access (codes "Media/a") false ro media_is_read_only

media_rule-IsReadable : IsReadable media_rule
unfolding normalize_relative_path
media_rule-IsReadable = (codes "Media", refl)
