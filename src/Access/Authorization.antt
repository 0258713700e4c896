-- ===== src/Access/Authorization.antt =====
-- backend/src/services/authorizationService.js: whether an action on a path is allowed.
use next_explorer.Prelude.{Bool, true, false, not, Option, none, some, if◌then◌else◌, Text}
use next_explorer.Paths.Logical.{Result, ok, ◌>>=◌}
use next_explorer.Access.Records.{Context}
use next_explorer.Access.Manager.{World, AccessInfo, unknown_action}
use next_explorer.Access.Sharing.{get_access_info}

-- `ACTIONS`, and a text that is none of them
pub data Action : Type 0 where
  list read write delete upload create_folder create_file rename download create_share : Action
  other : Action

pub data Flag : Type 0 where
  can_read can_write can_delete can_upload can_create_folder can_create_file can_download : Flag
  can_share : Flag

unfoldable pub action_to_flag : Action → Option Flag
action_to_flag list = some can_read
action_to_flag read = some can_read
action_to_flag write = some can_write
action_to_flag delete = some can_delete
action_to_flag upload = some can_upload
action_to_flag create_folder = some can_create_folder
action_to_flag create_file = some can_create_file
action_to_flag rename = some can_write
action_to_flag download = some can_download
action_to_flag create_share = some can_share
action_to_flag other = none

-- `accessInfo[flag]`
abbrev pub flag_of : AccessInfo → Flag → Bool
flag_of i can_read = i.can_read
flag_of i can_write = i.can_write
flag_of i can_delete = i.can_delete
flag_of i can_upload = i.can_upload
flag_of i can_create_folder = i.can_create_folder
flag_of i can_create_file = i.can_create_file
flag_of i can_download = i.can_download
flag_of i can_share = i.can_share

pub record Verdict : Type 0 where
  pub allowed : Bool
  pub access_info : AccessInfo

unfoldable pub judge : AccessInfo → Action → Verdict
unfolding action_to_flag
judge i action =
    if not i.can_access
    then record { allowed = false; access_info = i }
    else elim (action_to_flag action) [
      | none ↦ record {
        allowed = false;
        access_info = record i { denial_reason = some unknown_action };
      }
      | some flag ↦ record { allowed = flag_of i flag; access_info = i }
    ]

unfoldable pub authorize_path : World → Context → Text → Action → Result Verdict
unfolding judge
authorize_path w x logical_path action = do
  info ← get_access_info w x logical_path
  ok (judge info action)

-- `authorizeAndResolve`, with `resolveLogicalPath` as an argument
pub record Resolved (A : Type 0) : Type 0 where
  pub allowed : Bool
  pub access_info : AccessInfo
  pub resolved : Option A

-- what `authorizeAndResolve` answers where the path is accessible and resolved
unfoldable pub resolution : {A : Type 0} → AccessInfo → Action → A → Resolved A
unfolding action_to_flag
resolution i action place = elim (action_to_flag action) [
  | none ↦ record {
    allowed = false;
    access_info = record i { denial_reason = some unknown_action };
    resolved = none;
  }
  | some flag ↦
      if not (flag_of i flag)
      then record { allowed = false; access_info = i; resolved = none }
      else record { allowed = true; access_info = i; resolved = some place }
]

-- what follows `getAccessInfo` in it
unfoldable pub resolve_and_judge :
    {A : Type 0} → (AccessInfo → Result A) → Action → AccessInfo → Result (Resolved A)
unfolding resolution
resolve_and_judge resolve action i =
    if not i.can_access
    then ok (record { allowed = false; access_info = i; resolved = none })
    else (resolve i >>= λ place. ok (resolution i action place))

unfoldable pub authorize_and_resolve :
    {A : Type 0} → (AccessInfo → Result A) → World → Context → Text → Action → Result (Resolved A)
unfolding resolve_and_judge
authorize_and_resolve resolve w x logical_path action = do
  info ← get_access_info w x logical_path
  resolve_and_judge resolve action info
