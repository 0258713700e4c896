-- ===== src/Access/Records.antt =====
-- What the access manager reads: callers, shares and assigned volumes. The tables of the database are
-- lists of rows; a share's row is that of backend/src/services/sharesService.js and a volume's that of
-- backend/src/services/userVolumesService.js.
use next_explorer.Prelude.{
  ℕ, Bool, true, false, ◌&&◌, List, [], ◌∷◌, Option, none, some, String, leb, str_eq, if◌then◌else◌,
  Text, text_eq, find?, any,
}
use next_explorer.Paths.Segments.{segments}

pub record User : Type 0 where
  pub id : String
  pub roles : List String

pub record GuestSession : Type 0 where
  pub id : String
  pub share_id : String

pub record Context : Type 0 where
  pub user : Option User
  pub guest_session : Option GuestSession

-- `sharing_type`: 'users', 'anyone', or a text that the code does not know.
pub data SharingType : Type 0 where
  users anyone unknown : SharingType

-- `source_space`: 'volume', 'user_volume', or else ('personal').
pub data SourceSpace : Type 0 where
  volume user_volume personal : SourceSpace

pub data AccessMode : Type 0 where
  readonly readwrite : AccessMode

-- `expires_at`: none, a text that is no date, or a time in milliseconds.
pub data Expiry : Type 0 where
  never malformed : Expiry
  expires : ℕ → Expiry

pub record Share : Type 0 where
  pub id : String
  pub share_token : Text
  pub owner_id : String
  pub source_space : SourceSpace
  pub source_path : Text
  pub is_directory : Bool
  pub access_mode : AccessMode
  pub allow_delete : Bool
  pub allow_create_folder : Bool
  pub allow_create_file : Bool
  pub allow_upload : Bool
  pub allow_download : Bool
  pub sharing_type : SharingType
  pub has_password : Bool
  pub expires_at : Expiry
  pub label : Option String
  pub versions_visible : Bool
  pub versions_download : Bool

pub record UserVolume : Type 0 where
  pub id : Text
  pub user_id : String
  pub label : Text
  pub path : Text
  pub access_mode : AccessMode

-- A row of `share_permissions`.
pub record SharePermission : Type 0 where
  pub share_id : String
  pub user_id : String

pub record Tables : Type 0 where
  pub shares : List Share
  pub share_permissions : List SharePermission
  pub user_volumes : List UserVolume

unfoldable pub get_share_by_token : Tables → Text → Option Share
get_share_by_token t token = find? (λ s. text_eq s.share_token token) t.shares

abbrev is_anyone : SharingType → Bool
is_anyone anyone = true
is_anyone _ = false

unfoldable pub has_user_permission : Tables → String → String → Bool
has_user_permission t share_id user_id = elim (find? (λ s. str_eq s.id share_id) t.shares) [
  | none ↦ false
  | some s ↦
      if str_eq s.owner_id user_id
      then true
      else if is_anyone s.sharing_type
      then true
      else any (λ p. str_eq p.share_id share_id && str_eq p.user_id user_id) t.share_permissions
]

unfoldable pub is_share_expired : ℕ → Share → Bool
is_share_expired now s = elim s.expires_at [
  | never ↦ false
  | malformed ↦ true
  | expires at ↦ leb at now
]

unfoldable pub get_volume_by_id : Tables → Text → Option UserVolume
get_volume_by_id t id = find? (λ v. text_eq v.id id) t.user_volumes

-- Stripping the slashes at the ends does not change which segments there are.
unfoldable pub get_user_volume_for_path : Tables → String → Text → Option UserVolume
get_user_volume_for_path t user_id relative_path = elim (segments relative_path) [
  | [] ↦ none
  | first ∷ rest ↦ find? (λ v. str_eq v.user_id user_id && text_eq v.label first) t.user_volumes
]
