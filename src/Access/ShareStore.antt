-- ===== src/Access/ShareStore.antt =====
-- How backend/src/services/sharesService.js creates a share. The id and the token are generated, the
-- accounts are the ids of the table of users, which the rows refer to; an error after a row is
-- written leaves the row.
use next_explorer.Prelude.{
  Bool, true, false, not, ◌&&◌, ◌||◌, List, [], ◌∷◌, ◌++◌, Option, none, some, String, str_eq,
  if◌then◌else◌, Text, text_eq, any,
}
use next_explorer.Paths.Segments.{is_empty}
use next_explorer.Paths.Logical.{Result, ok, err, ◌>>=◌, validation, database}
use next_explorer.Access.Records.{
  SharingType, users, unknown, SourceSpace, AccessMode, Expiry, Share, Tables,
}

-- A setting that may be missing, or not a Boolean.
pub data Setting : Type 0 where
  missing malformed : Setting
  set : Bool → Setting

-- What a caller asks for. A text that is none of the known ones, or a value of another type, is
-- `none`; a list of accounts that is no list is empty.
pub record ShareRequest : Type 0 where
  pub owner_id : String
  pub source_space : Option SourceSpace
  pub source_path : Text
  pub is_directory : Bool
  pub access_mode : Option AccessMode
  pub allow_delete : Option Bool
  pub allow_create_folder : Option Bool
  pub allow_create_file : Option Bool
  pub allow_upload : Option Bool
  pub allow_download : Bool
  pub versions_visible : Setting
  pub versions_download : Setting
  pub sharing_type : SharingType
  pub has_password : Bool
  pub user_ids : List String
  pub expires_at : Expiry
  pub label : Option String

abbrev pub need {ℓ} : {V : Type ℓ} → Option V → Result V
need none = err validation
need (some v) = ok v

infixl 5 ◌>>◌
abbrev pub ◌>>◌ {ℓ} : {W : Type ℓ} → Result (Unit {0}) → Result W → Result W
first >> then_what = first >>= λ _. then_what

abbrev pub insist : Bool → Result (Unit {0})
insist b = if b then ok tt else err validation

abbrev pub is_users : SharingType → Bool
is_users users = true
is_users _ = false

abbrev is_known : SharingType → Bool
is_known unknown = false
is_known _ = true

abbrev pub has_some : List String → Bool
has_some [] = false
has_some (u ∷ us) = true

-- what is not said is said by the sharing type
abbrev setting : Bool → Setting → Result Bool
setting by_default missing = ok by_default
setting by_default malformed = err validation
setting by_default (set b) = ok b

-- the checks of `createShare`, and the row that it writes
unfoldable pub accept : String → Text → ShareRequest → Result Share
accept id token r = do
  insist (not (str_eq r.owner_id ""))
  space ← need r.source_space
  insist (not (is_empty r.source_path))
  mode ← need r.access_mode
  delete ← need r.allow_delete
  create_folder ← need r.allow_create_folder
  create_file ← need r.allow_create_file
  upload ← need r.allow_upload
  insist (is_known r.sharing_type)
  insist (not (is_users r.sharing_type) || has_some r.user_ids)
  visible ← setting (is_users r.sharing_type) r.versions_visible
  download ← setting (is_users r.sharing_type) r.versions_download
  ok (record {
    id = id;
    share_token = token;
    owner_id = r.owner_id;
    source_space = space;
    source_path = r.source_path;
    is_directory = r.is_directory;
    access_mode = mode;
    allow_delete = delete;
    allow_create_folder = create_folder;
    allow_create_file = create_file;
    allow_upload = upload;
    allow_download = r.allow_download;
    sharing_type = r.sharing_type;
    has_password = r.has_password;
    expires_at = r.expires_at;
    label = r.label;
    versions_visible = visible;
    versions_download = download;
  })

abbrev pub has_row : Tables → String → String → Bool
has_row t share_id user_id =
    any (λ p. str_eq p.share_id share_id && str_eq p.user_id user_id) t.share_permissions

-- The rows are read in no order.
abbrev pub with_row : Tables → String → String → Tables
with_row t share_id user_id = record t {
  share_permissions = record { share_id = share_id; user_id = user_id } ∷ t.share_permissions;
}

-- the loop over `userIds`: a row that is there is skipped, an account that is not there stops it
unfoldable pub permit_all : List String → String → Tables → List String → Tables × Result (Unit {0})
permit_all accounts share_id t [] = (t, ok tt)
permit_all accounts share_id t (u ∷ us) =
    let known = permit_all accounts share_id t us in
    let added = permit_all accounts share_id (with_row t share_id u) us in
    if has_row t share_id u
    then known
    else if any (str_eq u) accounts
    then added
    else (t, err database)

-- whether the constraints on the new row hold
abbrev pub fits : List String → Tables → Share → Bool
fits accounts t s =
    not (any (λ other. str_eq other.id s.id || text_eq other.share_token s.share_token) t.shares)
    && any (str_eq s.owner_id) accounts

-- the statements that write
unfoldable pub store : List String → Tables → Share → List String → Tables × Result Share
unfolding permit_all
store accounts t s user_ids =
    if not (fits accounts t s)
    then (t, err database)
    else let stored = record t { shares = t.shares ++ s ∷ [] } in
      let (after, outcome) =
        permit_all accounts s.id stored (if is_users s.sharing_type then user_ids else []) in
      (after, outcome >>= λ _. ok s)

unfoldable pub create_share :
    List String → Tables → String → Text → ShareRequest → Tables × Result Share
unfolding accept store
create_share accounts t id token r = elim (accept id token r) [
  | err e ↦ (t, err e)
  | ok s ↦ store accounts t s r.user_ids
]
