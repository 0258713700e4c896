-- ===== src/Access/ShareUpdates.antt =====
-- How backend/src/services/sharesService.js updates a share. The time of the update is
-- left out. An error after a statement has run leaves what it wrote.
use next_explorer.Prelude.{
  Bool, true, false, not, ◌&&◌, ◌||◌, List, [], map, Option, none, some, String, str_eq,
  if◌then◌else◌, filter, find?,
}
use next_explorer.Paths.Logical.{Result, ok, err, ◌>>=◌, validation, not_found}
use next_explorer.Access.Records.{
  SharingType, users, anyone, unknown, AccessMode, Expiry, Share, GuestSession, Tables,
}
use next_explorer.Access.ShareStore.{
  Setting, missing, malformed, set, ◌>>◌, insist, is_users, has_some, permit_all,
}

-- The keys that an update names. A sharing type that is another text is `unknown`, an access mode
-- that is none is not named, and a list of accounts that is no list is empty; `password` says
-- whether there is one afterwards.
pub record Updates : Type 0 where
  pub sharing_type : Option SharingType
  pub user_ids : Option (List String)
  pub access_mode : Option AccessMode
  pub allow_delete : Setting
  pub allow_create_folder : Setting
  pub allow_create_file : Setting
  pub allow_upload : Setting
  pub allow_download : Setting
  pub versions_visible : Setting
  pub versions_download : Setting
  pub password : Option Bool
  pub expires_at : Option Expiry
  pub label : Option (Option String)

pub record Database : Type 0 where
  pub tables : Tables
  pub guest_sessions : List GuestSession

abbrev pub or_else {ℓ} : {V : Type ℓ} → Option V → V → V
or_else none old = old
or_else (some new_one) old = new_one

abbrev overwrite : Setting → Bool → Result Bool
overwrite missing old = ok old
overwrite malformed old = err validation
overwrite (set b) old = ok b

abbrev pub effective_sharing_type : Share → Updates → SharingType
effective_sharing_type s u = or_else u.sharing_type s.sharing_type

-- a sharing type is stored only if it is known
abbrev stored_sharing_type : Share → Updates → SharingType
stored_sharing_type s u = elim u.sharing_type [
  | none ↦ s.sharing_type
  | some t ↦ elim t [ users ↦ users | anyone ↦ anyone | unknown ↦ s.sharing_type ]
]

abbrev pub has_user_ids : Updates → Bool
has_user_ids u = elim u.user_ids [ none ↦ false | some ids ↦ true ]

abbrev pub named_ids : Updates → List String
named_ids u = or_else u.user_ids []

abbrev pub is_anyone : SharingType → Bool
is_anyone anyone = true
is_anyone _ = false

-- the checks of `updateShare`, and the row that it leaves
unfoldable pub updated_row : Share → Updates → Result Share
updated_row s u = do
  insist (
      not (is_users (effective_sharing_type s u) && has_user_ids u && not (has_some (named_ids u))))
  insist (
      not (
        is_users (effective_sharing_type s u)
        && not (is_users s.sharing_type)
        && not (has_user_ids u)))
  delete ← overwrite u.allow_delete s.allow_delete
  create_folder ← overwrite u.allow_create_folder s.allow_create_folder
  create_file ← overwrite u.allow_create_file s.allow_create_file
  upload ← overwrite u.allow_upload s.allow_upload
  download ← overwrite u.allow_download s.allow_download
  visible ← overwrite u.versions_visible s.versions_visible
  version_download ← overwrite u.versions_download s.versions_download
  ok (record s {
    access_mode = or_else u.access_mode s.access_mode;
    allow_delete = delete;
    allow_create_folder = create_folder;
    allow_create_file = create_file;
    allow_upload = upload;
    allow_download = download;
    versions_visible = visible;
    versions_download = version_download;
    sharing_type = stored_sharing_type s u;
    has_password = or_else u.password s.has_password;
    expires_at = or_else u.expires_at s.expires_at;
    label = or_else u.label s.label;
  })

abbrev pub without_rows : String → Tables → Tables
without_rows id t = record t {
  share_permissions = filter (λ p. not (str_eq p.share_id id)) t.share_permissions;
}

-- the table of permissions after the update
unfoldable pub update_rows : List String → Tables → Share → Updates → Tables × Result (Unit {0})
update_rows accounts t s u =
    if has_user_ids u || is_anyone (effective_sharing_type s u)
    then permit_all accounts s.id (without_rows s.id t)
        (if is_users (effective_sharing_type s u) then named_ids u else [])
    else (t, ok tt)

abbrev pub revoke_guests : String → Bool → List GuestSession → List GuestSession
revoke_guests id true sessions = filter (λ g. not (str_eq g.share_id id)) sessions
revoke_guests id false sessions = sessions

-- the statements that write
unfoldable pub write_update :
    List String → Database → Share → Share → Updates → Database × Result Share
unfolding update_rows
write_update accounts db s row u =
    let renewed = record db.tables {
      shares = map (λ other. if str_eq other.id s.id then row else other) db.tables.shares;
    } in
    let (tables, outcome) = update_rows accounts renewed s u in
    elim outcome [
      | err e ↦ (record db { tables = tables }, err e)
      | ok done ↦ (
        record {
          tables = tables;
          guest_sessions = revoke_guests s.id (or_else u.password false) db.guest_sessions;
        },
        ok row,
      )
    ]

unfoldable pub update_share : List String → Database → String → Updates → Database × Result Share
unfolding updated_row write_update
update_share accounts db share_id u = elim (find? (λ s. str_eq s.id share_id) db.tables.shares) [
  | none ↦ (db, err not_found)
  | some s ↦ elim (updated_row s u) [
    | err e ↦ (db, err e)
    | ok row ↦ write_update accounts db s row u
  ]
]
