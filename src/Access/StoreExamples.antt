-- ===== src/Access/StoreExamples.antt =====
-- A share for two accounts: created, refused and updated.
use next_explorer.Prelude.{
  find?, str_eq, ◌≡◌, refl, true, false, List, [], ◌∷◌, none, some, String, codes,
}
use next_explorer.Paths.Logical.{ok, err, validation}
use next_explorer.Access.Records.{users, SourceSpace, readwrite, never, Share, Tables}
use next_explorer.Access.ShareStore.{permit_all, ShareRequest, missing, create_share}
use next_explorer.Access.ShareUpdates.{Updates, Database, update_share}
use next_explorer.Access.ShareUpdateLaws.{IsUpdated, update_share-IsUpdated}
use next_explorer.Access.ShareStoreLaws.{IsStored, create_share-IsStored}

abbrev accounts : List String
accounts = "ann" ∷ "bob" ∷ "carol" ∷ []

abbrev empty : Tables
empty = record { shares = []; share_permissions = []; user_volumes = [] }

abbrev for_two : ShareRequest
for_two = record {
  owner_id = "ann";
  source_space = some SourceSpace.volume;
  source_path = codes "Docs";
  is_directory = true;
  access_mode = some readwrite;
  allow_delete = some false;
  allow_create_folder = some true;
  allow_create_file = some true;
  allow_upload = some true;
  allow_download = true;
  versions_visible = missing;
  versions_download = missing;
  sharing_type = users;
  has_password = false;
  user_ids = "bob" ∷ "carol" ∷ "bob" ∷ [];
  expires_at = never;
  label = none;
}

abbrev docs : Share
docs = record {
  id = "s1";
  share_token = codes "tok";
  owner_id = "ann";
  source_space = SourceSpace.volume;
  source_path = codes "Docs";
  is_directory = true;
  access_mode = readwrite;
  allow_delete = false;
  allow_create_folder = true;
  allow_create_file = true;
  allow_upload = true;
  allow_download = true;
  sharing_type = users;
  has_password = false;
  expires_at = never;
  label = none;
  versions_visible = true;
  versions_download = true;
}

docs_created : (create_share accounts empty "s1" (codes "tok") for_two).1 ≡ ok docs
unfolding create_share
docs_created = refl

create_share-IsStored_example :
    IsStored
      (create_share accounts empty "s1" (codes "tok") for_two).0
      docs
      ("bob" ∷ "carol" ∷ "bob" ∷ [])
create_share-IsStored_example =
    create_share-IsStored accounts empty "s1" (codes "tok") for_two docs docs_created

abbrev for_nobody : ShareRequest
for_nobody = record for_two { user_ids = [] }

nobody_refused : (create_share accounts empty "s1" (codes "tok") for_nobody).1 ≡ err validation
unfolding create_share
nobody_refused = refl

abbrev stored : Database
stored = record {
  tables = record {
    shares = docs ∷ [];
    share_permissions = record { share_id = "s1"; user_id = "bob" } ∷ [];
    user_volumes = [];
  };
  guest_sessions = record { id = "g"; share_id = "s1" } ∷ [];
}

-- A new password, and Carol in place of Bob.
abbrev for_carol : Updates
for_carol = record {
  sharing_type = none;
  user_ids = some ("carol" ∷ []);
  access_mode = none;
  allow_delete = missing;
  allow_create_folder = missing;
  allow_create_file = missing;
  allow_upload = missing;
  allow_download = missing;
  versions_visible = missing;
  versions_download = missing;
  password = some true;
  expires_at = none;
  label = none;
}

abbrev locked_docs : Share
locked_docs = record docs { has_password = true }

docs_updated : (update_share accounts stored "s1" for_carol).1 ≡ ok locked_docs
unfolding update_share permit_all
docs_updated = refl

update_share-IsUpdated_example :
    (s : Share) × (find? (λ x. str_eq x.id "s1") stored.tables.shares ≡ some s)
    × IsUpdated s for_carol (update_share accounts stored "s1" for_carol).0
update_share-IsUpdated_example =
    update_share-IsUpdated accounts stored "s1" for_carol locked_docs docs_updated
