-- ===== src/Access/TargetExamples.antt =====
-- The shares of a folder that is deleted, of one whose name differs in case, and of one beside it.
use next_explorer.Prelude.{
  ◌≡◌, refl, true, false, List, [], ◌∷◌, ◌++◌, map, none, some, String, Text, codes, All,
}
use next_explorer.Access.Records.{SourceSpace, AccessMode, SharingType, Expiry, Share}
use next_explorer.Access.ShareTargets.{
  Target, get_shares_for_source_targets, normalize_share_source_path,
}
use next_explorer.Access.ShareTargetLaws.{covered, is_there, get_shares_for_source_targets-covered}
use next_explorer.Access.ShareTargetsFound.{get_shares_for_source_targets-is_there}

abbrev share_of : String → Text → Share
share_of id path = record {
  id = id;
  share_token = codes "tok";
  owner_id = "7";
  source_space = SourceSpace.volume;
  source_path = path;
  is_directory = true;
  access_mode = AccessMode.readonly;
  allow_delete = false;
  allow_create_folder = false;
  allow_create_file = false;
  allow_upload = false;
  allow_download = true;
  sharing_type = SharingType.anyone;
  has_password = false;
  expires_at = Expiry.never;
  label = none;
  versions_visible = false;
  versions_download = false;
}

abbrev inside : Share
inside = share_of "2" (codes "Docs/a/b")

abbrev others : List Share
others = share_of "3" (codes "docs/a") ∷ share_of "4" (codes "Docs2") ∷ []

abbrev shares : List Share
shares = share_of "1" (codes "Docs") ∷ inside ∷ others

abbrev docs : List Target
docs =
    record {
      source_space = some SourceSpace.volume;
      source_path = codes "/Docs//";
      include_children = true;
    }
    ∷ []

found-docs : map (λ s. s.id) (get_shares_for_source_targets docs shares) ≡ "1" ∷ "2" ∷ []
unfolding get_shares_for_source_targets
found-docs = refl

get_shares_for_source_targets-covered_example :
    All (λ s. covered docs s ≡ true) (get_shares_for_source_targets docs shares)
get_shares_for_source_targets-covered_example = get_shares_for_source_targets-covered docs shares

get_shares_for_source_targets-is_there_example :
    is_there inside
      (get_shares_for_source_targets docs (share_of "1" (codes "Docs") ∷ [] ++ inside ∷ others))
    ≡ true
unfolding normalize_share_source_path
get_shares_for_source_targets-is_there_example =
    get_shares_for_source_targets-is_there docs (share_of "1" (codes "Docs") ∷ []) others inside
      refl
