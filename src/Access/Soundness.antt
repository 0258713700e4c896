-- ===== src/Access/Soundness.antt =====
-- Why `getAccessInfo` of backend/src/services/accessManager.js grants a path, in all three spaces.
use next_explorer.Prelude.{
  ◌≡◌, ap, sym, ◌∙◌, ◌⊎◌, inl, inr, Bool, true, false, not, ◌&&◌, none, some, arith, Text,
  Bool-cases, Option-cases,
}
use next_explorer.Paths.Segments.{is_empty}
use next_explorer.Paths.Logical.{ok, PathSpace, volume, personal, share, parse_path_space}
use next_explorer.Access.Records.{User, Context, Share, get_share_by_token, is_share_expired}
use next_explorer.Access.Manager.{
  World, AccessInfo, create_denied_access, known_user, is_readonly, get_personal_access,
}
use next_explorer.Access.Sharing.{
  caller_may_not_open, share_is_unusable, Limits, denial, read_only, read_source_limits, grant_for,
  open_share, open_loaded, get_share_access, access_in_space, get_access_info,
}
use next_explorer.Access.Grants.{>>=-returns, ok_inj, IsAssigned, IsWhole, get_volume_access-grant}
use next_explorer.Access.ShareGrants.{
  MayOpen, SourceAllows, caller_may_not_open_iff, read_source_limits-SourceAllows,
}

-- The grant of a path through a share.
pub record IsShared (w : World) (x : Context) (token inner : Text) (i : AccessInfo) : Type 0 where
  pub share : Share
  pub found : get_share_by_token w.tables token ≡ some share
  pub fresh : is_share_expired w.now share ≡ false
  pub opened : MayOpen w share x
  pub source_read_only : Bool
  pub allowed : SourceAllows w share inner source_read_only
  pub writes : i.can_write ≡ (not (is_readonly share.access_mode) && not source_read_only)
  pub deletes : i.can_delete ≡ (i.can_write && share.allow_delete)
  pub uploads : i.can_upload ≡ (i.can_write && share.allow_upload)
  pub downloads : i.can_download ≡ share.allow_download
  pub kept : i.can_share ≡ false

IsShared-of_grant :
    (w : World) (x : Context) (token inner : Text) (i : AccessInfo) (s : Share) (b : Bool)
    → get_share_by_token w.tables token ≡ some s
    → is_share_expired w.now s ≡ false
    → caller_may_not_open w s x ≡ none
    → read_source_limits w s inner ≡ ok (read_only b)
    → grant_for s x b ≡ i
    → IsShared w x token inner i
unfolding grant_for
IsShared-of_grant w x token inner i s b found fresh opened allowed given = record {
  share = s;
  found = found;
  fresh = fresh;
  opened = (caller_may_not_open_iff w s x).0 opened;
  source_read_only = b;
  allowed = read_source_limits-SourceAllows w s inner b allowed;
  writes = sym (ap (λ i. i.can_write) given);
  deletes = ground (arith, given);
  uploads = ground (arith, given);
  downloads = sym (ap (λ i. i.can_download) given);
  kept = sym (ap (λ i. i.can_share) given);
}

abbrev answer : Share → Context → Limits → AccessInfo
answer s x (denial reason) = create_denied_access reason
answer s x (read_only source_read_only) = grant_for s x source_read_only

answer-IsShared :
    (w : World) (x : Context) (token inner : Text) (i : AccessInfo) (s : Share) (limits : Limits)
    → get_share_by_token w.tables token ≡ some s
    → is_share_expired w.now s ≡ false
    → caller_may_not_open w s x ≡ none
    → read_source_limits w s inner ≡ ok limits
    → answer s x limits ≡ i
    → i.can_access ≡ true
    → IsShared w x token inner i
answer-IsShared w x token inner i s (denial reason) found fresh opened allowed given a =
    ground arith
answer-IsShared w x token inner i s (read_only b) found fresh opened allowed given a =
    IsShared-of_grant w x token inner i s b found fresh opened allowed given

open_share-IsShared :
    (w : World) (x : Context) (token inner : Text) (i : AccessInfo) (s : Share)
    → get_share_by_token w.tables token ≡ some s
    → is_share_expired w.now s ≡ false
    → open_share w x s inner ≡ ok i
    → i.can_access ≡ true
    → IsShared w x token inner i
unfolding open_share
open_share-IsShared w x token inner i s found fresh h a =
    elim (Option-cases (caller_may_not_open w s x)) [
      | inr (reason, refused) ↦ ground (arith, refused)
      | inl opened ↦
          let (limits, allowed, given) =
            >>=-returns (read_source_limits w s inner) (λ limits. ok (answer s x limits))
              (ground (arith, opened, h)) in
          answer-IsShared w x token inner i s limits found fresh opened allowed (ok_inj given) a
    ]

-- A path in a share is granted only through a share that exists and has not expired, to a caller that
-- may open it, within what its source allows.
pub get_share_access-IsShared :
    (w : World) (x : Context) (token inner : Text) (i : AccessInfo)
    → get_share_access w x token inner ≡ ok i
    → i.can_access ≡ true
    → IsShared w x token inner i
unfolding get_share_access open_loaded share_is_unusable
get_share_access-IsShared w x token inner i h a = elim (Bool-cases (is_empty token)) [
  | inl missing ↦ ground (arith, missing)
  | inr given ↦ elim (Option-cases (get_share_by_token w.tables token)) [
    | inl missing ↦ ground (arith, given, missing)
    | inr (s, found) ↦ elim (Bool-cases (is_share_expired w.now s)) [
      | inl late ↦ ground (arith, given, found, late)
      | inr fresh ↦
          open_share-IsShared w x token inner i s found fresh (ground (arith, given, found, fresh))
            a
    ]
  ]
]

-- Why a path is granted.
pub data IsGranted (w : World) (x : Context) (path : Text) (i : AccessInfo) : Type 0 where
  in_volume :
      (rel : Text)
      → parse_path_space w.personal_enabled path ≡ ok (volume rel)
      → IsAssigned w x rel i ⊎ IsWhole w x rel i
      → IsGranted w x path i
  in_personal :
      (rel : Text) (u : User)
      → parse_path_space w.personal_enabled path ≡ ok (personal rel)
      → known_user x ≡ some u
      → IsGranted w x path i
  in_share :
      (token inner : Text)
      → parse_path_space w.personal_enabled path ≡ ok (share token inner)
      → IsShared w x token inner i
      → IsGranted w x path i

get_personal_access-known :
    (x : Context) → (get_personal_access x).can_access ≡ true → (u : User) × (known_user x ≡ some u)
unfolding get_personal_access
get_personal_access-known x a = elim (Option-cases (known_user x)) [
  | inl nobody ↦ ground (arith, nobody)
  | inr e ↦ e
]

access_in_space-IsGranted :
    (w : World) (x : Context) (path : Text) (i : AccessInfo) (space : PathSpace)
    → parse_path_space w.personal_enabled path ≡ ok space
    → access_in_space w x space ≡ ok i
    → i.can_access ≡ true
    → IsGranted w x path i
unfolding access_in_space
access_in_space-IsGranted w x path i (volume rel) parsed h a =
    in_volume rel parsed (get_volume_access-grant w x rel i h a)
access_in_space-IsGranted w x path i (personal rel) parsed h a =
    let (u, known) = get_personal_access-known x (ap (λ i. i.can_access) (ok_inj h) ∙ a) in
    in_personal rel u parsed known
access_in_space-IsGranted w x path i (share token inner) parsed h a =
    in_share token inner parsed (get_share_access-IsShared w x token inner i h a)

-- Access to a logical path is granted only for a reason: in a volume, to a signed-in account with
-- an assigned volume or the whole of it; in the personal space, to a signed-in account; in a share,
-- through a usable share that the caller may open.
pub get_access_info-IsGranted :
    (w : World) (x : Context) (path : Text) (i : AccessInfo)
    → get_access_info w x path ≡ ok i
    → i.can_access ≡ true
    → IsGranted w x path i
unfolding get_access_info
get_access_info-IsGranted w x path i h a =
    let (space, parsed, given) =
      >>=-returns (parse_path_space w.personal_enabled path) (access_in_space w x) h in
    access_in_space-IsGranted w x path i space parsed given a
