-- ===== src/Access/Coherence.antt =====
-- The flags of an answer of backend/src/services/accessManager.js fit together.
use next_explorer.Prelude.{
  ◌≡◌, ◌≢◌, refl, subst, ◌↔◌, inl, inr, Bool, true, false, not, ◌&&◌, ◌||◌, Option, none, some,
  arith, Text, Bool-cases, Option-cases, if◌then◌else◌,
}
use next_explorer.Paths.Segments.{is_empty, segments, resolve}
use next_explorer.Paths.Within.{reaches_into_personal_root}
use next_explorer.Paths.Logical.{
  Result, ok, ◌>>=◌, PathSpace, volume, personal, share, parse_path_space,
}
use next_explorer.Access.Rules.{Permission, ro, hidden, resolve_permission}
use next_explorer.Access.Records.{
  User, Context, Share, UserVolume, get_user_volume_for_path, get_share_by_token,
}
use next_explorer.Access.Manager.{
  World, DenialReason, AccessInfo, create_denied_access, own_access, is_admin, known_user,
  has_guest, is_anonymous, is_ro, is_readonly, unless_hidden, inner_path, get_volume_access,
  get_personal_access, whole_volume_access, assigned_volume_access,
}
use next_explorer.Access.Sharing.{
  caller_may_not_open, share_is_unusable, Limits, denial, read_only, read_source_limits, grant_for,
  open_share, open_loaded, get_share_access, access_in_space, get_access_info,
}
use next_explorer.Access.Grants.{>>=-returns, ok_inj}

-- A denial gives nothing and says why; a grant gives reading, and writing exactly where its
-- permission is 'rw'; nothing is changed without writing; what is shared is not shared on.
pub record IsCoherent (i : AccessInfo) : Type 0 where
  pub denied :
      i.can_access ≡ false
      → (i.can_read ≡ false)
        × (i.can_download ≡ false)
        × (i.can_share ≡ false)
        × (i.effective_permission ≡ hidden)
        × (i.denial_reason ≢ none)
  pub granted :
      i.can_access ≡ true
      → (i.can_read ≡ true) × (i.effective_permission ≢ hidden) × (i.denial_reason ≡ none)
  pub writes : (i.can_write ≡ true) ↔ (i.effective_permission ≡ Permission.rw)
  pub changes :
      (i.can_delete || i.can_upload || i.can_create_folder || i.can_create_file) ≡ true
      → i.can_write ≡ true
  pub kept : i.is_shared ≡ true → i.can_share ≡ false

denied-IsCoherent : (reason : DenialReason) → IsCoherent (create_denied_access reason)
denied-IsCoherent reason = record {
  denied = λ h. (refl, refl, refl, refl, λ e. cc);
  granted = λ h. cc;
  writes = ((λ e. cc), (λ e. cc));
  changes = λ h. cc;
  kept = λ h. refl;
}

own-IsCoherent :
    (writes : Bool) (uv : Option UserVolume) (p : Permission)
    → p ≢ hidden
    → writes ≡ not (is_ro p)
    → IsCoherent (own_access writes uv p)
own-IsCoherent writes uv hidden shown e = ground (arith, shown)
own-IsCoherent writes uv ro shown e = record {
  denied = λ h. cc;
  granted = λ h. (refl, shown, refl);
  writes = ground (arith, e);
  changes = ground (arith, e);
  kept = λ h. cc;
}
own-IsCoherent writes uv Permission.rw shown e = record {
  denied = λ h. cc;
  granted = λ h. (refl, shown, refl);
  writes = ground (arith, e);
  changes = ground (arith, e);
  kept = λ h. cc;
}

unless_hidden-IsCoherent :
    (p : Permission) (i : AccessInfo) → (p ≢ hidden → IsCoherent i) → IsCoherent (unless_hidden p i)
unless_hidden-IsCoherent hidden i h = denied-IsCoherent _
unless_hidden-IsCoherent ro i h = h (λ e. cc)
unless_hidden-IsCoherent Permission.rw i h = h (λ e. cc)

grant-IsCoherent : (s : Share) (x : Context) (b : Bool) → IsCoherent (grant_for s x b)
unfolding grant_for
grant-IsCoherent s x b = elim (Bool-cases (not (is_readonly s.access_mode) && not b)) [
  | inl e ↦ record {
    denied = λ h. cc;
    granted = λ h. (refl, ground (arith, e), refl);
    writes = ground (arith, e);
    changes = ground (arith, e);
    kept = λ h. refl;
  }
  | inr e ↦ record {
    denied = λ h. cc;
    granted = λ h. (refl, ground (arith, e), refl);
    writes = ground (arith, e);
    changes = ground (arith, e);
    kept = λ h. refl;
  }
]

IsCoherent-of_eq : (i j : AccessInfo) → IsCoherent i → i ≡ j → IsCoherent j
IsCoherent-of_eq i j c e = subst IsCoherent e c

IsCoherent-of_denial :
    (reason : DenialReason) (i : AccessInfo)
    → ok (create_denied_access reason) ≡ ok i
    → IsCoherent i
IsCoherent-of_denial reason i h = IsCoherent-of_eq _ i (denied-IsCoherent reason) (ok_inj h)

-- An answer that a rule's permission decides.
ruled-IsCoherent :
    (m : Result Permission) (f : Permission → AccessInfo) (i : AccessInfo)
    → ((p : Permission) → p ≢ hidden → IsCoherent (f p))
    → (m >>= λ p. ok (unless_hidden p (f p))) ≡ ok i
    → IsCoherent i
ruled-IsCoherent m f i c h =
    let (p, ruled, given) = >>=-returns m (λ p. ok (unless_hidden p (f p))) h in
    IsCoherent-of_eq _ i (unless_hidden-IsCoherent p (f p) (c p)) (ok_inj given)

assigned-IsCoherent :
    (w : World) (u : User) (rel : Text) (i : AccessInfo)
    → assigned_volume_access w u rel ≡ ok i
    → IsCoherent i
unfolding assigned_volume_access
assigned-IsCoherent w u rel i h = elim (Option-cases (get_user_volume_for_path w.tables u.id rel)) [
  | inl none_held ↦ IsCoherent-of_denial DenialReason.no_volume_access i (ground (arith, none_held))
  | inr (uv, held) ↦
      elim (Bool-cases (
        reaches_into_personal_root w.directories uv.path
          (resolve uv.path (inner_path (segments rel))))) [
            | inl reaches ↦
                IsCoherent-of_denial DenialReason.personal_space i (ground (arith, held, reaches))
            | inr apart ↦
                ruled-IsCoherent (resolve_permission w.access rel false)
                  (λ p.
                    own_access (not (is_readonly uv.access_mode || is_ro p)) (some uv)
                      (if is_readonly uv.access_mode || is_ro p then ro else Permission.rw))
                  i (λ p shown. own-IsCoherent _ _ _ (ground arith) (ground arith))
                  (ground (arith, held, apart))
          ]
]

whole-IsCoherent :
    (w : World) (u : User) (rel : Text) (i : AccessInfo)
    → whole_volume_access w u rel ≡ ok i
    → IsCoherent i
unfolding whole_volume_access
whole-IsCoherent w u rel i h =
    elim (Bool-cases (
      reaches_into_personal_root w.directories w.directories.volume
        (resolve w.directories.volume rel))) [
          | inl reaches ↦
              IsCoherent-of_denial DenialReason.personal_space i (ground (arith, reaches))
          | inr apart ↦
              ruled-IsCoherent (resolve_permission w.access rel (is_admin u))
                (λ p. own_access (not (is_ro p)) none p) i
                (λ p shown. own-IsCoherent _ none p shown refl) (ground (arith, apart))
        ]

volume-IsCoherent :
    (w : World) (x : Context) (rel : Text) (i : AccessInfo)
    → get_volume_access w x rel ≡ ok i
    → IsCoherent i
unfolding get_volume_access
volume-IsCoherent w x rel i h = elim (Bool-cases (has_guest x && is_anonymous x)) [
  | inl guest ↦ IsCoherent-of_denial DenialReason.guests_not_volumes i (ground (arith, guest))
  | inr other ↦ elim (Option-cases (known_user x)) [
    | inl nobody ↦
        IsCoherent-of_denial DenialReason.authentication_required i (ground (arith, other, nobody))
    | inr (u, known) ↦ elim (Bool-cases (w.user_volumes_enabled && not (is_admin u))) [
      | inl held ↦ assigned-IsCoherent w u rel i (ground (arith, other, known, held))
      | inr free ↦ whole-IsCoherent w u rel i (ground (arith, other, known, free))
    ]
  ]
]

personal-IsCoherent : (x : Context) → IsCoherent (get_personal_access x)
unfolding get_personal_access
personal-IsCoherent x = elim (Bool-cases (has_guest x && is_anonymous x)) [
  | inl guest ↦ IsCoherent-of_denial DenialReason.guests_not_personal _ (ground (arith, guest))
  | inr other ↦ elim (Option-cases (known_user x)) [
    | inl nobody ↦
        IsCoherent-of_denial DenialReason.authentication_required _ (ground (arith, other, nobody))
    | inr (u, known) ↦
        IsCoherent-of_eq (own_access true none Permission.rw) _
          (own-IsCoherent true none Permission.rw (λ e. cc) refl) (ground (arith, other, known))
  ]
]

answer-IsCoherent :
    (s : Share) (x : Context) (limits : Limits) (i : AccessInfo)
    → ok (elim limits [
      | denial reason ↦ create_denied_access reason
      | read_only source_read_only ↦ grant_for s x source_read_only
    ])
      ≡ ok i
    → IsCoherent i
answer-IsCoherent s x (denial reason) i h = IsCoherent-of_denial reason i h
answer-IsCoherent s x (read_only b) i h = IsCoherent-of_eq _ i (grant-IsCoherent s x b) (ok_inj h)

open_share-IsCoherent :
    (w : World) (x : Context) (s : Share) (inner : Text) (i : AccessInfo)
    → open_share w x s inner ≡ ok i
    → IsCoherent i
unfolding open_share
open_share-IsCoherent w x s inner i h = elim (Option-cases (caller_may_not_open w s x)) [
  | inr (reason, refused) ↦ IsCoherent-of_denial reason i (ground (arith, refused))
  | inl opened ↦
      let (limits, allowed, given) =
        >>=-returns (read_source_limits w s inner)
          (λ limits. ok (elim limits [
            | denial reason ↦ create_denied_access reason
            | read_only source_read_only ↦ grant_for s x source_read_only
          ]))
          (ground (arith, opened, h)) in
      answer-IsCoherent s x limits i given
]

share-IsCoherent :
    (w : World) (x : Context) (token inner : Text) (i : AccessInfo)
    → get_share_access w x token inner ≡ ok i
    → IsCoherent i
unfolding get_share_access open_loaded
share-IsCoherent w x token inner i h = elim (Bool-cases (is_empty token)) [
  | inl missing ↦ IsCoherent-of_denial DenialReason.token_required i (ground (arith, missing))
  | inr given ↦ elim (Option-cases (share_is_unusable w (get_share_by_token w.tables token))) [
    | inr (reason, unusable) ↦ IsCoherent-of_denial reason i (ground (arith, given, unusable))
    | inl usable ↦ elim (Option-cases (get_share_by_token w.tables token)) [
      | inl missing ↦
          IsCoherent-of_denial DenialReason.share_not_found i
            (ground (arith, given, usable, missing))
      | inr (s, found) ↦ open_share-IsCoherent w x s inner i (ground (arith, given, usable, found))
    ]
  ]
]

access_in_space-IsCoherent :
    (w : World) (x : Context) (space : PathSpace) (i : AccessInfo)
    → access_in_space w x space ≡ ok i
    → IsCoherent i
unfolding access_in_space
access_in_space-IsCoherent w x (volume rel) i h = volume-IsCoherent w x rel i h
access_in_space-IsCoherent w x (personal rel) i h =
    IsCoherent-of_eq _ i (personal-IsCoherent x) (ok_inj h)
access_in_space-IsCoherent w x (share token inner) i h = share-IsCoherent w x token inner i h

-- Every answer on a logical path is coherent, whatever the caller and the tables.
pub get_access_info-IsCoherent :
    (w : World) (x : Context) (path : Text) (i : AccessInfo)
    → get_access_info w x path ≡ ok i
    → IsCoherent i
unfolding get_access_info
get_access_info-IsCoherent w x path i h =
    let (space, parsed, given) =
      >>=-returns (parse_path_space w.personal_enabled path) (access_in_space w x) h in
    access_in_space-IsCoherent w x space i given
