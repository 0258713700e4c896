-- ===== src/Access/ShareGrants.antt =====
-- What stands behind a grant through a share in backend/src/services/accessManager.js.
use next_explorer.Prelude.{
  ◌≡◌, ◌≢◌, refl, ◌⊎◌, inl, inr, ◌↔◌, Bool, true, false, ◌||◌, List, [], ◌∷◌, ◌++◌, none, some,
  arith, str_eq, eq_iff, if◌then◌else◌, Text, Bool-cases, Option-cases,
}
use next_explorer.Paths.Segments.{slash, is_empty, segments, join_with, resolve}
use next_explorer.Paths.Logical.{Result, ok, ◌>>=◌}
use next_explorer.Paths.Within.{reaches_into_personal_root}
use next_explorer.Access.Rules.{Permission, ro, hidden, resolve_permission}
use next_explorer.Access.Records.{
  User, Context, Share, UserVolume, SourceSpace, user_volume, has_user_permission, get_volume_by_id,
  SharingType, users, anyone, unknown,
}
use next_explorer.Access.Manager.{
  World, DenialReason, known_user, is_anonymous, is_readonly, is_ro, share_password_applies,
}
use next_explorer.Access.Sharing.{
  caller_may_not_open, guest_of, under, Limits, denial, read_only, limits_of, volume_limits,
  assigned_limits, user_volume_limits, read_source_limits,
}
use next_explorer.Access.Grants.{>>=-returns, ok_inj}

-- Who may open a share: of one for chosen accounts, an account that it names; of one for anyone, an
-- account or the share's own guest, where a password that applies to the caller asks for that guest.
pub data MayOpen (w : World) (s : Share) (x : Context) : Type 0 where
  chosen :
      (u : User)
      → s.sharing_type ≡ users
      → known_user x ≡ some u
      → has_user_permission w.tables s.id u.id ≡ true
      → MayOpen w s x
  public_link :
      s.sharing_type ≡ anyone
      → (is_anonymous x ≡ false) ⊎ (guest_of x s ≡ true)
      → (share_password_applies w s x.user ≡ false) ⊎ (guest_of x s ≡ true)
      → MayOpen w s x

kinds : (t : SharingType) → (t ≡ users) ⊎ ((t ≡ anyone) ⊎ (t ≡ unknown))
kinds users = inl refl
kinds anyone = inr (inl refl)
kinds unknown = inr (inr refl)

MayOpen-of_none :
    (w : World) (s : Share) (x : Context) → caller_may_not_open w s x ≡ none → MayOpen w s x
unfolding caller_may_not_open
MayOpen-of_none w s x h = elim (kinds s.sharing_type) [
  | inl e ↦ elim (Option-cases (known_user x)) [
    | inl nobody ↦ ground (arith, e, nobody)
    | inr (u, known) ↦ chosen u e known (ground (arith, e, known))
  ]
  | inr (inl e) ↦ public_link e (ground (arith, e)) (ground (arith, e))
  | inr (inr e) ↦ ground (arith, e)
]

none_of_MayOpen :
    (w : World) (s : Share) (x : Context) → MayOpen w s x → caller_may_not_open w s x ≡ none
unfolding caller_may_not_open
none_of_MayOpen w s x (chosen u e known held) = ground (arith, e, known, held)
none_of_MayOpen w s x (public_link e present answered) = ground (arith, e, present, answered)

-- A share does not turn a caller away exactly where the caller may open it.
pub caller_may_not_open_iff :
    (w : World) (s : Share) (x : Context) → (caller_may_not_open w s x ≡ none) ↔ MayOpen w s x
caller_may_not_open_iff w s x = (MayOpen-of_none w s x, none_of_MayOpen w s x)

-- The limits that a place of a volume gives, where they do not deny it.
pub record PlaceAllows (w : World) (base rel path : Text) (base_read_only source_read_only : Bool)
    : Type 0 where
  pub apart : reaches_into_personal_root w.directories base (resolve base path) ≡ false
  pub permission : Permission
  pub ruled : resolve_permission w.access rel false ≡ ok permission
  pub shown : permission ≢ hidden
  pub limit : source_read_only ≡ (base_read_only || is_ro permission)

-- What the shared place allows its owner's guests, by the space that it is in.
pub data SourceAllows (w : World) (s : Share) (inner : Text) (source_read_only : Bool)
    : Type 0 where
  in_volume :
      (path : Text)
      → s.source_space ≡ SourceSpace.volume
      → under s inner s.source_path ≡ ok path
      → PlaceAllows w w.directories.volume path path false source_read_only
      → SourceAllows w s inner source_read_only
  in_assigned :
      (volume_id : Text) (rest : List Text) (uv : UserVolume) (path : Text)
      → s.source_space ≡ user_volume
      → segments s.source_path ≡ volume_id ∷ rest
      → get_volume_by_id w.tables volume_id ≡ some uv
      → uv.user_id ≡ s.owner_id
      → under s inner (join_with slash rest) ≡ ok path
      → PlaceAllows w uv.path
          (if is_empty path then uv.label else uv.label ++ slash ∷ path)
          path
          (is_readonly uv.access_mode)
          source_read_only
      → SourceAllows w s inner source_read_only
  in_personal :
      s.source_space ≡ SourceSpace.personal
      → source_read_only ≡ false
      → SourceAllows w s inner source_read_only

abbrev place_limits : World → Text → Text → Text → Bool → Result Limits
place_limits w base rel path base_read_only =
    if reaches_into_personal_root w.directories base (resolve base path)
    then ok (denial DenialReason.personal_space)
    else resolve_permission w.access rel false >>= λ permission.
        ok (limits_of base_read_only permission)

limits_of-read_only :
    (base b : Bool) (p : Permission)
    → limits_of base p ≡ read_only b
    → (p ≢ hidden) × (b ≡ (base || is_ro p))
limits_of-read_only base b Permission.rw h = ((λ e. cc), ground arith)
limits_of-read_only base b ro h = ((λ e. cc), ground arith)
limits_of-read_only base b hidden h = ground arith

place_limits-PlaceAllows :
    (w : World) (base rel path : Text) (base_read_only b : Bool)
    → place_limits w base rel path base_read_only ≡ ok (read_only b)
    → PlaceAllows w base rel path base_read_only b
place_limits-PlaceAllows w base rel path base_read_only b h =
    elim (Bool-cases (reaches_into_personal_root w.directories base (resolve base path))) [
      | inl reaches ↦ ground (arith, reaches)
      | inr apart ↦
          let (p, ruled, limits) =
            >>=-returns (resolve_permission w.access rel false)
              (λ p. ok (limits_of base_read_only p)) (ground (arith, apart)) in
          let (shown, limit) = limits_of-read_only base_read_only b p (ok_inj limits) in
          record { apart = apart; permission = p; ruled = ruled; shown = shown; limit = limit }
    ]

spaces :
    (t : SourceSpace) → (t ≡ SourceSpace.volume) ⊎ ((t ≡ user_volume) ⊎ (t ≡ SourceSpace.personal))
spaces SourceSpace.volume = inl refl
spaces user_volume = inr (inl refl)
spaces SourceSpace.personal = inr (inr refl)

volume_limits-SourceAllows :
    (w : World) (s : Share) (inner : Text) (b : Bool)
    → s.source_space ≡ SourceSpace.volume
    → volume_limits w s inner ≡ ok (read_only b)
    → SourceAllows w s inner b
unfolding volume_limits
volume_limits-SourceAllows w s inner b e h =
    let (path, placed, limits) =
      >>=-returns (under s inner s.source_path)
        (λ path. place_limits w w.directories.volume path path false) h in
    in_volume path e placed
      (place_limits-PlaceAllows w w.directories.volume path path false b limits)

user_volume_limits-SourceAllows :
    (w : World) (s : Share) (inner : Text) (b : Bool) (segs : List Text)
    → s.source_space ≡ user_volume
    → segments s.source_path ≡ segs
    → user_volume_limits w s inner segs ≡ ok (read_only b)
    → SourceAllows w s inner b
unfolding user_volume_limits assigned_limits
user_volume_limits-SourceAllows w s inner b [] e split h = ground arith
user_volume_limits-SourceAllows w s inner b (id ∷ rest) e split h =
    elim (Option-cases (get_volume_by_id w.tables id)) [
      | inl missing ↦ ground (arith, missing)
      | inr (uv, found) ↦ elim (Bool-cases (str_eq uv.user_id s.owner_id)) [
        | inr foreign ↦ ground (arith, found, foreign)
        | inl owned ↦
            let (path, placed, limits) =
              >>=-returns (under s inner (join_with slash rest))
                (λ path.
                  place_limits w uv.path
                    (if is_empty path then uv.label else uv.label ++ slash ∷ path) path
                    (is_readonly uv.access_mode))
                (ground (arith, found, owned)) in
            in_assigned id rest uv path e split found ((eq_iff uv.user_id s.owner_id).0 owned)
              placed
              (place_limits-PlaceAllows w uv.path _ path (is_readonly uv.access_mode) b limits)
      ]
    ]

-- Limits that do not deny a shared place: where the share is of a place in a volume, or in an assigned
-- volume, which is then one of the share's own owner, they come from a rule that does not hide the
-- place, outside the personal root, and are read-only exactly where the rule or the owner's volume
-- is; where the share is of the owner's personal space, it is not limited.
pub read_source_limits-SourceAllows :
    (w : World) (s : Share) (inner : Text) (b : Bool)
    → read_source_limits w s inner ≡ ok (read_only b)
    → SourceAllows w s inner b
unfolding read_source_limits
read_source_limits-SourceAllows w s inner b h = elim (spaces s.source_space) [
  | inl e ↦ volume_limits-SourceAllows w s inner b e (ground (arith, e))
  | inr (inl e) ↦
      user_volume_limits-SourceAllows w s inner b (segments s.source_path) e refl
        (ground (arith, e))
  | inr (inr e) ↦ in_personal e (ground (arith, e))
]
