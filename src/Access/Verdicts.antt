-- ===== src/Access/Verdicts.antt =====
-- What an allowed action of backend/src/services/authorizationService.js rests on.
use next_explorer.Prelude.{
  ◌≡◌, refl, ap, sym, subst, ◌∙◌, inl, inr, Bool, true, false, none, some, arith, Text, Bool-cases,
  Option-cases,
}
use next_explorer.Paths.Logical.{Result, ok, share, parse_path_space}
use next_explorer.Access.Rules.{Permission}
use next_explorer.Access.Records.{User, Context, Share, get_share_by_token, anyone}
use next_explorer.Access.Manager.{World, AccessInfo, known_user, is_anonymous}
use next_explorer.Access.Sharing.{guest_of, get_access_info}
use next_explorer.Access.Grants.{>>=-returns, ok_inj}
use next_explorer.Access.Soundness.{
  IsGranted, in_volume, in_personal, in_share, get_access_info-IsGranted,
}
use next_explorer.Access.ShareGrants.{MayOpen, chosen, public_link}
use next_explorer.Access.Coherence.{IsCoherent, get_access_info-IsCoherent}
use next_explorer.Access.Authorization.{
  Action, list, read, write, delete, upload, create_folder, create_file, rename, download,
  create_share, other, action_to_flag, flag_of, Verdict, judge, authorize_path, Resolved,
  authorize_and_resolve, resolution, resolve_and_judge,
}

-- The actions that change what is stored.
abbrev pub changes : Action → Bool
changes write = true
changes delete = true
changes upload = true
changes create_folder = true
changes create_file = true
changes rename = true
changes _ = false

judge-allowed :
    (i : AccessInfo) (a : Action)
    → IsCoherent i
    → (judge i a).allowed ≡ true
    → (i.can_access ≡ true)
      × ((judge i a).access_info ≡ i)
      × (changes a ≡ true → i.effective_permission ≡ Permission.rw)
unfolding judge action_to_flag
judge-allowed i list c h = ground arith
judge-allowed i read c h = ground arith
judge-allowed i write c h = (ground arith, ground arith, λ e. c.writes.0 (ground arith))
judge-allowed i delete c h =
    (ground arith, ground arith, λ e. c.writes.0 (c.changes (ground arith)))
judge-allowed i upload c h =
    (ground arith, ground arith, λ e. c.writes.0 (c.changes (ground arith)))
judge-allowed i create_folder c h =
    (ground arith, ground arith, λ e. c.writes.0 (c.changes (ground arith)))
judge-allowed i create_file c h =
    (ground arith, ground arith, λ e. c.writes.0 (c.changes (ground arith)))
judge-allowed i rename c h = (ground arith, ground arith, λ e. c.writes.0 (ground arith))
judge-allowed i download c h = ground arith
judge-allowed i create_share c h = ground arith
judge-allowed i other c h = ground arith

-- An action that `authorizePath` allows is on a path that is granted for a reason, and one that
-- changes what is stored is on a path with the permission 'rw'.
pub authorize_path-IsGranted :
    (w : World) (x : Context) (path : Text) (a : Action) (v : Verdict)
    → authorize_path w x path a ≡ ok v
    → v.allowed ≡ true
    → IsGranted w x path v.access_info
      × (changes a ≡ true → v.access_info.effective_permission ≡ Permission.rw)
unfolding authorize_path
authorize_path-IsGranted w x path a v h allowed =
    let (i, given, judged) = >>=-returns (get_access_info w x path) (λ i. ok (judge i a)) h in
    let same = ok_inj judged in
    let (accessible, kept, writable) =
      judge-allowed i a (get_access_info-IsCoherent w x path i given)
        (ap (λ v. v.allowed) same ∙ allowed) in
    let shown = sym kept ∙ ap (λ v. v.access_info) same in
    (
      subst (IsGranted w x path) shown (get_access_info-IsGranted w x path i given accessible),
      λ e. ap (λ i. i.effective_permission) (sym shown) ∙ writable e,
    )

-- What `authorize_and_resolve` says next to the verdict on the same answer.
abbrev Agrees : {A : Type 0} → (AccessInfo → Result A) → Verdict → Resolved A → Type 0
Agrees {A} resolve v r =
    (v ≡ record { allowed = r.allowed; access_info = r.access_info })
    × (r.allowed ≡ false → r.resolved ≡ none)
    × (r.allowed ≡ true
        → (place : A) × (resolve r.access_info ≡ ok place) × (r.resolved ≡ some place))

Agrees-resolved :
    {A : Type 0} (resolve : AccessInfo → Result A) (i : AccessInfo) (a : Action) (r : Resolved A)
    (place : A)
    → i.can_access ≡ true
    → resolve i ≡ ok place
    → resolution i a place ≡ r
    → Agrees resolve (judge i a) r
unfolding judge resolution
Agrees-resolved {A = A} resolve i a r place accessible found h =
    elim (Option-cases (action_to_flag a)) [
      | inl unknown ↦ (ground (arith, unknown), ground (arith, unknown), ground (arith, unknown))
      | inr (flag, e) ↦ elim (Bool-cases (flag_of i flag)) [
        | inl set ↦
            let same : record { allowed = true; access_info = i; resolved = some place } ≡ r =
              ground (arith, e, set) in
            (
              ground (arith, e, set),
              ground (arith, same),
              λ _.
                  subst
                    (λ r.
                      (place : A) × (resolve r.access_info ≡ ok place) × (r.resolved ≡ some place))
                    same (place, found, refl),
            )
        | inr clear ↦ (ground (arith, e, clear), ground (arith, e, clear), ground (arith, e, clear))
      ]
    ]

Agrees-at :
    {A : Type 0} (resolve : AccessInfo → Result A) (i : AccessInfo) (a : Action) (r : Resolved A)
    → resolve_and_judge resolve a i ≡ ok r
    → Agrees resolve (judge i a) r
unfolding judge resolve_and_judge
Agrees-at resolve i a r h = elim (Bool-cases i.can_access) [
  | inr closed ↦ (ground (arith, closed), ground (arith, closed), ground (arith, closed))
  | inl accessible ↦
      let (place, found, given) =
        >>=-returns (resolve i) (λ place. ok (resolution i a place)) (ground (arith, accessible)) in
      Agrees-resolved resolve i a r place accessible found (ok_inj given)
]

-- `authorizeAndResolve` answers as `authorizePath` does, and it gives a place exactly where the
-- action is allowed: the one that the resolver finds.
pub authorize_and_resolve-agrees :
    {A : Type 0} (resolve : AccessInfo → Result A) (w : World) (x : Context) (path : Text)
    (a : Action) (r : Resolved A)
    → authorize_and_resolve resolve w x path a ≡ ok r
    → (authorize_path w x path a ≡ ok (record { allowed = r.allowed; access_info = r.access_info }))
      × (r.allowed ≡ false → r.resolved ≡ none)
      × (r.allowed ≡ true
          → (place : A) × (resolve r.access_info ≡ ok place) × (r.resolved ≡ some place))
unfolding authorize_and_resolve authorize_path
authorize_and_resolve-agrees resolve w x path a r h =
    let (i, given, answered) =
      >>=-returns (get_access_info w x path) (resolve_and_judge resolve a) h in
    let (same, refused, placed) = Agrees-at resolve i a r answered in
    (ground (arith, given, same), refused, placed)

abbrev Confined : World → Context → Text → Type 0
Confined w x path =
    (token : Text) × (inner : Text) × (s : Share) × (parse_path_space w.personal_enabled path
      ≡ ok (share token inner))
    × (get_share_by_token w.tables token ≡ some s)
    × (s.sharing_type ≡ anyone)
    × (guest_of x s ≡ true)

anonymous_is_unknown {ℓ} :
    {A : Type ℓ} (x : Context) (u : User) → is_anonymous x ≡ true → known_user x ≡ some u → A
anonymous_is_unknown x u anonymous known = ground (arith, anonymous, known)

guest_of-MayOpen :
    (w : World) (s : Share) (x : Context)
    → is_anonymous x ≡ true
    → MayOpen w s x
    → (s.sharing_type ≡ anyone) × (guest_of x s ≡ true)
guest_of-MayOpen w s x anonymous (chosen u e known held) = anonymous_is_unknown x u anonymous known
guest_of-MayOpen w s x anonymous (public_link e (inl present) _) = cc
guest_of-MayOpen w s x anonymous (public_link e (inr guest) _) = (e, guest)

Confined-of_grant :
    (w : World) (x : Context) (path : Text) (i : AccessInfo)
    → IsGranted w x path i
    → is_anonymous x ≡ true
    → Confined w x path
Confined-of_grant w x path i (in_volume rel parsed (inl c)) anonymous =
    anonymous_is_unknown x c.user anonymous c.known
Confined-of_grant w x path i (in_volume rel parsed (inr c)) anonymous =
    anonymous_is_unknown x c.user anonymous c.known
Confined-of_grant w x path i (in_personal rel u parsed known) anonymous =
    anonymous_is_unknown x u anonymous known
Confined-of_grant w x path i (in_share token inner parsed c) anonymous =
    let (public, guest) = guest_of-MayOpen w c.share x anonymous c.opened in
    (token, inner, c.share, parsed, c.found, public, guest)

-- A caller with no account reaches only paths in a share for anyone, whose own guest it is.
pub anonymous_is_confined :
    (w : World) (x : Context) (path : Text) (i : AccessInfo)
    → get_access_info w x path ≡ ok i
    → i.can_access ≡ true
    → is_anonymous x ≡ true
    → (token : Text) × (inner : Text) × (s : Share) × (parse_path_space w.personal_enabled path
        ≡ ok (share token inner))
      × (get_share_by_token w.tables token ≡ some s)
      × (s.sharing_type ≡ anyone)
      × (guest_of x s ≡ true)
anonymous_is_confined w x path i h a anonymous =
    Confined-of_grant w x path i (get_access_info-IsGranted w x path i h a) anonymous
