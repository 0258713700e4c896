-- ===== src/Access/ShareStoreLaws.antt =====
-- What holds of the tables once backend/src/services/sharesService.js has created a share.
use next_explorer.Prelude.{
  ◌≡◌, ◌≢◌, refl, subst, ap, sym, ◌∙◌, inl, inr, Bool, true, false, ◌||◌, List, [], ◌∷◌, ◌++◌, some,
  String, str_eq, eq_iff, arith, if◌then◌else◌, Text, text_eq, text_eq_iff, any, find?, All,
  Bool-cases,
}
use next_explorer.Paths.Logical.{Result, ok, err, validation, ◌>>=◌}
use next_explorer.Access.Records.{Share, Tables, users, get_share_by_token, has_user_permission}
use next_explorer.Access.Grants.{>>=-returns, ok_inj}
use next_explorer.Access.ShareStore.{
  ShareRequest, accept, has_row, with_row, permit_all, fits, is_users, store, create_share,
}

permit_all-keeps :
    (accounts : List String) (id : String) (t : Tables) (us : List String) (u : String)
    → ((permit_all accounts id t us).0.shares ≡ t.shares)
      × (has_row t id u ≡ true → has_row (permit_all accounts id t us).0 id u ≡ true)
unfolding permit_all
permit_all-keeps accounts id t [] u = (refl, λ h. h)
permit_all-keeps accounts id t (v ∷ us) u = ground (
  arith,
  permit_all-keeps accounts id t us u,
  permit_all-keeps accounts id (with_row t id v) us u,
)

pub permit_all-rows :
    (accounts : List String) (id : String) (t : Tables) (us : List String)
    → (permit_all accounts id t us).1 ≡ ok tt
    → All (λ u. has_row (permit_all accounts id t us).0 id u ≡ true) us
unfolding permit_all
permit_all-rows accounts id t [] h = tt
permit_all-rows accounts id t (u ∷ us) h =
    let rows : Tables × Result (Unit {0}) → Type 0 =
      λ p. All (λ v. has_row p.0 id v ≡ true) (u ∷ us) in
    elim (Bool-cases (has_row t id u)) [
      | inl there ↦
          let same : permit_all accounts id t us ≡ permit_all accounts id t (u ∷ us) =
            ground (arith, there) in
          subst rows same (
            (permit_all-keeps accounts id t us u).1 there,
            permit_all-rows accounts id t us (ap (λ p. p.1) same ∙ h),
          )
      | inr fresh ↦ elim (Bool-cases (any (str_eq u) accounts)) [
        | inr stranger ↦ ground (arith, fresh, stranger)
        | inl known ↦
            let same : permit_all accounts id (with_row t id u) us
                ≡ permit_all accounts id t (u ∷ us) =
              ground (arith, fresh, known) in
            subst rows same (
              (permit_all-keeps accounts id (with_row t id u) us u).1
                  (ground (arith, (eq_iff id id).1 refl, (eq_iff u u).1 refl)),
              permit_all-rows accounts id (with_row t id u) us (ap (λ p. p.1) same ∙ h),
            )
      ]
    ]

find?-fresh :
    (p : Share → Bool) (shares : List Share) (s : Share)
    → any p shares ≡ false
    → p s ≡ true
    → find? p (shares ++ s ∷ []) ≡ some s
find?-fresh p [] s h k = ground arith
find?-fresh p (x ∷ xs) s h k = ground (arith, find?-fresh p xs s)

-- None of the shares has the id or the token of the new one.
fresh_of_fits :
    (s : Share) (shares : List Share)
    → any (λ other. str_eq other.id s.id || text_eq other.share_token s.share_token) shares ≡ false
    → (any (λ other. str_eq other.id s.id) shares ≡ false)
      × (any (λ other. text_eq other.share_token s.share_token) shares ≡ false)
fresh_of_fits s [] h = (refl, refl)
fresh_of_fits s (x ∷ xs) h = ground (arith, fresh_of_fits s xs)

-- What is stored for a share: it is found by its token, and its owner and each account that it is
-- for may open it.
abbrev pub IsStored : Tables → Share → List String → Type 0
IsStored t s user_ids =
    (get_share_by_token t s.share_token ≡ some s)
    × (has_user_permission t s.id s.owner_id ≡ true)
    × (s.sharing_type ≡ users → All (λ u. has_user_permission t s.id u ≡ true) user_ids)

All-permission :
    (t : Tables) (s : Share) (us : List String)
    → find? (λ x. str_eq x.id s.id) t.shares ≡ some s
    → All (λ u. has_row t s.id u ≡ true) us
    → All (λ u. has_user_permission t s.id u ≡ true) us
unfolding has_user_permission
All-permission t s [] found h = tt
All-permission t s (u ∷ us) found h = (ground (arith, found, h.0), All-permission t s us found h.1)

IsStored-of_shares :
    (t after : Tables) (s : Share) (us : List String)
    → any (λ other. str_eq other.id s.id || text_eq other.share_token s.share_token) t.shares
      ≡ false
    → after.shares ≡ t.shares ++ s ∷ []
    → (s.sharing_type ≡ users → All (λ u. has_row after s.id u ≡ true) us)
    → IsStored after s us
unfolding has_user_permission get_share_by_token
IsStored-of_shares t after s us fresh shares rows =
    let (by_id, by_token) = fresh_of_fits s t.shares fresh in
    let found : find? (λ x. str_eq x.id s.id) after.shares ≡ some s =
      ap (find? (λ x. str_eq x.id s.id)) shares
      ∙ find?-fresh (λ x. str_eq x.id s.id) t.shares s by_id ((eq_iff s.id s.id).1 refl) in
    (
      ap (find? (λ x. text_eq x.share_token s.share_token)) shares
          ∙ find?-fresh (λ x. text_eq x.share_token s.share_token) t.shares s by_token
              ((text_eq_iff s.share_token s.share_token).1 refl),
      ground (arith, found, (eq_iff s.owner_id s.owner_id).1 refl),
      λ e. All-permission after s us found (rows e),
    )

store-IsStored :
    (accounts : List String) (t : Tables) (s given : Share) (us : List String)
    → (store accounts t s us).1 ≡ ok given
    → IsStored (store accounts t s us).0 given us
unfolding store
store-IsStored accounts t s given us h = elim (Bool-cases (fits accounts t s)) [
  | inr refused ↦ ground (arith, refused)
  | inl fitting ↦
      let stored = record t { shares = t.shares ++ s ∷ [] } in
      let names = if is_users s.sharing_type then us else [] in
      let written = permit_all accounts s.id stored names in
      let outcome : (written.1 >>= λ _. ok s) ≡ ok given = ground (arith, fitting, h) in
      let (nothing, done, same) = >>=-returns written.1 (λ _. ok s) outcome in
      let after : (store accounts t s us).0 ≡ written.0 = ground (arith, fitting) in
      let rows = permit_all-rows accounts s.id stored names done in
      let held =
        IsStored-of_shares t written.0 s us (ground (arith, fitting))
          ((permit_all-keeps accounts s.id stored names "").0)
          (λ e.
            subst (λ ns. All (λ u. has_row written.0 s.id u ≡ true) ns) (ground (arith, e)) rows) in
      subst (λ x. IsStored (store accounts t s us).0 x us) (ok_inj same)
        (subst (λ x. IsStored x s us) (sym after) held)
]

store_of_accepted :
    (accounts : List String) (t : Tables) (us : List String) (given : Share) (a : Result Share)
    → (elim a as (λ x. Tables × Result Share) [
      | err e ↦ (t, err e)
      | ok s ↦ store accounts t s us
    ]).1
      ≡ ok given
    → IsStored
        (elim a as (λ x. Tables × Result Share) [
          | err e ↦ (t, err e)
          | ok s ↦ store accounts t s us
        ]).0
        given
        us
store_of_accepted accounts t us given (err e) h = ground arith
store_of_accepted accounts t us given (ok s) h = store-IsStored accounts t s given us h

-- A share that was created is found by its token, and its owner and each account that it was made for
-- may open it.
pub create_share-IsStored :
    (accounts : List String) (t : Tables) (id : String) (token : Text) (r : ShareRequest)
    (s : Share)
    → (create_share accounts t id token r).1 ≡ ok s
    → IsStored (create_share accounts t id token r).0 s r.user_ids
unfolding create_share
create_share-IsStored accounts t id token r s h =
    store_of_accepted accounts t r.user_ids s (accept id token r) h

permit_all-outcome :
    (accounts : List String) (id : String) (t : Tables) (us : List String)
    → (permit_all accounts id t us).1 ≢ err validation
unfolding permit_all
permit_all-outcome accounts id t [] = λ e. cc
permit_all-outcome accounts id t (u ∷ us) = elim (Bool-cases (has_row t id u)) [
  | inl there ↦ λ e. permit_all-outcome accounts id t us (ground (arith, there, e))
  | inr fresh ↦ elim (Bool-cases (any (str_eq u) accounts)) [
    | inr stranger ↦ λ e. ground (arith, fresh, stranger, e)
    | inl known ↦
        λ e. permit_all-outcome accounts id (with_row t id u) us (ground (arith, fresh, known, e))
  ]
]

err_of_next :
    (outcome : Result (Unit {0})) (s : Share)
    → (outcome >>= λ _. ok s) ≡ err validation
    → outcome ≡ err validation
err_of_next (ok u) s h = cc
err_of_next (err e) s h = cc

store-refused :
    (accounts : List String) (t : Tables) (s : Share) (us : List String)
    → (store accounts t s us).1 ≢ err validation
unfolding store
store-refused accounts t s us h = elim (Bool-cases (fits accounts t s)) [
  | inr refused ↦ ground (arith, refused)
  | inl fitting ↦
      permit_all-outcome accounts s.id (record t { shares = t.shares ++ s ∷ [] })
        (if is_users s.sharing_type then us else []) (err_of_next _ s (ground (arith, fitting, h)))
]

refused_of_accepted :
    (accounts : List String) (t : Tables) (us : List String) (a : Result Share)
    → (elim a as (λ x. Tables × Result Share) [
      | err e ↦ (t, err e)
      | ok s ↦ store accounts t s us
    ]).1
      ≡ err validation
    → (elim a as (λ x. Tables × Result Share) [
      | err e ↦ (t, err e)
      | ok s ↦ store accounts t s us
    ]).0
      ≡ t
refused_of_accepted accounts t us (err e) h = refl
refused_of_accepted accounts t us (ok s) h = absurd (store-refused accounts t s us h)

-- A request that is refused as invalid leaves the tables as they were.
create_share-refused :
    (accounts : List String) (t : Tables) (id : String) (token : Text) (r : ShareRequest)
    → (create_share accounts t id token r).1 ≡ err validation
    → (create_share accounts t id token r).0 ≡ t
unfolding create_share
create_share-refused accounts t id token r h =
    refused_of_accepted accounts t r.user_ids (accept id token r) h
