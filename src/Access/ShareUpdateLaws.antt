-- ===== src/Access/ShareUpdateLaws.antt =====
-- Who still reaches a share once backend/src/services/sharesService.js has updated it.
use next_explorer.Prelude.{
  ◌≡◌, refl, subst, ap, sym, ◌∙◌, ◌⊎◌, inl, inr, true, false, not, ◌&&◌, ◌||◌, List, [], ◌∷◌, map,
  Option, none, some, String, str_eq, eq_iff, arith, if◌then◌else◌, any, filter, find?, All,
  Bool-cases,
}
use next_explorer.Paths.Logical.{Failure, Result, ok, err, not_found}
use next_explorer.Access.Records.{Share, SharePermission, GuestSession, Tables, users}
use next_explorer.Access.ShareStore.{has_row, with_row, permit_all, is_users}
use next_explorer.Access.ShareStoreLaws.{permit_all-rows}
use next_explorer.Access.ShareUpdates.{
  Updates, Database, or_else, effective_sharing_type, has_user_ids, named_ids, is_anyone,
  updated_row, without_rows, update_rows, revoke_guests, write_update, update_share,
}

-- A row is there because it was, or because it is asked for.
permit_all-only :
    (accounts : List String) (id : String) (t : Tables) (us : List String) (v : String)
    → has_row (permit_all accounts id t us).0 id v ≡ true
    → (has_row t id v || any (str_eq v) us) ≡ true
unfolding permit_all
permit_all-only accounts id t [] v h = ground arith
permit_all-only accounts id t (u ∷ us) v h = elim (Bool-cases (has_row t id u)) [
  | inl there ↦ ground (arith, there, permit_all-only accounts id t us v)
  | inr fresh ↦ elim (Bool-cases (any (str_eq u) accounts)) [
    | inr stranger ↦ ground (arith, fresh, stranger)
    | inl known ↦ ground (
      arith,
      fresh,
      known,
      permit_all-only accounts id (with_row t id u) us v,
      eq_iff u v,
      eq_iff v u,
    )
  ]
]

no_row-without_rows :
    (id v : String) (ps : List SharePermission)
    → any
        (λ p. str_eq p.share_id id && str_eq p.user_id v)
        (filter (λ p. not (str_eq p.share_id id)) ps)
      ≡ false
no_row-without_rows id v [] = refl
no_row-without_rows id v (p ∷ ps) = ground (arith, no_row-without_rows id v ps)

All-revoked :
    (id : String) (sessions : List GuestSession)
    → All (λ g. str_eq g.share_id id ≡ false) (revoke_guests id true sessions)
All-revoked id [] = tt
All-revoked id (g ∷ gs) = elim (Bool-cases (str_eq g.share_id id)) [
  | inl e ↦ ground (arith, e, All-revoked id gs)
  | inr e ↦ ground (arith, e, All-revoked id gs)
]

-- What an update leaves: with a new password no guest session of the share; with accounts named
-- and a sharing type for accounts, rows for them; and wherever accounts are named or the share is
-- for anyone, no row of anybody else.
pub record IsUpdated (s : Share) (u : Updates) (after : Database) : Type 0 where
  pub revoked :
      u.password ≡ some true → All (λ g. str_eq g.share_id s.id ≡ false) after.guest_sessions
  pub permitted :
      has_user_ids u ≡ true
      → effective_sharing_type s u ≡ users
      → All (λ v. has_row after.tables s.id v ≡ true) (named_ids u)
  pub nobody_else :
      (has_user_ids u || is_anyone (effective_sharing_type s u)) ≡ true
      → (v : String) → has_row after.tables s.id v ≡ true
      → (is_users (effective_sharing_type s u) && any (str_eq v) (named_ids u)) ≡ true

update_rows-permitted :
    (accounts : List String) (t : Tables) (s : Share) (u : Updates)
    → (update_rows accounts t s u).1 ≡ ok tt
    → has_user_ids u ≡ true
    → effective_sharing_type s u ≡ users
    → All (λ v. has_row (update_rows accounts t s u).0 s.id v ≡ true) (named_ids u)
unfolding update_rows
update_rows-permitted accounts t s u h named e =
    let same : permit_all accounts s.id (without_rows s.id t) (named_ids u)
        ≡ update_rows accounts t s u =
      ground (arith, named, e) in
    subst (λ p. All (λ v. has_row p.0 s.id v ≡ true) (named_ids u)) same
      (permit_all-rows accounts s.id (without_rows s.id t) (named_ids u) (ap (λ p. p.1) same ∙ h))

update_rows-nobody_else :
    (accounts : List String) (t : Tables) (s : Share) (u : Updates)
    → (has_user_ids u || is_anyone (effective_sharing_type s u)) ≡ true
    → (v : String) → has_row (update_rows accounts t s u).0 s.id v ≡ true
    → (is_users (effective_sharing_type s u) && any (str_eq v) (named_ids u)) ≡ true
unfolding update_rows
update_rows-nobody_else accounts t s u changes v h =
    let ids = if is_users (effective_sharing_type s u) then named_ids u else [] in
    let asked =
      permit_all-only accounts s.id (without_rows s.id t) ids v (ground (arith, changes, h)) in
    ground (arith, asked, no_row-without_rows s.id v t.share_permissions)

outcomes : (r : Result (Unit {0})) → (r ≡ ok tt) ⊎ ((e : Failure) × (r ≡ err e))
outcomes (ok u) = inl refl
outcomes (err e) = inr (e, refl)

-- The table with the share's new row.
abbrev renewed : Database → Share → Share → Tables
renewed db s row = record db.tables {
  shares = map (λ other. if str_eq other.id s.id then row else other) db.tables.shares;
}

write_update-IsUpdated :
    (accounts : List String) (db : Database) (s row given : Share) (u : Updates)
    → (write_update accounts db s row u).1 ≡ ok given
    → IsUpdated s u (write_update accounts db s row u).0
unfolding write_update
write_update-IsUpdated accounts db s row given u h =
    let t = renewed db s row in
    elim (outcomes (update_rows accounts t s u).1) [
      | inr (e, failed) ↦ ground (arith, failed)
      | inl done ↦
          let same : record {
            tables = (update_rows accounts t s u).0;
            guest_sessions = revoke_guests s.id (or_else u.password false) db.guest_sessions;
          }
              ≡ (write_update accounts db s row u).0 =
            ground (arith, done) in
          subst (IsUpdated s u) same (record {
            revoked = λ e.
                subst
                  (λ p.
                    All (λ g. str_eq g.share_id s.id ≡ false)
                      (revoke_guests s.id (or_else p false) db.guest_sessions))
                  (sym e) (All-revoked s.id db.guest_sessions);
            permitted = update_rows-permitted accounts t s u done;
            nobody_else = update_rows-nobody_else accounts t s u;
          })
    ]

update_of_row :
    (accounts : List String) (db : Database) (s given : Share) (u : Updates) (r : Result Share)
    → (elim r as (λ x. Database × Result Share) [
      | err e ↦ (db, err e)
      | ok row ↦ write_update accounts db s row u
    ]).1
      ≡ ok given
    → IsUpdated s u
        (elim r as (λ x. Database × Result Share) [
          | err e ↦ (db, err e)
          | ok row ↦ write_update accounts db s row u
        ]).0
update_of_row accounts db s given u (err e) h = ground arith
update_of_row accounts db s given u (ok row) h = write_update-IsUpdated accounts db s row given u h

update_of_found :
    (accounts : List String) (db : Database) (given : Share) (u : Updates) (found : Option Share)
    → (elim found as (λ x. Database × Result Share) [
      | none ↦ (db, err not_found)
      | some s ↦ elim (updated_row s u) as (λ x. Database × Result Share) [
        | err e ↦ (db, err e)
        | ok row ↦ write_update accounts db s row u
      ]
    ]).1
      ≡ ok given
    → (s : Share) × (found ≡ some s)
      × IsUpdated s u
          (elim found as (λ x. Database × Result Share) [
            | none ↦ (db, err not_found)
            | some s ↦ elim (updated_row s u) as (λ x. Database × Result Share) [
              | err e ↦ (db, err e)
              | ok row ↦ write_update accounts db s row u
            ]
          ]).0
update_of_found accounts db given u none h = ground arith
update_of_found accounts db given u (some s) h =
    (s, refl, update_of_row accounts db s given u (updated_row s u) h)

-- An update that succeeds is of a share that is there. With a new password it leaves no guest session
-- of the share; where it names accounts and the share is for accounts, each has a row; and where it
-- names accounts or the share is for anyone, nobody else has one.
pub update_share-IsUpdated :
    (accounts : List String) (db : Database) (id : String) (u : Updates) (given : Share)
    → (update_share accounts db id u).1 ≡ ok given
    → (s : Share) × (find? (λ x. str_eq x.id id) db.tables.shares ≡ some s)
      × IsUpdated s u (update_share accounts db id u).0
unfolding update_share
update_share-IsUpdated accounts db id u given h =
    update_of_found accounts db given u (find? (λ x. str_eq x.id id) db.tables.shares) h
