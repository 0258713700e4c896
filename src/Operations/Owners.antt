-- ===== src/Operations/Owners.antt =====
-- Who an operation of backend/src/services/operationTasks.js belongs to. Ids are texts.
use next_explorer.Prelude.{
  ◌≡◌, ap, ◌↔◌, inl, inr, Option-cases, Bool, true, false, [], ◌∷◌, ◌++◌, Option, none, some, arith,
  if◌then◌else◌, Text, text_eq, text_eq_iff, codes,
}
use next_explorer.Paths.Segments.{is_empty}

pub data OwnerType : Type 0 where
  user guest : OwnerType

pub record Owner : Type 0 where
  pub kind : OwnerType
  pub id : Text

-- What a request says of its caller.
pub record Request : Type 0 where
  pub user_id : Option Text
  pub guest_session_id : Option Text

-- An id that is given and not empty.
abbrev given : Option Text → Option Text
given none = none
given (some id) = if is_empty id then none else some id

unfoldable pub owner_of : Request → Option Owner
owner_of r = elim (given r.user_id) [
  | some id ↦ some (record { kind = user; id = id })
  | none ↦ elim (given r.guest_session_id) [
    | some id ↦ some (record { kind = guest; id = id })
    | none ↦ none
  ]
]

abbrev type_text : OwnerType → Text
type_text user = codes "user"
type_text guest = codes "guest"

unfoldable pub owner_key : Option Owner → Option Text
owner_key none = none
owner_key (some o) = if is_empty o.id then none else some (type_text o.kind ++ b':' ∷ o.id)

unfoldable pub same_owner : Option Owner → Option Owner → Bool
unfolding owner_key
same_owner a b = elim (owner_key a) [
  | none ↦ false
  | some left ↦ elim (owner_key b) [ none ↦ false | some right ↦ text_eq left right ]
]

-- `String(shareId ?? '')`
abbrev pub share_text : Option Text → Text
share_text none = []
share_text (some id) = id

abbrev owner_at : OwnerType → Text → Owner
owner_at kind id = record { kind = kind; id = id }

same_owner-fields :
    (k l : OwnerType) (i j : Text)
    → (same_owner (some (owner_at k i)) (some (owner_at l j)) ≡ true)
      ↔ ((owner_at k i ≡ owner_at l j) × (is_empty i ≡ false))
unfolding same_owner
same_owner-fields user user i j = (
  λ h. ground (arith, (text_eq_iff i j).0),
  λ h. ground (arith, (text_eq_iff i j).1, ap (λ o. o.id) h.0),
)
same_owner-fields user guest i j = (λ h. ground arith, λ h. ground arith)
same_owner-fields guest user i j = (λ h. ground arith, λ h. ground arith)
same_owner-fields guest guest i j = (
  λ h. ground (arith, (text_eq_iff i j).0),
  λ h. ground (arith, (text_eq_iff i j).1, ap (λ o. o.id) h.0),
)

-- Two owners are the same exactly where they are of one kind and have one id, which is not empty: an
-- account is never taken for the guest session that spells its id.
pub same_owner_iff :
    (a b : Owner) → (same_owner (some a) (some b) ≡ true) ↔ ((a ≡ b) × (is_empty a.id ≡ false))
same_owner_iff a b = same_owner-fields a.kind b.kind a.id b.id

-- One owner is not two.
pub same_owner-join :
    (r a b : Option Owner) → same_owner r a ≡ true → same_owner r b ≡ true → same_owner a b ≡ true
unfolding same_owner
same_owner-join r a b h k = elim (Option-cases (owner_key r)) [
  | inl none_given ↦ ground (arith, none_given)
  | inr (left, er) ↦ elim (Option-cases (owner_key a)) [
    | inl none_given ↦ ground (arith, er, none_given)
    | inr (ka, ea) ↦ elim (Option-cases (owner_key b)) [
      | inl none_given ↦ ground (arith, er, none_given)
      | inr (kb, eb) ↦ ground (
        arith,
        er,
        ea,
        eb,
        (text_eq_iff left ka).0,
        (text_eq_iff left kb).0,
        (text_eq_iff ka kb).1,
      )
    ]
  ]
]

-- What is the same as one of two owners that are the same is the same as the other.
pub same_owner_right :
    (a b o : Option Owner) → same_owner a b ≡ true → same_owner o a ≡ same_owner o b
unfolding same_owner
same_owner_right a b o h = elim (Option-cases (owner_key a)) [
  | inl none_given ↦ ground (arith, none_given)
  | inr (ka, ea) ↦ elim (Option-cases (owner_key b)) [
    | inl none_given ↦ ground (arith, ea, none_given)
    | inr (kb, eb) ↦ ground (arith, ea, eb, (text_eq_iff ka kb).0)
  ]
]
