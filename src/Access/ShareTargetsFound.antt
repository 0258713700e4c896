-- ===== src/Access/ShareTargetsFound.antt =====
-- That backend/src/services/sharesService.js finds every share that an operation is about.
use next_explorer.Prelude.{
  ◌≡◌, ap, subst, inl, inr, Bool, true, not, ◌&&◌, List, [], ◌∷◌, ◌++◌, arith, text_eq, str_eq,
  eq_iff, eq_refl, filter, Bool-cases, Option-cases,
}
use next_explorer.Paths.Segments.{slash}
use next_explorer.Access.Records.{Share}
use next_explorer.Access.ShareTargets.{
  Target, normalize_share_source_path, before, zero_digit, same_space, exact_rows, child_rows,
  set_row, set_rows, with_target, from_targets, get_shares_for_source_targets,
}
use next_explorer.Access.ShareTargetLaws.{in_range, covers, covered, is_there}

set_row-there : (row : Share) (found : List Share) → is_there row (set_row row found) ≡ true
set_row-there row [] = ground (arith, eq_refl row.id)
set_row-there row (s ∷ found) = ground (arith, eq_refl row.id, set_row-there row found)

set_row-keeps :
    (x row : Share) (found : List Share)
    → is_there x found ≡ true
    → is_there x (set_row row found) ≡ true
set_row-keeps x row [] h = ground (arith, h)
set_row-keeps x row (s ∷ found) h = elim (Bool-cases (str_eq s.id row.id)) [
  | inl same ↦ ground (arith, same, h, ap (λ i. str_eq i x.id) ((eq_iff s.id row.id).0 same))
  | inr other ↦ elim (Bool-cases (str_eq s.id x.id)) [
    | inl hit ↦ ground (arith, other, hit)
    | inr miss ↦ ground (arith, other, miss, set_row-keeps x row found (ground (arith, miss, h)))
  ]
]

set_rows-keeps :
    (x : Share) (rows found : List Share)
    → is_there x found ≡ true
    → is_there x (set_rows rows found) ≡ true
set_rows-keeps x [] found h = h
set_rows-keeps x (row ∷ rows) found h =
    set_rows-keeps x rows (set_row row found) (set_row-keeps x row found h)

rows-there :
    (p : Share → Bool) (front back found : List Share) (s : Share)
    → p s ≡ true
    → is_there s (set_rows (filter p (front ++ s ∷ back)) found) ≡ true
rows-there p [] back found s hit =
    subst (λ rows. is_there s (set_rows rows found) ≡ true)
      (let rows : s ∷ filter p back ≡ filter p (s ∷ back) = ground (arith, hit) in rows)
      (set_rows-keeps s (filter p back) (set_row s found) (set_row-there s found))
rows-there p (x ∷ front) back found s hit = elim (Bool-cases (p x)) [
  | inl first ↦
      subst (λ rows. is_there s (set_rows rows found) ≡ true)
        (let rows : x ∷ filter p (front ++ s ∷ back) ≡ filter p (x ∷ (front ++ s ∷ back)) =
            ground (arith, first) in
          rows)
        (rows-there p front back (set_row x found) s hit)
  | inr not_first ↦
      subst (λ rows. is_there s (set_rows rows found) ≡ true)
        (let rows : filter p (front ++ s ∷ back) ≡ filter p (x ∷ (front ++ s ∷ back)) =
            ground (arith, not_first) in
          rows)
        (rows-there p front back found s hit)
]

with_target-keeps :
    (shares found : List Share) (t : Target) (s : Share)
    → is_there s found ≡ true
    → is_there s (with_target shares t found) ≡ true
with_target-keeps shares found t s h = elim (Option-cases t.source_space) [
  | inl nowhere ↦ ground (arith, nowhere, h)
  | inr (space, somewhere) ↦
      let path = normalize_share_source_path t.source_path in
      let exact = set_rows-keeps s (exact_rows space path shares) found h in
      ground (
        arith,
        somewhere,
        h,
        exact,
        set_rows-keeps s (child_rows space path shares)
            (set_rows (exact_rows space path shares) found) exact,
      )
]

with_target-there :
    (front back found : List Share) (t : Target) (s : Share)
    → covers t s ≡ true
    → is_there s (with_target (front ++ s ∷ back) t found) ≡ true
unfolding child_rows
with_target-there front back found t s c = elim (Option-cases t.source_space) [
  | inl nowhere ↦ absurd (ground (arith, nowhere, c))
  | inr (space, somewhere) ↦
      let path = normalize_share_source_path t.source_path in
      let shares = front ++ s ∷ back in
      elim (Bool-cases (text_eq s.source_path path)) [
        | inl here ↦
            let exact =
              rows-there (λ s. same_space s.source_space space && text_eq s.source_path path) front
                back found s (ground (arith, somewhere, c, here)) in
            ground (
              arith,
              somewhere,
              c,
              exact,
              set_rows-keeps s (child_rows space path shares)
                  (set_rows (exact_rows space path shares) found) exact,
            )
        | inr below ↦
            let child =
              rows-there
                (λ s.
                  same_space s.source_space space
                  && (not (before s.source_path (path ++ slash ∷ []))
                      && before s.source_path (path ++ zero_digit ∷ [])))
                front back (set_rows (exact_rows space path shares) found) s
                (ground (arith, somewhere, c, below, in_range path s.source_path)) in
            ground (arith, somewhere, c, below, child)
      ]
]

from_targets-keeps :
    (shares : List Share) (targets : List Target) (found : List Share) (s : Share)
    → is_there s found ≡ true
    → is_there s (from_targets shares targets found) ≡ true
from_targets-keeps shares [] found s h = h
from_targets-keeps shares (t ∷ targets) found s h =
    from_targets-keeps shares targets (with_target shares t found) s
      (with_target-keeps shares found t s h)

from_targets-there :
    (front back : List Share) (targets : List Target) (found : List Share) (s : Share)
    → covered targets s ≡ true
    → is_there s (from_targets (front ++ s ∷ back) targets found) ≡ true
from_targets-there front back [] found s c = absurd (ground (arith, c))
from_targets-there front back (t ∷ targets) found s c = elim (Bool-cases (covers t s)) [
  | inl hit ↦
      from_targets-keeps (front ++ s ∷ back) targets (with_target (front ++ s ∷ back) t found) s
        (with_target-there front back found t s hit)
  | inr miss ↦
      from_targets-there front back targets (with_target (front ++ s ∷ back) t found) s
        (ground (arith, miss, c))
]

-- Each share of the table that is of the space of a target, and at its place or, where what is below
-- counts, below it, is found.
pub get_shares_for_source_targets-is_there :
    (targets : List Target) (front back : List Share) (s : Share)
    → covered targets s ≡ true
    → is_there s (get_shares_for_source_targets targets (front ++ s ∷ back)) ≡ true
unfolding get_shares_for_source_targets
get_shares_for_source_targets-is_there targets front back s c =
    from_targets-there front back targets [] s c
