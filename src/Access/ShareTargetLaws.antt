-- ===== src/Access/ShareTargetLaws.antt =====
-- What backend/src/services/sharesService.js finds for the places that an operation is about.
use next_explorer.Prelude.{
  ◌≡◌, refl, subst, inl, inr, Bool, true, false, not, ◌&&◌, ◌||◌, List, [], ◌∷◌, ◌++◌, none, some,
  arith, Text, text_eq, str_eq, starts_with, filter, All, Bool-cases, Option-cases,
}
use next_explorer.Paths.Segments.{slash, is_empty}
use next_explorer.Access.Records.{Share}
use next_explorer.Access.ShareTargets.{
  Target, normalize_share_source_path, before, zero_digit, same_space, exact_rows, child_rows,
  set_row, set_rows, with_target, from_targets, get_shares_for_source_targets,
}

before-empty : (s : Text) → before s [] ≡ false
before-empty [] = refl
before-empty (c ∷ s) = refl

pub in_range :
    (prefix path : Text)
    → (not (before path (prefix ++ slash ∷ [])) && before path (prefix ++ zero_digit ∷ []))
      ≡ starts_with path (prefix ++ slash ∷ [])
in_range [] [] = refl
in_range [] (c ∷ path) = ground (arith, before-empty path)
in_range (p ∷ prefix) [] = refl
in_range (p ∷ prefix) (c ∷ path) = ground (arith, in_range prefix path)

-- A share at the place of a target, or below it where what is below counts; a place that is no place,
-- and one with no path, is none.
abbrev pub covers : Target → Share → Bool
covers t s = elim t.source_space [
  | none ↦ false
  | some space ↦
      let path = normalize_share_source_path t.source_path in
      not (is_empty path)
      && (same_space s.source_space space
          && (text_eq s.source_path path
              || t.include_children && starts_with s.source_path (path ++ slash ∷ [])))
]

abbrev pub covered : List Target → Share → Bool
covered [] s = false
covered (t ∷ targets) s = covers t s || covered targets s

abbrev pub is_there : Share → List Share → Bool
is_there s [] = false
is_there s (r ∷ found) = str_eq r.id s.id || is_there s found

module _ (P : Share → Type 0) where
  set_row-All : (row : Share) (found : List Share) → P row → All P found → All P (set_row row found)
  set_row-All row [] p h = (p, tt)
  set_row-All row (s ∷ found) p h = elim (Bool-cases (str_eq s.id row.id)) [
    | inl same ↦
        subst (All P)
          (let rows : row ∷ found ≡ set_row row (s ∷ found) = ground (arith, same) in rows) (p, h.1)
    | inr other ↦
        subst (All P)
          (let rows : s ∷ set_row row found ≡ set_row row (s ∷ found) = ground (arith, other) in
            rows)
          (h.0, set_row-All row found p h.1)
  ]

  set_rows-All : (rows found : List Share) → All P rows → All P found → All P (set_rows rows found)
  set_rows-All [] found hr h = h
  set_rows-All (row ∷ rows) found hr h =
      set_rows-All rows (set_row row found) hr.1 (set_row-All row found hr.0 h)

  rows-All :
      (p : Share → Bool) (shares : List Share)
      → ((s : Share) → p s ≡ true → P s)
      → All P (filter p shares)
  rows-All p [] f = tt
  rows-All p (s ∷ shares) f = elim (Bool-cases (p s)) [
    | inl hit ↦
        subst (All P)
          (let rows : s ∷ filter p shares ≡ filter p (s ∷ shares) = ground (arith, hit) in rows)
          (f s hit, rows-All p shares f)
    | inr miss ↦
        subst (All P)
          (let rows : filter p shares ≡ filter p (s ∷ shares) = ground (arith, miss) in rows)
          (rows-All p shares f)
  ]

  with_target-All :
      (shares : List Share) (t : Target) (found : List Share)
      → ((s : Share) → covers t s ≡ true → P s)
      → All P found
      → All P (with_target shares t found)
  unfolding child_rows
  with_target-All shares t found f h = elim (Option-cases t.source_space) [
    | inl nowhere ↦
        subst (All P)
          (let rows : found ≡ with_target shares t found = ground (arith, nowhere) in rows) h
    | inr (space, somewhere) ↦
        let path = normalize_share_source_path t.source_path in
        elim (Bool-cases (is_empty path)) [
          | inl empty ↦
              subst (All P)
                (let rows : found ≡ with_target shares t found = ground (arith, somewhere, empty) in
                  rows)
                h
          | inr full ↦
              let exact =
                set_rows-All (exact_rows space path shares) found
                  (rows-All (λ s. same_space s.source_space space && text_eq s.source_path path)
                    shares (λ s hit. f s (ground (arith, somewhere, full, hit))))
                  h in
              elim (Bool-cases t.include_children) [
                | inr only ↦
                    subst (All P)
                      (let rows : set_rows (exact_rows space path shares) found
                            ≡ with_target shares t found =
                          ground (arith, somewhere, full, only) in
                        rows)
                      exact
                | inl below ↦
                    subst (All P)
                      (let rows : set_rows (child_rows space path shares)
                              (set_rows (exact_rows space path shares) found)
                            ≡ with_target shares t found =
                          ground (arith, somewhere, full, below) in
                        rows)
                      (set_rows-All (child_rows space path shares)
                        (set_rows (exact_rows space path shares) found)
                        (rows-All
                          (λ s.
                            same_space s.source_space space
                            && (not (before s.source_path (path ++ slash ∷ []))
                                && before s.source_path (path ++ zero_digit ∷ [])))
                          shares
                          (λ s hit. f s (
                            ground
                              (arith, somewhere, full, below, hit, in_range path s.source_path))))
                        exact)
              ]
        ]
  ]

  from_targets-All :
      (shares : List Share) (targets : List Target) (found : List Share)
      → ((s : Share) → covered targets s ≡ true → P s)
      → All P found
      → All P (from_targets shares targets found)
  from_targets-All shares [] found f h = h
  from_targets-All shares (t ∷ targets) found f h =
      from_targets-All shares targets (with_target shares t found) (λ s c. f s (ground (arith, c)))
        (with_target-All shares t found (λ s c. f s (ground (arith, c))) h)

-- A share is found for targets only where it is of the space of one of them, and at its place or,
-- where what is below counts, below it: the range of paths that is asked of the database holds just
-- the paths that begin with the place and a slash.
pub get_shares_for_source_targets-covered :
    (targets : List Target) (shares : List Share)
    → All (λ s. covered targets s ≡ true) (get_shares_for_source_targets targets shares)
unfolding get_shares_for_source_targets
get_shares_for_source_targets-covered targets shares =
    from_targets-All (λ s. covered targets s ≡ true) shares targets [] (λ s c. c) tt
