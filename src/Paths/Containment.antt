-- ===== src/Paths/Containment.antt =====
-- Where a normalized path of backend/src/utils/pathUtils.js leads under a folder.
use mathlib.Core.List.{reverse, reverse-append, append_assoc, append-nil}
use next_explorer.Prelude.{
  ℕ, ◌≡◌, refl, inl, inr, Bool, true, false, ◌||◌, List, [], ◌∷◌, ◌++◌, map, arith, ◌==◌, Text,
  text_eq, text_eq_iff, starts_with-append, any, Bool-cases,
}
use next_explorer.Paths.Segments.{
  slash, dot_text, dot_dot, push_front, split_on, join_with, is_empty, walk, walk_all,
  starts_at_root, resolved_segments, resolve, normalize,
}
use next_explorer.Paths.Logical.{ok, forward, strip_leading, normalize_relative_path}
use next_explorer.Paths.Within.{is_within}
use next_explorer.Paths.Normalization.{normalize_relative_path-climbs, text_eq_comm}

push_front-append :
    (x : ℕ) (ss ts : List Text) (s : Text)
    → push_front x ((s ∷ ss) ++ ts) ≡ push_front x (s ∷ ss) ++ ts
push_front-append x ss ts s = refl

split_on-some : (s : Text) → (first : Text) × (rest : List Text) × (split_on slash s ≡ first ∷ rest)
split_on-some [] = ([], [], refl)
split_on-some (x ∷ xs) = elim (Bool-cases (x == slash)) [
  | inl e ↦ ([], split_on slash xs, ground (arith, e))
  | inr e ↦ let (first, rest, h) = split_on-some xs in (x ∷ first, rest, ground (arith, e, h))
]

split_on-slash :
    (s t : Text) → split_on slash (s ++ slash ∷ t) ≡ split_on slash s ++ split_on slash t
split_on-slash [] t = refl
split_on-slash (x ∷ xs) t =
    let (first, rest, h) = split_on-some xs in ground (arith, split_on-slash xs t, h)

walk_all-append :
    (above : Bool) (stack ss ts : List Text)
    → walk_all above stack (ss ++ ts) ≡ walk_all above (walk_all above stack ss) ts
unfolding walk_all
walk_all-append above stack [] ts = refl
walk_all-append above stack (s ∷ ss) ts = walk_all-append above (walk above stack s) ss ts

-- Segments that do not climb only add to the stack.
walk_all-adds :
    (above : Bool) (stack ss : List Text)
    → any (text_eq dot_dot) ss ≡ false
    → (added : List Text) × (walk_all above stack ss ≡ added ++ stack)
unfolding walk_all walk
walk_all-adds above stack [] h = ([], refl)
walk_all-adds above stack (s ∷ ss) h = elim (Bool-cases (is_empty s || text_eq s dot_text)) [
  | inl idle ↦
      let (added, e) = walk_all-adds above stack ss (ground arith) in
      (added, ground (arith, idle, e))
  | inr moves ↦
      let (added, e) = walk_all-adds above (s ∷ stack) ss (ground arith) in
      (
        added ++ s ∷ [],
        ground (arith, moves, e, text_eq_comm s dot_dot, append_assoc added (s ∷ []) stack),
      )
]

join_with-append :
    (a : Text) (ss : List Text) (b : Text) (ts : List Text)
    → join_with slash ((a ∷ ss) ++ b ∷ ts)
      ≡ join_with slash (a ∷ ss) ++ slash ∷ join_with slash (b ∷ ts)
join_with-append a [] b ts = refl
join_with-append a (s ∷ ss) b ts = ground (
  arith,
  join_with-append s ss b ts,
  append_assoc a (slash ∷ join_with slash (s ∷ ss)) (slash ∷ join_with slash (b ∷ ts)),
)

text_eq_refl : (s : Text) → text_eq s s ≡ true
text_eq_refl s = (text_eq_iff s s).1 refl

-- A text is within itself, and what stands behind it and a slash is within it.
is_within-same : (s : Text) → is_within s s ≡ true
unfolding is_within
is_within-same s = ground (arith, text_eq_refl s)

is_within-below : (s t : Text) → is_within (s ++ slash ∷ t) s ≡ true
unfolding is_within
is_within-below s t = ground (
  arith,
  starts_with-append s (slash ∷ t),
  starts_with-append (s ++ slash ∷ []) t,
  append_assoc s (slash ∷ []) t,
)

is_within-root : (s : Text) → is_within (slash ∷ s) (slash ∷ []) ≡ true
unfolding is_within
is_within-root s = ground arith

-- A place of more segments is within the place of the first of them.
is_within-append :
    (ss ts : List Text)
    → is_within (slash ∷ join_with slash (ss ++ ts)) (slash ∷ join_with slash ss) ≡ true
is_within-append ss [] = rw (append-nil ss) (is_within-same (slash ∷ join_with slash ss))
is_within-append [] (t ∷ ts) = is_within-root (join_with slash (t ∷ ts))
is_within-append (s ∷ ss) (t ∷ ts) =
    rw (join_with-append s ss t ts)
      (is_within-below (slash ∷ join_with slash (s ∷ ss)) (join_with slash (t ∷ ts)))

starts_at_root-strip_leading : (s : Text) → starts_at_root (strip_leading s) ≡ false
starts_at_root-strip_leading [] = refl
starts_at_root-strip_leading (x ∷ xs) = ground (arith, starts_at_root-strip_leading xs)

resolve-within :
    (root t : Text)
    → starts_at_root t ≡ false
    → any (text_eq dot_dot) (split_on slash t) ≡ false
    → is_within (resolve root t) (resolve root []) ≡ true
unfolding resolve resolved_segments
resolve-within root t below level =
    let base = walk_all false [] (split_on slash (slash ∷ root)) in
    let (added, e) = walk_all-adds false base (split_on slash t) level in
    let target : resolve root t ≡ slash ∷ join_with slash (reverse base ++ reverse added) = ground (
      arith,
      below,
      split_on-slash (slash ∷ root) t,
      walk_all-append false [] (split_on slash (slash ∷ root)) (split_on slash t),
      e,
      reverse-append added base,
    ) in
    let place : resolve root [] ≡ slash ∷ join_with slash (reverse base) = ground (
      arith,
      split_on-slash (slash ∷ root) [],
      walk_all-append false [] (split_on slash (slash ∷ root)) ([] ∷ []),
    ) in
    rw (target, place) (is_within-append (reverse base) (reverse added))

starts_at_root-normal : (s t : Text) → normalize_relative_path s ≡ ok t → starts_at_root t ≡ false
unfolding normalize_relative_path
starts_at_root-normal s t h =
    ground (arith, starts_at_root-strip_leading (normalize (map forward s)))

-- A path that normalizes leads, from any folder, to that folder or into it.
pub normalize_relative_path-within :
    (root s t : Text)
    → normalize_relative_path s ≡ ok t
    → is_within (resolve root t) (resolve root []) ≡ true
normalize_relative_path-within root s t h =
    resolve-within root t (starts_at_root-normal s t h) (normalize_relative_path-climbs s t h)
