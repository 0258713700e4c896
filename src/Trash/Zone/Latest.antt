-- ===== src/Trash/Zone/Latest.antt =====
-- Which versions `planZone` of backend/src/services/trash/policy.js takes for the latest of their
-- files: the map `latestOf`.
use next_explorer.Prelude.{
  ◌≡◌, ◌⊎◌, refl, inl, inr, true, false, not, ◌&&◌, List, [], ◌∷◌, Option, none, some, String,
  arith, str_eq, eq_iff, filter, All, map_get, map_get-set, if◌then◌else◌, Bool-cases, Option-cases,
  subst, sym,
}
use next_explorer.Prelude.Sort.{Collation}
use next_explorer.Trash.{Version, by_modified}
use next_explorer.Trash.Zone.{latest_of, note_latest}

-- The versions of a file that may be its latest: those that are not pinned.
abbrev pub of_file : String → List Version → List Version
of_file k vs = filter (λ v. not v.pinned && str_eq v.file_id k) vs

abbrev pub IsAmong : Version → List Version → Type 0
IsAmong w [] = ⊥
IsAmong w (v ∷ vs) = (w ≡ v) ⊎ IsAmong w vs

-- One of the versions with no later one; where there is none, there are no versions.
abbrev pub IsLatestIn : Collation → List Version → Option Version → Type 0
IsLatestIn c vs none = vs ≡ []
IsLatestIn c vs (some w) = IsAmong w vs × All (λ v. by_modified c v w ≡ true) vs

abbrev behind : Option Version → List Version → List Version
behind none vs = vs
behind (some u) vs = u ∷ vs

module _ (c : Collation) where
  by_modified_total : (v w : Version) → by_modified c v w ≡ false → by_modified c w v ≡ true
  unfolding by_modified
  by_modified_total v w h = ground (arith, c.total v.id w.id)

  by_modified_refl : (v : Version) → by_modified c v v ≡ true
  unfolding by_modified
  by_modified_refl v = ground (arith, c.total v.id v.id)

  by_modified_trans :
      (u v w : Version)
      → by_modified c u v ≡ true
      → by_modified c v w ≡ true
      → by_modified c u w ≡ true
  unfolding by_modified
  by_modified_trans u v w h k = ground (arith, c.trans u.id v.id w.id)

  -- One that is not later than the first may stand behind it.
  IsLatestIn-second :
      (u v : Version) (rest : List Version) (r : Option Version)
      → by_modified c v u ≡ true
      → IsLatestIn c (u ∷ rest) r
      → IsLatestIn c (u ∷ v ∷ rest) r
  IsLatestIn-second u v rest none h k = cc
  IsLatestIn-second u v rest (some w) h (inl first, (above, all_above)) =
      (inl first, (above, (by_modified_trans v u w h above, all_above)))
  IsLatestIn-second u v rest (some w) h (inr later, (above, all_above)) =
      (inr (inr later), (above, (by_modified_trans v u w h above, all_above)))

  -- One that is not later than the first may stand before it.
  IsLatestIn-first :
      (u v : Version) (rest : List Version) (r : Option Version)
      → by_modified c u v ≡ true
      → IsLatestIn c (v ∷ rest) r
      → IsLatestIn c (u ∷ v ∷ rest) r
  IsLatestIn-first u v rest none h k = cc
  IsLatestIn-first u v rest (some w) h (there, (above, all_above)) =
      (inr there, (by_modified_trans u v w h above, (above, all_above)))

  note_latest-other :
      (k : String) (m : List (String × Version)) (v : Version)
      → str_eq v.file_id k ≡ false
      → map_get k (note_latest c m v) ≡ map_get k m
  note_latest-other k m v other = elim (Option-cases (map_get v.file_id m)) [
    | inl new ↦ ground (arith, new, other, map_get-set v.file_id k v m)
    | inr (u, known) ↦ ground (arith, known, other, map_get-set v.file_id k v m)
  ]

  note_latest-own :
      (m : List (String × Version)) (v : Version) (rest : List Version) (r : Option Version)
      → IsLatestIn c (behind (map_get v.file_id (note_latest c m v)) rest) r
      → IsLatestIn c (behind (map_get v.file_id m) (v ∷ rest)) r
  note_latest-own m v rest r h = elim (Option-cases (map_get v.file_id m)) [
    | inl new ↦
        let noted : map_get v.file_id (note_latest c m v) ≡ some v =
          ground (arith, new, map_get-set v.file_id v.file_id v m, eq_iff v.file_id v.file_id) in
        let was : IsLatestIn c (v ∷ rest) r = subst (λ p. IsLatestIn c (behind p rest) r) noted h in
        rw new was
    | inr (u, known) ↦ elim (Bool-cases (by_modified c v u)) [
      | inl earlier ↦
          let noted : map_get v.file_id (note_latest c m v) ≡ some u =
            ground (arith, known, earlier) in
          let was : IsLatestIn c (u ∷ rest) r =
            subst (λ p. IsLatestIn c (behind p rest) r) noted h in
          rw known (IsLatestIn-second u v rest r earlier was)
      | inr later ↦
          let noted : map_get v.file_id (note_latest c m v) ≡ some v = ground (
            arith,
            known,
            later,
            map_get-set v.file_id v.file_id v m,
            eq_iff v.file_id v.file_id,
          ) in
          let was : IsLatestIn c (v ∷ rest) r =
            subst (λ p. IsLatestIn c (behind p rest) r) noted h in
          rw known (IsLatestIn-first u v rest r (by_modified_total v u later) was)
    ]
  ]

  -- What the loop finds for a file, with what it had found before.
  found_on :
      (k : String) (m : List (String × Version)) (vs : List Version)
      → IsLatestIn c (behind (map_get k m) (of_file k vs)) (map_get k (latest_of c m vs))
  unfolding latest_of
  found_on k m [] = elim (Option-cases (map_get k m)) [
    | inl e ↦ rw e refl
    | inr (u, e) ↦ rw e (inl refl, (by_modified_refl u, tt))
  ]
  found_on k m (v ∷ vs) = elim (Bool-cases v.pinned) [
    | inl pinned ↦
        carry (of_file k vs) m (ground (arith, pinned)) (ground (arith, pinned)) (found_on k m vs)
    | inr free ↦
        let next = note_latest c m v in
        let later = found_on k next vs in
        elim (Bool-cases (str_eq v.file_id k)) [
          | inr other ↦ carry (of_file k vs) next (ground (arith, other)) (ground (arith, free)) (
              subst (λ p. IsLatestIn c (behind p (of_file k vs)) (map_get k (latest_of c next vs)))
                (note_latest-other k m v other) later)
          | inl own ↦
              let same = (eq_iff v.file_id k).0 own in
              carry (v ∷ of_file k vs) next (ground (arith, free, own)) (ground (arith, free)) (
                subst
                  (λ j.
                    IsLatestIn c (behind (map_get j m) (v ∷ of_file k vs))
                      (map_get k (latest_of c next vs)))
                  same
                  (note_latest-own m v (of_file k vs) (map_get k (latest_of c next vs)) (
                    subst
                      (λ j.
                        IsLatestIn c (behind (map_get j next) (of_file k vs))
                          (map_get k (latest_of c next vs)))
                      (sym same) later)))
        ]
  ]
    where
      carry :
          (xs : List Version) (n : List (String × Version))
          → of_file k (v ∷ vs) ≡ xs
          → (if v.pinned then m else note_latest c m v) ≡ n
          → IsLatestIn c (behind (map_get k m) xs) (map_get k (latest_of c n vs))
          → IsLatestIn c
              (behind (map_get k m) (of_file k (v ∷ vs)))
              (map_get k (latest_of c m (v ∷ vs)))
      carry xs n e f h =
          subst (λ ys. IsLatestIn c (behind (map_get k m) ys) (map_get k (latest_of c m (v ∷ vs))))
            (sym e)
            (subst (λ q. IsLatestIn c (behind (map_get k m) xs) (map_get k (latest_of c q vs)))
              (sym f) h)

  -- For each of the versions, what the map has under its file.
  abbrev pub FindsLatest : List Version → List (String × Version) → List Version → Type 0
  FindsLatest all m vs = All (λ v. IsLatestIn c (of_file v.file_id all) (map_get v.file_id m)) vs

  pub latest_of-FindsLatest : (all vs : List Version) → FindsLatest all (latest_of c [] all) vs
  latest_of-FindsLatest all [] = tt
  latest_of-FindsLatest all (v ∷ vs) = (found_on v.file_id [] all, latest_of-FindsLatest all vs)
