-- ===== src/Operations/NewsLaws.antt =====
-- What keeping and forgetting news of backend/src/services/operationTasks.js does to each owner's.
use mathlib.Core.List.{append-nil}
use next_explorer.Prelude.{
  suc, ◌≤◌, ◌≡◌, ◌⊎◌, refl, inl, inr, Bool, true, false, not, ◌&&◌, List, [], ◌∷◌, ◌++◌, Option,
  arith, if◌then◌else◌, Text, text_eq, text_eq_iff, leb, length, length-append, filter,
  filter-append, Bool-cases,
}
use next_explorer.Operations.Owners.{Owner, same_owner, same_owner-join, share_text}
use next_explorer.Operations.News.{
  Outcome, Report, Task, State, max_untold_per_owner, mine, untold_for, is_wanted, forget_record_of,
  forget_loop, forget_untold, without_first, make_room, report_of, keep_untold,
}

module _ (p : Report → Bool) where
  without_first-mine :
      (rs : List Report) (r : Report) (theirs : List Report)
      → filter p rs ≡ r ∷ theirs
      → filter p (without_first p rs) ≡ theirs
  without_first-mine [] r theirs h = ground arith
  without_first-mine (x ∷ rs) r theirs h = elim (Bool-cases (p x)) [
    | inl e ↦ ground (arith, e)
    | inr e ↦ ground (arith, e, without_first-mine rs r theirs)
  ]

  without_first-others :
      (rs : List Report) → filter (λ r. not (p r)) (without_first p rs) ≡ filter (λ r. not (p r)) rs
  without_first-others [] = refl
  without_first-others (x ∷ rs) = elim (Bool-cases (p x)) [
    | inl e ↦ ground (arith, e)
    | inr e ↦ ground (arith, e, without_first-others rs)
  ]

-- What is left of an owner's news once there is room for one more.
abbrev pub roomy : List Report → List Report
roomy [] = []
roomy (r ∷ rs) =
    let rest = roomy rs in if leb max_untold_per_owner (length (r ∷ rs)) then rest else r ∷ rs

make_room-mine :
    (owner : Option Owner) (share_id : Option Text) (theirs : List Report) (s : State)
    → filter (mine owner share_id) s.untold ≡ theirs
    → (filter (mine owner share_id) (make_room owner share_id theirs s).untold ≡ roomy theirs)
      × (filter (λ r. not (mine owner share_id r)) (make_room owner share_id theirs s).untold
          ≡ filter (λ r. not (mine owner share_id r)) s.untold)
unfolding make_room
make_room-mine owner share_id [] s h = (h, refl)
make_room-mine owner share_id (r ∷ theirs) s h =
    let gone = without_first-mine (mine owner share_id) s.untold r theirs h in
    let rest =
      make_room-mine owner share_id theirs
        (record {
          untold = without_first (mine owner share_id) s.untold;
          journal = forget_record_of r.id s.journal;
        })
        gone in
    elim (Bool-cases (leb max_untold_per_owner (length (r ∷ theirs)))) [
      | inl full ↦ ground (arith, full, rest, without_first-others (mine owner share_id) s.untold)
      | inr free ↦ ground (arith, free, h)
    ]

-- As many are let go as must be, and no more.
full_after :
    (r : Report) (rs : List Report)
    → leb max_untold_per_owner (length (r ∷ rs)) ≡ true
    → suc (length (roomy rs)) ≡ max_untold_per_owner
full_after r [] full = ground (arith, full)
full_after r (s ∷ rs) full = elim (Bool-cases (leb max_untold_per_owner (length (s ∷ rs)))) [
  | inl more ↦ ground (arith, more, full_after s rs more)
  | inr last ↦ ground (arith, last, full)
]

roomy_lem :
    (rs : List Report)
    → (suc (length (roomy rs)) ≤ max_untold_per_owner)
      × ((gone : List Report) × (rs ≡ gone ++ roomy rs)
          × ((gone ≡ []) ⊎ (suc (length (roomy rs)) ≡ max_untold_per_owner)))
roomy_lem [] = (omega arith, ([], refl, inl refl))
roomy_lem (r ∷ rs) = elim (Bool-cases (leb max_untold_per_owner (length (r ∷ rs)))) [
  | inl full ↦ (
    ground (arith, full, (roomy_lem rs).0),
    (
      r ∷ (roomy_lem rs).1.0,
      ground (arith, full, (roomy_lem rs).1.1),
      inr (ground (arith, full, full_after r rs full)),
    ),
  )
  | inr free ↦ (ground (arith, free), ([], ground (arith, free), inl refl))
]

-- Where the task's owner is one, keeping a report of an operation concerns the news of that owner in
-- the task's share, or outside of shares: all other news is left alone, the report is put behind
-- them, and they are then no more than fifty; only the oldest are let go, and none unless there are
-- fifty afterwards. The bound is one for each owner and share.
pub keep_untold-mine :
    (s : State) (t : Task) (outcome : Outcome)
    → same_owner t.owner t.owner ≡ true
    → (gone : List Report) × (rest : List Report) × (filter (mine t.owner t.share_id) s.untold
        ≡ gone ++ rest)
      × (filter (mine t.owner t.share_id) (keep_untold s t outcome).untold
          ≡ rest ++ report_of t outcome ∷ [])
      × (length (filter (mine t.owner t.share_id) (keep_untold s t outcome).untold)
          ≤ max_untold_per_owner)
      × ((gone ≡ [])
          ⊎ (length (filter (mine t.owner t.share_id) (keep_untold s t outcome).untold)
              ≡ max_untold_per_owner))
      × (filter (λ r. not (mine t.owner t.share_id r)) (keep_untold s t outcome).untold
          ≡ filter (λ r. not (mine t.owner t.share_id r)) s.untold)
unfolding keep_untold mine
keep_untold-mine s t outcome known =
    let theirs = filter (mine t.owner t.share_id) s.untold in
    let (left, others) = make_room-mine t.owner t.share_id theirs s refl in
    let (few, (gone, split, needed)) = roomy_lem theirs in
    let before = (make_room t.owner t.share_id theirs s).untold in
    let new_one = report_of t outcome in
    let is_mine : mine t.owner t.share_id new_one ≡ true =
      ground (arith, known, (text_eq_iff (share_text t.share_id) (share_text t.share_id)).1 refl) in
    let after : filter (mine t.owner t.share_id) (before ++ new_one ∷ [])
        ≡ roomy theirs ++ new_one ∷ [] =
      ground
        (arith, filter-append (mine t.owner t.share_id) before (new_one ∷ []), left, is_mine) in
    (
      gone,
      roomy theirs,
      split,
      after,
      ground (arith, after, length-append (roomy theirs) (new_one ∷ []), few),
      elim needed [
        | inl nothing ↦ inl nothing
        | inr full ↦ inr (ground (arith, after, length-append (roomy theirs) (new_one ∷ []), full))
      ],
      ground (
        arith,
        filter-append (λ r. not (mine t.owner t.share_id r)) before (new_one ∷ []),
        others,
        is_mine,
        append-nil (filter (λ r. not (mine t.owner t.share_id r)) before),
      ),
    )

-- What is left and what is gone of a list, counted.
forget_loop-kept :
    (owner : Option Owner) (share_id : Option Text) (ids : List Text) (journal : List Text)
    (rs : List Report)
    → ((forget_loop owner share_id ids journal rs).kept
        ≡ filter (λ r. not (mine owner share_id r && is_wanted ids r.id)) rs)
      × ((forget_loop owner share_id ids journal rs).forgotten
          ≡ length (filter (λ r. mine owner share_id r && is_wanted ids r.id) rs))
unfolding forget_loop
forget_loop-kept owner share_id ids journal [] = (refl, refl)
forget_loop-kept owner share_id ids journal (r ∷ rs) =
    elim (Bool-cases (mine owner share_id r && is_wanted ids r.id)) [
      | inl goes ↦
          ground
            (arith, goes, forget_loop-kept owner share_id ids (forget_record_of r.id journal) rs)
      | inr stays ↦ ground (arith, stays, forget_loop-kept owner share_id ids journal rs)
    ]

filter-other :
    (p q : Report → Bool) (rs : List Report)
    → ((r : Report) → q r ≡ true → p r ≡ true)
    → filter q (filter p rs) ≡ filter q rs
filter-other p q [] h = refl
filter-other p q (r ∷ rs) h = elim (Bool-cases (p r)) [
  | inl e ↦ ground (arith, e, filter-other p q rs h)
  | inr e ↦ ground (arith, e, filter-other p q rs h, h r)
]

mine-apart :
    (owner other : Option Owner) (share_id other_share : Option Text) (r : Report)
    → (same_owner other owner && text_eq (share_text other_share) (share_text share_id)) ≡ false
    → mine other other_share r ≡ true
    → mine owner share_id r ≡ false
unfolding mine
mine-apart owner other share_id other_share r apart h = ground (
  arith,
  same_owner-join r.owner other owner,
  (text_eq_iff (share_text r.share_id) (share_text other_share)).0,
)

filter-none :
    (owner : Option Owner) (share_id : Option Text) (rs : List Report)
    → filter (mine owner share_id) (filter (λ r. not (mine owner share_id r && true)) rs) ≡ []
filter-none owner share_id [] = refl
filter-none owner share_id (r ∷ rs) = elim (Bool-cases (mine owner share_id r)) [
  | inl e ↦ ground (arith, e, filter-none owner share_id rs)
  | inr e ↦ ground (arith, e, filter-none owner share_id rs)
]

-- Forgetting says how many of the owner's wanted reports there were; another owner, or the same one
-- in another share, has the same news afterwards.
forget_untold-others :
    (s : State) (owner other : Option Owner) (share_id other_share : Option Text) (ids : List Text)
    → (same_owner other owner && text_eq (share_text other_share) (share_text share_id)) ≡ false
    → ((forget_untold s owner share_id ids).1
        ≡ length (filter (λ r. mine owner share_id r && is_wanted ids r.id) s.untold))
      × (untold_for (forget_untold s owner share_id ids).0 other other_share
          ≡ untold_for s other other_share)
unfolding forget_untold untold_for
forget_untold-others s owner other share_id other_share ids apart =
    let (kept, count) = forget_loop-kept owner share_id ids s.journal s.untold in
    let same =
      filter-other (λ r. not (mine owner share_id r && is_wanted ids r.id)) (mine other other_share)
        s.untold (λ r h. ground (arith, mine-apart owner other share_id other_share r apart h)) in
    (count, ground (arith, kept, same))

-- With no ids named, an owner is left with no news.
forget_untold-all :
    (s : State) (owner : Option Owner) (share_id : Option Text)
    → untold_for (forget_untold s owner share_id []).0 owner share_id
      ≡ record { interrupted = []; unreported = [] }
unfolding forget_untold untold_for
forget_untold-all s owner share_id =
    let kept = (forget_loop-kept owner share_id [] s.journal s.untold).0 in
    ground (arith, kept, filter-none owner share_id s.untold)
