-- ===== src/Operations/Visibility.antt =====
-- Whose tasks a caller of backend/src/services/operationTasks.js reaches.
use next_explorer.Prelude.{
  ℕ, ◌≡◌, ◌⊎◌, refl, ap, sym, ◌∙◌, text_eq_iff, inl, inr, Bool, true, false, List, [], ◌∷◌, ◌++◌,
  Option, none, some, arith, Text, filter, Bool-cases, Option-cases,
}
use next_explorer.Operations.Owners.{Owner, owner_key, same_owner, same_owner_iff, share_text}
use next_explorer.Paths.Segments.{is_empty}
use next_explorer.Operations.Tasks.{Task}
use next_explorer.Operations.Register.{
  Register, visible_to, task_at, find, reopen, watch, cancel, list_for,
}

-- A task is a caller's own where both name one owner, whose id is not empty, and the same share.
abbrev pub IsTheirs : Option Owner → Option Text → Task → Type 0
IsTheirs owner share_id t =
    (o : Owner) × (owner ≡ some o)
    × (t.owner ≡ some o)
    × (is_empty o.id ≡ false)
    × (share_text t.share_id ≡ share_text share_id)

same_owner-none : (a : Option Owner) → same_owner a none ≡ false
unfolding same_owner
same_owner-none a = elim (Option-cases (owner_key a)) [
  | inl e ↦ ground (arith, e)
  | inr (k, e) ↦ ground (arith, e)
]

none_owns : (a : Option Owner) → same_owner none a ≡ false
unfolding same_owner
none_owns a = refl

visible-IsTheirs :
    (owner : Option Owner) (share_id : Option Text) (t : Task)
    → visible_to owner share_id t ≡ true
    → IsTheirs owner share_id t
unfolding visible_to
visible-IsTheirs owner share_id t h = elim (Option-cases owner) [
  | inl nobody ↦ ground (arith, nobody, same_owner-none t.owner)
  | inr (o, known) ↦ elim (Option-cases t.owner) [
    | inl free ↦ ground (arith, free, none_owns owner)
    | inr (p, held) ↦
        let same : same_owner (some p) (some o) ≡ true = ground (arith, known, held) in
        let (one, given) = (same_owner_iff p o).0 same in
        (
          o,
          known,
          held ∙ ap some one,
          ap (λ q. is_empty q.id) (sym one) ∙ given,
          (text_eq_iff (share_text t.share_id) (share_text share_id)).0 (ground arith),
        )
  ]
]

IsTheirs-visible :
    (owner : Option Owner) (share_id : Option Text) (t : Task)
    → IsTheirs owner share_id t
    → visible_to owner share_id t ≡ true
unfolding visible_to
IsTheirs-visible owner share_id t (o, known, held, given, shared) = ground (
  arith,
  known,
  held,
  (same_owner_iff o o).1 (refl, given),
  (text_eq_iff (share_text t.share_id) (share_text share_id)).1 shared,
)

filter-without :
    (p : Task → Bool) (front : List Task) (t : Task) (back : List Task)
    → p t ≡ false
    → filter p (front ++ t ∷ back) ≡ filter p (front ++ back)
filter-without p [] t back hidden = ground (arith, hidden)
filter-without p (f ∷ front) t back hidden = ground (arith, filter-without p front t back hidden)

-- A caller finds a task where it is the caller's own. To any other it is as if it were not there: it
-- is not found or opened again, watching or cancelling it answers so and changes nothing, and what
-- is listed is what would be listed without it.
pub hidden_task :
    (round_percent : ℕ → ℕ → ℕ) (now watcher : ℕ) (answer id : Text) (owner : Option Owner)
    (share_id kind destination : Option Text) (r : Register) (front back : List Task) (t : Task)
    → r.tasks ≡ front ++ t ∷ back
    → task_at id r.tasks ≡ some t
    → (IsTheirs owner share_id t × (find id owner share_id r ≡ some t))
      ⊎ ((¬ IsTheirs owner share_id t)
          × (find id owner share_id r ≡ none)
          × (reopen id owner share_id kind destination r ≡ none)
          × (watch round_percent watcher id owner share_id r ≡ (r, none))
          × (cancel round_percent now answer id owner share_id r ≡ (r, false))
          × (list_for round_percent owner share_id r
              ≡ list_for round_percent owner share_id (record r { tasks = front ++ back })))
unfolding find reopen watch cancel list_for
hidden_task round_percent now watcher answer id owner share_id kind destination r front back t split
      there =
    elim (Bool-cases (visible_to owner share_id t)) [
      | inl shown ↦ inl (visible-IsTheirs owner share_id t shown, ground (arith, there, shown))
      | inr hidden ↦ inr (
        λ theirs. cc (IsTheirs-visible owner share_id t theirs),
        ground (arith, there, hidden),
        ground (arith, there, hidden),
        ground (arith, there, hidden),
        ground (arith, there, hidden),
        rw (split, filter-without (visible_to owner share_id) front t back hidden) refl,
      )
    ]
