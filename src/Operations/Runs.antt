-- ===== src/Operations/Runs.antt =====
-- Runs of the register of backend/src/services/operationTasks.js: any happenings, in any order.
use next_explorer.Prelude.{
  ℕ, ◌≡◌, subst, ◌⊎◌, inl, inr, Bool, not, ◌&&◌, All, filter, true, false, List, [], ◌∷◌, Option,
  arith, Text, text_eq_iff, length, Bool-cases, Option-cases, leb, text_eq,
}
use next_explorer.Operations.Owners.{Owner}
use next_explorer.Operations.News.{State}
use next_explorer.Operations.Tasks.{Task, Event, is_running, start_event, final_event}
use next_explorer.Operations.Pump.{Machine, unit_done, unit_failed, seal_timer_fires}
use next_explorer.Operations.Handle.{grow, report, rename, advance, enqueue, seal}
use next_explorer.Operations.Register.{
  running_for, open_task, cancel, Register, Happening, opens, watches, unwatches, cancels, grows,
  reports, renames, advances, enqueues, seals, unit_returns, unit_throws, seal_timer_ends,
  forget_timer_ends, max_watchers_per_task, on_task, find, watch, unwatch, add_watcher, tell_one,
  step,
}
use next_explorer.Operations.Steady
use next_explorer.Operations.Steady.{IsSteady}
use next_explorer.Operations.Kept
use next_explorer.Operations.Kept.{IsKept, LivesIn, All-later, All-LivesIn-self, IsKept-refl}
use next_explorer.Operations.Invariant.{
  IsSound, IsNext, IsNext-refl, at, on_task-IsNext, open_task-IsNext, forget-IsSound, find-task_at,
  cancel-IsNext,
}

module _ (round_percent : ℕ → ℕ → ℕ) where
  tell_one-IsSound :
      (w : ℕ) (es : List Event) (r : Register) → IsSound r → IsSound (tell_one round_percent w es r)
  tell_one-IsSound w es r h = record { steady = h.steady; few = h.few }

  watch-IsNext :
      (w : ℕ) (id : Text) (owner : Option Owner) (share_id : Option Text) (r : Register)
      → IsSound r
      → IsNext r (watch round_percent w id owner share_id r).0
  unfolding watch
  watch-IsNext w id owner share_id r h = elim (Option-cases (find id owner share_id r)) [
    | inl nothing ↦ subst (IsNext r) (ground (arith, nothing)) (IsNext-refl r h)
    | inr (t, found) ↦ elim (Bool-cases (leb max_watchers_per_task (length t.watchers))) [
      | inl full ↦ subst (IsNext r) (ground (arith, found, full)) (IsNext-refl r h)
      | inr room ↦ elim (Bool-cases (is_running t.state)) [
        | inr over ↦
            let told = start_event round_percent t ∷ final_event t ∷ [] in
            let same : tell_one round_percent w told r
                ≡ (watch round_percent w id owner share_id r).0 =
              ground (arith, found, room, over) in
            subst (IsNext r) same
              (record { sound = tell_one-IsSound w told r h; lives = All-LivesIn-self r.tasks })
        | inl runs ↦
            let before = tell_one round_percent w (start_event round_percent t ∷ []) r in
            let same : on_task id (add_watcher w) before
                ≡ (watch round_percent w id owner share_id r).0 =
              ground (arith, found, room, runs) in
            let next =
              on_task-IsNext id (add_watcher w) before
                (λ u news told there steady.
                  let one : t ≡ u =
                    ground (arith, find-task_at id owner share_id r t found, there) in
                  (
                    Steady.add_watcher-IsSteady w (at u news told)
                        (subst (λ t. is_running t.state ≡ true) one runs)
                        (subst (λ t. leb max_watchers_per_task (length t.watchers) ≡ false) one
                          room)
                        steady,
                    Kept.add_watcher-IsKept w (at u news told),
                  ))
                (tell_one-IsSound w (start_event round_percent t ∷ []) r h) in
            subst (IsNext r) same (record { sound = next.sound; lives = next.lives })
      ]
    ]
  ]

-- Forgetting is for a task that ended.
abbrev pub IsForgotten : Happening → Task → Type 0
IsForgotten h t = (h ≡ forget_timer_ends t.id) × (is_running t.state ≡ false)

abbrev pub Goes : Happening → Register → Register → Type 0
Goes h r s = IsSound s × All (λ t. LivesIn s.tasks t ⊎ IsForgotten h t) r.tasks

none_gone :
    (h : Happening) (us ts : List Task)
    → All (LivesIn us) ts
    → All (λ t. LivesIn us t ⊎ IsForgotten h t) ts
none_gone h us [] l = tt
none_gone h us (t ∷ ts) l = (inl l.0, none_gone h us ts l.1)

goes : (h : Happening) (r s : Register) → IsNext r s → Goes h r s
goes h r s n = (n.sound, none_gone h s.tasks r.tasks n.lives)

abbrev stays : Text → Task → Bool
stays id t = not (text_eq t.id id && t.forget_timer)

one_more :
    (h : Happening) (u : Task) (us ts : List Task)
    → All (λ t. LivesIn us t ⊎ IsForgotten h t) ts
    → All (λ t. LivesIn (u ∷ us) t ⊎ IsForgotten h t) ts
one_more h u us [] a = tt
one_more h u us (t ∷ ts) a =
    (elim a.0 [ inl there ↦ inl (inr there) | inr gone ↦ inr gone ], one_more h u us ts a.1)

forgets :
    (id : Text) (ts : List Task)
    → All IsSteady ts
    → All (λ t. LivesIn (filter (stays id) ts) t ⊎ IsForgotten (forget_timer_ends id) t) ts
forgets id [] h = tt
forgets id (t ∷ ts) h = elim (Bool-cases (stays id t)) [
  | inl keeps ↦
      subst (λ us. All (λ t. LivesIn us t ⊎ IsForgotten (forget_timer_ends id) t) (t ∷ ts))
        (let same : t ∷ filter (stays id) ts ≡ filter (stays id) (t ∷ ts) = ground (arith, keeps) in
          same)
        (
          inl (inl (IsKept-refl t)),
          one_more (forget_timer_ends id) t (filter (stays id) ts) ts (forgets id ts h.1),
        )
  | inr dropped ↦
      subst (λ us. All (λ t. LivesIn us t ⊎ IsForgotten (forget_timer_ends id) t) (t ∷ ts))
        (let same : filter (stays id) ts ≡ filter (stays id) (t ∷ ts) = ground (arith, dropped) in
          same)
        (
          inr (
            ground (arith, dropped, text_eq_iff t.id id),
            h.0.forgettable (ground (arith, dropped)),
          ),
          forgets id ts h.1,
        )
]

on :
    (h : Happening) (id : Text) (f : Machine → Machine) (r : Register)
    → ((m : Machine) → IsSteady m.task → IsSteady (f m).task)
    → ((m : Machine) → IsKept m.task (f m).task)
    → IsSound r
    → Goes h r (on_task id f r)
on h id f r steady kept s = goes h r (on_task id f r) (
    on_task-IsNext id f r
      (λ t news told there st. (steady (at t news told) st, kept (at t news told))) s)

abbrev pub empty_register : State → Register
empty_register news = record { tasks = []; news = news; told = [] }

module _ (round_percent : ℕ → ℕ → ℕ) where
  -- From a sound register any happening leads to a sound register. Each task is still there, with the
  -- same id, owner and share, and where it had ended, with the state, the result, the error and the
  -- time that it ended with; but a task that had ended may be gone, where the happening is its forget
  -- timer.
  pub step-Goes :
      (now : ℕ) (h : Happening) (r : Register) → IsSound r → Goes h r (step round_percent now h r)
  unfolding step
  step-Goes now (opens id o) r s =
      goes (opens id o) r (open_task id now o r).0 (open_task-IsNext id now o r s)
  step-Goes now (watches w id owner share_id) r s =
      goes (watches w id owner share_id) r (watch round_percent w id owner share_id r).0
        (watch-IsNext round_percent w id owner share_id r s)
  step-Goes now (unwatches w id) r s =
      on (unwatches w id) id (unwatch w) r (Steady.unwatch-IsSteady w) (Kept.unwatch-IsKept w) s
  step-Goes now (cancels id answer owner share_id) r s =
      goes (cancels id answer owner share_id) r
        (cancel round_percent now answer id owner share_id r).0
        (cancel-IsNext round_percent now answer id owner share_id r s)
  step-Goes now (grows id g) r s =
      on (grows id g) id (grow round_percent g) r (Steady.grow-IsSteady round_percent g)
        (Kept.grow-IsKept round_percent g) s
  step-Goes now (reports id p) r s =
      on (reports id p) id (report round_percent p) r (Steady.report-IsSteady round_percent p)
        (Kept.report-IsKept round_percent p) s
  step-Goes now (renames id label) r s =
      on (renames id label) id (rename round_percent label) r
        (Steady.rename-IsSteady round_percent label) (Kept.rename-IsKept round_percent label) s
  step-Goes now (advances id items bytes) r s =
      on (advances id items bytes) id (advance round_percent items bytes) r
        (Steady.advance-IsSteady round_percent items bytes)
        (Kept.advance-IsKept round_percent items bytes) s
  step-Goes now (enqueues id answer unit) r s =
      on (enqueues id answer unit) id (λ m. (enqueue round_percent now answer unit m).0) r
        (Steady.enqueue-IsSteady round_percent now answer unit)
        (Kept.enqueue-IsKept round_percent now answer unit) s
  step-Goes now (seals id answer) r s =
      on (seals id answer) id (seal round_percent now answer) r
        (Steady.seal-IsSteady round_percent now answer) (Kept.seal-IsKept round_percent now answer)
        s
  step-Goes now (unit_returns id answer) r s =
      on (unit_returns id answer) id (unit_done round_percent now answer) r
        (Steady.unit_done-IsSteady round_percent now answer)
        (Kept.unit_done-IsKept round_percent now answer) s
  step-Goes now (unit_throws id thrown) r s =
      on (unit_throws id thrown) id (unit_failed round_percent now thrown) r
        (Steady.unit_failed-IsSteady round_percent now thrown)
        (Kept.unit_failed-IsKept round_percent now thrown) s
  step-Goes now (seal_timer_ends id answer) r s =
      on (seal_timer_ends id answer) id (seal_timer_fires round_percent now answer) r
        (Steady.seal_timer_fires-IsSteady round_percent now answer)
        (Kept.seal_timer_fires-IsKept round_percent now answer) s
  step-Goes now (forget_timer_ends id) r s = (forget-IsSound id r s, forgets id r.tasks s.steady)

  unfoldable pub run : List (ℕ × Happening) → Register → Register
  unfolding step
  run [] r = r
  run ((now, h) ∷ hs) r = run hs (step round_percent now h r)

  run-IsSound : (hs : List (ℕ × Happening)) (r : Register) → IsSound r → IsSound (run hs r)
  unfolding run
  run-IsSound [] r s = s
  run-IsSound ((now, h) ∷ hs) r s =
      run-IsSound hs (step round_percent now h r) (step-Goes now h r s).0

  -- However a register came about from the empty one, no owner has more than ten running tasks, and
  -- each task is steady: it has no more than eight watchers and ten recorded names; while it runs, a
  -- unit is being worked on wherever one is queued or the task is sealed; and when it has ended,
  -- nothing is queued or worked on, nobody watches it, and it waits to be forgotten.
  pub run-from_empty :
      (hs : List (ℕ × Happening)) (news : State) → IsSound (run hs (empty_register news))
  run-from_empty hs news =
      run-IsSound hs (empty_register news)
        (record { steady = tt; few = λ owner. unfold running_for in omega arith })
