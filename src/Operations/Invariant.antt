-- ===== src/Operations/Invariant.antt =====
-- What holds of the register of backend/src/services/operationTasks.js whatever happens to it.
use next_explorer.Prelude.{
  ℕ, ◌+◌, ◌≤◌, ◌≡◌, refl, ap, subst, inl, inr, Bool, true, not, ◌&&◌, List, [], ◌∷◌, ◌++◌, Option,
  some, arith, Text, text_eq, length-append, filter, filter-append, All, All-append, All-filter,
  Bool-cases, Option-cases, leb,
}
use next_explorer.Operations.Owners.{Owner, owner_key, same_owner, same_owner_right}
use next_explorer.Operations.News.{State}
use next_explorer.Operations.Tasks.{Task, Event, is_running}
use next_explorer.Operations.Pump.{Machine, record_task}
use next_explorer.Operations.Register.{
  Register, Opening, max_running_per_owner, counts_for, running_for, task_at, on_tasks, on_task,
  find, new_task, open_task, abort, cancel, forget,
}
use next_explorer.Operations.Steady
use next_explorer.Operations.Steady.{IsSteady}
use next_explorer.Operations.Kept
use next_explorer.Operations.Kept.{
  IsKept, LivesIn, All-later, All-LivesIn, All-LivesIn-self, IsKept-refl,
}

-- Every task is steady, and no owner has more than ten tasks running.
pub record IsSound (r : Register) : Type 0 where
  pub steady : All IsSteady r.tasks
  pub few : (owner : Option Owner) → running_for owner r.tasks ≤ max_running_per_owner

abbrev pub at : Task → State → List (ℕ × Event) → Machine
at t news told = record { task = t; news = news; told = told }

-- What an event on the task with an id has to do.
abbrev pub Sound : Text → (Machine → Machine) → List Task → Type 0
Sound id f ts =
    (t : Task) (news : State) (told : List (ℕ × Event))
    → task_at id ts ≡ some t
    → IsSteady t
    → IsSteady (f (at t news told)).task × IsKept t (f (at t news told)).task

running_for-cons :
    (owner : Option Owner) (t u : Task) (ts : List Task)
    → IsKept t u
    → running_for owner (u ∷ ts) ≤ running_for owner (t ∷ ts)
unfolding running_for
running_for-cons owner t u ts k = elim (Bool-cases (is_running t.state)) [
  | inl runs ↦ ground (arith, ap (λ o. same_owner o owner) k.owner)
  | inr over ↦ ground (arith, ap is_running (k.ended over).0)
]

-- What stays of a list of tasks.
record Stays (ts : List Task) (r : Register) : Type 0 where
  steady : All IsSteady r.tasks
  fewer : (owner : Option Owner) → running_for owner r.tasks ≤ running_for owner ts
  lives : All (LivesIn r.tasks) ts

-- Every task is still there.
pub record IsNext (r s : Register) : Type 0 where
  pub sound : IsSound s
  pub lives : All (LivesIn s.tasks) r.tasks

pub IsNext-refl : (r : Register) → IsSound r → IsNext r r
IsNext-refl r h = record { sound = h; lives = All-LivesIn-self r.tasks }

running_for-tail :
    (owner : Option Owner) (t : Task) (us ts : List Task)
    → running_for owner us ≤ running_for owner ts
    → running_for owner (t ∷ us) ≤ running_for owner (t ∷ ts)
unfolding running_for
running_for-tail owner t us ts h = ground arith

on_tasks-Stays :
    (id : Text) (f : Machine → Machine) (ts : List Task) (news : State) (told : List (ℕ × Event))
    → Sound id f ts
    → All IsSteady ts
    → Stays ts (on_tasks id f ts news told)
unfolding on_tasks
on_tasks-Stays id f [] news told s h = record {
  steady = tt;
  fewer = λ owner. omega arith;
  lives = tt;
}
on_tasks-Stays id f (t ∷ ts) news told s h = elim (Bool-cases (text_eq t.id id)) [
  | inl hit ↦
      let changed = f (at t news told) in
      let (steady, kept) = s t news told (ground (arith, hit)) h.0 in
      let same : record { tasks = changed.task ∷ ts; news = changed.news; told = changed.told }
          ≡ on_tasks id f (t ∷ ts) news told =
        ground (arith, hit) in
      subst (Stays (t ∷ ts)) same (record {
        steady = (steady, h.1);
        fewer = λ owner. running_for-cons owner t changed.task ts kept;
        lives = (inl kept, All-later changed.task ts ts (All-LivesIn-self ts));
      })
  | inr miss ↦
      let rest =
        on_tasks-Stays id f ts news told (λ u n o found. s u n o (ground (arith, miss, found)))
          h.1 in
      let after = on_tasks id f ts news told in
      let same : record after { tasks = t ∷ after.tasks } ≡ on_tasks id f (t ∷ ts) news told =
        ground (arith, miss) in
      subst (Stays (t ∷ ts)) same (record {
        steady = (h.0, rest.steady);
        fewer = λ owner. running_for-tail owner t after.tasks ts (rest.fewer owner);
        lives = (inl (IsKept-refl t), All-later t after.tasks ts rest.lives);
      })
]

-- An event on one task keeps a register sound.
pub on_task-IsNext :
    (id : Text) (f : Machine → Machine) (r : Register)
    → Sound id f r.tasks
    → IsSound r
    → IsNext r (on_task id f r)
unfolding on_task
on_task-IsNext id f r s h =
    let stays = on_tasks-Stays id f r.tasks r.news r.told s h.steady in
    record {
      sound = record {
        steady = stays.steady;
        few = λ owner. omega (arith, stays.fewer owner, h.few owner);
      };
      lives = stays.lives;
    }

new_task-IsSteady : (id : Text) (now : ℕ) (o : Opening) → IsSteady (new_task id now o)
new_task-IsSteady id now o = ground arith

-- Owners with one key are the same to every task.
counts_for-same :
    (a b : Option Owner) (ts : List Task)
    → same_owner a b ≡ true
    → running_for a ts ≡ running_for b ts
unfolding running_for
counts_for-same a b [] h = refl
counts_for-same a b (t ∷ ts) h =
    ground (arith, same_owner_right a b t.owner h, counts_for-same a b ts h)

running_for-new :
    (owner : Option Owner) (id : Text) (now : ℕ) (o : Opening) (ts : List Task)
    → running_for o.owner ts + 1 ≤ max_running_per_owner
    → running_for owner ts ≤ max_running_per_owner
    → running_for owner (ts ++ new_task id now o ∷ []) ≤ max_running_per_owner
running_for-new owner id now o ts room few = elim (Bool-cases (same_owner o.owner owner)) [
  | inl same ↦
      unfold running_for in
      ground (
        arith,
        filter-append (counts_for owner) ts (new_task id now o ∷ []),
        length-append (filter (counts_for owner) ts) (new_task id now o ∷ []),
        same,
        counts_for-same o.owner owner ts same,
      )
  | inr other ↦
      unfold running_for in
      ground (
        arith,
        filter-append (counts_for owner) ts (new_task id now o ∷ []),
        length-append (filter (counts_for owner) ts) [],
        other,
      )
]

pub open_task-IsNext :
    (id : Text) (now : ℕ) (o : Opening) (r : Register)
    → IsSound r
    → IsNext r (open_task id now o r).0
unfolding open_task
open_task-IsNext id now o r h = elim (Option-cases (owner_key o.owner)) [
  | inl nobody ↦ subst (IsNext r) (ground (arith, nobody)) (IsNext-refl r h)
  | inr (key, known) ↦ elim (Bool-cases (leb max_running_per_owner (running_for o.owner r.tasks))) [
    | inl full ↦ subst (IsNext r) (ground (arith, known, full)) (IsNext-refl r h)
    | inr room ↦
        subst (IsNext r)
          (let same : record r {
            tasks = r.tasks ++ new_task id now o ∷ [];
            news = record_task id r.news;
          }
                ≡ (open_task id now o r).0 =
              ground (arith, known, room) in
            same)
          (record {
            sound = record {
              steady =
                  All-append IsSteady r.tasks (new_task id now o ∷ []) h.steady
                    (new_task-IsSteady id now o, tt);
              few = λ owner.
                  running_for-new owner id now o r.tasks (ground (arith, room)) (h.few owner);
            };
            lives = All-LivesIn r.tasks (new_task id now o ∷ []);
          })
  ]
]

running_for-filter :
    (owner : Option Owner) (p : Task → Bool) (ts : List Task)
    → running_for owner (filter p ts) ≤ running_for owner ts
unfolding running_for
running_for-filter owner p [] = omega arith
running_for-filter owner p (t ∷ ts) = ground (arith, running_for-filter owner p ts)

pub forget-IsSound : (id : Text) (r : Register) → IsSound r → IsSound (forget id r)
unfolding forget
forget-IsSound id r h = record {
  steady = All-filter IsSteady (λ t. not (text_eq t.id id && t.forget_timer)) r.tasks h.steady;
  few = λ owner. omega (
    arith,
    running_for-filter owner (λ t. not (text_eq t.id id && t.forget_timer)) r.tasks,
    h.few owner,
  );
}

-- A task that is found is the first with its id.
pub find-task_at :
    (id : Text) (owner : Option Owner) (share_id : Option Text) (r : Register) (t : Task)
    → find id owner share_id r ≡ some t
    → task_at id r.tasks ≡ some t
unfolding find
find-task_at id owner share_id r t h = elim (Option-cases (task_at id r.tasks)) [
  | inl none_there ↦ ground (arith, none_there)
  | inr (u, there) ↦ ground (arith, there)
]

module _ (round_percent : ℕ → ℕ → ℕ) where
  pub cancel-IsNext :
      (now : ℕ) (answer id : Text) (owner : Option Owner) (share_id : Option Text) (r : Register)
      → IsSound r
      → IsNext r (cancel round_percent now answer id owner share_id r).0
  unfolding cancel
  cancel-IsNext now answer id owner share_id r h = elim (Option-cases (find id owner share_id r)) [
    | inl nothing ↦ subst (IsNext r) (ground (arith, nothing)) (IsNext-refl r h)
    | inr (t, found) ↦ elim (Bool-cases (is_running t.state)) [
      | inr over ↦ subst (IsNext r) (ground (arith, found, over)) (IsNext-refl r h)
      | inl runs ↦
          subst (IsNext r)
            (let same : on_task id (abort round_percent now answer) r
                  ≡ (cancel round_percent now answer id owner share_id r).0 =
                ground (arith, found, runs) in
              same)
            (on_task-IsNext id (abort round_percent now answer) r
              (λ u news told there steady.
                let same : t ≡ u =
                  ground (arith, find-task_at id owner share_id r t found, there) in
                (
                  Steady.abort-IsSteady round_percent now answer (at u news told)
                      (subst (λ t. is_running t.state ≡ true) same runs) steady,
                  Kept.abort-IsKept round_percent now answer (at u news told),
                ))
              h)
    ]
  ]
