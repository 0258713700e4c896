-- ===== src/Operations/Kept.antt =====
-- What no event of a task of backend/src/services/operationTasks.js changes.
use next_explorer.Prelude.{ℕ, ◌⊎◌, inl, inr, ◌++◌, All, ◌≡◌, false, List, [], ◌∷◌, arith, Text}
use next_explorer.Operations.Tasks.{Work, Thrown, Task, is_running}
use next_explorer.Operations.Pump.{Machine, drain, unit_done, unit_failed, seal_timer_fires}
use next_explorer.Operations.Handle.{Growth, Report, grow, report, rename, advance, enqueue, seal}
use next_explorer.Operations.Register.{abort, unwatch, add_watcher}

-- Who a task belongs to stays, and how it ended, once it has.
pub record IsKept (t u : Task) : Type 0 where
  pub id : u.id ≡ t.id
  pub owner : u.owner ≡ t.owner
  pub share_id : u.share_id ≡ t.share_id
  pub ended :
      is_running t.state ≡ false
      → (u.state ≡ t.state)
        × (u.result ≡ t.result)
        × (u.error ≡ t.error)
        × (u.finished_at ≡ t.finished_at)

-- One of the tasks is what became of this one.
abbrev pub LivesIn : List Task → Task → Type 0
LivesIn [] t = ⊥
LivesIn (u ∷ us) t = IsKept t u ⊎ LivesIn us t

pub IsKept-refl : (t : Task) → IsKept t t
IsKept-refl t = ground arith

pub All-later : (u : Task) (us ts : List Task) → All (LivesIn us) ts → All (LivesIn (u ∷ us)) ts
All-later u us [] h = tt
All-later u us (t ∷ ts) h = (inr h.0, All-later u us ts h.1)

pub All-LivesIn : (ts more : List Task) → All (LivesIn (ts ++ more)) ts
All-LivesIn [] more = tt
All-LivesIn (t ∷ ts) more = (inl (IsKept-refl t), All-later t (ts ++ more) ts (All-LivesIn ts more))

pub All-LivesIn-self : (ts : List Task) → All (LivesIn ts) ts
All-LivesIn-self [] = tt
All-LivesIn-self (t ∷ ts) = (inl (IsKept-refl t), All-later t ts ts (All-LivesIn-self ts))

module _ (round_percent : ℕ → ℕ → ℕ) where
  pub unit_done-IsKept :
      (now : ℕ) (answer : Text) (m : Machine)
      → IsKept m.task (unit_done round_percent now answer m).task
  unfolding unit_done
  unit_done-IsKept now answer m = ground arith

  pub unit_failed-IsKept :
      (now : ℕ) (thrown : Thrown) (m : Machine)
      → IsKept m.task (unit_failed round_percent now thrown m).task
  unfolding unit_failed
  unit_failed-IsKept now thrown m = ground arith

  pub seal_timer_fires-IsKept :
      (now : ℕ) (answer : Text) (m : Machine)
      → IsKept m.task (seal_timer_fires round_percent now answer m).task
  unfolding seal_timer_fires
  seal_timer_fires-IsKept now answer m = ground arith

  pub grow-IsKept : (g : Growth) (m : Machine) → IsKept m.task (grow round_percent g m).task
  unfolding grow
  grow-IsKept g m = ground arith

  pub report-IsKept : (r : Report) (m : Machine) → IsKept m.task (report round_percent r m).task
  unfolding report
  report-IsKept r m = ground arith

  pub rename-IsKept :
      (label : Text) (m : Machine) → IsKept m.task (rename round_percent label m).task
  unfolding rename
  rename-IsKept [] m = ground arith
  rename-IsKept (c ∷ cs) m = ground arith

  pub advance-IsKept :
      (items bytes : ℕ) (m : Machine) → IsKept m.task (advance round_percent items bytes m).task
  unfolding advance
  advance-IsKept items bytes m = ground arith

  pub enqueue-IsKept :
      (now : ℕ) (answer : Text) (unit : Work) (m : Machine)
      → IsKept m.task (enqueue round_percent now answer unit m).0.task
  unfolding enqueue
  enqueue-IsKept now answer unit m = ground arith

  pub seal-IsKept :
      (now : ℕ) (answer : Text) (m : Machine) → IsKept m.task (seal round_percent now answer m).task
  unfolding seal
  seal-IsKept now answer m = ground arith

  pub abort-IsKept :
      (now : ℕ) (answer : Text) (m : Machine)
      → IsKept m.task (abort round_percent now answer m).task
  unfolding drain
  abort-IsKept now answer m = ground arith

pub unwatch-IsKept : (w : ℕ) (m : Machine) → IsKept m.task (unwatch w m).task
unfolding unwatch
unwatch-IsKept w m = ground arith

pub add_watcher-IsKept : (w : ℕ) (m : Machine) → IsKept m.task (add_watcher w m).task
add_watcher-IsKept w m = ground arith
