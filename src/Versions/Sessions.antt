-- ===== src/Versions/Sessions.antt =====
-- When a save of an editing session makes a version: `sessionDecision` and `isStaleSave` of
-- backend/src/services/versions/policy.js.
use next_explorer.Prelude.{
  ℕ, ◌+◌, ◌*◌, ◌/◌, ◌≡◌, refl, ◌↔◌, ◌<◌, Bool, true, false, Option, none, some, String, arith,
  eq_iff, Option-cases, inl, inr,
}
use next_explorer.Versions.{
  History, Session, skip, minute_ms, session_key, session_decision, is_stale_save,
  checkpoint_decision,
}

-- A session saved the content a while ago, and its last checkpoint is still recent.
abbrev pub IsRepeat : Option History → Bool → Option Session → ℕ → ℕ → Type 0
IsRepeat history matches session now checkpoint_minutes =
    (h : History) × (key : String) × (checkpoint : ℕ) × (history ≡ some h)
    × (matches ≡ true)
    × (session_key session ≡ some key)
    × (h.current_session ≡ some key)
    × (h.current_explicit ≡ false)
    × (h.session_checkpoint_at ≡ some checkpoint)
    × (now < checkpoint + checkpoint_minutes * minute_ms)

checkpoint_skip :
    (h : History) (key : String) (now m : ℕ)
    → checkpoint_decision h key now m ≡ skip
    → (checkpoint : ℕ) × (h.current_session ≡ some key)
      × (h.current_explicit ≡ false)
      × (h.session_checkpoint_at ≡ some checkpoint)
      × (now < checkpoint + m * minute_ms)
unfolding checkpoint_decision
checkpoint_skip h key now m e = elim (Option-cases h.session_checkpoint_at) [
  | inl p ↦ absurd (ground (arith, p))
  | inr (t, p) ↦ elim (Option-cases h.current_session) [
    | inl q ↦ absurd (ground (arith, q))
    | inr (k, q) ↦ (
      t,
      ground (arith, q, p, eq_iff k key),
      ground (arith, p),
      p,
      ground (arith, p, q, eq_iff k key),
    )
  ]
]

-- A save makes no version exactly when its session wrote the content that it replaces, nobody saved
-- that on purpose, the file is still that content, and the session's checkpoint is recent enough.
pub session_decision-skip_iff :
    (history : Option History) (matches : Bool) (session : Option Session)
    (now checkpoint_minutes : ℕ)
    → (session_decision history matches session now checkpoint_minutes ≡ skip)
      ↔ IsRepeat history matches session now checkpoint_minutes
unfolding session_decision
session_decision-skip_iff none matches session now m =
    ((λ e. absurd (ground arith)), (λ r. absurd (ground (arith, r.3))))
session_decision-skip_iff (some h) matches session now m = (there, back)
  where
    there :
        session_decision (some h) matches session now m ≡ skip
        → IsRepeat (some h) matches session now m
    there e = elim (Option-cases (session_key session)) [
      | inl p ↦ absurd (ground (arith, p))
      | inr (key, p) ↦
          let (t, a, b, c, d) = checkpoint_skip h key now m (ground (arith, p)) in
          (h, key, t, refl, ground arith, p, a, b, c, d)
    ]

    back :
        IsRepeat (some h) matches session now m
        → session_decision (some h) matches session now m ≡ skip
    back (g, key, t, same, fresh, p, a, b, c, d) = ground (arith, eq_iff key key)

-- A save is stale exactly when the file was restored and the session began in an earlier second.
is_stale_save_iff :
    (h : History) (s : Session)
    → (is_stale_save (some h) (some s) ≡ true) ↔ (
        (start : ℕ) × (back : ℕ) × (s.started_at ≡ some start)
        × (h.restored_at ≡ some back)
        × (start / 1000 < back / 1000))
unfolding is_stale_save
is_stale_save_iff h s = (there, (λ r. ground (arith, r.2, r.3)))
  where
    there :
        is_stale_save (some h) (some s) ≡ true
        → (start : ℕ) × (back : ℕ) × (s.started_at ≡ some start)
          × (h.restored_at ≡ some back)
          × (start / 1000 < back / 1000)
    there e = elim (Option-cases s.started_at) [
      | inl p ↦ absurd (ground (arith, p))
      | inr (start, p) ↦ elim (Option-cases h.restored_at) [
        | inl q ↦ absurd (ground (arith, p, q))
        | inr (back, q) ↦ (start, back, p, q, ground (arith, p, q))
      ]
    ]
