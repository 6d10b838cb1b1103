-- ===== src/Visit/Times.antt =====
-- What holds of one row of the `visits` table through the methods that change its state.
use portfolio_cv_project.Common.{
  ℕ, ◌*◌, ◌≡◌, refl, ◌⊎◌, inl, inr, true, false, Option, none, some, arith, Bool-cases, reaches, ℤ,
}
use portfolio_cv_project.Clock.{DateTime, elapsed, or_else}
use portfolio_cv_project.Visit.{
  VisitState, entering, present, leaving, closed, Visit, VisitSettings,
}
use portfolio_cv_project.Visit.Machine.{apply_state_transition, maybe_close_visit}
use portfolio_cv_project.Visit.Rows.{IsKept}

-- The times that a row has in each state. A row is never stored as ABSENT.
abbrev pub Times : VisitState → Option DateTime → Option DateTime → Type 0
Times entering none none = Unit
Times present (some a) none = Unit
Times leaving (some a) none = Unit
Times closed (some a) (some d) = Unit
Times _ _ _ = ⊥

abbrev pub IsWellFormed : Visit → Type 0
IsWellFormed v = Times v.state v.arrived_at v.departed_at

transition_keeps_Times :
    (s : VisitState) (a d : Option DateTime) (c : VisitSettings) (v : Visit) (t : DateTime)
    (i : Option ℕ)
    → v.state ≡ s
    → v.arrived_at ≡ a
    → v.departed_at ≡ d
    → Times s a d
    → IsWellFormed (apply_state_transition c v t i).visit
unfolding apply_state_transition
transition_keeps_Times entering none none c v t i p q r h =
    elim (Bool-cases (
      c.reaches_entry (
        c.add_seconds v.entry_seen_seconds
          (elapsed t (or_else v.last_seen_at (or_else v.created_at t)))))) [
            | inl x ↦ rw (p, x, r) tt
            | inr x ↦ rw (p, x, q, r) tt
          ]
transition_keeps_Times present (some x) none c v t i p q r h = rw (p, q, r) tt
transition_keeps_Times leaving (some x) none c v t i p q r h = rw (p, q, r) tt
transition_keeps_Times closed (some x) (some y) c v t i p q r h = rw (p, q, r) tt
transition_keeps_Times _ _ _ c v t i p q r h = absurd h

closing_keeps_Times :
    (s : VisitState) (a d : Option DateTime) (c : VisitSettings) (v : Visit) (t : DateTime)
    → v.state ≡ s
    → v.arrived_at ≡ a
    → v.departed_at ≡ d
    → Times s a d
    → IsWellFormed (maybe_close_visit c v t).visit
unfolding maybe_close_visit
closing_keeps_Times s a d c v t =
    dispatch s a d (Bool-cases (reaches gap c.exit_confirm_seconds))
      (Bool-cases (reaches gap (2 * c.exit_confirm_seconds)))
  where
    gap : ℤ
    gap = elapsed t (or_else v.last_seen_at t)

    dispatch :
        (s : VisitState) (a d : Option DateTime)
        → (reaches gap c.exit_confirm_seconds ≡ true) ⊎ (reaches gap c.exit_confirm_seconds ≡ false)
        → (reaches gap (2 * c.exit_confirm_seconds) ≡ true)
          ⊎ (reaches gap (2 * c.exit_confirm_seconds) ≡ false)
        → v.state ≡ s
        → v.arrived_at ≡ a
        → v.departed_at ≡ d
        → Times s a d
        → IsWellFormed (maybe_close_visit c v t).visit
    dispatch entering none none _ _ p q r h = rw (p, q, r) tt
    dispatch present (some x) none (inl y) (inl z) p q r h = rw (p, y, z, q) tt
    dispatch present (some x) none (inl y) (inr z) p q r h = rw (p, y, z, q, r) tt
    dispatch present (some x) none (inr y) _ p q r h = rw (p, y, q, r) tt
    dispatch leaving (some x) none _ (inl z) p q r h = rw (p, z, q) tt
    dispatch leaving (some x) none _ (inr z) p q r h = rw (p, z, q, r) tt
    dispatch closed (some x) (some y) _ _ p q r h = rw (p, q, r) tt
    dispatch _ _ _ _ _ p q r h = absurd h

pub apply-IsWellFormed :
    (c : VisitSettings) (v : Visit) (t : DateTime) (i : Option ℕ)
    → IsWellFormed v
    → IsWellFormed (apply_state_transition c v t i).visit
apply-IsWellFormed c v t i =
    transition_keeps_Times v.state v.arrived_at v.departed_at c v t i refl refl refl

pub close-IsWellFormed :
    (c : VisitSettings) (v : Visit) (t : DateTime)
    → IsWellFormed v
    → IsWellFormed (maybe_close_visit c v t).visit
close-IsWellFormed c v t =
    closing_keeps_Times v.state v.arrived_at v.departed_at c v t refl refl refl

pub apply-IsKept :
    (c : VisitSettings) (v : Visit) (t : DateTime) (i : Option ℕ)
    → IsKept v (apply_state_transition c v t i).visit
unfolding apply_state_transition
apply-IsKept c v t i = ground arith

pub close-IsKept :
    (c : VisitSettings) (v : Visit) (t : DateTime) → IsKept v (maybe_close_visit c v t).visit
unfolding maybe_close_visit
close-IsKept c v t = ground arith

pub apply-deleted :
    (c : VisitSettings) (v : Visit) (t : DateTime) (i : Option ℕ)
    → (apply_state_transition c v t i).deleted ≡ false
unfolding apply_state_transition
apply-deleted c v t i = ground arith
