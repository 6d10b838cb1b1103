-- ===== src/Visit/Graph.antt =====
-- The edges of the visit life cycle, and that the two methods that change a state move along them.
use portfolio_cv_project.Common.{
  ℕ, ◌≡◌, refl, ◌⊎◌, inl, inr, ℤ, reaches, Bool, true, false, List, [], ◌∷◌, Option, map,
  Bool-cases, ◌*◌,
}
use portfolio_cv_project.Clock.{DateTime, elapsed, or_else}
use portfolio_cv_project.Visit.{
  VisitState, entering, present, leaving, closed, Visit, VisitSettings,
}
use portfolio_cv_project.Visit.Machine.{Effect, apply_state_transition, maybe_close_visit}

-- ENTERING → PRESENT → LEAVING → CLOSED, and LEAVING → PRESENT when the tractor comes back.
pub data Edge : VisitState → VisitState → Type 0 where
  confirm : Edge entering present
  quiet : Edge present leaving
  resume : Edge leaving present
  depart : Edge leaving closed

-- A walk along the edges, with the states that it comes to.
pub data Walk : VisitState → List VisitState → VisitState → Type 0 where
  stay : {s : VisitState} → Walk s [] s
  go : {s t u : VisitState} {ts : List VisitState} → Edge s t → Walk t ts u → Walk s (t ∷ ts) u

-- What a method published, and the state that it left, as a walk from `s`.
abbrev pub WalksFrom : VisitState → Effect → Type 0
WalksFrom s e = Walk s (map (λ n. n.state) e.published) e.visit.state

transition_walk :
    (s : VisitState) (c : VisitSettings) (v : Visit) (t : DateTime) (event_id : Option ℕ)
    → v.state ≡ s
    → WalksFrom s (apply_state_transition c v t event_id)
unfolding apply_state_transition
transition_walk entering c v t i h = elim (Bool-cases (c.reaches_entry seen)) [
  | inl a ↦ rw (h, a) (go confirm stay)
  | inr a ↦ rw (h, a) stay
]
  where
    seen : ℤ
    seen =
        c.add_seconds v.entry_seen_seconds
          (elapsed t (or_else v.last_seen_at (or_else v.created_at t)))
transition_walk present c v t i h = rw h stay
transition_walk leaving c v t i h = rw h (go resume stay)
transition_walk s c v t i h = rw h stay

closing_walk :
    (s : VisitState) (c : VisitSettings) (v : Visit) (t : DateTime)
    → v.state ≡ s
    → WalksFrom s (maybe_close_visit c v t)
unfolding maybe_close_visit
closing_walk s c v t h = dispatch s h (Bool-cases once) (Bool-cases twice)
  where
    gap : ℤ
    gap = elapsed t (or_else v.last_seen_at t)

    once : Bool
    once = reaches gap c.exit_confirm_seconds

    twice : Bool
    twice = reaches gap (2 * c.exit_confirm_seconds)

    dispatch :
        (s : VisitState)
        → v.state ≡ s
        → (once ≡ true) ⊎ (once ≡ false)
        → (twice ≡ true) ⊎ (twice ≡ false)
        → WalksFrom s (maybe_close_visit c v t)
    dispatch present h (inl a) (inl b) = rw (h, a, b) (go quiet (go depart stay))
    dispatch present h (inl a) (inr b) = rw (h, a, b) (go quiet stay)
    dispatch present h (inr a) _ = rw (h, a) stay
    dispatch leaving h _ (inl b) = rw (h, b) (go depart stay)
    dispatch leaving h _ (inr b) = rw (h, b) stay
    dispatch s h _ _ = rw h stay

-- Whatever the state, a sighting and an exit check move a visit along the edges of the life cycle
-- only, and the messages they publish are exactly the states passed through, in order.
pub walks :
    (c : VisitSettings) (v : Visit) (t : DateTime) (event_id : Option ℕ)
    → WalksFrom v.state (apply_state_transition c v t event_id)
      × WalksFrom v.state (maybe_close_visit c v t)
walks c v t event_id =
    (transition_walk v.state c v t event_id refl, closing_walk v.state c v t refl)
