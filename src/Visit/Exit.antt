-- ===== src/Visit/Exit.antt =====
-- When `_maybe_close_visit` closes, deletes or keeps a visit.
use portfolio_cv_project.Common.{
  ℕ, ◌+◌, ◌*◌, ◌≤◌, ◌≡◌, ◌⊎◌, ◌↔◌, leb, reaches, reaches-sub_ℕ, true, false, [], ◌∷◌, some, arith,
  map,
}
use portfolio_cv_project.Clock.{DateTime, naive, to_naive_utc, elapsed, or_else}
use portfolio_cv_project.Visit.{
  VisitState, entering, present, leaving, closed, Visit, VisitSettings,
}
use portfolio_cv_project.Visit.Machine.{maybe_close_visit}

-- At time `t` a visit has not been seen for `n`.
abbrev pub QuietFor : ℕ → Visit → DateTime → Type 0
QuietFor n v t = n + to_naive_utc (or_else v.last_seen_at t) ≤ to_naive_utc t

abbrev pub IsHere : VisitState → Type 0
IsHere s = (s ≡ present) ⊎ (s ≡ leaving)

quiet_test :
    (n : ℕ) (v : Visit) (t : DateTime)
    → reaches (elapsed t (or_else v.last_seen_at t)) n
      ≡ leb (n + to_naive_utc (or_else v.last_seen_at t)) (to_naive_utc t)
quiet_test n v t = reaches-sub_ℕ _ _ n

age_test :
    (n : ℕ) (v : Visit) (t : DateTime)
    → reaches (elapsed t (or_else v.created_at t)) n
      ≡ leb (n + to_naive_utc (or_else v.created_at t)) (to_naive_utc t)
age_test n v t = reaches-sub_ℕ _ _ n

module _ (c : VisitSettings) (v : Visit) (t : DateTime) where
  -- A PRESENT or LEAVING visit is closed exactly when it has been quiet for twice the exit time.
  -- It is then closed with the departure at the exit time after the last sighting, and its arrival
  -- is kept; it is never deleted.
  pub maybe_close_visit-closed_iff :
      IsHere v.state
      → (((maybe_close_visit c v t).visit.state ≡ closed)
          ↔ QuietFor (2 * c.exit_confirm_seconds) v t)
        × ((maybe_close_visit c v t).visit.state ≡ closed
            → (maybe_close_visit c v t).visit.departed_at
              ≡ some (naive (to_naive_utc (or_else v.last_seen_at t) + c.exit_confirm_seconds)))
        × ((maybe_close_visit c v t).visit.arrived_at ≡ v.arrived_at)
        × ((maybe_close_visit c v t).deleted ≡ false)
  unfolding maybe_close_visit
  maybe_close_visit-closed_iff here = (
    (
      λ e. ground (arith, quiet_test one v t, quiet_test two v t),
      λ q. ground (arith, quiet_test one v t, quiet_test two v t),
    ),
    λ e. ground (arith, quiet_test one v t, quiet_test two v t),
    ground arith,
    ground arith,
  )
    where
      one : ℕ
      one = c.exit_confirm_seconds

      two : ℕ
      two = 2 * c.exit_confirm_seconds

  -- A PRESENT visit that has been quiet for the exit time, and not for twice it, becomes LEAVING and
  -- stays open: one message says so.
  pub maybe_close_visit_leaving :
      v.state ≡ present
      → QuietFor c.exit_confirm_seconds v t
      → ¬ QuietFor (2 * c.exit_confirm_seconds) v t
      → ((maybe_close_visit c v t).visit ≡ record v { state = leaving })
        × (map (λ n. n.state) (maybe_close_visit c v t).published ≡ leaving ∷ [])
  unfolding maybe_close_visit
  maybe_close_visit_leaving here q r = (
    ground
        (arith, quiet_test c.exit_confirm_seconds v t, quiet_test (2 * c.exit_confirm_seconds) v t),
    ground
        (arith, quiet_test c.exit_confirm_seconds v t, quiet_test (2 * c.exit_confirm_seconds) v t),
  )

  -- An ENTERING visit is deleted exactly when three times the entry time has passed since its row
  -- was created, and otherwise left as it is; no message is sent.
  pub maybe_close_visit_entering :
      v.state ≡ entering
      → (((maybe_close_visit c v t).deleted ≡ true)
          ↔ (c.entry_confirm_seconds * 3 + to_naive_utc (or_else v.created_at t) ≤ to_naive_utc t))
        × ((maybe_close_visit c v t).visit ≡ v)
        × ((maybe_close_visit c v t).published ≡ [])
  unfolding maybe_close_visit
  maybe_close_visit_entering e =
      let test = age_test (c.entry_confirm_seconds * 3) v t in
      ((λ d. ground (arith, test), λ d. ground (arith, test)), ground arith, ground arith)

-- Checking again at the same time changes nothing more and publishes nothing more, unless the visit
-- is still ENTERING.
pub maybe_close_visit_again :
    (c : VisitSettings) (v : Visit) (t : DateTime)
    → let e = maybe_close_visit c v t in
      (maybe_close_visit c e.visit t).visit ≡ e.visit
      × ((maybe_close_visit c e.visit t).published ≡ [])
unfolding maybe_close_visit
maybe_close_visit_again c v t = (
  ground
      (arith, quiet_test c.exit_confirm_seconds v t, quiet_test (2 * c.exit_confirm_seconds) v t),
  ground
      (arith, quiet_test c.exit_confirm_seconds v t, quiet_test (2 * c.exit_confirm_seconds) v t),
)
