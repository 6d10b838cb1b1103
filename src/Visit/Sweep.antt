-- ===== src/Visit/Sweep.antt =====
-- The periodic check as one pass over the table.
use portfolio_cv_project.Common.{
  ℕ, ◌+◌, ◌≤◌, ◌≡◌, Bool, not, ◌&&◌, List, [], ◌∷◌, ◌++◌, if◌then◌else◌, tally, keep,
}
use portfolio_cv_project.Clock.{DateTime}
use portfolio_cv_project.Visit.{Visit, is_open, VisitSettings}
use portfolio_cv_project.Visit.Machine.{maybe_close_visit}
use portfolio_cv_project.Visit.Store.{World, has_id}
use portfolio_cv_project.Visit.Lifecycle.{is_active, check_loop}

module _ (c : VisitSettings) (now : DateTime) where
  -- One row after the exit check: gone, changed, or as it was.
  abbrev pub swept : Visit → List Visit
  swept v =
      let e = maybe_close_visit c v now in
      if is_active v.state then (if e.deleted then [] else e.visit ∷ []) else v ∷ []

  abbrev pub sweep : List Visit → List Visit
  sweep [] = []
  sweep (v ∷ vs) = swept v ++ sweep vs

  -- The rows that the check closes.
  abbrev pub is_closing : Visit → Bool
  is_closing v = is_active v.state && not (is_open (maybe_close_visit c v now).visit.state)

  abbrev Distinct : List Visit → Type 0
  Distinct rows = (i : ℕ) → tally (has_id i) rows ≤ 1

  -- The loop over `visits`, from the rows `done ++ vs`, ends as a sweep of `vs`.
  abbrev Sweeps : List Visit → List Visit → List Visit → World → ℕ → Type 0
  Sweeps visits done vs w n =
      ((check_loop c now visits w n).0.rows ≡ done ++ sweep vs)
      × ((check_loop c now visits w n).1 ≡ n + tally is_closing vs)

  abbrev active_of : List Visit → List Visit
  active_of = keep (λ v. is_active v.state)
