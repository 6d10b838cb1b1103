-- ===== src/Tests/Rules.antt =====
-- The rules that change one visit, on a visit that is PRESENT and on one that is ENTERING.
use portfolio_cv_project.Common.{◌*◌, ◌≡◌, refl, ◌↔◌, inl, false, none, some}
use portfolio_cv_project.Clock.{naive}
use portfolio_cv_project.Visit.{present, closed}
use portfolio_cv_project.Visit.Machine.{maybe_close_visit, apply_state_transition}
use portfolio_cv_project.Visit.Exit.{QuietFor, maybe_close_visit-closed_iff}
use portfolio_cv_project.Visit.Graph.{WalksFrom, walks}
use portfolio_cv_project.Tests.Visits.{second, settings, here}

maybe_close_visit-closed_iff_example :
    (((maybe_close_visit settings here (naive (30 * second))).visit.state ≡ closed)
      ↔ QuietFor (20 * second) here (naive (30 * second)))
    × ((maybe_close_visit settings here (naive (30 * second))).visit.state ≡ closed
        → (maybe_close_visit settings here (naive (30 * second))).visit.departed_at
          ≡ some (naive (13 * second)))
    × ((maybe_close_visit settings here (naive (30 * second))).visit.arrived_at
        ≡ some (naive (2 * second)))
    × ((maybe_close_visit settings here (naive (30 * second))).deleted ≡ false)
maybe_close_visit-closed_iff_example =
    maybe_close_visit-closed_iff settings here (naive (30 * second)) (inl refl)

walks_example :
    WalksFrom present (apply_state_transition settings here (naive 0) none)
    × WalksFrom present (maybe_close_visit settings here (naive 0))
walks_example = walks settings here (naive 0) none
