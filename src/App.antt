-- ===== src/App.antt =====
-- The API process over its life: src/main.py, with the visits that its tasks and requests share and
-- the retry scheduler that it starts and stops.
use portfolio_cv_project.Common.{ℕ, max, Bool, true, false, List, [], ◌∷◌, Error}
use portfolio_cv_project.Clock.{DateTime}
use portfolio_cv_project.Event.Ingest.{Reply, replied, http}
use portfolio_cv_project.Visit.{VisitSettings}
use portfolio_cv_project.Visit.Store.{World}
use portfolio_cv_project.Visit.Lifecycle.{check_stale_visits, recover_open_visits}
use portfolio_cv_project.Video.Scheduler.{SchedulerSettings}
use portfolio_cv_project.Video.Switch.{Switch, start, stop}

-- `max(stale_check_interval_seconds, 0.5)`, in microseconds.
abbrev pub stale_check_interval : ℕ → ℕ
stale_check_interval seconds = max seconds 500000

-- A session on the visits sees what is committed, and leaving it drops what is not.
abbrev pub in_new_session : World → World
in_new_session w = record w { rows = w.committed }

-- One round of `_visit_stale_check_loop`, after the sleep or in it: the time of its check, with the
-- table that the other sessions have committed by then.
pub data Round : Type 0 where
  due : DateTime → World → Round
  broken : Error → Round
  cancelled : Round

-- The tables that the checks leave, each in a session of its own. An exception is logged and the loop
-- goes on; a cancellation ends it.
unfoldable pub visit_stale_check_loop : VisitSettings → List Round → List World
visit_stale_check_loop c [] = []
visit_stale_check_loop c (due now w ∷ rounds) =
    in_new_session (check_stale_visits c now (in_new_session w)).0 ∷ visit_stale_check_loop c rounds
visit_stale_check_loop c (broken e ∷ rounds) = visit_stale_check_loop c rounds
visit_stale_check_loop c (cancelled ∷ rounds) = []

pub record App : Type 0 where
  pub visits : World
  pub is_checking : Bool
  pub scheduler : Switch

-- `lifespan` up to its `yield`.
unfoldable pub startup : VisitSettings → SchedulerSettings → DateTime → App → App
startup c settings now a = record {
  visits = in_new_session (recover_open_visits c now (in_new_session a.visits)).0;
  is_checking = true;
  scheduler = start settings a.scheduler;
}

-- Its `finally`.
unfoldable pub shutdown : App → App
shutdown a = record a { is_checking = false; scheduler = stop a.scheduler }

-- `health`, by whether `SELECT 1` raises a database error.
abbrev pub health : Bool → Reply (Unit {0})
health true = replied tt
health false = http 503
