-- ===== src/Visit/Lifecycle.antt =====
-- The periodic exit check, the recovery at startup, and the status queries of
-- src/services/visit_service.py. The wall clock is an argument.
use portfolio_cv_project.Common.{
  ℕ, ◌+◌, ◌*◌, ℤ, exceeds, Bool, true, false, not, ◌&&◌, List, [], ◌∷◌, map, Option, none, some,
  keep, if◌then◌else◌, length,
}
use portfolio_cv_project.Clock.{DateTime, elapsed, or_else}
use portfolio_cv_project.Visit.{VisitState, absent, entering, closed, is_open, Visit, VisitSettings}
use portfolio_cv_project.Visit.Machine.{maybe_close_visit}
use portfolio_cv_project.Visit.Store.{
  World, list_open, list_open_for_tractor, store, delete, commit,
}

-- `list_active`: the rows in ENTERING, PRESENT or LEAVING.
abbrev pub is_active : VisitState → Bool
is_active absent = false
is_active closed = false
is_active _ = true

unfoldable pub list_active : List Visit → List Visit
list_active rows = keep (λ v. is_active v.state) rows

unfoldable pub check_loop : VisitSettings → DateTime → List Visit → World → ℕ → World × ℕ
check_loop c now [] w closed_count = (w, closed_count)
check_loop c now (v ∷ vs) w closed_count =
    let e = maybe_close_visit c v now in
    let newly = not (is_open e.visit.state) && is_open v.state in
    check_loop c now vs (store e w) (if newly then closed_count + 1 else closed_count)

-- `check_stale_visits`: the new session and the number of visits closed.
unfoldable pub check_stale_visits : VisitSettings → DateTime → World → World × ℕ
check_stale_visits c now w =
    let (w', n) = check_loop c now (list_active w.rows) w 0 in (commit w', n)

abbrev pub is_entering : VisitState → Bool
is_entering entering = true
is_entering _ = false

-- The rows that the recovery deletes.
abbrev pub is_stale_entering : VisitSettings → DateTime → Visit → Bool
is_stale_entering c now v =
    is_entering v.state
    && exceeds (elapsed now (or_else v.created_at now))
        (c.entry_confirm_seconds * c.recovery_grace_multiplier)

unfoldable pub recover_loop :
    VisitSettings → DateTime → List Visit → List Visit → ℕ → List Visit × ℕ
recover_loop c now [] rows deleted_enterings = (rows, deleted_enterings)
recover_loop c now (v ∷ vs) rows deleted_enterings =
    let stale = is_stale_entering c now v in
    recover_loop c now vs (if stale then delete v.id rows else rows)
      (if stale then deleted_enterings + 1 else deleted_enterings)

pub record Recovery : Type 0 where
  pub recovered_visits : ℕ
  pub deleted_enterings : ℕ

unfoldable pub recover_open_visits : VisitSettings → DateTime → World → World × Recovery
recover_open_visits c now w =
    let visits = list_open w.rows in
    let (rows, n) = recover_loop c now visits w.rows 0 in
    (
      commit (record w { rows = rows }),
      record { recovered_visits = length visits; deleted_enterings = n },
    )

-- One entry of the status answers; ABSENT has the tractor's id alone.
pub record TractorStatus : Type 0 where
  pub tractor_id : ℕ
  pub station_id : Option ℕ
  pub state : VisitState
  pub arrived_at : Option DateTime
  pub last_seen_at : Option DateTime
  pub current_dwell_seconds : Option ℤ

abbrev pub dwell : DateTime → Option DateTime → Option ℤ
dwell now none = none
dwell now (some arrived) = some (elapsed now arrived)

abbrev pub status_of : DateTime → Visit → TractorStatus
status_of now v = record {
  tractor_id = v.tractor_id;
  station_id = some v.station_id;
  state = v.state;
  arrived_at = v.arrived_at;
  last_seen_at = v.last_seen_at;
  current_dwell_seconds = dwell now v.arrived_at;
}

unfoldable pub get_current_tractors : DateTime → World → List TractorStatus
get_current_tractors now w = map (status_of now) (list_open w.rows)

abbrev pub absent_status : ℕ → TractorStatus
absent_status tractor_id = record {
  tractor_id = tractor_id;
  station_id = none;
  state = absent;
  arrived_at = none;
  last_seen_at = none;
  current_dwell_seconds = none;
}

abbrev pub first_status : DateTime → ℕ → List Visit → TractorStatus
first_status now tractor_id [] = absent_status tractor_id
first_status now tractor_id (v ∷ vs) = status_of now v

unfoldable pub get_current_tractor : DateTime → ℕ → World → TractorStatus
get_current_tractor now tractor_id w =
    first_status now tractor_id (list_open_for_tractor tractor_id w.rows)
