-- ===== src/Router/Status.antt =====
-- The read-only endpoints of src/router/v1/status.py; the stream is that of Sse. The answers to
-- `current_tractors` and `current_tractor` are those of Visit/Lifecycle.
use portfolio_cv_project.Common.{ℕ, leb, ◌&&◌, List, Option, if◌then◌else◌}
use portfolio_cv_project.Clock.{DateTime}
use portfolio_cv_project.Event.Ingest.{Reply, replied, http}
use portfolio_cv_project.Farm.{Station, Tractor}
use portfolio_cv_project.Visit.{Visit}
use portfolio_cv_project.Visit.Store.{World}
use portfolio_cv_project.Visit.Lifecycle.{TractorStatus, get_current_tractors, get_current_tractor}
use portfolio_cv_project.Visit.Board.{StationEntry, get_current_stations, get_history}

unfoldable pub current_tractors : DateTime → World → List TractorStatus
unfolding get_current_tractors
current_tractors now w = get_current_tractors now w

unfoldable pub current_tractor : DateTime → ℕ → World → TractorStatus
unfolding get_current_tractor
current_tractor now tractor_id w = get_current_tractor now tractor_id w

unfoldable pub current_stations : DateTime → List Station → List Tractor → World → List StationEntry
unfolding get_current_stations
current_stations now stations tractors w = get_current_stations now stations w.rows tractors

-- `Query(ge=1, le=500)`.
unfoldable pub visits_history :
    (ℕ → ℕ) → Option ℕ → Option ℕ → ℕ → ℕ → List Visit → Reply (List Visit)
unfolding get_history
visits_history rank tractor_id station_id limit offset rows =
    if leb 1 limit && leb limit 500
    then replied (get_history rank tractor_id station_id limit offset rows)
    else http 422
