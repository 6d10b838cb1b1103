-- ===== src/Router/Videos.antt =====
-- The video endpoints that take no upload: src/router/v1/video.py, and the tick of
-- src/router/v1/scheduler.py. Each request has a session of its own.
pub mod Settled
use portfolio_cv_project.Common.{
  any, ◌==◌, false, integrity_error, ℕ, Bool, true, List, [], ◌∷◌, Option, none, some, Result, ok,
  raise, Text, find, take, drop,
}
use portfolio_cv_project.Clock.{DateTime}
use portfolio_cv_project.Event.Ingest.{Reply, replied, http, failed}
use portfolio_cv_project.Farm.{Station}
use portfolio_cv_project.Farm.Table.{Table}
use portfolio_cv_project.Farm.Stations.{get_by_code}
use portfolio_cv_project.Video.{VideoFile}
use portfolio_cv_project.Video.Session.{Session, Run, has_id}
use portfolio_cv_project.Video.Session
use portfolio_cv_project.Video.Service.{Disk, Answer, answer, unprocessable, not_acceptable}
use portfolio_cv_project.Video.Handler.{Pipeline, Handled, handle_video, process_video_background}
use portfolio_cv_project.Video.Scheduler.{SchedulerSettings, Summary, tick}

-- The end of `get_async_session`.
abbrev pub end_session : {A : Type 0} → Reply A × Session → Reply A × Session
end_session (replied a, s) = (replied a, record s { committed = s.rows })
end_session (http n, s) = (http n, record s { rows = s.committed })
end_session (failed e, s) = (failed e, record s { rows = s.committed })

unfoldable pub list_videos : ℕ → ℕ → Session → Reply (List VideoFile) × Session
list_videos limit offset s = (replied (Session.list limit offset s.rows), s)

abbrev pub found_or_404 : Option VideoFile → Reply VideoFile
found_or_404 none = http 404
found_or_404 (some v) = replied v

unfoldable pub get_video : ℕ → Session → Reply VideoFile × Session
get_video video_id s = (found_or_404 (find (has_id video_id) s.rows), s)

-- The form of `POST /v1/videos/handle`.
pub record HandleForm : Type 0 where
  pub filepath : Text
  pub station_id : Option ℕ
  pub station_code : Option Text
  pub started_at : DateTime
  pub ended_at : DateTime

abbrev pub known : Option Station → Option (Option ℕ)
known none = none
known (some s) = some (some s.id)

-- The station of the form, or None where its code is unknown. An empty code is falsy.
abbrev pub station_for : Option ℕ → Option Text → Table Station → Option (Option ℕ)
station_for (some i) code stations = some (some i)
station_for none none stations = some none
station_for none (some []) stations = some none
station_for none (some (k ∷ ks)) stations = known (get_by_code (k ∷ ks) stations)

abbrev pub to_reply : {A : Type 0} → Result (Answer A) × Session → Reply A × Session
to_reply (ok (answer a), s) = (replied a, s)
to_reply (ok unprocessable, s) = (http 422, s)
to_reply (ok (not_acceptable _), s) = (http 406, s)
to_reply (raise e, s) = (failed e, s)

-- Whether the foreign key of `video_files.station_id` finds its row.
abbrev pub refers : Option ℕ → Table Station → Bool
refers none stations = true
refers (some i) stations = any (λ s. s.id == i) stations.rows

-- The flush of a new row whose station does not exist is refused. It is the last thing before the
-- answer of a video to be run in the background, and no other answer has flushed a row.
abbrev pub with_foreign_key :
    {A : Type 0} → Bool → Session → Result (Answer A) × Session → Result (Answer A) × Session
with_foreign_key true before r = r
with_foreign_key false before (ok (answer a), s) = (raise integrity_error, before)
with_foreign_key false before (ok unprocessable, s) = (ok unprocessable, s)
with_foreign_key false before (ok (not_acceptable i), s) = (ok (not_acceptable i), s)
with_foreign_key false before (raise e, s) = (raise e, s)

abbrev pub with_station :
    Pipeline
    → Disk
    → HandleForm
    → Table Station
    → Option (Option ℕ)
    → Session
    → Reply Handled × Session
with_station p disk form stations none s = (http 422, s)
with_station p disk form stations (some station_id) s = to_reply (
    with_foreign_key (refers station_id stations) s
      (handle_video p disk form.filepath station_id form.started_at form.ended_at true s))

unfoldable pub handle_video_endpoint :
    Pipeline → Disk → HandleForm → Table Station → Session → Reply Handled × Session
handle_video_endpoint p disk form stations s =
    with_station p disk form stations (station_for form.station_id form.station_code stations) s

-- One request to the endpoint.
unfoldable pub post_handle :
    Pipeline → Disk → HandleForm → Table Station → Session → Reply Handled × Session
unfolding handle_video_endpoint
post_handle p disk form stations s = end_session (handle_video_endpoint p disk form stations s)

-- `_background_process`, which Starlette runs after the answer.
unfoldable pub background_process : Pipeline → ℕ → Text → Run (Unit {0})
unfolding process_video_background
background_process p video_id storage_uri = process_video_background p video_id storage_uri

-- `POST /v1/admin/scheduler/tick`.
unfoldable pub tick_now : SchedulerSettings → Disk → Pipeline → Run Summary
unfolding tick
tick_now c disk p = tick c disk p
