-- ===== src/Tests/Lives.antt =====
-- A video that is handed to the API, what its answers and its scheduler make of it, and a paced loop.
use portfolio_cv_project.Common.{◌≡◌, refl, true, [], ◌∷◌, none, some, arith, ok}
use portfolio_cv_project.Clock.{naive}
use portfolio_cv_project.Event.Ingest.{http}
use portfolio_cv_project.Farm.{unset, null, given}
use portfolio_cv_project.Farm.Table.{get}
use portfolio_cv_project.Farm.Stations.{StationUpdate, get_by_code}
use portfolio_cv_project.Video.{processing, completed}
use portfolio_cv_project.Video.Marking.{marked}
use portfolio_cv_project.Video.Stale.{mark_stale_videos_lem}
use portfolio_cv_project.Video.Scheduler.{mark_stale_videos}
use portfolio_cv_project.Ingest.Produce.{forward_video_to_api, forwarded}
use portfolio_cv_project.Ingest.Journey.{Item, params, on_wire, forward_video_to_api-post_handle}
use portfolio_cv_project.Edge.Pacing.{timed_out, IsSpaced, later, loop_starts, loop_starts-IsSpaced}
use portfolio_cv_project.Video.Handler.{Pipeline}
use portfolio_cv_project.Video.Scheduler.{SchedulerSettings}
use portfolio_cv_project.Video.Session.{Session}
use portfolio_cv_project.Router.Videos.{HandleForm, post_handle}
use portfolio_cv_project.Router.Farm.{create_station, update_station}
use portfolio_cv_project.Router.Farm.Taken.{station_code_taken}
use portfolio_cv_project.Tests.Videos.{disk, session, video}
use portfolio_cv_project.Tests.Farms.{stations, north, south}

abbrev active : SchedulerSettings
active = record { scheduler_activate = true; stale_threshold = 1800; max_retry_attempts = 3 }

abbrev pipeline : Pipeline
pipeline = record {
  worker = λ uri. ok (record { events = 1; frames = 9; triggers = 2 });
  persist = λ i n s. (ok tt, s);
}

abbrev form : HandleForm
form = record {
  filepath = b'b' ∷ [];
  station_id = none;
  station_code = some (b's' ∷ []);
  started_at = naive 10;
  ended_at = naive 40;
}

abbrev to_south : StationUpdate
to_south = record {
  code = given (b's' ∷ []);
  name = unset;
  location = null;
  video_dir = unset;
  roi_polygon = unset;
  is_entry_zone = unset;
  is_active = unset;
}

station_code_taken_example :
    (create_station south stations ≡ (http 409, stations))
    × (update_station 1 to_south stations ≡ (http 500, stations))
unfolding get get_by_code
station_code_taken_example =
    station_code_taken stations 1 to_south south north south refl refl (omega arith) refl

abbrev waiting : Session
waiting = record {
  rows = [];
  committed =
      record video { status = processing } ∷ record video { id = 2; status = completed } ∷ [];
  next_id = 3;
  now = 5000;
}

mark_stale_videos_lem_example :
    ((mark_stale_videos active waiting).0 ≡ ok 1)
    × ((mark_stale_videos active waiting).1.committed
        ≡ marked 5000 (record video { status = processing })
          ∷ record video { id = 2; status = completed }
          ∷ [])
mark_stale_videos_lem_example =
    mark_stale_videos_lem active waiting (refl, (refl, tt)) (refl, (refl, tt))

abbrev item : Item
item = record { storage_path = b'b' ∷ []; station_code = b's' ∷ []; begin_ts = naive 10 }

forward_video_to_api-post_handle_example :
    forward_video_to_api (on_wire (post_handle pipeline disk (params 30 item) stations session))
    ≡ forwarded
unfolding get_by_code
forward_video_to_api-post_handle_example =
    forward_video_to_api-post_handle pipeline disk 30 item (omega arith) session stations b's' []
      refl

-- Ten frames a second, one slow frame, and a wait that oversleeps.
loop_starts-IsSpaced_example : IsSpaced 100000 0 (
    later (
      loop_starts 100 0 (
        record { elapsed = 30000; wait = timed_out 7 }
        ∷ record { elapsed = 250000; wait = timed_out 0 }
        ∷ [])))
loop_starts-IsSpaced_example = loop_starts-IsSpaced 100 0 (
    record { elapsed = 30000; wait = timed_out 7 }
    ∷ record { elapsed = 250000; wait = timed_out 0 }
    ∷ [])
