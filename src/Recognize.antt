-- ===== src/Recognize.antt =====
-- The recognition of one video, from the worker's events to the rows of `events` and `visits`:
-- `recognize_video` and `_aggregate_visits` of src/services/video_handler.py, over all the tables of
-- the session.
pub mod Markers
use portfolio_cv_project.Common.{
  ℕ, suc, ◌+◌, ◌==◌, Bool, true, false, List, [], ◌∷◌, ◌++◌, map, Option, none, some, if◌then◌else◌,
  length, Result, ok, raise, ◌>>=◌, find, Text,
}
use portfolio_cv_project.Clock.{DateTime, aware}
use portfolio_cv_project.Event.{EventCreate, Event, Bbox, detected, aruco}
use portfolio_cv_project.Event.Store.{Events, create_many}
use portfolio_cv_project.Farm.{Station, Tractor}
use portfolio_cv_project.Farm.Table.{Table}
use portfolio_cv_project.Farm.Tractors.{get_by_any_aruco_id}
use portfolio_cv_project.Video.{VideoFile}
use portfolio_cv_project.Video.Session.{Session, has_id}
use portfolio_cv_project.Video.Service.{update_counters}
use portfolio_cv_project.Visit.{VisitSettings}
use portfolio_cv_project.Visit.Store.{World, Database}
use portfolio_cv_project.Visit.Process.{process_video_for_visits}
use portfolio_cv_project.Detect.Frame.{Point, roi_checker}
use portfolio_cv_project.Detect.Pipeline.{DetectionEvent}

pub record Stores : Type 0 where
  pub tractors : Table Tractor
  pub videos : Session
  pub events : Events
  pub visits : World

-- The dict `aruco_to_tractor`, latest first: a key is stored once.
abbrev pub Cache : Type 0
Cache = List (ℕ × ℕ)

abbrev pub cached : ℕ → Cache → Option ℕ
cached m [] = none
cached m ((n, i) ∷ d) = if n == m then some i else cached m d

abbrev pub looked_up : ℕ → Cache → Option Tractor → Option ℕ × Cache
looked_up m d none = (none, d)
looked_up m d (some t) = (some t.id, (m, t.id) ∷ d)

-- The tractor of a marker; only a hit is kept.
unfoldable pub resolve : Table Tractor → Option ℕ → Cache → Option ℕ × Cache
resolve tractors none d = (none, d)
resolve tractors (some m) d = elim (cached m d) [
  | some i ↦ (some i, d)
  | none ↦ looked_up m d (get_by_any_aruco_id m tractors)
]

-- `EventCreate` of a detection, at the instant that the clock shows.
abbrev pub payload_of : ℕ → Option ℕ → ℕ → DetectionEvent → EventCreate
payload_of video_id tractor_id now ev = record {
  video_file_id = video_id;
  tractor_id = tractor_id;
  aruco_id = ev.aruco_id;
  event_type = detected;
  detector_method = aruco;
  inside_roi = ev.inside_roi;
  frame_number = ev.frame_number;
  timestamp_in_video = ev.timestamp_in_video;
  wall_clock_at = aware now;
  confidence = some ev.confidence;
  bbox = ev.bbox;
  detector_metadata = some (ev.triggered_by_mog2 ∷ []);
}

-- The loop that builds the payloads; `clock n` is what the n-th reading of the clock shows.
unfoldable pub build_payloads :
    Table Tractor → (ℕ → ℕ) → ℕ → ℕ → List DetectionEvent → Cache → List EventCreate
build_payloads tractors clock video_id n [] d = []
build_payloads tractors clock video_id n (ev ∷ evs) d =
    let (tractor_id, d') = resolve tractors ev.aruco_id d in
    payload_of video_id tractor_id (clock n) ev
    ∷ build_payloads tractors clock video_id (suc n) evs d'

-- `_aggregate_visits`: the video is read again.
unfoldable pub aggregate_visits :
    Database → VisitSettings → ℕ → Option ℕ → List Event → Session → World → Result World
aggregate_visits db c video_id none persisted s w = ok w
aggregate_visits db c video_id (some station_id) [] s w = ok w
aggregate_visits db c video_id (some station_id) (e ∷ es) s w =
    elim (find (has_id video_id) s.rows) [
      | none ↦ ok w
      | some v ↦ process_video_for_visits db c v.station_id (e ∷ es) w
    ]

abbrev pub Counters : Type 0
Counters = ℕ × ℕ × ℕ

-- An empty polygon is falsy.
abbrev pub roi_of : Option Station → Option (List Point)
roi_of none = none
roi_of (some s) = roi_checker s.roi_polygon

abbrev pub station_id : Option Station → Option ℕ
station_id none = none
station_id (some s) = some s.id

-- What the caller had committed before the counters and the events, after a rollback: ids stay used.
abbrev pub rolled_back : Stores → Stores → Stores
rolled_back before st = record st {
  videos = record st.videos { rows = st.videos.committed };
  events = record st.events { rows = before.events.rows };
}

-- A failed aggregation leaves the session to the caller's rollback. In one that returns, the rollback
-- of an insert that lost has taken back the counters and the events too.
abbrev pub aggregated : Counters → Stores → Stores → Result World → Result Counters × Stores
aggregated n before st (ok w) = (
  ok n,
  record (if w.rollbacks == before.visits.rollbacks then st else rolled_back before st) {
    visits = w;
  },
)
aggregated n before st (raise e) = (raise e, st)

module _ (db : Database) (c : VisitSettings) (clock : ℕ → ℕ) where
  -- The events to the tables, once the counters are stored.
  abbrev pub persist :
      ℕ
      → Option Station
      → List DetectionEvent
      → ℕ
      → ℕ
      → Result VideoFile × Session
      → Stores
      → Result Counters × Stores
  persist video_id station evs frames triggers (raise e, s) st = (raise e, record st { videos = s })
  persist video_id station [] frames triggers (ok _, s) st =
      (ok (0, frames, triggers), record st { videos = s })
  persist video_id station (ev ∷ evs) frames triggers (ok _, s) st =
      let payloads = build_payloads st.tractors clock video_id 0 (ev ∷ evs) [] in
      let (persisted, events) = create_many payloads st.events in
      aggregated (length (ev ∷ evs), frames, triggers) st
        (record st { videos = s; events = events })
        (aggregate_visits db c video_id (station_id station) persisted s st.visits)

  abbrev pub recognized :
      ℕ → Option Station → Result (List DetectionEvent × ℕ × ℕ) → Stores → Result Counters × Stores
  recognized video_id station (raise e) st = (raise e, st)
  recognized video_id station (ok (evs, frames, triggers)) st =
      persist video_id station evs frames triggers
        (update_counters video_id frames triggers (length evs) st.videos) st

  unfoldable pub recognize_video :
      (Text → Option (List Point) → Result (List DetectionEvent × ℕ × ℕ))
      → ℕ
      → Text
      → Option Station
      → Stores
      → Result Counters × Stores
  recognize_video worker video_id uri station st =
      recognized video_id station (worker uri (roi_of station)) st
