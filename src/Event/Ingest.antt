-- ===== src/Event/Ingest.antt =====
-- The endpoint `POST /v1/events/ingest`: `ingest_edge_batch` of src/router/v1/events.py, with
-- src/schemas/edge_ingest.py, and the session that `get_async_session` of src/dependencies.py gives
-- a request.
use portfolio_cv_project.Common.{
  ℕ, leb, Bool, ◌&&◌, List, [], ◌∷◌, map, Option, none, some, if◌then◌else◌, length, Result, ok,
  raise, Error, Text,
}
use portfolio_cv_project.Clock.{DateTime}
use portfolio_cv_project.Event.{EventCreate, Bbox, detected, aruco}
use portfolio_cv_project.Event.Store.{Events, create_many}
use portfolio_cv_project.Farm.{Station}
use portfolio_cv_project.Farm.Table.{Table}
use portfolio_cv_project.Farm.Stations.{get_by_code}
use portfolio_cv_project.Video.{VideoFile}
use portfolio_cv_project.Video.Session.{Session}
use portfolio_cv_project.Video.Service.{
  Disk, Answer, answer, unprocessable, not_acceptable, get_or_create_edge_sentinel,
}

pub record EdgeEvent : Type 0 where
  pub aruco_id : Option ℕ
  pub confidence : Option ℕ
  pub bbox : Option Bbox
  pub inside_roi : Bool
  pub frame_number : ℕ
  pub timestamp_in_video : ℕ
  pub detector_metadata : Option (List Bool)

pub record EdgeBatch : Type 0 where
  pub station_code : Text
  pub started_at : DateTime
  pub ended_at : DateTime
  pub events : List EdgeEvent

pub record EdgeBatchOut : Type 0 where
  pub video_file_id : ℕ
  pub events_created : ℕ
  pub sentinel_created : Bool

-- What a request answers: a value, the status of an HTTPException, or another exception.
pub data Reply (A : Type 0) : Type 0 where
  replied : A → Reply A
  http : ℕ → Reply A
  failed : Error → Reply A

-- The tables that the endpoint reads and writes.
pub record Base : Type 0 where
  pub stations : Table Station
  pub videos : Session
  pub events : Events

-- The bounds that pydantic checks before the handler runs.
abbrev pub is_acceptable : EdgeBatch → Bool
is_acceptable p =
    leb 1 (length p.station_code) && leb (length p.station_code) 64 && leb (length p.events) 10000

abbrev pub event_of : ℕ → EdgeBatch → EdgeEvent → EventCreate
event_of sentinel_id p e = record {
  video_file_id = sentinel_id;
  tractor_id = none;
  aruco_id = e.aruco_id;
  event_type = detected;
  detector_method = aruco;
  inside_roi = e.inside_roi;
  frame_number = e.frame_number;
  timestamp_in_video = e.timestamp_in_video;
  wall_clock_at = p.ended_at;
  confidence = e.confidence;
  bbox = e.bbox;
  detector_metadata = e.detector_metadata;
}

-- The rest of the handler, under the sentinel.
abbrev pub with_sentinel :
    EdgeBatch → Base → Result (Answer (VideoFile × Bool)) × Session → Reply EdgeBatchOut × Base
with_sentinel p b (raise e, s) = (failed e, record b { videos = s })
with_sentinel p b (ok unprocessable, s) = (http 422, record b { videos = s })
with_sentinel p b (ok (not_acceptable _), s) = (http 406, record b { videos = s })
with_sentinel p b (ok (answer (sentinel, created_now)), s) = elim p.events [
  | [] ↦ (
    replied (record {
      video_file_id = sentinel.id;
      events_created = 0;
      sentinel_created = created_now;
    }),
    record b { videos = s },
  )
  | _ ∷ _ ↦
      let (made, events) = create_many (map (event_of sentinel.id p) p.events) b.events in
      (
        replied (record {
          video_file_id = sentinel.id;
          events_created = length made;
          sentinel_created = created_now;
        }),
        record b { videos = s; events = events },
      )
]

unfoldable pub ingest_edge_batch : Disk → EdgeBatch → Base → Reply EdgeBatchOut × Base
ingest_edge_batch disk p b = elim (get_by_code p.station_code b.stations) [
  | none ↦ (http 404, b)
  | some station ↦
      with_sentinel p b (
        get_or_create_edge_sentinel disk station.id p.station_code p.started_at p.ended_at b.videos)
]

-- The end of `get_async_session`: a commit, or a rollback to the tables before, sequences excepted.
abbrev pub end_session : {A : Type 0} → Base → Reply A × Base → Reply A × Base
end_session before (replied a, b) =
    (replied a, record b { videos = record b.videos { committed = b.videos.rows } })
end_session before (http n, b) = (
  http n,
  record b {
    videos = record b.videos { rows = b.videos.committed };
    events = record b.events { rows = before.events.rows };
  },
)
end_session before (failed e, b) = (
  failed e,
  record b {
    videos = record b.videos { rows = b.videos.committed };
    events = record b.events { rows = before.events.rows };
  },
)

-- One request to the endpoint.
unfoldable pub post_ingest : Disk → EdgeBatch → Base → Reply EdgeBatchOut × Base
post_ingest disk p b =
    if is_acceptable p then end_session b (ingest_edge_batch disk p b) else (http 422, b)
