-- ===== src/Event/Store.antt =====
-- `EventService` of src/services/event_service.py, over src/repositories/event.py: the rows of the
-- `events` table in the order of their ids. The video that a new row names is taken to exist.
use portfolio_cv_project.Common.{ℕ, suc, ◌+◌, List, [], ◌∷◌, ◌++◌, some, length}
use portfolio_cv_project.Clock.{naive, to_naive_utc}
use portfolio_cv_project.Event.{EventCreate, Event}

pub record Events : Type 0 where
  pub rows : List Event
  pub next_id : ℕ

-- `Event(**data)` with the time as naive UTC, under an id.
abbrev pub event_row : ℕ → EventCreate → Event
event_row i p = record {
  id = some i;
  video_file_id = p.video_file_id;
  tractor_id = p.tractor_id;
  aruco_id = p.aruco_id;
  event_type = p.event_type;
  detector_method = p.detector_method;
  inside_roi = p.inside_roi;
  frame_number = p.frame_number;
  timestamp_in_video = p.timestamp_in_video;
  wall_clock_at = naive (to_naive_utc p.wall_clock_at);
  confidence = p.confidence;
  bbox = p.bbox;
  detector_metadata = p.detector_metadata;
}

unfoldable pub create : EventCreate → Events → Event × Events
create p t =
    let e = event_row t.next_id p in
    (e, record { rows = t.rows ++ (e ∷ []); next_id = t.next_id + 1 })

-- The rows in the order in which they were added, under consecutive ids.
abbrev pub numbered : ℕ → List EventCreate → List Event
numbered i [] = []
numbered i (p ∷ ps) = event_row i p ∷ numbered (suc i) ps

unfoldable pub create_many : List EventCreate → Events → List Event × Events
create_many payloads t =
    let created = numbered t.next_id payloads in
    (created, record { rows = t.rows ++ created; next_id = t.next_id + length payloads })
