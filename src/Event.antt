-- ===== src/Event.antt =====
-- Rows of the `events` table: src/models/event.py and src/schemas/event.py. A float is a count of
-- millionths; the detector's metadata is a list of flags.
pub mod Store
pub mod Ingest
pub mod Feed
pub mod Gathered
use portfolio_cv_project.Common.{ℕ, Bool, List, Option}
use portfolio_cv_project.Clock.{DateTime}

pub data EventType : Type 0 where
  entry exit detected : EventType

pub data DetectorMethod : Type 0 where
  aruco yolo_aruco color_class reid fallback : DetectorMethod

pub record Bbox : Type 0 where
  pub x : ℕ
  pub y : ℕ
  pub w : ℕ
  pub h : ℕ

-- `EventCreate`: what the recogniser hands to the event service.
pub record EventCreate : Type 0 where
  pub video_file_id : ℕ
  pub tractor_id : Option ℕ
  pub aruco_id : Option ℕ
  pub event_type : EventType
  pub detector_method : DetectorMethod
  pub inside_roi : Bool
  pub frame_number : ℕ
  pub timestamp_in_video : ℕ
  pub wall_clock_at : DateTime
  pub confidence : Option ℕ
  pub bbox : Option Bbox
  pub detector_metadata : Option (List Bool)

-- `Event`: a stored row, with the key that the database gave it.
pub record Event : Type 0 where
  pub id : Option ℕ
  pub video_file_id : ℕ
  pub tractor_id : Option ℕ
  pub aruco_id : Option ℕ
  pub event_type : EventType
  pub detector_method : DetectorMethod
  pub inside_roi : Bool
  pub frame_number : ℕ
  pub timestamp_in_video : ℕ
  pub wall_clock_at : DateTime
  pub confidence : Option ℕ
  pub bbox : Option Bbox
  pub detector_metadata : Option (List Bool)
