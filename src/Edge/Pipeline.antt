-- ===== src/Edge/Pipeline.antt =====
-- `EdgePipeline` of edge/main.py. The awaits of the stream's loop and of the flush timer interleave:
-- a run is a list of steps, each the code between two awaits, in the order in which they happen.
-- Clock readings are microseconds of the monotonic clock.
use portfolio_cv_project.Common.{
  ℕ, ◌+◌, ◌%◌, max, ◌==◌, ℤ, sub_ℕ, Bool, true, false, not, ◌&&◌, List, [], ◌∷◌, ◌++◌, Option, none,
  some, if◌then◌else◌,
}
use portfolio_cv_project.Event.{Bbox}
use portfolio_cv_project.Mqtt.{Text}
use portfolio_cv_project.Mqtt.Topic.{edge_topic}
use portfolio_cv_project.Detect.Frame.{
  DetectorSettings, Frame, ArucoDetection, Point, trigger_detect, aruco_detect, roi_checker,
  is_inside,
}

pub record Detection : Type 0 where
  pub aruco_id : Option ℕ
  pub confidence : ℕ
  pub bbox : Option Bbox
  pub inside_roi : Bool
  pub frame_number : ℕ
  pub timestamp_in_video : ℤ
  pub triggered_by_mog2 : Bool

pub record EdgeSettings : Type 0 where
  pub station_code : Text
  pub topic_prefix : Text
  pub frame_skip : ℕ
  pub roi_polygon : Option (List Point)
  pub detector : DetectorSettings

pub record Payload : Type 0 where
  pub station_code : Text
  pub started_at : ℕ
  pub ended_at : ℕ
  pub events : List Detection

-- One call of `publish`, and whether it returned.
pub record Sent : Type 0 where
  pub topic : Text
  pub payload : Payload
  pub published : Bool

pub record Edge : Type 0 where
  pub buffer : List Detection
  pub frame_number : ℕ
  pub detector_started_at : Option ℕ
  pub last_publish_ts : ℕ
  pub sent : List Sent

-- `open_stream`: the capture opened, at a time. `read_frame`: a frame read, at the time the turn of
-- the loop began. `interval`: the timer's flush, at a time, with the outcome of its publish.
pub data Step : Type 0 where
  open_stream : ℕ → Step
  read_frame : ℕ → Frame → Step
  interval : ℕ → Bool → Step

abbrev pub started : ℕ → Edge
started now = record {
  buffer = [];
  frame_number = 0;
  detector_started_at = none;
  last_publish_ts = now;
  sent = [];
}

abbrev pub is_empty {ℓ} : {A : Type ℓ} → List A → Bool
is_empty [] = true
is_empty (x ∷ xs) = false

module _ (settings : EdgeSettings) (point_polygon_test : List Point → Point → Bool) where
  abbrev pub detection_of : ℕ → ℤ → ArucoDetection → Detection
  detection_of number timestamp det = record {
    aruco_id = det.aruco_id;
    confidence = det.confidence;
    bbox = det.bbox;
    inside_roi = is_inside point_polygon_test (roi_checker settings.roi_polygon) det.bbox;
    frame_number = number;
    timestamp_in_video = timestamp;
    triggered_by_mog2 = true;
  }

  abbrev pub append_each : ℤ → List ArucoDetection → Edge → Edge
  append_each timestamp [] edge = edge
  append_each timestamp (det ∷ dets) edge =
      append_each timestamp dets (record edge {
        buffer = edge.buffer ++ (detection_of edge.frame_number timestamp det ∷ []);
      })

  -- `_process_frame`.
  unfoldable pub process_frame : Frame → ℤ → Edge → Edge
  process_frame frame timestamp edge =
      if (trigger_detect settings.detector frame).triggered
      then append_each timestamp (aruco_detect settings.detector frame) edge
      else edge

  -- The turn of the loop of `_consume_stream`, once `_detector_started_at` is set.
  unfoldable pub consume_frame : ℕ → Frame → ℕ → Edge → Edge
  unfolding process_frame
  consume_frame loop_start frame started_at edge =
      let taken = process_frame frame (sub_ℕ loop_start started_at) edge in
      let next = if edge.frame_number % max 1 settings.frame_skip == 0 then taken else edge in
      record next { frame_number = next.frame_number + 1 }

  abbrev pub started_or : Option ℕ → ℕ → ℕ
  started_or none now = now
  started_or (some t) now = t

  -- The part of `_flush` after the batch is drained.
  abbrev pub publish_batch : ℕ → Bool → Edge → Edge
  publish_batch now published edge =
      let payload : Payload = record {
        station_code = settings.station_code;
        started_at = started_or edge.detector_started_at now;
        ended_at = now;
        events = edge.buffer;
      } in
      let call : Sent = record {
        topic = edge_topic settings.topic_prefix settings.station_code;
        payload = payload;
        published = published;
      } in
      record edge {
        buffer = [];
        last_publish_ts = if published then now else edge.last_publish_ts;
        sent = edge.sent ++ (call ∷ []);
      }

  -- `_flush`.
  unfoldable pub flush : Bool → ℕ → Bool → Edge → Edge
  flush final now published edge =
      let drained = publish_batch now published edge in
      if is_empty edge.buffer && not final then edge else drained

  -- A frame is read only in an open stream, where `_detector_started_at` is set.
  abbrev pub consume_from : Option ℕ → ℕ → Frame → Edge → Edge
  consume_from none loop_start frame edge = edge
  consume_from (some t) loop_start frame edge = consume_frame loop_start frame t edge

  unfoldable pub step : Step → Edge → Edge
  step (open_stream now) edge = record edge { frame_number = 0; detector_started_at = some now }
  step (read_frame loop_start frame) edge =
      consume_from edge.detector_started_at loop_start frame edge
  step (interval now published) edge = flush false now published edge

  abbrev pub steps : List Step → Edge → Edge
  steps [] edge = edge
  steps (s ∷ ss) edge = steps ss (step s edge)

  -- `run`: the steps, and the final flush.
  unfoldable pub run : ℕ → List Step → ℕ → Bool → Edge
  unfolding step
  run start ss stop published = flush true stop published (steps ss (started start))
