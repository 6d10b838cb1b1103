-- ===== src/Detect/Pipeline.antt =====
-- `extract_frames` and `process_video` of src/services/video_processor.py.
use portfolio_cv_project.Common.{
  ℕ, ◌+◌, ◌*◌, ◌/◌, ◌==◌, Bool, List, [], ◌∷◌, ◌++◌, Option, none, if◌then◌else◌, Result, ok, raise,
  runtime_error, ◌>>=◌,
}
use portfolio_cv_project.Event.{Bbox}
use portfolio_cv_project.Detect.Frame.{
  DetectorSettings, Frame, TriggerResult, ArucoDetection, Point, trigger_detect, aruco_detect,
  roi_checker, decide,
}

-- `cv2.VideoCapture`: whether it opened, its frames per 1000 seconds, and its frames, resized.
pub record Capture : Type 0 where
  pub is_opened : Bool
  pub fps : ℕ
  pub frames : List Frame

-- `DetectionEvent`; a time in the video is in microseconds, rounded down.
pub record DetectionEvent : Type 0 where
  pub frame_number : ℕ
  pub timestamp_in_video : ℕ
  pub aruco_id : Option ℕ
  pub confidence : ℕ
  pub bbox : Option Bbox
  pub inside_roi : Bool
  pub triggered_by_mog2 : Bool

pub record Shot : Type 0 where
  pub frame_index : ℕ
  pub timestamp : ℕ
  pub frame : Frame

abbrev pub numbered : ℕ → ℕ → List Frame → List Shot
numbered fps frame_index [] = []
numbered fps frame_index (frame ∷ frames) =
    record { frame_index = frame_index; timestamp = frame_index * 1000000000 / fps; frame = frame }
    ∷ numbered fps (frame_index + 1) frames

-- `cap.get(cv2.CAP_PROP_FPS) or 25.0`
abbrev pub fps_or_default : ℕ → ℕ
fps_or_default fps = if fps == 0 then 25000 else fps

unfoldable pub extract_frames : Capture → Result (List Shot)
extract_frames cap =
    if cap.is_opened
    then ok (numbered (fps_or_default cap.fps) 0 cap.frames)
    else raise runtime_error

-- The variables of the loop of `process_video`.
pub record Progress : Type 0 where
  pub events : List DetectionEvent
  pub frames_processed : ℕ
  pub triggers_fired : ℕ
  pub prev_center : Option Point

module _ (settings : DetectorSettings) (point_polygon_test : List Point → Point → Bool) where
  -- The inner loop, over the detections of a frame.
  abbrev pub each_detection :
      Option (List Point) → Shot → TriggerResult → List ArucoDetection → Progress → Progress
  each_detection roi shot result [] p = p
  each_detection roi shot result (d ∷ ds) p =
      let (decision, next_center) = decide settings point_polygon_test roi p.prev_center d result in
      let event : DetectionEvent = record {
        frame_number = shot.frame_index;
        timestamp_in_video = shot.timestamp;
        aruco_id = d.aruco_id;
        confidence = d.confidence;
        bbox = d.bbox;
        inside_roi = decision.inside_roi;
        triggered_by_mog2 = decision.triggered_by_mog2;
      } in
      each_detection roi shot result ds
        (record p { events = p.events ++ (event ∷ []); prev_center = next_center })

  abbrev pub on_frame : Option (List Point) → Shot → Progress → Progress
  on_frame roi shot p =
      let counted = record p { frames_processed = p.frames_processed + 1 } in
      let result = trigger_detect settings shot.frame in
      let fired = record counted { triggers_fired = counted.triggers_fired + 1 } in
      if result.triggered
      then each_detection roi shot result (aruco_detect settings shot.frame) fired
      else counted

  abbrev pub each_frame : Option (List Point) → List Shot → Progress → Progress
  each_frame roi [] p = p
  each_frame roi (shot ∷ shots) p = each_frame roi shots (on_frame roi shot p)

  unfoldable pub process_video :
      Option (List Point) → Capture → Result (List DetectionEvent × ℕ × ℕ)
  unfolding extract_frames
  process_video roi_polygon video = do
    shots ← extract_frames video
    let start : Progress = record {
      events = [];
      frames_processed = 0;
      triggers_fired = 0;
      prev_center = none;
    }
    let p = each_frame (roi_checker roi_polygon) shots start
    ok (p.events, p.frames_processed, p.triggers_fired)
