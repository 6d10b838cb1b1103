-- ===== src/Detect/Events.antt =====
-- What of a video comes out of `process_video`.
use portfolio_cv_project.Common.{
  ℕ, suc, ◌+◌, Bool, true, false, List, [], ◌∷◌, ◌++◌, map, tally, length, Option, none,
  if◌then◌else◌, ◌≡◌, refl, sym, ◌∙◌, ap, ok, arith,
}
use mathlib.Core.List.{append_assoc, append-nil}
use portfolio_cv_project.Detect.Frame.{
  DetectorSettings, Frame, TriggerResult, ArucoDetection, Point, trigger_detect, aruco_detect,
  roi_checker, is_inside, decide,
}
use portfolio_cv_project.Detect.Pipeline.{
  Capture, DetectionEvent, Shot, Progress, numbered, fps_or_default, each_detection, on_frame,
  each_frame, process_video,
}

module _ (settings : DetectorSettings) (point_polygon_test : List Point → Point → Bool) where
  -- The event of a detection, said without the parked detector.
  abbrev pub report : Option (List Point) → Shot → TriggerResult → ArucoDetection → DetectionEvent
  report roi shot result d = record {
    frame_number = shot.frame_index;
    timestamp_in_video = shot.timestamp;
    aruco_id = d.aruco_id;
    confidence = d.confidence;
    bbox = d.bbox;
    inside_roi = is_inside point_polygon_test roi d.bbox;
    triggered_by_mog2 = result.triggered;
  }

  abbrev pub is_triggered : Shot → Bool
  is_triggered shot = (trigger_detect settings shot.frame).triggered

  abbrev pub reports : Option (List Point) → List Shot → List DetectionEvent
  reports roi [] = []
  reports roi (shot ∷ shots) =
      (if is_triggered shot
        then map (report roi shot (trigger_detect settings shot.frame))
            (aruco_detect settings shot.frame)
        else [])
      ++ reports roi shots

  each_detection-events :
      (roi : Option (List Point)) (shot : Shot) (result : TriggerResult) (ds : List ArucoDetection)
      (p : Progress)
      → let q = each_detection settings point_polygon_test roi shot result ds p in
        (q.events ≡ p.events ++ map (report roi shot result) ds)
        × (q.frames_processed ≡ p.frames_processed)
        × (q.triggers_fired ≡ p.triggers_fired)
  unfolding decide
  each_detection-events roi shot result [] p = (sym (append-nil p.events), refl, refl)
  each_detection-events roi shot result (d ∷ ds) p =
      let next = decide settings point_polygon_test roi p.prev_center d result in
      let event = report roi shot result d in
      let (told, frames, fired) =
        each_detection-events roi shot result ds
          (record p { events = p.events ++ (event ∷ []); prev_center = next.1 }) in
      (told ∙ append_assoc p.events (event ∷ []) (map (report roi shot result) ds), frames, fired)

  abbrev told_by : Option (List Point) → Shot → List DetectionEvent
  told_by roi shot =
      let result = trigger_detect settings shot.frame in
      if result.triggered
      then map (report roi shot result) (aruco_detect settings shot.frame)
      else []

  on_frame-events :
      (roi : Option (List Point)) (shot : Shot) (p : Progress)
      → let q = on_frame settings point_polygon_test roi shot p in
        (q.events ≡ p.events ++ told_by roi shot)
        × (q.frames_processed ≡ p.frames_processed + 1)
        × (q.triggers_fired ≡ p.triggers_fired + (if is_triggered shot then 1 else 0))
  on_frame-events roi shot p = go result.triggered
    where
      result : TriggerResult
      result = trigger_detect settings shot.frame

      counted : Progress
      counted = record p { frames_processed = p.frames_processed + 1 }

      fired : Progress
      fired = record counted { triggers_fired = counted.triggers_fired + 1 }

      ds : List ArucoDetection
      ds = aruco_detect settings shot.frame

      go :
          (t : Bool)
          → let q =
              if t
              then each_detection settings point_polygon_test roi shot result ds fired
              else counted in
            (q.events ≡ p.events ++ (if t then map (report roi shot result) ds else []))
            × (q.frames_processed ≡ p.frames_processed + 1)
            × (q.triggers_fired ≡ p.triggers_fired + (if t then 1 else 0))
      go true = each_detection-events roi shot result ds fired
      go false = (sym (append-nil p.events), refl, omega arith)

  each_frame-events :
      (roi : Option (List Point)) (shots : List Shot) (p : Progress)
      → let q = each_frame settings point_polygon_test roi shots p in
        (q.events ≡ p.events ++ reports roi shots)
        × (q.frames_processed ≡ p.frames_processed + length shots)
        × (q.triggers_fired ≡ p.triggers_fired + tally is_triggered shots)
  each_frame-events roi [] p = (sym (append-nil p.events), omega arith, omega arith)
  each_frame-events roi (shot ∷ shots) p =
      let q = on_frame settings point_polygon_test roi shot p in
      let (e, n, m) = on_frame-events roi shot p in
      let (events, frames, fired) = each_frame-events roi shots q in
      (
        events
            ∙ ap (λ es. es ++ reports roi shots) e
            ∙ append_assoc p.events (told_by roi shot) (reports roi shots),
        omega (arith, frames, n),
        ground (arith, fired, m),
      )

  length-numbered :
      (fps index : ℕ) (frames : List Frame) → length (numbered fps index frames) ≡ length frames
  length-numbered fps index [] = refl
  length-numbered fps index (frame ∷ frames) = ap suc (length-numbered fps (index + 1) frames)

  -- `process_video` of a file that opens gives, frame after frame, one event for each marker that
  -- `ArucoDetector.detect` keeps of a frame on which the trigger fires, with the ROI test of its own
  -- box; its counters are the number of frames and of frames on which the trigger fires. No event
  -- depends on the parked detector's decision or on its previous centre.
  pub process_video-events :
      (roi_polygon : Option (List Point)) (video : Capture)
      → video.is_opened ≡ true
      → let shots = numbered (fps_or_default video.fps) 0 video.frames in
        process_video settings point_polygon_test roi_polygon video
        ≡ ok
            (reports (roi_checker roi_polygon) shots, length video.frames, tally is_triggered shots)
  unfolding process_video
  process_video-events roi_polygon video opened =
      let shots = numbered (fps_or_default video.fps) 0 video.frames in
      let start : Progress = record {
        events = [];
        frames_processed = 0;
        triggers_fired = 0;
        prev_center = none;
      } in
      let (e, n, m) = each_frame-events (roi_checker roi_polygon) shots start in
      let all : 0 + length shots ≡ length shots = omega arith in
      let some_fired : 0 + tally is_triggered shots ≡ tally is_triggered shots = omega arith in
      rw (
        opened,
        e,
        n,
        m,
        all,
        some_fired,
        length-numbered (fps_or_default video.fps) 0 video.frames,
      )
