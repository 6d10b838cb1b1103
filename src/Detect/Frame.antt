-- ===== src/Detect/Frame.antt =====
-- The detectors of src/services/detector.py, with the records of src/schemas/detector.py. Areas are
-- half square pixels, as OpenCV measures the contours of a mask, and so are the two thresholds on
-- them. A centre is in half pixels; a velocity is kept as its square, and its threshold is in half
-- pixels. A confidence is in millionths, rounded down; a frame has at least one pixel.
use portfolio_cv_project.Common.{
  ℕ, ◌+◌, ◌*◌, ◌-◌, ◌/◌, min, ltb, Bool, true, false, ◌&&◌, List, [], ◌∷◌, Option, none, some,
  if◌then◌else◌,
}
use portfolio_cv_project.Event.{Bbox, DetectorMethod, aruco}

pub record DetectorSettings : Type 0 where
  pub min_contour_area : ℕ
  pub min_aruco_side_pixels : ℕ
  pub velocity_px_threshold : ℕ
  pub mog2_mass_min : ℕ

pub record Contour : Type 0 where
  pub area : ℕ
  pub bounding_rect : Bbox

pub record Marker : Type 0 where
  pub bounding_rect : Bbox
  pub id : ℕ

pub record Frame : Type 0 where
  pub height : ℕ
  pub width : ℕ
  pub contours : List Contour
  pub markers : Option (List Marker)

pub record TriggerResult : Type 0 where
  pub triggered : Bool
  pub contour_area : ℕ
  pub bbox : Option Bbox

pub record ArucoDetection : Type 0 where
  pub aruco_id : Option ℕ
  pub tractor_id : Option ℕ
  pub confidence : ℕ
  pub bbox : Option Bbox
  pub detector_method : DetectorMethod

pub record ParkedDecision : Type 0 where
  pub is_parked : Bool
  pub inside_roi : Bool
  pub velocity_px_per_frame : ℕ
  pub mog2_mass_in_roi : ℕ
  pub triggered_by_mog2 : Bool

-- The loop of `TriggerDetector.detect` over the contours, from the largest so far.
unfoldable pub largest : List Contour → ℕ → Option Bbox → ℕ × Option Bbox
largest [] max_area max_bbox = (max_area, max_bbox)
largest (c ∷ cs) max_area max_bbox =
    let taken = largest cs c.area (some c.bounding_rect) in
    let passed = largest cs max_area max_bbox in if ltb max_area c.area then taken else passed

unfoldable pub trigger_detect : DetectorSettings → Frame → TriggerResult
unfolding largest
trigger_detect settings frame =
    let (max_area, max_bbox) = largest frame.contours 0 none in
    let fired = ltb settings.min_contour_area max_area in
    record { triggered = fired; contour_area = max_area; bbox = if fired then max_bbox else none }

abbrev pub million : ℕ
million = 1000000

-- min((cw * ch) / frame_area * 10, 1.0)
abbrev pub confidence_of : Frame → Bbox → ℕ
confidence_of frame b = min (b.w * b.h * 10 * million / (frame.height * frame.width)) million

abbrev pub decoded : DetectorSettings → Frame → List Marker → List ArucoDetection
decoded settings frame [] = []
decoded settings frame (m ∷ ms) =
    let rest = decoded settings frame ms in
    let one : ArucoDetection = record {
      aruco_id = some m.id;
      tractor_id = none;
      confidence = confidence_of frame m.bounding_rect;
      bbox = some m.bounding_rect;
      detector_method = aruco;
    } in
    if ltb m.bounding_rect.w settings.min_aruco_side_pixels then rest else one ∷ rest

abbrev pub detected_among : DetectorSettings → Frame → Option (List Marker) → List ArucoDetection
detected_among settings frame none = []
detected_among settings frame (some ms) = decoded settings frame ms

unfoldable pub aruco_detect : DetectorSettings → Frame → List ArucoDetection
aruco_detect settings frame = detected_among settings frame frame.markers

abbrev pub Point : Type 0
Point = ℕ × ℕ

-- `RoiChecker.__init__`: an empty polygon is falsy, hence no polygon.
abbrev pub roi_checker : Option (List Point) → Option (List Point)
roi_checker none = none
roi_checker (some []) = none
roi_checker (some (p ∷ ps)) = some (p ∷ ps)

-- `RoiChecker.is_inside`, with the test of a point against a polygon.
abbrev pub is_inside : (List Point → Point → Bool) → Option (List Point) → Option Bbox → Bool
is_inside point_polygon_test polygon none = false
is_inside point_polygon_test none (some b) = true
is_inside point_polygon_test (some p) (some b) = point_polygon_test p (b.x + b.w / 2, b.y + b.h / 2)

abbrev pub apart : ℕ → ℕ → ℕ
apart a b = (a - b) + (b - a)

abbrev pub dist_squared : Point → Point → ℕ
dist_squared (x, y) (u, v) = apart x u * apart x u + apart y v * apart y v

abbrev pub center : Bbox → Point
center b = (b.x * 2 + b.w, b.y * 2 + b.h)

-- The distance from the previous centre, and the centre kept for the next call.
abbrev pub velocity : Option Point → Option Bbox → ℕ × Option Point
velocity prev_center none = (0, prev_center)
velocity none (some b) = (0, some (center b))
velocity (some c) (some b) = (dist_squared c (center b), some (center b))

-- `ParkedDetector.decide`: the decision, and the detector's next `prev_center`.
unfoldable pub decide :
    DetectorSettings
    → (List Point → Point → Bool)
    → Option (List Point)
    → Option Point
    → ArucoDetection
    → TriggerResult
    → ParkedDecision × Option Point
decide settings point_polygon_test roi prev_center detection trigger_result =
    let inside = is_inside point_polygon_test roi detection.bbox in
    let (velocity_px, next_center) = velocity prev_center detection.bbox in
    let threshold = settings.velocity_px_threshold in
    let is_stopped = ltb velocity_px (threshold * threshold) in
    let mass = if inside then trigger_result.contour_area else 0 in
    (
      record {
        is_parked = inside && is_stopped && ltb settings.mog2_mass_min mass;
        inside_roi = inside;
        velocity_px_per_frame = velocity_px;
        mog2_mass_in_roi = mass;
        triggered_by_mog2 = trigger_result.triggered;
      },
      next_center,
    )
