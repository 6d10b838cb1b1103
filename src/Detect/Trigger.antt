-- ===== src/Detect/Trigger.antt =====
-- What the trigger reports of a frame, and what of a video comes out of `process_video`.
use portfolio_cv_project.Common.{
  ℕ, ◌≤◌, ltb, ◌==◌, Bool, true, false, ◌||◌, List, [], ◌∷◌, any, All, Option, none, some,
  if◌then◌else◌, ◌≡◌, refl, arith,
}
use portfolio_cv_project.Event.{Bbox}
use portfolio_cv_project.Detect.Frame.{DetectorSettings, Frame, Contour, largest, trigger_detect}

abbrev pub IsWithin : ℕ → Contour → Type 0
IsWithin bound c = c.area ≤ bound

-- The rectangle of the first contour of an area.
abbrev pub rect_of_area : ℕ → List Contour → Option Bbox
rect_of_area area [] = none
rect_of_area area (c ∷ cs) =
    let rest = rect_of_area area cs in if c.area == area then some c.bounding_rect else rest

abbrev pub is_larger : ℕ → Contour → Bool
is_larger bound c = ltb bound c.area

largest_ge : (cs : List Contour) (a : ℕ) (b : Option Bbox) → a ≤ (largest cs a b).0
unfolding largest
largest_ge [] a b = omega arith
largest_ge (c ∷ cs) a b =
    ground (arith, largest_ge cs a b, largest_ge cs c.area (some c.bounding_rect))

largest-IsWithin :
    (cs : List Contour) (a : ℕ) (b : Option Bbox) → All (IsWithin (largest cs a b).0) cs
unfolding largest
largest-IsWithin [] a b = tt
largest-IsWithin (c ∷ cs) a b =
    go (ltb a c.area) refl (largest-IsWithin cs c.area (some c.bounding_rect))
      (largest-IsWithin cs a b)
  where
    rect : Option Bbox
    rect = some c.bounding_rect

    go :
        (t : Bool)
        → ltb a c.area ≡ t
        → All (IsWithin (largest cs c.area rect).0) cs
        → All (IsWithin (largest cs a b).0) cs
        → All (IsWithin (if t then largest cs c.area rect else largest cs a b).0) (c ∷ cs)
    go true e taken passed = (largest_ge cs c.area rect, taken)
    go false e taken passed = (ground (arith, largest_ge cs a b), passed)

largest-any :
    (m : ℕ) (cs : List Contour) (a : ℕ) (b : Option Bbox)
    → ltb m (largest cs a b).0 ≡ ltb m a || any (is_larger m) cs
unfolding largest
largest-any m [] a b = ground arith
largest-any m (c ∷ cs) a b =
    ground (arith, largest-any m cs a b, largest-any m cs c.area (some c.bounding_rect))

largest_rect :
    (cs : List Contour) (a : ℕ) (b : Option Bbox)
    → (largest cs a b).1
      ≡ (if ltb a (largest cs a b).0 then rect_of_area (largest cs a b).0 cs else b)
unfolding largest
largest_rect [] a b = ground arith
largest_rect (c ∷ cs) a b = ground (
  arith,
  largest_rect cs a b,
  largest_rect cs c.area (some c.bounding_rect),
  largest_ge cs a b,
  largest_ge cs c.area (some c.bounding_rect),
)

-- `TriggerDetector.detect` fires exactly when some contour's area exceeds the minimum. The area it
-- reports bounds the area of every contour, and when it fires, the box it reports is that of the
-- first contour with that area; otherwise it reports no box.
pub trigger_detect-largest :
    (settings : DetectorSettings) (frame : Frame)
    → let result = trigger_detect settings frame in
      (result.triggered ≡ any (is_larger settings.min_contour_area) frame.contours)
      × All (IsWithin result.contour_area) frame.contours
      × (result.bbox
          ≡ (if result.triggered then rect_of_area result.contour_area frame.contours else none))
unfolding trigger_detect
trigger_detect-largest settings frame = (
  ground (arith, largest-any settings.min_contour_area frame.contours 0 none),
  largest-IsWithin frame.contours 0 none,
  ground (arith, largest_rect frame.contours 0 none),
)
