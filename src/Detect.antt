-- ===== src/Detect.antt =====
-- The recogniser: the frame-level detectors of src/services/detector.py and the video pipeline of
-- src/services/video_processor.py. A frame is what OpenCV reports of it: the contours that the
-- background model leaves of it, the markers that it decodes, its size. Whether a point lies in a
-- polygon is a parameter, `cv2.pointPolygonTest`.
pub mod Frame
pub mod Pipeline
pub mod Trigger
pub mod Events
