-- ===== src/Edge/Held.antt =====
-- What a flush and a frame do to the detections that the edge pipeline of edge/main.py holds.
use portfolio_cv_project.Common.{
  ℕ, ◌+◌, ◌%◌, max, ◌==◌, ℤ, sub_ℕ, Bool, true, false, not, ◌&&◌, List, [], ◌∷◌, ◌++◌, map, Option,
  none, some, if◌then◌else◌, ◌≡◌, refl, sym, ◌∙◌, ap,
}
use mathlib.Core.List.{append_assoc, append-nil}
use portfolio_cv_project.Detect.Frame.{Frame, ArucoDetection, Point, trigger_detect, aruco_detect}
use portfolio_cv_project.Mqtt.Topic.{edge_topic}
use portfolio_cv_project.Edge.Pipeline.{
  Detection, EdgeSettings, Sent, Edge, Step, open_stream, read_frame, interval, is_empty,
  detection_of, append_each, started_or, process_frame, consume_frame, flush, publish_batch,
}

-- The detections of the batches handed to `publish`, in order.
abbrev pub all_sent : List Sent → List Detection
all_sent [] = []
all_sent (s ∷ ss) = s.payload.events ++ all_sent ss

abbrev pub held : Edge → List Detection
held edge = all_sent edge.sent ++ edge.buffer

all_sent-snoc :
    (ss : List Sent) (s : Sent) → all_sent (ss ++ (s ∷ [])) ≡ all_sent ss ++ s.payload.events
all_sent-snoc [] s = append-nil s.payload.events
all_sent-snoc (t ∷ ss) s =
    ap (λ es. t.payload.events ++ es) (all_sent-snoc ss s)
    ∙ sym (append_assoc t.payload.events (all_sent ss) s.payload.events)

module _ (settings : EdgeSettings) (point_polygon_test : List Point → Point → Bool) where
  -- The detections of a frame.
  abbrev pub found : ℕ → ℤ → Frame → List Detection
  found number timestamp frame =
      if (trigger_detect settings.detector frame).triggered
      then map (detection_of settings point_polygon_test number timestamp)
          (aruco_detect settings.detector frame)
      else []

  abbrev pub is_sampled : ℕ → Bool
  is_sampled number = number % max 1 settings.frame_skip == 0

  -- The detections of every sampled frame, said without the buffer: from when the stream was opened
  -- and the number of the next frame.
  abbrev pub seen : Option ℕ → ℕ → List Step → List Detection
  seen opened number [] = []
  seen opened number (open_stream now ∷ ss) = seen (some now) 0 ss
  seen none number (read_frame t frame ∷ ss) = seen none number ss
  seen (some t₀) number (read_frame t frame ∷ ss) =
      (if is_sampled number then found number (sub_ℕ t t₀) frame else [])
      ++ seen (some t₀) (number + 1) ss
  seen opened number (interval now published ∷ ss) = seen opened number ss

  abbrev pub IsFlushed : Edge → Edge → Type 0
  IsFlushed edge next =
      (held next ≡ held edge)
      × (next.detector_started_at ≡ edge.detector_started_at)
      × (next.frame_number ≡ edge.frame_number)

  pub flush_lem :
      (final : Bool) (now : ℕ) (published : Bool) (edge : Edge)
      → IsFlushed edge (flush settings point_polygon_test final now published edge)
  unfolding flush
  flush_lem final now published edge = go (is_empty edge.buffer && not final)
    where
      call : Sent
      call = record {
        topic = edge_topic settings.topic_prefix settings.station_code;
        payload = record {
          station_code = settings.station_code;
          started_at = started_or settings point_polygon_test edge.detector_started_at now;
          ended_at = now;
          events = edge.buffer;
        };
        published = published;
      }

      go :
          (skipped : Bool)
          → IsFlushed edge (
              if skipped
              then edge
              else publish_batch settings point_polygon_test now published edge)
      go true = (refl, refl, refl)
      go false = (
        append-nil (all_sent (edge.sent ++ (call ∷ []))) ∙ all_sent-snoc edge.sent call,
        refl,
        refl,
      )

  pub final_flush :
      (now : ℕ) (published : Bool) (edge : Edge)
      → (flush settings point_polygon_test true now published edge).buffer ≡ []
  unfolding flush
  final_flush now published edge = go (is_empty edge.buffer)
    where
      go :
          (b : Bool)
          → (if b && false
              then edge
              else publish_batch settings point_polygon_test now published edge).buffer
            ≡ []
      go true = refl
      go false = refl

  append_each_lem :
      (timestamp : ℤ) (dets : List ArucoDetection) (edge : Edge)
      → let next = append_each settings point_polygon_test timestamp dets edge in
        (next.buffer
          ≡ edge.buffer
            ++ map (detection_of settings point_polygon_test edge.frame_number timestamp) dets)
        × (next.sent ≡ edge.sent)
        × (next.detector_started_at ≡ edge.detector_started_at)
        × (next.frame_number ≡ edge.frame_number)
  append_each_lem timestamp [] edge = (sym (append-nil edge.buffer), refl, refl, refl)
  append_each_lem timestamp (det ∷ dets) edge =
      let one = detection_of settings point_polygon_test edge.frame_number timestamp det in
      let (b, s, o, n) =
        append_each_lem timestamp dets (record edge { buffer = edge.buffer ++ (one ∷ []) }) in
      (
        b
            ∙ append_assoc edge.buffer (one ∷ [])
                (map (detection_of settings point_polygon_test edge.frame_number timestamp) dets),
        s,
        o,
        n,
      )

  process_frame_lem :
      (frame : Frame) (timestamp : ℤ) (edge : Edge)
      → let next = process_frame settings point_polygon_test frame timestamp edge in
        (next.buffer ≡ edge.buffer ++ found edge.frame_number timestamp frame)
        × (next.sent ≡ edge.sent)
        × (next.detector_started_at ≡ edge.detector_started_at)
        × (next.frame_number ≡ edge.frame_number)
  unfolding process_frame
  process_frame_lem frame timestamp edge = go (trigger_detect settings.detector frame).triggered
    where
      dets : List ArucoDetection
      dets = aruco_detect settings.detector frame

      go :
          (t : Bool)
          → let next =
              if t then append_each settings point_polygon_test timestamp dets edge else edge in
            (next.buffer
              ≡ edge.buffer
                ++ (if t
                    then map
                        (detection_of settings point_polygon_test edge.frame_number timestamp)
                        dets
                    else []))
            × (next.sent ≡ edge.sent)
            × (next.detector_started_at ≡ edge.detector_started_at)
            × (next.frame_number ≡ edge.frame_number)
      go true = append_each_lem timestamp dets edge
      go false = (sym (append-nil edge.buffer), refl, refl, refl)

  pub consume_frame_lem :
      (t : ℕ) (frame : Frame) (t₀ : ℕ) (edge : Edge)
      → let next = consume_frame settings point_polygon_test t frame t₀ edge in
        (next.buffer
          ≡ edge.buffer
            ++ (if is_sampled edge.frame_number
                then found edge.frame_number (sub_ℕ t t₀) frame
                else []))
        × (next.sent ≡ edge.sent)
        × (next.detector_started_at ≡ edge.detector_started_at)
        × (next.frame_number ≡ edge.frame_number + 1)
  unfolding consume_frame
  consume_frame_lem t frame t₀ edge = go (is_sampled edge.frame_number)
    where
      taken : Edge
      taken = process_frame settings point_polygon_test frame (sub_ℕ t t₀) edge

      go :
          (b : Bool)
          → let next = if b then taken else edge in
            (next.buffer
              ≡ edge.buffer ++ (if b then found edge.frame_number (sub_ℕ t t₀) frame else []))
            × (next.sent ≡ edge.sent)
            × (next.detector_started_at ≡ edge.detector_started_at)
            × (next.frame_number + 1 ≡ edge.frame_number + 1)
      go true =
          let (b, s, o, n) = process_frame_lem frame (sub_ℕ t t₀) edge in
          (b, s, o, ap (λ m. m + 1) n)
      go false = (sym (append-nil edge.buffer), refl, refl, refl)
