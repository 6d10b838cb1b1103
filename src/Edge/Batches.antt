-- ===== src/Edge/Batches.antt =====
-- Where the detections of the edge pipeline go.
use portfolio_cv_project.Common.{
  ℕ, ◌+◌, sub_ℕ, Bool, true, false, List, [], ◌∷◌, ◌++◌, Option, none, some, if◌then◌else◌, ◌≡◌,
  refl, sym, ◌∙◌, ap,
}
use mathlib.Core.List.{append_assoc, append-nil}
use portfolio_cv_project.Detect.Frame.{Point}
use portfolio_cv_project.Edge.Pipeline.{
  EdgeSettings, Edge, Step, open_stream, read_frame, interval, started, consume_frame, flush,
  consume_from, step, steps, run,
}
use portfolio_cv_project.Edge.Held.{
  all_sent, held, found, is_sampled, seen, flush_lem, final_flush, consume_frame_lem,
}

module _ (settings : EdgeSettings) (point_polygon_test : List Point → Point → Bool) where
  steps_lem :
      (ss : List Step) (edge : Edge)
      → held (steps settings point_polygon_test ss edge)
        ≡ held edge
          ++ seen settings point_polygon_test edge.detector_started_at edge.frame_number ss
  unfolding step
  steps_lem [] edge = sym (append-nil (held edge))
  steps_lem (open_stream now ∷ ss) edge =
      steps_lem ss (record edge { frame_number = 0; detector_started_at = some now })
  steps_lem (interval now published ∷ ss) edge =
      let next = flush settings point_polygon_test false now published edge in
      let (h, o, n) = flush_lem settings point_polygon_test false now published edge in
      steps_lem ss next ∙ rw (h, o, n)
  steps_lem (read_frame t frame ∷ ss) edge = go edge.detector_started_at refl (steps_lem ss)
    where
      go :
          (opened : Option ℕ)
          → edge.detector_started_at ≡ opened
          → ((next : Edge)
              → held (steps settings point_polygon_test ss next)
                ≡ held next
                  ++ seen settings point_polygon_test next.detector_started_at next.frame_number ss)
          → held (
              steps settings point_polygon_test ss
                (consume_from settings point_polygon_test opened t frame edge))
            ≡ held edge
              ++ seen settings point_polygon_test opened edge.frame_number (read_frame t frame ∷ ss)
      go none e rest = rest edge ∙ rw e
      go (some t₀) e rest =
          let next = consume_frame settings point_polygon_test t frame t₀ edge in
          let (b, s, o, n) = consume_frame_lem settings point_polygon_test t frame t₀ edge in
          let new =
            if is_sampled settings point_polygon_test edge.frame_number
            then found settings point_polygon_test edge.frame_number (sub_ℕ t t₀) frame
            else [] in
          let later = seen settings point_polygon_test (some t₀) (edge.frame_number + 1) ss in
          rest next
          ∙ rw (
            b,
            s,
            o,
            n,
            e,
            sym (append_assoc (all_sent edge.sent) edge.buffer new),
            append_assoc (held edge) new later,
          )

  -- Whatever the order of frames, reconnects and timer flushes, when `run` ends the batches that
  -- were handed to `publish` hold, in order and once each, exactly the detections of the frames on
  -- which the trigger fires among those whose number is a multiple of the frame skip, and the buffer
  -- is empty. Detections of a batch whose publish raised are among them.
  pub run-all_sent :
      (start : ℕ) (ss : List Step) (stop : ℕ) (published : Bool)
      → let edge = run settings point_polygon_test start ss stop published in
        (all_sent edge.sent ≡ seen settings point_polygon_test none 0 ss) × (edge.buffer ≡ [])
  unfolding run
  run-all_sent start ss stop published =
      let last = steps settings point_polygon_test ss (started start) in
      let (h, o, n) = flush_lem settings point_polygon_test true stop published last in
      let edge = run settings point_polygon_test start ss stop published in
      let empty = final_flush settings point_polygon_test stop published last in
      (
        sym (append-nil (all_sent edge.sent))
            ∙ ap (λ b. all_sent edge.sent ++ b) (sym empty)
            ∙ h
            ∙ steps_lem ss (started start),
        empty,
      )
