-- ===== src/Mqtt/Journey.antt =====
-- A message of an edge process through the consumer into the API's tables.
use portfolio_cv_project.Common.{
  ℕ, zero, suc, ◌*◌, ◌==◌, ltb, true, false, List, map, some, if◌then◌else◌, Text, ◌≡◌, refl, ap,
  ◌∙◌, arith, Bool-cases, inl, inr,
}
use portfolio_cv_project.Clock.{aware}
use portfolio_cv_project.Farm.{Station}
use portfolio_cv_project.Event.Ingest.{
  EdgeEvent, EdgeBatch, Reply, replied, http, failed, Base, is_acceptable, event_of, post_ingest,
}
use portfolio_cv_project.Event.Feed.{
  is_late, is_effective, window, IsReady, post_refused, post_written,
}
use portfolio_cv_project.Event.Gathered.{grown, step}
use portfolio_cv_project.Video.Service.{Disk}
use portfolio_cv_project.Video.Sentinel.{call_answers}
use portfolio_cv_project.Mqtt.Consumer.{
  Forwarding, delivered, rejected, finished, on_reply, forward_from, forward_with_retries, status,
}
use portfolio_cv_project.Mqtt.Consumer
use portfolio_cv_project.Mqtt.Messages.{
  number, Payload, normalise_timestamps, validated, forwarded, handle_message,
}

-- The status line of an answer: an exception that nobody handles is a 500.
abbrev pub status_of : {A : Type 0} → Reply A → ℕ
status_of (replied a) = 201
status_of (http n) = n
status_of (failed e) = 500

-- The replies to one batch posted again and again, from 1, each to the tables that the last one left.
abbrev pub answers : Disk → Base → EdgeBatch → ℕ → Consumer.Reply
answers disk base b zero = status 500
answers disk base b (suc zero) = status (status_of (post_ingest disk b base).0)
answers disk base b (suc (suc n)) = answers disk (post_ingest disk b base).1 b (suc n)

forward_with_retries-on_reply :
    (r : ℕ → Consumer.Reply) (m delay : ℕ)
    → forward_with_retries r (suc m) delay
      ≡ on_reply (r 1) (m == 0) delay (forward_from r 2 m (delay * 2))
unfolding forward_with_retries forward_from
forward_with_retries-on_reply r m delay = refl

-- The batch that the consumer makes of a message with numbers for its times.
abbrev pub sent : Text → List EdgeEvent → (ℕ → ℕ) → EdgeBatch
sent code events clock = record {
  station_code = code;
  started_at = aware (clock 0);
  ended_at = aware (clock 1);
  events = events;
}

abbrev pub message : Text → List EdgeEvent → ℕ → ℕ → Payload
message code events from till = record {
  station_code = some code;
  started_at = some (number from);
  ended_at = some (number till);
  events = some events;
}

module _ (disk : Disk) (code : Text) (station : Station) (k : ℕ) (tu : ℕ × ℕ) (base : Base)
    (ready : IsReady disk code station k tu base) (clock : ℕ → ℕ) (events : List EdgeEvent)
    (fits : is_acceptable (sent code events clock) ≡ true) (from till m delay : ℕ) where
  handled :
      (n : ℕ)
      → status_of (post_ingest disk (sent code events clock) base).0 ≡ n
      → handle_message
          (answers disk base)
          (suc m)
          delay
          clock
          (some (message code events from till))
        ≡ forwarded (sent code events clock) (
            on_reply
              (status n)
              (m == 0)
              delay
              (forward_from (answers disk base (sent code events clock)) 2 m (delay * 2)))
  unfolding handle_message normalise_timestamps validated
  handled n e = rw fits (
      ap (forwarded (sent code events clock)) (
        forward_with_retries-on_reply (answers disk base (sent code events clock)) m delay
        ∙ ap
            (λ j.
              on_reply (status j) (m == 0) delay
                (forward_from (answers disk base (sent code events clock)) 2 m (delay * 2)))
            e))

  -- With at least one attempt allowed, a message within the bounds, of a known station whose sentinel
  -- row is there already, at an API whose session has no work pending, with the numbers that the edge
  -- process sends for its times, whatever they are: the batch gets the consumer's two clock readings as its window. If
  -- the second is later, one post delivers the batch, and its events stand behind the old ones, under
  -- the station's sentinel; if not, the API refuses it, the consumer drops it, and no event is stored.
  pub handle_message-journey :
      (handle_message (answers disk base) (suc m) delay clock (some (message code events from till))
        ≡ forwarded
            (sent code events clock)
            (finished (if ltb (clock 0) (clock 1) then delivered else rejected)))
      × ((post_ingest disk (sent code events clock) base).1.events ≡ (
          if ltb (clock 0) (clock 1)
          then grown base.events (map (event_of k (sent code events clock)) events)
          else base.events))
  handle_message-journey = elim (Bool-cases (ltb (clock 0) (clock 1))) [
    | inl h ↦
        let valid : is_late b ≡ false = ground arith in
        let busy : is_effective b ≡ true = ground (arith, fits, valid) in
        let (v, answered, id) =
          call_answers disk code k tu (window station.id b) base.videos ready.sentinel valid in
        let ran = post_written disk b station base v false busy ready.known answered in
        let (_, added) = step disk b station k tu base ready in
        rw h (handled 201 (ap (λ r. status_of r.0) ran), added ∙ rw busy refl)
    | inr h ↦
        let reversed : is_late b ≡ true = ground arith in
        let idle : is_effective b ≡ false = ground (arith, fits, reversed) in
        let ran = post_refused disk b station base idle ready.known ready.quiet in
        rw h (handled 422 (ap (λ r. status_of r.0) ran), ap (λ r. r.1.events) ran)
  ]
    where
      b : EdgeBatch
      b = sent code events clock
