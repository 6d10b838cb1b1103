-- ===== src/Mqtt/Messages.antt =====
-- `_handle_message` and `_normalise_timestamps` of mqtt_consumer/main.py. What the JSON decoder gives
-- of a payload is an argument, its fields as the schema reads them; so is the clock.
use portfolio_cv_project.Common.{
  ℕ, Bool, true, false, List, [], Option, none, some, if◌then◌else◌, Text,
}
use portfolio_cv_project.Clock.{DateTime, aware}
use portfolio_cv_project.Event.Ingest.{EdgeEvent, EdgeBatch, is_acceptable}
use portfolio_cv_project.Mqtt.Consumer.{Forwarding, forward_with_retries}
use portfolio_cv_project.Mqtt.Consumer

-- A time in a payload: a number, or a text, which the schema may parse.
pub data Stamp : Type 0 where
  number : ℕ → Stamp
  text : Option DateTime → Stamp

pub record Payload : Type 0 where
  pub station_code : Option Text
  pub started_at : Option Stamp
  pub ended_at : Option Stamp
  pub events : Option (List EdgeEvent)

-- A number becomes what the clock shows; `n` counts the readings.
abbrev pub normalised : (ℕ → ℕ) → ℕ → Option Stamp → Option Stamp
normalised clock n (some (number x)) = some (text (some (aware (clock n))))
normalised clock n stamp = stamp

abbrev pub is_number : Option Stamp → Bool
is_number (some (number x)) = true
is_number _ = false

unfoldable pub normalise_timestamps : (ℕ → ℕ) → Payload → Payload
normalise_timestamps clock p = record p {
  started_at = normalised clock 0 p.started_at;
  ended_at = normalised clock (if is_number p.started_at then 1 else 0) p.ended_at;
}

abbrev pub time_of : Option Stamp → Option DateTime
time_of (some (text (some t))) = some t
time_of _ = none

-- `events` may be left out.
abbrev pub events_of : Option (List EdgeEvent) → List EdgeEvent
events_of none = []
events_of (some es) = es

abbrev bounded : EdgeBatch → Option EdgeBatch
bounded b = if is_acceptable b then some b else none

abbrev pub batch_of :
    Option Text → Option DateTime → Option DateTime → List EdgeEvent → Option EdgeBatch
batch_of (some code) (some from) (some till) es =
    bounded (record { station_code = code; started_at = from; ended_at = till; events = es })
batch_of _ _ _ es = none

-- `EdgeBatchIn.model_validate`, after the conversion of the times.
unfoldable pub validated : Payload → Option EdgeBatch
validated p =
    batch_of p.station_code (time_of p.started_at) (time_of p.ended_at) (events_of p.events)

pub data Handled : Type 0 where
  malformed invalid : Handled
  forwarded : EdgeBatch → Forwarding → Handled

-- What is left of a message: dropped, or forwarded; a failure to forward is logged.
abbrev pub forwarding : (EdgeBatch → ℕ → Consumer.Reply) → ℕ → ℕ → Option EdgeBatch → Handled
forwarding api max_retries retry_backoff none = invalid
forwarding api max_retries retry_backoff (some b) =
    forwarded b (forward_with_retries (api b) max_retries retry_backoff)

unfoldable pub handle_message :
    (EdgeBatch → ℕ → Consumer.Reply) → ℕ → ℕ → (ℕ → ℕ) → Option Payload → Handled
unfolding normalise_timestamps validated
handle_message api max_retries retry_backoff clock none = malformed
handle_message api max_retries retry_backoff clock (some p) =
    forwarding api max_retries retry_backoff (validated (normalise_timestamps clock p))
