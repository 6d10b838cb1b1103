-- ===== src/Tests/Feeds.antt =====
-- Batches of an edge station, and the recognition of a clip.
use portfolio_cv_project.Common.{
  ℕ, ◌*◌, ◌+◌, ◌≡◌, refl, true, List, [], ◌∷◌, map, Option, none, some, Result, ok, Text,
}
use portfolio_cv_project.Clock.{naive, aware}
use portfolio_cv_project.Event.Store.{create_many, numbered}
use portfolio_cv_project.Event.Ingest.{EdgeEvent, EdgeBatch, Base, ingest_edge_batch, post_ingest}
use portfolio_cv_project.Event.Ingest.{event_of}
use portfolio_cv_project.Event.Feed.{post_all, IsReady, all_payloads}
use portfolio_cv_project.Event.Gathered.{grown, post_all-gathers}
use portfolio_cv_project.Farm.Stations.{get_by_code}
use portfolio_cv_project.Video.Session.{get_by_hash, create, update}
use portfolio_cv_project.Video.Service.{get_or_create_edge_sentinel, extend_or_create}
use portfolio_cv_project.Detect.Pipeline.{DetectionEvent}
use portfolio_cv_project.Detect.Frame.{Point}
use portfolio_cv_project.Visit.Process.{process_video_for_visits}
use portfolio_cv_project.Recognize.{Stores, recognize_video, aggregated}
use portfolio_cv_project.Recognize.Markers.{payloads, counted_in, recognize_video-events}
use portfolio_cv_project.Mqtt.Consumer.{delivered, finished}
use portfolio_cv_project.Mqtt.Messages.{forwarded, handle_message}
use portfolio_cv_project.Mqtt.Journey.{answers, message, sent, handle_message-journey}
use portfolio_cv_project.Tests.Farms.{north, stations, tractors}
use portfolio_cv_project.Tests.Videos.{disk, session, video}
use portfolio_cv_project.Tests.Visits.{db, settings, empty, second}

program : Unit {0}
unfolding get_by_code post_ingest ingest_edge_batch get_or_create_edge_sentinel extend_or_create
    get_by_hash create update create_many post_all
program = tt

abbrev seen : ℕ → EdgeEvent
seen frame = record {
  aruco_id = some 7;
  confidence = none;
  bbox = none;
  inside_roi = true;
  frame_number = frame;
  timestamp_in_video = 0;
  detector_metadata = none;
}

abbrev batch : ℕ → ℕ → List EdgeEvent → EdgeBatch
batch from till events = record {
  station_code = b'n' ∷ [];
  started_at = naive from;
  ended_at = aware till;
  events = events;
}

abbrev base : Base
base = record { stations = stations; videos = session; events = record { rows = []; next_id = 1 } }

abbrev later : List EdgeBatch
later = batch 30 30 (seen 5 ∷ []) ∷ batch 5 40 (seen 3 ∷ []) ∷ []

post_all-gathers_example :
    IsReady disk
      (b'n' ∷ [])
      north
      2
      (5, 40)
      (post_all disk (batch 10 20 (seen 1 ∷ seen 2 ∷ []) ∷ later) base)
    × ((post_all disk (batch 10 20 (seen 1 ∷ seen 2 ∷ []) ∷ later) base).events
        ≡ grown base.events (all_payloads 2 (batch 10 20 (seen 1 ∷ seen 2 ∷ []) ∷ later)))
unfolding program
post_all-gathers_example =
    post_all-gathers disk (b'n' ∷ []) north (batch 10 20 (seen 1 ∷ seen 2 ∷ [])) later base
      (refl, (refl, (refl, tt))) refl refl refl refl

-- A base in which the sentinel stands.
abbrev filled : Base
filled = post_all disk (batch 10 20 [] ∷ []) base

filled-IsReady : IsReady disk (b'n' ∷ []) north 2 (10, 20) filled
unfolding get_by_code
filled-IsReady =
    (post_all-gathers disk (b'n' ∷ []) north (batch 10 20 []) [] base (refl, tt) refl refl refl
      refl).0

handle_message-journey_example :
    (handle_message
        (answers disk filled)
        3
        1
        (λ n. 50 + n)
        (some (message (b'n' ∷ []) (seen 6 ∷ []) 7 9))
      ≡ forwarded (sent (b'n' ∷ []) (seen 6 ∷ []) (λ n. 50 + n)) (finished delivered))
    × ((post_ingest disk (sent (b'n' ∷ []) (seen 6 ∷ []) (λ n. 50 + n)) filled).1.events
        ≡ grown filled.events
            (map (event_of 2 (sent (b'n' ∷ []) (seen 6 ∷ []) (λ n. 50 + n))) (seen 6 ∷ [])))
handle_message-journey_example =
    handle_message-journey disk (b'n' ∷ []) north 2 (10, 20) filled filled-IsReady (λ n. 50 + n)
      (seen 6 ∷ []) refl 7 9 2 1

abbrev detection : ℕ → ℕ → DetectionEvent
detection frame marker = record {
  frame_number = frame;
  timestamp_in_video = 0;
  aruco_id = some marker;
  confidence = 5;
  bbox = none;
  inside_roi = true;
  triggered_by_mog2 = true;
}

abbrev worker : Text → Option (List Point) → Result (List DetectionEvent × ℕ × ℕ)
worker uri roi = ok (detection 1 7 ∷ detection 2 9 ∷ detection 3 7 ∷ [], 3, 3)

abbrev stores : Stores
stores = record {
  tractors = tractors;
  videos = session;
  events = record { rows = []; next_id = 1 };
  visits = empty;
}

abbrev clock : ℕ → ℕ
clock n = (10 + n) * second

recognize_video-events_example :
    recognize_video db settings clock worker 1 (b'a' ∷ []) (some north) stores
    ≡ aggregated
        (3, 3, 3)
        stores
        (record stores {
          videos = counted_in 3 3 3 video session;
          events =
              grown stores.events
                (payloads tractors clock 1 0 (detection 1 7 ∷ detection 2 9 ∷ detection 3 7 ∷ []));
        })
        (process_video_for_visits db settings
          (some 1)
          (numbered 1
            (payloads tractors clock 1 0 (detection 1 7 ∷ detection 2 9 ∷ detection 3 7 ∷ [])))
          empty)
recognize_video-events_example =
    recognize_video-events db settings clock worker (b'a' ∷ []) north stores (detection 1 7)
      (detection 2 9 ∷ detection 3 7 ∷ []) 3 3 video refl refl refl
