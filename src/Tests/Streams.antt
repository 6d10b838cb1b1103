-- ===== src/Tests/Streams.antt =====
-- The streams of the program on concrete data: replies, rounds, frames, directories.
use portfolio_cv_project.Common.{
  ℕ, ◌==◌, ◌≡◌, refl, Bool, true, false, List, [], ◌∷◌, Option, none, some, arith, ok,
  if◌then◌else◌,
}
use portfolio_cv_project.Event.{Bbox}
use portfolio_cv_project.Mqtt.{Text}
use portfolio_cv_project.Mqtt.Topic.{station_code, edge_topic, farm, station_code-edge_topic}
use portfolio_cv_project.Mqtt.Backoff.{
  deliver, halt, Round, refused, dropped, drained, run_forever, refusals, run_forever-exponential,
}
use portfolio_cv_project.Mqtt.Consumer.{
  Reply, status, delivered, forward_with_retries, forward_with_retries-foretold,
}
use portfolio_cv_project.Detect.Frame.{DetectorSettings, Frame, Point, trigger_detect}
use portfolio_cv_project.Detect.Pipeline.{Capture, numbered, process_video}
use portfolio_cv_project.Detect.Events.{reports, process_video-events}
use portfolio_cv_project.Edge.Pipeline.{EdgeSettings, Step, open_stream, read_frame, interval, run}
use portfolio_cv_project.Edge.Held.{all_sent, seen}
use portfolio_cv_project.Edge.Batches.{run-all_sent}
use portfolio_cv_project.Ingest.Produce.{
  copied, torn, Entry, Disk, Pass, ApiReply, produce_for_directory,
}
use portfolio_cv_project.Ingest.Watch.{
  Look, found, missing, unreadable, member, directories, idle, watch_turn, watch_turns,
  watch_station_dirs,
}
use portfolio_cv_project.Ingest.Running.{IsRunning, watch_station_dirs-tracks}
use portfolio_cv_project.Ingest.Kept.{Spares, IsKept, produce_for_directory-IsKept}

abbrev code : Text
code = b'S' ∷ b'1' ∷ []

station_code-edge_topic_example : station_code (edge_topic farm code) ≡ some code
station_code-edge_topic_example = station_code-edge_topic code refl

run_forever-exponential_example : (run_forever 1 30 (refusals 3 [])).slept ≡ 1 ∷ 2 ∷ 4 ∷ []
run_forever-exponential_example = run_forever-exponential 1 30 3 (omega arith)

abbrev rounds : List Round
rounds =
    refused false
    ∷ dropped (deliver 5 ∷ deliver 6 ∷ []) false
    ∷ refused false
    ∷ drained (deliver 7 ∷ halt ∷ [])
    ∷ []

-- A server that fails once.
abbrev flaky : ℕ → Reply
flaky n = if n == 1 then status 503 else status 201

forward_with_retries-foretold_example :
    forward_with_retries flaky 3 10 ≡ record { result = delivered; posts = 2; slept = 10 ∷ [] }
forward_with_retries-foretold_example = forward_with_retries-foretold flaky 3 10

abbrev detector : DetectorSettings
detector = record {
  min_contour_area = 10000;
  min_aruco_side_pixels = 30;
  velocity_px_threshold = 6;
  mog2_mass_min = 2000;
}

abbrev box : ℕ → Bbox
box n = record { x = n; y = 10; w = 40; h = 40 }

abbrev frame_of : ℕ → Frame
frame_of area = record {
  height = 480;
  width = 640;
  contours =
      record { area = 300; bounding_rect = box 1 }
      ∷ record { area = area; bounding_rect = box 2 }
      ∷ [];
  markers = some (record { bounding_rect = box 2; id = 4 } ∷ []);
}

abbrev in_polygon : List Point → Point → Bool
in_polygon polygon point = true

abbrev video : Capture
video = record {
  is_opened = true;
  fps = 25000;
  frames = frame_of 20000 ∷ frame_of 400 ∷ frame_of 30000 ∷ [];
}

process_video-events_example :
    process_video detector in_polygon none video
    ≡ ok (reports detector in_polygon none (numbered 25000 0 video.frames), 3, 2)
unfolding trigger_detect
process_video-events_example = process_video-events detector in_polygon none video refl

abbrev edge : EdgeSettings
edge = record {
  station_code = code;
  topic_prefix = farm;
  frame_skip = 2;
  roi_polygon = none;
  detector = detector;
}

abbrev shift : List Step
shift =
    open_stream 100
    ∷ read_frame 110 (frame_of 20000)
    ∷ read_frame 120 (frame_of 20000)
    ∷ interval 125 false
    ∷ read_frame 130 (frame_of 20000)
    ∷ []

run-all_sent_example :
    (all_sent (run edge in_polygon 0 shift 140 true).sent ≡ seen edge in_polygon none 0 shift)
    × ((run edge in_polygon 0 shift 140 true).buffer ≡ [])
run-all_sent_example = run-all_sent edge in_polygon 0 shift 140 true

abbrev file : ℕ → Entry
file hash = record { is_file = true; stem = b'2' ∷ []; suffix = 1; content_hash = hash }

abbrev station : Disk
station = record {
  station =
      λ path. if path == 1 then some (file 11) else (if path == 2 then some (file 12) else none);
  cold = [];
  accepted = [];
}

abbrev pass : Pass
pass = record {
  paths = 1 ∷ 2 ∷ [];
  copies = λ path. if path == 2 then torn else copied;
  reply = λ path. if path == 1 then ApiReply.status 200 else ApiReply.status 503;
}

abbrev parse : Text → Option ℕ
parse stem = some 0

other_content : Spares station.station (file 11) pass
other_content p f k broken = ground (arith, k, broken)

-- A duplicate whose copy breaks off destroys the copy that the API has accepted.
broken_duplicate :
    (produce_for_directory
      (1 ∷ [])
      parse
      (record pass { copies = λ path. torn } ∷ [])
      (record station { cold = (11, 1) ∷ []; accepted = (11, 1) ∷ [] })).cold
    ≡ []
unfolding produce_for_directory
broken_duplicate = refl

produce_for_directory-IsKept_example :
    IsKept 1 (file 11) (produce_for_directory (1 ∷ []) parse (pass ∷ pass ∷ []) station)
produce_for_directory-IsKept_example =
    produce_for_directory-IsKept (1 ∷ []) parse (pass ∷ pass ∷ []) 1 (file 11) station
      (other_content, (other_content, tt)) refl

-- Directories 2 and 3, of which 3 is gone before its set-up, then 2 alone, then no root.
abbrev both_listed : Look
both_listed = record {
  raises = false;
  root_exists = true;
  listed = 2 ∷ 3 ∷ [];
  setup = λ d. if d == 2 then found else missing;
}

abbrev one_listed : Look
one_listed = record both_listed { listed = 2 ∷ []; setup = λ d. found }

abbrev no_root : Look
no_root = record one_listed { root_exists = false }

watch_station_dirs-tracks_example :
    IsRunning (watch_turns (one_listed ∷ one_listed ∷ []) idle)
    × (member 2 (
          directories (watch_turn no_root (watch_turns (one_listed ∷ one_listed ∷ []) idle)).active)
        ≡ false)
    × ((watch_station_dirs (one_listed ∷ one_listed ∷ []) idle).running ≡ [])
watch_station_dirs-tracks_example =
    watch_station_dirs-tracks (one_listed ∷ one_listed ∷ []) ((λ d. refl), ((λ d. refl), tt))
      no_root (λ d. refl) 2

-- A look at directory 3 that raises, after 2 was started: 2 is started again in the next turn, and its
-- first producer outlives the watcher.
abbrev half_read : Look
half_read = record both_listed { setup = λ d. if d == 2 then found else unreadable }

first_producer_stays : (watch_station_dirs (half_read ∷ one_listed ∷ []) idle).running ≡ 0 ∷ []
unfolding watch_station_dirs
first_producer_stays = refl

gone_before_setup : (watch_turn both_listed idle).active ≡ (2, 0) ∷ []
unfolding watch_turn
gone_before_setup = refl
