-- ===== src/Tests/Videos.antt =====
-- A table of one video, and the retries and registrations on it.
use portfolio_cv_project.Common.{
  ℕ, ◌≡◌, refl, true, false, [], ◌∷◌, none, some, arith, ok, raise, Error, runtime_error,
  aruco_decode_error, integrity_error,
}
use portfolio_cv_project.Clock.{naive}
use portfolio_cv_project.Video.{failed, invalid, Text, VideoFile}
use portfolio_cv_project.Video.Session.{Session, is_retriable, get_by_hash, create}
use portfolio_cv_project.Video.Service.{Disk, not_acceptable, register, create_and_commit}
use portfolio_cv_project.Video.Handler.{Pipeline}
use portfolio_cv_project.Video.Scheduler.{SchedulerSettings, process_single, target}
use portfolio_cv_project.Video.Retry.{Holds, worker-Fails, started}
use portfolio_cv_project.Video.Limit.{
  ticks, AlwaysFails, HasRow, retries_to_limit, retriable_left_processing,
}
use portfolio_cv_project.Video.Dedup.{stored, candidate, with_row, duplicate_refused}
use portfolio_cv_project.Video.Sentinel.{Window, IsSentinel, calls, calls-IsSentinel}

program : Unit {0}
unfolding create_and_commit register get_by_hash create
program = tt

abbrev pub disk : Disk
disk = record {
  exists = λ uri. true;
  sha256_of_file = λ uri. uri;
  sha256 = λ text. text;
  failed_path = λ uri i. uri;
  move_error = λ uri. none;
}

abbrev scheduler : SchedulerSettings
scheduler = record { scheduler_activate = true; stale_threshold = 1800; max_retry_attempts = 3 }

abbrev clip : Text
clip = b'a' ∷ []

abbrev pub video : VideoFile
video = record {
  id = 1;
  station_id = some 1;
  storage_uri = clip;
  content_hash = clip;
  started_at = 10;
  ended_at = 40;
  status = failed;
  retry_count = some 0;
  error_message = none;
  frames_processed = 0;
  triggers_fired = 0;
  events_found = 0;
  updated_at = 50;
}

abbrev pub session : Session
session = record { rows = video ∷ []; committed = video ∷ []; next_id = 2; now = 60 }

abbrev broken : Error → Pipeline
broken e = record { worker = λ uri. raise e; persist = λ i n s. (ok tt, s) }

always : AlwaysFails (broken runtime_error) 1
always uri = (runtime_error, refl, worker-Fails (broken runtime_error) 1 uri runtime_error refl)

retries_to_limit_example :
    HasRow 1 invalid 3 (ticks scheduler disk (broken runtime_error) 5 session)
retries_to_limit_example =
    retries_to_limit scheduler disk (broken runtime_error) 1 5 session always (λ uri. refl)
      (omega arith) (video, refl, refl, refl, refl)

retriable_left_processing_example :
    (s' : Session) × (process_single scheduler disk
        (broken aruco_decode_error)
        (target video)
        session
      ≡ (raise integrity_error, s'))
    × Holds (started 60 video) s'.committed
    × (is_retriable 3 (started 60 video) ≡ false)
retriable_left_processing_example =
    retriable_left_processing scheduler disk (broken aruco_decode_error) video 0 aruco_decode_error
      session refl refl (worker-Fails (broken aruco_decode_error) 1 clip aruco_decode_error refl)
      refl

abbrev other : Text
other = b'b' ∷ []

-- Two paths with one content.
abbrev copies : Disk
copies = record disk { sha256_of_file = λ uri. other }

abbrev registered : Session
registered = with_row (candidate copies other (naive 10) (naive 20) none) session

duplicate_refused_example :
    create_and_commit copies clip (naive 30) (naive 40) (some 1) registered
    ≡ (ok (not_acceptable 2), registered)
unfolding program
duplicate_refused_example =
    duplicate_refused copies other clip (naive 10) (naive 20) (naive 30) (naive 40) none (some 1)
      session registered (stored (candidate copies other (naive 10) (naive 20) none) session) refl
      refl refl

abbrev batch : ℕ → ℕ → Window
batch t u = record { station_id = 1; started = naive t; ended = naive u }

calls-IsSentinel_example :
    IsSentinel disk other 2
      (5, 40)
      (calls disk other (batch 10 20 ∷ batch 30 30 ∷ batch 5 40 ∷ []) session)
calls-IsSentinel_example =
    calls-IsSentinel disk other (batch 10 20) (batch 30 30 ∷ batch 5 40 ∷ []) session refl refl refl
