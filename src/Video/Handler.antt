-- ===== src/Video/Handler.antt =====
-- src/services/video_handler.py and src/services/exceptions.py. The worker process and what it
-- needs of the file is an argument, as is the storing of its events (src/services/event_service.py
-- and the visit service), which works in the same session.
use portfolio_cv_project.Common.{
  ℕ, Bool, true, false, Option, none, some, if◌then◌else◌, Result, ok, raise, Error,
  video_process_error, aruco_decode_error, ◌==◌,
}
use portfolio_cv_project.Clock.{DateTime}
use portfolio_cv_project.Video.{
  VideoStatus, processing, completed, failed, Text, plain, retry_failed, VideoFile,
}
use portfolio_cv_project.Video.Session.{
  Run, pure, throw, ◌>>=◌, ◌>>◌, try_except, commit, rollback, get,
}
use portfolio_cv_project.Video.Service.{
  Disk, Answer, answer, unprocessable, not_acceptable, update_status, update_counters,
  increment_retry_count, create_and_commit,
}

-- `VideoProcessError` and its subclass are retried without limit.
abbrev pub is_retriable_without_limit : Error → Bool
is_retriable_without_limit video_process_error = true
is_retriable_without_limit aruco_decode_error = true
is_retriable_without_limit _ = false

pub record Counts : Type 0 where
  pub events : ℕ
  pub frames : ℕ
  pub triggers : ℕ

pub record Pipeline : Type 0 where
  pub worker : Text → Result Counts
  pub persist : ℕ → ℕ → Run (Unit {0})

abbrev pub from_worker : Result Counts → Run Counts
from_worker (ok n) = pure n
from_worker (raise e) = throw e

-- `recognize_video`: the counters are stored before the events; with no event nothing else is.
unfoldable pub recognize_video : Pipeline → ℕ → Text → Run Counts
recognize_video p video_id uri = do
  n ← from_worker (p.worker uri)
  update_counters video_id n.frames n.triggers n.events
  if n.events == 0 then pure n else (do p.persist video_id n.events; pure n)

-- The `except` branch of the wrapper, which raises the exception again.
unfoldable pub record_failure : ℕ → Bool → Error → Run (Unit {0})
record_failure video_id is_retry e =
    let counted : Run (Unit {0}) = (do
      increment_retry_count video_id
      update_status video_id failed (some (retry_failed e))
      commit
      throw e) in
    let first : Run (Unit {0}) = (do
      update_status video_id failed (some (plain e))
      commit
      throw e) in
    let unlimited : Run (Unit {0}) = (do commit; throw e) in
    rollback
    >> (if is_retry then (if is_retriable_without_limit e then unlimited else counted) else first)

unfoldable pub run_pipeline : Pipeline → ℕ → Text → Run (Unit {0})
run_pipeline p video_id uri = do
  recognize_video p video_id uri
  update_status video_id completed none
  commit

unfoldable pub process_video_with_error_handling : Pipeline → ℕ → Text → Bool → Run (Unit {0})
process_video_with_error_handling p video_id uri is_retry = do
  update_status video_id processing none
  commit
  try_except (run_pipeline p video_id uri) (record_failure video_id is_retry)

-- `process_video_background` in its own session; what the last handler catches is dropped.
unfoldable pub process_video_background : Pipeline → ℕ → Text → Run (Unit {0})
process_video_background p video_id uri =
    try_except (process_video_with_error_handling p video_id uri false)
      (λ e. try_except (do update_status video_id failed (some (plain e)); commit) (λ _. rollback))

-- The answer of `handle_video`: a task left for the background, or the status after an inline run.
pub data Handled : Type 0 where
  queued : ℕ → Text → Handled
  processed : ℕ → Option VideoStatus → Handled

abbrev pub status_of : Option VideoFile → Option VideoStatus
status_of none = none
status_of (some v) = some v.status

abbrev pub handle_registered : Pipeline → Bool → Answer VideoFile → Run (Answer Handled)
handle_registered p background unprocessable = pure unprocessable
handle_registered p background (not_acceptable i) = pure (not_acceptable i)
handle_registered p background (answer v) =
    let inline : Run (Answer Handled) = (do
      process_video_with_error_handling p v.id v.storage_uri false
      refreshed ← get v.id
      pure (answer (processed v.id (status_of refreshed)))) in
    if background then pure (answer (queued v.id v.storage_uri)) else inline

unfoldable pub handle_video :
    Pipeline → Disk → Text → Option ℕ → DateTime → DateTime → Bool → Run (Answer Handled)
handle_video p disk uri station_id started ended background = do
  made ← create_and_commit disk uri started ended station_id
  handle_registered p background made
