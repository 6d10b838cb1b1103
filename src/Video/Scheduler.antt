-- ===== src/Video/Scheduler.antt =====
-- `VideoRetryScheduler` of src/services/scheduler.py and its settings. Each retry runs in a session of
-- its own; here the retries of one tick run one after the other, in the order of the list.
use portfolio_cv_project.Common.{
  ℕ, ◌*◌, max, leb, Bool, true, ◌||◌, List, [], ◌∷◌, ◌++◌, map, length, Option, none, some,
  if◌then◌else◌, Error,
}
use portfolio_cv_project.Video.{created, processing, failed, Text, stuck, VideoFile}
use portfolio_cv_project.Video.Session.{
  Session, Run, pure, ◌>>=◌, ◌>>◌, try_except, commit, rollback, get, is_null, get_stale_videos,
  get_failed_videos_within_limit, get_failed_videos_unlimited,
}
use portfolio_cv_project.Video.Service.{
  Disk, update_status, mark_unlimited_retry, mark_permanently_failed,
}
use portfolio_cv_project.Video.Handler.{
  Pipeline, is_retriable_without_limit, process_video_with_error_handling,
}

pub record SchedulerSettings : Type 0 where
  pub scheduler_activate : Bool
  pub stale_threshold : ℕ
  pub max_retry_attempts : ℕ

-- `async with AsyncSession(engine)`: a new session sees what is committed, and leaving it drops what
-- is not.
abbrev pub in_session : {A : Type 0} → Run A → Run A
in_session m s =
    let (r, s') = m (record s { rows = s.committed }) in (r, record s' { rows = s'.committed })

unfoldable pub mark_each : List VideoFile → Run (Unit {0})
mark_each [] = pure tt
mark_each (v ∷ vs) = do update_status v.id failed (some (stuck v.status)); mark_each vs

unfoldable pub mark_stale_loop : SchedulerSettings → Run ℕ
mark_stale_loop c = do
  stale_created ← get_stale_videos created c.stale_threshold
  stale_processing ← get_stale_videos processing c.stale_threshold
  let stale = stale_created ++ stale_processing
  elim stale [ [] ↦ pure 0 | v ∷ vs ↦ do mark_each (v ∷ vs); commit; pure (length (v ∷ vs)) ]

unfoldable pub mark_stale_videos : SchedulerSettings → Run ℕ
mark_stale_videos c = in_session (try_except (mark_stale_loop c) (λ e. do rollback; pure 0))

abbrev pub count_or_zero : Option ℕ → ℕ
count_or_zero none = 0
count_or_zero (some n) = n

unfoldable pub handle_retry_failure : SchedulerSettings → Disk → ℕ → Bool → Error → Run (Unit {0})
handle_retry_failure c disk video_id unlimited e =
    let to_unlimited : Run (Unit {0}) = (do mark_unlimited_retry video_id; commit) in
    let give_up : Run (Unit {0}) = (do mark_permanently_failed disk video_id; commit) in
    let settle : VideoFile → Run (Unit {0}) = λ v.
      let new_retry_count = count_or_zero v.retry_count in
      if unlimited || is_retriable_without_limit e
      then (if unlimited then pure tt else to_unlimited)
      else (if leb c.max_retry_attempts new_retry_count then give_up else pure tt) in
    do o ← get video_id; elim o [ none ↦ pure tt | some v ↦ settle v ]

-- One retry: (id, storage_uri, is_unlimited) of a failed video.
pub record Target : Type 0 where
  pub video_id : ℕ
  pub storage_uri : Text
  pub unlimited : Bool

unfoldable pub process_single : SchedulerSettings → Disk → Pipeline → Target → Run (Unit {0})
process_single c disk p t = in_session (
    try_except (process_video_with_error_handling p t.video_id t.storage_uri true)
      (handle_retry_failure c disk t.video_id t.unlimited))

abbrev pub target : VideoFile → Target
target v = record {
  video_id = v.id;
  storage_uri = v.storage_uri;
  unlimited = is_null v.retry_count;
}

unfoldable pub list_targets : SchedulerSettings → Run (List Target)
list_targets c = do
  limited ← get_failed_videos_within_limit c.max_retry_attempts
  unlimited ← get_failed_videos_unlimited
  pure (map target (limited ++ unlimited))

-- `asyncio.gather(..., return_exceptions=True)`: what a retry raises is dropped.
unfoldable pub gather : SchedulerSettings → Disk → Pipeline → List Target → Run (Unit {0})
gather c disk p [] = pure tt
gather c disk p (t ∷ ts) = do
  try_except (process_single c disk p t) (λ _. pure tt)
  gather c disk p ts

unfoldable pub process_failed_videos : SchedulerSettings → Disk → Pipeline → Run ℕ
process_failed_videos c disk p = do
  targets ← in_session (list_targets c)
  gather c disk p targets
  pure (length targets)

pub record Summary : Type 0 where
  pub stale_marked : ℕ
  pub retried : ℕ

unfoldable pub tick : SchedulerSettings → Disk → Pipeline → Run Summary
tick c disk p = do
  stale_count ← mark_stale_videos c
  retried_count ← process_failed_videos c disk p
  pure (record { stale_marked = stale_count; retried = retried_count })

-- `max(retry_interval_minutes * 60, 1.0)`, in seconds.
abbrev pub run_interval : ℕ → ℕ
run_interval retry_interval_minutes = max (retry_interval_minutes * 60) 1

-- One turn of the timer loop: whether `_running` is set, and the machine that its tick meets.
pub record Beat : Type 0 where
  pub is_running : Bool
  pub disk : Disk
  pub pipeline : Pipeline

-- `_run_loop` up to its cancellation, which ends the list: what a tick raises is logged.
unfoldable pub run_loop : SchedulerSettings → List Beat → Session → Session
run_loop c [] s = s
run_loop c (beat ∷ beats) s =
    let rest = run_loop c beats (tick c beat.disk beat.pipeline s).1 in
    if beat.is_running then rest else s
