-- ===== src/Video/Tick.antt =====
-- A tick of src/services/scheduler.py over a table of one video.
use portfolio_cv_project.Common.{
  ℕ, ◌<◌, ◌≡◌, ◌∙◌, refl, ap, true, false, List, [], ◌∷◌, ◌++◌, map, some, keep, length, ok, arith,
}
use portfolio_cv_project.Video.{created, processing, failed, invalid, same_status, VideoFile}
use portfolio_cv_project.Video.Session.{
  Session, Run, pure, ◌>>=◌, commit, rollback, try_except, is_stale, is_retriable, is_unlimited,
  get_stale_videos, get_failed_videos_within_limit, get_failed_videos_unlimited,
}
use portfolio_cv_project.Video.Service.{Disk}
use portfolio_cv_project.Video.Handler.{Pipeline}
use portfolio_cv_project.Video.Scheduler.{
  SchedulerSettings, in_session, mark_each, mark_stale_loop, mark_stale_videos, list_targets,
  target, process_single, gather, process_failed_videos, tick,
}
use portfolio_cv_project.Video.Retry.{Holds}

-- A table of one row that is found under its id.
pub only_row :
    (v : VideoFile) (rows : List VideoFile) → Holds v rows → length rows ≡ 1 → rows ≡ v ∷ []
only_row v [] h k = cc
only_row v (r ∷ []) h k = ground arith
only_row v (r ∷ (u ∷ rows)) h k = ground (arith, k)

abbrev pub opened : Session → Session
opened s = record s { rows = s.committed }

module _ (c : SchedulerSettings) (disk : Disk) (p : Pipeline) (s : Session) (v : VideoFile)
    (e : s.committed ≡ v ∷ []) where
  -- Nothing is stale where no row is CREATED or PROCESSING.
  mark_none :
      same_status v.status created ≡ false
      → same_status v.status processing ≡ false
      → mark_stale_videos c s ≡ (ok 0, opened s)
  unfolding mark_stale_videos mark_stale_loop get_stale_videos
  mark_none h k =
      let none_stale : keep (is_stale created c.stale_threshold s.now) s.committed
            ++ keep (is_stale processing c.stale_threshold s.now) s.committed
          ≡ [] =
        rw (e, h, k) refl in
      ap
        (λ l.
          in_session
            (try_except
              (elim l as (λ _. Run ℕ) [
                | [] ↦ pure 0
                | u ∷ us ↦ mark_each (u ∷ us) >>= λ _. commit >>= λ _. pure (length (u ∷ us))
              ])
              (λ x. rollback >>= λ _. pure 0))
            s)
        none_stale

  -- What the queries for failed videos list, by whether they want the row.
  list_one :
      is_retriable c.max_retry_attempts v ≡ true
      → is_unlimited v ≡ false
      → list_targets c (opened s) ≡ (ok (target v ∷ []), opened s)
  unfolding list_targets get_failed_videos_within_limit get_failed_videos_unlimited
  list_one h k =
      ap
        (λ rows. (
          ok (map target (keep (is_retriable c.max_retry_attempts) rows ++ keep is_unlimited rows)),
          opened s,
        ))
        e
      ∙ rw (h, k) refl

  list_none :
      is_retriable c.max_retry_attempts v ≡ false
      → is_unlimited v ≡ false
      → list_targets c (opened s) ≡ (ok [], opened s)
  unfolding list_targets get_failed_videos_within_limit get_failed_videos_unlimited
  list_none h k =
      ap
        (λ rows. (
          ok (map target (keep (is_retriable c.max_retry_attempts) rows ++ keep is_unlimited rows)),
          opened s,
        ))
        e
      ∙ rw (h, k) refl

  -- A tick over a FAILED row below the limit is one retry of it.
  pub tick_one :
      (k : ℕ) (s' : Session)
      → v.status ≡ failed
      → v.retry_count ≡ some k
      → k < c.max_retry_attempts
      → process_single c disk p (target v) s ≡ (ok tt, s')
      → (tick c disk p s).1 ≡ s'
  unfolding tick process_failed_videos gather process_single
  tick_one k s' status count lt ran =
      rw (mark_none (rw status refl) (rw status refl))
        (rw (list_one (ground arith) (ground arith)) (rw ran refl))

  pub tick_none :
      (k : ℕ) → v.status ≡ invalid → v.retry_count ≡ some k → (tick c disk p s).1 ≡ opened s
  unfolding tick process_failed_videos gather
  tick_none k status count =
      rw (mark_none (rw status refl) (rw status refl))
        (rw (list_none (ground arith) (ground arith)) refl)
