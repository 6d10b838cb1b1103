-- ===== src/Video/Attempts.antt =====
-- The retry limit: how failed attempts are counted, and when a video is given up.
use portfolio_cv_project.Common.{
  length, none, ℕ, ◌+◌, ◌≡◌, ◌∙◌, refl, ap, inl, inr, leb, Bool, true, false, List, some,
  if◌then◌else◌, Result, ok, raise, Error, Bool-cases,
}
use mathlib.Core.Path.{subst}
use portfolio_cv_project.Video.{VideoFile}
use portfolio_cv_project.Video.Session.{Session, save, is_null}
use portfolio_cv_project.Video.Service.{Disk}
use portfolio_cv_project.Video.Handler.{
  Pipeline, is_retriable_without_limit, process_video_with_error_handling,
}
use portfolio_cv_project.Video.Scheduler.{
  SchedulerSettings, handle_retry_failure, process_single, target,
}
use portfolio_cv_project.Video.Retry.{
  Holds, find-save, length-save, Fails, counted, refailed, started, attempt_fails, failure_counted,
  abandoned, give_up,
}

-- The row of a counted failure after the scheduler has looked at it.
abbrev pub verdict : SchedulerSettings → Disk → ℕ → ℕ → VideoFile → VideoFile
verdict c disk now k w = if leb c.max_retry_attempts (k + 1) then abandoned disk now w else w

judged :
    (c : SchedulerSettings) (disk : Disk) (w : VideoFile) (k : ℕ) (e : Error) (s : Session)
    → Holds w s.rows
    → s.committed ≡ s.rows
    → w.retry_count ≡ some (k + 1)
    → is_retriable_without_limit e ≡ false
    → disk.move_error w.storage_uri ≡ none
    → (rows : List VideoFile) × (handle_retry_failure c disk w.id false e s
        ≡ (ok tt, record s { rows = rows; committed = rows }))
      × Holds (verdict c disk s.now k w) rows
      × (length rows ≡ length s.rows)
unfolding handle_retry_failure
judged c disk w k e s h same count limited moves =
    elim (Bool-cases (leb c.max_retry_attempts (k + 1))) [
      | inl over ↦
          let (rows, ran, held, size) = give_up disk w s h (rw count) moves in
          (
            rows,
            rw (h, handle_retry_failure) (rw limited (rw count (rw over ran))),
            rw over held,
            size,
          )
      | inr under ↦ (
        s.rows,
        rw (h, handle_retry_failure) (rw limited (rw count (rw under (rw same)))),
        rw under h,
        refl,
      )
    ]

-- A retry that fails hands its session to `_handle_retry_failure`.
pub single_fails :
    (c : SchedulerSettings) (disk : Disk) (p : Pipeline) (v : VideoFile) (b : Bool) (e : Error)
    (r : Result (Unit {0})) (s s2 s3 : Session)
    → process_video_with_error_handling p v.id v.storage_uri true (record s { rows = s.committed })
      ≡ (raise e, s2)
    → is_null v.retry_count ≡ b
    → handle_retry_failure c disk v.id b e s2 ≡ (r, s3)
    → process_single c disk p (target v) s ≡ (r, record s3 { rows = s3.committed })
unfolding process_single
single_fails c disk p v b e r s s2 s3 attempt null handled =
    rw (attempt, process_single) (rw (null) (rw handled))

-- The row that a counted failure of `v` leaves before the scheduler looks at it.
abbrev pub failed_once : ℕ → ℕ → Error → VideoFile → VideoFile
failed_once now k e v = refailed (started now v) k e now

-- One scheduled retry of a failed video, with `k` failed retries before, whose pipeline fails with
-- an error that is not retried without limit, and whose file can be moved: the retry returns, and the committed row is FAILED
-- with `k + 1` retries if that is below the limit; else it is INVALID, and its file is in the
-- folder of failed videos if it was on the disk.
pub retry_counts :
    (c : SchedulerSettings) (disk : Disk) (p : Pipeline) (v : VideoFile) (k : ℕ) (e : Error)
    (s : Session)
    → Holds v s.committed
    → v.retry_count ≡ some k
    → Fails p v.id v.storage_uri e
    → is_retriable_without_limit e ≡ false
    → disk.move_error v.storage_uri ≡ none
    → (s' : Session) × (process_single c disk p (target v) s ≡ (ok tt, s'))
      × Holds (verdict c disk s.now k (failed_once s.now k e v)) s'.committed
      × (s'.now ≡ s.now)
      × (length s'.committed ≡ length s.committed)
retry_counts c disk p v k e s h count fails limited moves =
    let s0 : Session = record s { rows = s.committed } in
    let w = started s.now v in
    let rows1 = save w s.committed in
    let s1 : Session = record s { rows = rows1; committed = rows1 } in
    let (t, ran, same, now, next) = fails s1 in
    let row1 : Holds w t.committed = rw same (find-save w v s.committed h) in
    let attempt = attempt_fails p v e k s0 t h count ran in
    let failure = failure_counted w k e t row1 count limited in
    let u = refailed w k e t.now in
    let rows2 = save u (save (counted w k e t.now) t.committed) in
    let row2 : Holds u rows2 =
      find-save u (counted w k e t.now) (save (counted w k e t.now) t.committed)
        (find-save (counted w k e t.now) w t.committed row1) in
    let s2 : Session = record t { rows = rows2; committed = rows2 } in
    let (rows, settled, held, size) = judged c disk u k e s2 row2 refl refl limited moves in
    (
      record t { rows = rows; committed = rows },
      single_fails c disk p v false e (ok tt) s s2 (record t { rows = rows; committed = rows })
          (attempt ∙ failure) (ap is_null count) settled,
      subst (λ n. Holds (verdict c disk n k (refailed w k e n)) rows) now held,
      now,
      size
          ∙ (length-save u (save (counted w k e t.now) t.committed)
              ∙ (length-save (counted w k e t.now) t.committed
                  ∙ (ap length same ∙ length-save w s.committed))),
    )
