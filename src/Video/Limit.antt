-- ===== src/Video/Limit.antt =====
-- A video that always fails is retried to the limit and then given up; one that fails with an error
-- to be retried without limit is not retried at all.
use portfolio_cv_project.Common.{
  ==_refl, length, [], ◌∷◌, ℕ, ◌+◌, ◌<◌, min, ◌≡◌, ◌∙◌, refl, sym, ap, zero, suc, leb, true, false,
  none, some, if◌then◌else◌, raise, Error, integrity_error, arith, lt→leb_false, le→leb,
}
use mathlib.Core.Path.{subst}
use native.Mathlib.Decide.{dec_lt}
use portfolio_cv_project.Video.{VideoStatus, failed, invalid, Text, VideoFile}
use portfolio_cv_project.Video.Session.{Session, save, is_null, is_retriable, update, update_by_id}
use portfolio_cv_project.Video.Service.{Disk, mark_unlimited_retry}
use portfolio_cv_project.Video.Handler.{Pipeline, is_retriable_without_limit}
use portfolio_cv_project.Video.Scheduler.{
  SchedulerSettings, tick, process_single, target, handle_retry_failure,
}
use portfolio_cv_project.Video.Tick.{opened, only_row, tick_one, tick_none}
use portfolio_cv_project.Video.Retry.{Holds, find-save, Fails, started, attempt_fails, failure_kept}
use portfolio_cv_project.Video.Attempts.{verdict, failed_once, retry_counts, single_fails}

-- Ticks of the scheduler, one after the other.
unfoldable pub ticks : SchedulerSettings → Disk → Pipeline → ℕ → Session → Session
ticks c disk p zero s = s
ticks c disk p (suc n) s = ticks c disk p n (tick c disk p s).1

-- The pipeline fails on this video whatever its path, with errors that are counted.
abbrev pub AlwaysFails : Pipeline → ℕ → Type 0
AlwaysFails p i =
    (uri : Text) → (e : Error) × (is_retriable_without_limit e ≡ false) × Fails p i uri e

-- The one committed row has this status and count.
abbrev pub HasRow : ℕ → VideoStatus → ℕ → Session → Type 0
HasRow i status k s =
    (v : VideoFile) × (s.committed ≡ v ∷ [])
    × (v.id ≡ i)
    × (v.status ≡ status)
    × (v.retry_count ≡ some k)

verdict_fields :
    (c : SchedulerSettings) (disk : Disk) (now k : ℕ) (e : Error) (v : VideoFile)
    → let w = verdict c disk now k (failed_once now k e v) in
      (w.id ≡ v.id)
      × (w.status ≡ (if leb c.max_retry_attempts (k + 1) then invalid else failed))
      × (w.retry_count ≡ some (k + 1))
verdict_fields c disk now k e v = (ground arith, ground arith, ground arith)

module _ (c : SchedulerSettings) (disk : Disk) (p : Pipeline) (i : ℕ)
    (moves : (uri : Text) → disk.move_error uri ≡ none) where
  ticks_invalid :
      (n k : ℕ) (s : Session) → HasRow i invalid k s → HasRow i invalid k (ticks c disk p n s)
  unfolding ticks
  ticks_invalid zero k s h = h
  ticks_invalid (suc n) k s (v, only, same, status, count) =
      subst (λ t. HasRow i invalid k (ticks c disk p n t))
        (sym (tick_none c disk p s v only k status count))
        (ticks_invalid n k (opened s) (v, only, same, status, count))

  -- One tick over a FAILED row below the limit.
  tick_failed :
      AlwaysFails p i
      → (k : ℕ) (s : Session) → k < c.max_retry_attempts
      → HasRow i failed k s
      → HasRow i
          (if leb c.max_retry_attempts (k + 1) then invalid else failed)
          (k + 1)
          (tick c disk p s).1
  tick_failed fails k s lt (v, only, same, status, count) =
      let (e, limited, f) = fails v.storage_uri in
      let held : Holds v s.committed = rw only (rw (==_refl v.id) refl) in
      let ff : Fails p v.id v.storage_uri e = subst (λ j. Fails p j v.storage_uri e) (sym same) f in
      let (s', ran, row, now, size) =
        retry_counts c disk p v k e s held count ff limited (moves v.storage_uri) in
      let (id, status', count') = verdict_fields c disk s.now k e v in
      let w = verdict c disk s.now k (failed_once s.now k e v) in
      rw (tick_one c disk p s v only k s' status count lt ran)
        (w, only_row w s'.committed row (size ∙ ap length only), id ∙ same, status', count')

  -- `n` ticks from a row with `k` failed retries.
  ticks_failed :
      AlwaysFails p i
      → (n k : ℕ) (s : Session) → k < c.max_retry_attempts
      → HasRow i failed k s
      → HasRow i
          (if leb c.max_retry_attempts (k + n) then invalid else failed)
          (min (k + n) c.max_retry_attempts)
          (ticks c disk p n s)
  unfolding ticks
  ticks_failed fails zero k s lt h =
      let a : leb c.max_retry_attempts (k + 0) ≡ false = lt→leb_false _ _ (omega arith) in
      let b : min (k + 0) c.max_retry_attempts ≡ k = omega arith in rw (a, b) h
  ticks_failed fails (suc n) k s lt h =
      let m = c.max_retry_attempts in
      let next = tick_failed fails k s lt h in
      let s1 = (tick c disk p s).1 in
      elim (dec_lt (k + 1) m) [
        | yes q ↦
            let a : leb m (k + 1) ≡ false = lt→leb_false _ _ q in
            let b : k + suc n ≡ (k + 1) + n = omega arith in
            rw b (ticks_failed fails n (k + 1) s1 q (rw a at next))
        | no q ↦
            let a : leb m (k + 1) ≡ true = le→leb _ _ (omega arith) in
            let b : leb m (k + suc n) ≡ true = le→leb _ _ (omega arith) in
            let d : min (k + suc n) m ≡ k + 1 = omega arith in
            let gone = rw a at next in rw (b, d) (ticks_invalid n (k + 1) s1 gone)
      ]

-- With a limit above 0, a disk on which moves do not fail, and a table of one FAILED video that was
-- never retried and whose pipeline always fails with a counted error: after `n` ticks of the scheduler
-- the row is FAILED with `n` retries while `n` is below the limit, and INVALID with exactly the limit's
-- number of retries from then on. It is retried that often and no more.
pub retries_to_limit :
    (c : SchedulerSettings) (disk : Disk) (p : Pipeline) (i n : ℕ) (s : Session)
    → AlwaysFails p i
    → ((uri : Text) → disk.move_error uri ≡ none)
    → 0 < c.max_retry_attempts
    → HasRow i failed 0 s
    → HasRow i
        (if leb c.max_retry_attempts n then invalid else failed)
        (min n c.max_retry_attempts)
        (ticks c disk p n s)
retries_to_limit c disk p i n s fails moves pos h =
    let zero_add : 0 + n ≡ n = omega arith in
    rw zero_add at (ticks_failed c disk p i moves fails n 0 s pos h)

unlimited_refused :
    (c : SchedulerSettings) (disk : Disk) (w : VideoFile) (e : Error) (s : Session)
    → Holds w s.rows
    → is_retriable_without_limit e ≡ true
    → handle_retry_failure c disk w.id false e s ≡ (raise integrity_error, s)
unfolding handle_retry_failure mark_unlimited_retry update_by_id update
unlimited_refused c disk w e s h unlimited =
    rw (h, handle_retry_failure) (rw unlimited (rw (h, mark_unlimited_retry, update_by_id)))

-- A retry that fails with an error to be retried without limit ends in the database's refusal of a
-- NULL retry count: the retry raises, the committed row keeps its count and is left in PROCESSING, and
-- the queries for failed videos do not list the row so left.
pub retriable_left_processing :
    (c : SchedulerSettings) (disk : Disk) (p : Pipeline) (v : VideoFile) (k : ℕ) (e : Error)
    (s : Session)
    → Holds v s.committed
    → v.retry_count ≡ some k
    → Fails p v.id v.storage_uri e
    → is_retriable_without_limit e ≡ true
    → (s' : Session) × (process_single c disk p (target v) s ≡ (raise integrity_error, s'))
      × Holds (started s.now v) s'.committed
      × (is_retriable c.max_retry_attempts (started s.now v) ≡ false)
retriable_left_processing c disk p v k e s h count fails unlimited =
    let s0 : Session = record s { rows = s.committed } in
    let w = started s.now v in
    let rows1 = save w s.committed in
    let s1 : Session = record s { rows = rows1; committed = rows1 } in
    let (t, ran, same, now, next) = fails s1 in
    let row1 : Holds w t.committed = rw same (find-save w v s.committed h) in
    let attempt = attempt_fails p v e k s0 t h count ran in
    let failure = failure_kept w k e t unlimited in
    let s2 : Session = record t { rows = t.committed; committed = t.committed } in
    let refused = unlimited_refused c disk w e s2 row1 unlimited in
    (
      s2,
      single_fails c disk p v false e (raise integrity_error) s s2 s2 (attempt ∙ failure)
          (ap is_null count) refused,
      row1,
      refl,
    )
