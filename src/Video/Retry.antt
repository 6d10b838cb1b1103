-- ===== src/Video/Retry.antt =====
-- What one retry of a failed video does to its row.
use portfolio_cv_project.Common.{
  length, arith, ◌∙◌, ℕ, ◌+◌, ◌≡◌, refl, inl, inr, ◌==◌, ==_refl, true, false, List, [], ◌∷◌, none,
  some, find, if◌then◌else◌, ok, raise, Error, Bool-cases,
}
use portfolio_cv_project.Video.{
  processing, failed, invalid, Text, retry_failed, max_retry_attempts_exceeded, VideoFile,
}
use portfolio_cv_project.Video.Session.{
  Session, ◌>>◌, commit, has_id, save, is_storable, update, update_by_id,
}
use portfolio_cv_project.Video.Service.{
  Disk, update_status, increment_retry_count, move_to_failed, mark_permanently_failed,
}
use portfolio_cv_project.Video.Handler.{
  Pipeline, is_retriable_without_limit, recognize_video, run_pipeline, record_failure,
  process_video_with_error_handling,
}

abbrev pub Holds : VideoFile → List VideoFile → Type 0
Holds v rows = find (has_id v.id) rows ≡ some v

pub find-save :
    (v u : VideoFile) (rows : List VideoFile)
    → find (has_id v.id) rows ≡ some u
    → Holds v (save v rows)
find-save v u [] e = cc
find-save v u (r ∷ rows) e = elim (Bool-cases (r.id == v.id)) [
  | inl a ↦ rw a (rw (==_refl v.id))
  | inr a ↦ rw a (rw a (find-save v u rows (rw a at e)))
]

pub length-save : (v : VideoFile) (rows : List VideoFile) → length (save v rows) ≡ length rows
length-save v [] = refl
length-save v (r ∷ rows) = ground (arith, length-save v rows)

abbrev pub stamped : ℕ → VideoFile → VideoFile
stamped now v = record v { updated_at = now }

-- The session after one row of it was written.
abbrev pub written : VideoFile → Session → Session
written v s = record s { rows = save v s.rows }

pub update_row :
    (f : VideoFile → VideoFile) (v : VideoFile) (s : Session)
    → Holds v s.rows
    → is_storable (f v) ≡ true
    → update_by_id v.id f s ≡ (ok (stamped s.now (f v)), written (stamped s.now (f v)) s)
unfolding update_by_id update
update_row f v s h k = rw (h, update_by_id) (rw k)

-- The pipeline raises `e` on this file, and has then committed nothing.
abbrev pub Fails : Pipeline → ℕ → Text → Error → Type 0
Fails p i uri e =
    (s : Session)
    → (t : Session) × (run_pipeline p i uri s ≡ (raise e, t))
      × (t.committed ≡ s.committed)
      × (t.now ≡ s.now)
      × (t.next_id ≡ s.next_id)

-- A worker that raises fails so.
pub worker-Fails :
    (p : Pipeline) (i : ℕ) (uri : Text) (e : Error) → p.worker uri ≡ raise e → Fails p i uri e
unfolding run_pipeline recognize_video
worker-Fails p i uri e h s = (s, rw h, refl, refl, refl)

module _ (w : VideoFile) (k : ℕ) (e : Error) where
  -- The row with one more retry counted, and then FAILED.
  abbrev pub counted : ℕ → VideoFile
  counted now = record w { retry_count = some (k + 1); updated_at = now }

  abbrev pub refailed : ℕ → VideoFile
  refailed now = record (counted now) { status = failed; error_message = some (retry_failed e) }

  pub increment_row :
      (s : Session)
      → Holds w s.rows
      → w.retry_count ≡ some k
      → increment_retry_count w.id s ≡ (ok (some (counted s.now)), written (counted s.now) s)
  unfolding increment_retry_count update
  increment_row s h c = rw (h, increment_retry_count) (rw (c, update))

  pub failure_counted :
      (t : Session)
      → Holds w t.committed
      → w.retry_count ≡ some k
      → is_retriable_without_limit e ≡ false
      → let rows = save (refailed t.now) (save (counted t.now) t.committed) in
        record_failure w.id true e t ≡ (raise e, record t { rows = rows; committed = rows })
  unfolding record_failure update_status
  failure_counted t h c limited =
      let s1 : Session = record t { rows = t.committed } in
      let s2 = written (counted t.now) s1 in
      let row2 = find-save (counted t.now) w t.committed h in
      rw limited (
        rw (increment_row s1 h c) (
          rw (
            update_row (λ v. record v { status = failed; error_message = some (retry_failed e) })
              (counted t.now) s2 row2 refl)))

  -- A retriable error only commits what was there.
  pub failure_kept :
      (t : Session)
      → is_retriable_without_limit e ≡ true
      → record_failure w.id true e t
        ≡ (raise e, record t { rows = t.committed; committed = t.committed })
  unfolding record_failure
  failure_kept t unlimited = rw unlimited

-- The row while it is being processed.
abbrev pub started : ℕ → VideoFile → VideoFile
started now v = record v { status = processing; updated_at = now }

module _ (p : Pipeline) (v : VideoFile) (e : Error) (k : ℕ) (s : Session) where
  -- A retry whose pipeline fails is the failure branch over the row in PROCESSING.
  pub attempt_fails :
      (t : Session)
      → Holds v s.rows
      → v.retry_count ≡ some k
      → (let s1 : Session = record s {
        rows = save (started s.now v) s.rows;
        committed = save (started s.now v) s.rows;
      } in
          run_pipeline p v.id v.storage_uri s1 ≡ (raise e, t))
      → process_video_with_error_handling p v.id v.storage_uri true s ≡ record_failure v.id true e t
  unfolding process_video_with_error_handling update_status
  attempt_fails t h c ran =
      rw (update_row (λ v. record v { status = processing }) v s h (rw c)) (rw ran)

-- Giving up: the file moved if it is there, and the row INVALID.
abbrev pub abandoned : Disk → ℕ → VideoFile → VideoFile
abandoned disk now w =
    let uri =
      if disk.exists w.storage_uri then disk.failed_path w.storage_uri w.id else w.storage_uri in
    record w {
      status = invalid;
      storage_uri = uri;
      error_message = some max_retry_attempts_exceeded;
      updated_at = now;
    }

pub update_ok :
    (v : VideoFile) (s : Session)
    → is_storable v ≡ true
    → update v s ≡ (ok (stamped s.now v), written (stamped s.now v) s)
unfolding update
update_ok v s h = rw h

moved_row :
    (disk : Disk) (w : VideoFile) (s : Session)
    → Holds w s.rows
    → is_storable w ≡ true
    → disk.exists w.storage_uri ≡ true
    → disk.move_error w.storage_uri ≡ none
    → let dst = disk.failed_path w.storage_uri w.id in
      move_to_failed disk w.id s
      ≡ (ok (some dst), written (stamped s.now (record w { storage_uri = dst })) s)
unfolding move_to_failed
moved_row disk w s h k there moves =
    let dst = disk.failed_path w.storage_uri w.id in
    rw (h, move_to_failed) (rw (there, moves) (rw (update_ok (record w { storage_uri = dst }) s k)))

unmoved_row :
    (disk : Disk) (w : VideoFile) (s : Session)
    → Holds w s.rows
    → disk.exists w.storage_uri ≡ false
    → move_to_failed disk w.id s ≡ (ok none, s)
unfolding move_to_failed
unmoved_row disk w s h gone = rw (h, move_to_failed) (rw gone)

pub give_up :
    (disk : Disk) (w : VideoFile) (s : Session)
    → Holds w s.rows
    → is_storable w ≡ true
    → disk.move_error w.storage_uri ≡ none
    → (rows : List VideoFile) × ((mark_permanently_failed disk w.id >> commit) s
        ≡ (ok tt, record s { rows = rows; committed = rows }))
      × Holds (abandoned disk s.now w) rows
      × (length rows ≡ length s.rows)
unfolding mark_permanently_failed
give_up disk w s h k moves = elim (Bool-cases (disk.exists w.storage_uri)) [
  | inl there ↦
      let m = stamped s.now (record w { storage_uri = disk.failed_path w.storage_uri w.id }) in
      let row1 = find-save m w s.rows h in
      let last =
        update_ok (record m { status = invalid; error_message = some max_retry_attempts_exceeded })
          (written m s) k in
      (
        save (abandoned disk s.now w) (save m s.rows),
        rw there (rw (moved_row disk w s h k there moves) (rw row1 (rw last))),
        find-save (abandoned disk s.now w) m (save m s.rows) row1,
        length-save (abandoned disk s.now w) (save m s.rows) ∙ length-save m s.rows,
      )
  | inr gone ↦
      let last =
        update_ok (record w { status = invalid; error_message = some max_retry_attempts_exceeded })
          s k in
      (
        save (abandoned disk s.now w) s.rows,
        rw gone (rw (unmoved_row disk w s h gone) (rw h (rw last))),
        find-save (abandoned disk s.now w) w s.rows h,
        length-save (abandoned disk s.now w) s.rows,
      )
]
