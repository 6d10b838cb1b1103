-- ===== src/Video/Background.antt =====
-- How the background task of a video ends: `process_video_background` of src/services/video_handler.py.
use mathlib.Core.Path.{subst}
use portfolio_cv_project.Common.{
  ℕ, ◌==◌, Bool, true, false, List, [], ◌∷◌, Option, none, some, find, if◌then◌else◌, Result, ok,
  raise, Error, ◌≡◌, refl, sym, ◌∙◌, ◌⊎◌, inl, inr, arith,
}
use portfolio_cv_project.Video.{
  VideoStatus, processing, completed, failed, Text, Message, plain, VideoFile,
}
use portfolio_cv_project.Video.Session.{
  Session, Run, ◌>>=◌, ◌>>◌, pure, caught, try_except, commit, rollback, has_id, save, is_storable,
  then_do, update_by_id,
}
use portfolio_cv_project.Video.Service.{update_status, update_counters, with_message}
use portfolio_cv_project.Video.Handler.{
  Pipeline, Counts, from_worker, recognize_video, run_pipeline, record_failure,
  process_video_with_error_handling, process_video_background,
}
use portfolio_cv_project.Video.Retry.{Holds, find-save, stamped, written, update_row}

-- The table has the video, with a retry count.
abbrev pub HeldIn : ℕ → List VideoFile → Type 0
HeldIn i rows = (v : VideoFile) × (find (has_id i) rows ≡ some v) × (is_storable v ≡ true)

abbrev pub IsHeld : ℕ → Session → Type 0
IsHeld i s = HeldIn i s.rows × HeldIn i s.committed

-- The committed row is at the end of its processing.
abbrev pub IsSettled : ℕ → Session → Type 0
IsSettled i s =
    (v : VideoFile) × (find (has_id i) s.committed ≡ some v)
    × ((v.status ≡ completed) ⊎ (v.status ≡ failed))

find-id : (i : ℕ) (rows : List VideoFile) (v : VideoFile) → find (has_id i) rows ≡ some v → v.id ≡ i
find-id i [] v e = cc
find-id i (r ∷ rows) v e = ground (arith, find-id i rows v)

-- A write of the row that keeps its id and its count.
write_row :
    (i : ℕ) (f : VideoFile → VideoFile) (s : Session)
    → ((v : VideoFile) → (f v).id ≡ v.id)
    → ((v : VideoFile) → is_storable (f v) ≡ is_storable v)
    → HeldIn i s.rows
    → (v : VideoFile) × (update_by_id i f s
        ≡ (ok (stamped s.now (f v)), written (stamped s.now (f v)) s))
      × (find (has_id i) (written (stamped s.now (f v)) s).rows ≡ some (stamped s.now (f v)))
      × (is_storable (f v) ≡ true)
write_row i f s same stores (v, found, k) =
    let key : v.id ≡ i = find-id i s.rows v found in
    let row : Holds v s.rows = subst (λ (j : ℕ). find (has_id j) s.rows ≡ some v) (sym key) found in
    let kept : (stamped s.now (f v)).id ≡ i = same v ∙ key in
    (
      v,
      subst
          (λ (j : ℕ).
            update_by_id j f s ≡ (ok (stamped s.now (f v)), written (stamped s.now (f v)) s))
          key (update_row f v s row (stores v ∙ k)),
      subst
          (λ (j : ℕ).
            find (has_id j) (save (stamped s.now (f v)) s.rows) ≡ some (stamped s.now (f v)))
          kept
          (find-save (stamped s.now (f v)) v s.rows
            (subst (λ (j : ℕ). find (has_id j) s.rows ≡ some v) (sym kept) found)),
      stores v ∙ k,
    )

with_message_fields :
    (m : Option Message) (v : VideoFile)
    → ((with_message m v).id ≡ v.id)
      × (is_storable (with_message m v) ≡ is_storable v)
      × ((with_message m v).status ≡ v.status)
with_message_fields none v = (refl, refl, refl)
with_message_fields (some m) v = (refl, refl, refl)

status_row :
    (i : ℕ) (st : VideoStatus) (m : Option Message) (s : Session)
    → HeldIn i s.rows
    → (v : VideoFile) × (update_status i st m s ≡ (ok v, written v s))
      × (find (has_id i) (written v s).rows ≡ some v)
      × (is_storable v ≡ true)
      × (v.status ≡ st)
unfolding update_status
status_row i st m s held =
    let (v, e, found, k) =
      write_row i (λ v. with_message m (record v { status = st })) s
        (λ v. (with_message_fields m (record v { status = st })).0)
        (λ v. (with_message_fields m (record v { status = st })).1) held in
    (
      stamped s.now (with_message m (record v { status = st })),
      e,
      found,
      k,
      (with_message_fields m (record v { status = st })).2,
    )

module _ (p : Pipeline) (i : ℕ) (uri : Text)
    (keeps : (n : ℕ) (s : Session) → IsHeld i s → IsHeld i (p.persist i n s).1) where
  -- The pipeline returns with the row COMPLETED, or raises with the row still there.
  abbrev Ran : Result (Unit {0}) × Session → Type 0
  Ran (ok _, s) =
      (v : VideoFile) × (find (has_id i) s.committed ≡ some v)
      × (is_storable v ≡ true)
      × (v.status ≡ completed)
  Ran (raise e, s) = IsHeld i s

  abbrev Kept : {A : Type 0} → Result A × Session → Type 0
  Kept (r, s) = IsHeld i s

  kept_after :
      (n : Counts) (x : Result (Unit {0}) × Session) → Kept x → Kept (then_do x (λ _. pure n))
  kept_after n (ok _, s) h = h
  kept_after n (raise e, s) h = h

  stored :
      (n : Counts) (b : Bool) (s : Session)
      → IsHeld i s
      → Kept ((if b then pure n else (p.persist i n.events >>= λ _. pure n)) s)
  stored n true s h = h
  stored n false s h = kept_after n (p.persist i n.events s) (keeps n.events s h)

  recognized : (s : Session) → IsHeld i s → Kept (recognize_video p i uri s)
  unfolding recognize_video update_counters
  recognized s held = go (p.worker uri)
    where
      counted : Counts → VideoFile → VideoFile
      counted n v = record v {
        frames_processed = n.frames;
        triggers_fired = n.triggers;
        events_found = n.events;
      }

      go :
          (w : Result Counts)
          → Kept (
              then_do (from_worker w s) (λ n. update_by_id i (counted n) >>= λ _.
              if n.events == 0 then pure n else (p.persist i n.events >>= λ _. pure n)))
      go (raise e) = held
      go (ok n) =
          let (v, e, found, k) = write_row i (counted n) s (λ v. refl) (λ v. refl) held.0 in
          rw e (
            stored n (n.events == 0) (written (stamped s.now (counted n v)) s)
              ((stamped s.now (counted n v), found, k), held.1))

  ran : (s : Session) → IsHeld i s → Ran (run_pipeline p i uri s)
  unfolding run_pipeline
  ran s held = go (recognize_video p i uri s) (recognized s held)
    where
      go :
          (x : Result Counts × Session)
          → Kept x
          → Ran (then_do x (λ _. update_status i completed none >>= λ _. commit))
      go (raise e, s3) h = h
      go (ok n, s3) h =
          let (v, e, found, k, st) = status_row i completed none s3 h.0 in rw e (v, found, k, st)

  -- After the handler's own failure.
  failed_again :
      (e : Error) (s : Session)
      → IsHeld i s
      → ((record_failure i false e s).0 ≡ raise e) × IsHeld i (record_failure i false e s).1
  unfolding record_failure
  failed_again e s held =
      let (v, eq, found, k, st) =
        status_row i failed (some (plain e)) (record s { rows = s.committed }) held.1 in
      rw eq (refl, ((v, found, k), (v, found, k)))

  abbrev last_word : Error → Run (Unit {0})
  last_word e = try_except (do update_status i failed (some (plain e)); commit) (λ _. rollback)

  given_up :
      (e : Error) (s : Session)
      → IsHeld i s
      → ((last_word e s).0 ≡ ok tt) × IsSettled i (last_word e s).1
  given_up e s held =
      let (v, eq, found, k, st) = status_row i failed (some (plain e)) s held.0 in
      rw eq (refl, (v, found, inr st))

  -- If the video is in the table with a retry count, and the storing of its events keeps it there, the
  -- background task returns, and leaves the committed row COMPLETED or FAILED: whatever the worker
  -- and the storing raise.
  pub process_video_background_settles :
      (s : Session)
      → IsHeld i s
      → ((process_video_background p i uri s).0 ≡ ok tt)
        × IsSettled i (process_video_background p i uri s).1
  unfolding process_video_background process_video_with_error_handling
  process_video_background_settles s held =
      let (v, eq, found, k, st) = status_row i processing none s held.0 in
      let s2 : Session = record s { rows = save v s.rows; committed = save v s.rows } in
      rw eq (go (run_pipeline p i uri s2) (ran s2 ((v, found, k), (v, found, k))))
    where
      outer :
          (e : Error) (x : Result (Unit {0}) × Session)
          → x.0 ≡ raise e
          → IsHeld i x.1
          → ((caught x last_word).0 ≡ ok tt) × IsSettled i (caught x last_word).1
      outer e (ok _, s4) r h = cc
      outer e (raise d, s4) r h = given_up d s4 h

      go :
          (x : Result (Unit {0}) × Session)
          → Ran x
          → ((caught (caught x (record_failure i false)) last_word).0 ≡ ok tt)
            × IsSettled i (caught (caught x (record_failure i false)) last_word).1
      go (ok tt, s3) (v, found, k, st) = (refl, (v, found, inl st))
      go (raise e, s3) h =
          let (r, h') = failed_again e s3 h in outer e (record_failure i false e s3) r h'
