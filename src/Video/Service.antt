-- ===== src/Video/Service.antt =====
-- `VideoService` of src/services/video_service.py. The disk, the hash and the names of moved files
-- are those of the operating system and of pathlib: an argument, with what `mkdir` and `shutil.move`
-- raise for a path if they fail.
use portfolio_cv_project.Common.{
  ℕ, ◌+◌, leb, min, max, Bool, true, false, ◌∷◌, Option, none, some, if◌then◌else◌, type_error,
  Error,
}
use portfolio_cv_project.Clock.{DateTime, to_naive_utc}
use portfolio_cv_project.Video.{
  VideoStatus, created, processing, invalid, Text, Message, max_retry_attempts_exceeded, VideoFile,
}
use portfolio_cv_project.Video.Session.{
  Run, pure, throw, ◌>>=◌, ◌>>◌, get, update, update_by_id, get_by_hash, create,
}

pub record Disk : Type 0 where
  pub exists : Text → Bool
  pub sha256_of_file : Text → Text
  pub sha256 : Text → Text
  pub failed_path : Text → ℕ → Text
  pub move_error : Text → Option Error

abbrev pub with_message : Option Message → VideoFile → VideoFile
with_message none v = v
with_message (some m) v = record v { error_message = some m }

unfoldable pub update_status : ℕ → VideoStatus → Option Message → Run VideoFile
update_status i new_status m =
    update_by_id i (λ v. with_message m (record v { status = new_status }))

-- `update_counters` as the handler calls it, with all three counters.
unfoldable pub update_counters : ℕ → ℕ → ℕ → ℕ → Run VideoFile
update_counters i frames triggers events =
    update_by_id i (λ v. record v {
      frames_processed = frames;
      triggers_fired = triggers;
      events_found = events;
    })

-- `None + 1` is a TypeError.
abbrev pub incremented : VideoFile → Run (Option VideoFile)
incremented v = elim v.retry_count [
  | none ↦ throw type_error
  | some n ↦ do v' ← update (record v { retry_count = some (n + 1) }); pure (some v')
]

unfoldable pub increment_retry_count : ℕ → Run (Option VideoFile)
increment_retry_count i = do o ← get i; elim o [ none ↦ pure none | some v ↦ incremented v ]

abbrev pub after_move : {A : Type 0} → Option Error → Run A → Run A
after_move none rest = rest
after_move (some e) rest = throw e

-- The new path, or None where there is nothing to move. A move that fails raises.
unfoldable pub move_to_failed : Disk → ℕ → Run (Option Text)
move_to_failed disk i = do
  o ← get i
  elim o [
    | none ↦ pure none
    | some v ↦
        let dst = disk.failed_path v.storage_uri v.id in
        let moved : Run (Option Text) = (do
          update (record v { storage_uri = dst })
          pure (some dst)) in
        if disk.exists v.storage_uri
        then after_move (disk.move_error v.storage_uri) moved
        else pure none
  ]

unfoldable pub mark_unlimited_retry : ℕ → Run VideoFile
mark_unlimited_retry i = update_by_id i (λ v. record v { retry_count = none })

abbrev pub with_uri : Option Text → VideoFile → VideoFile
with_uri none v = v
with_uri (some uri) v = record v { storage_uri = uri }

unfoldable pub mark_permanently_failed : Disk → ℕ → Run (Option VideoFile)
mark_permanently_failed disk i = do
  moved ← move_to_failed disk i
  o ← get i
  elim o [
    | none ↦ pure none
    | some v ↦ do
      v' ← update (
          with_uri moved
            (record v { status = invalid; error_message = some max_retry_attempts_exceeded }))
      pure (some v')
  ]

abbrev pub new_video : Option ℕ → Text → Text → ℕ → ℕ → VideoStatus → VideoFile
new_video station_id uri hash started ended status = record {
  id = 0;
  station_id = station_id;
  storage_uri = uri;
  content_hash = hash;
  started_at = started;
  ended_at = ended;
  status = status;
  retry_count = some 0;
  error_message = none;
  frames_processed = 0;
  triggers_fired = 0;
  events_found = 0;
  updated_at = 0;
}

-- What `create_and_commit` and the sentinel answer: a value, or the status of an HTTPException.
pub data Answer (A : Type 0) : Type 0 where
  answer : A → Answer A
  unprocessable : Answer A
  not_acceptable : ℕ → Answer A

-- The end of `create_and_commit`: no two videos with one content.
unfoldable pub register : Text → VideoFile → Run (Answer VideoFile)
register hash v = do
  existing ← get_by_hash hash
  elim existing [
    | some old ↦ pure (not_acceptable old.id)
    | none ↦ do made ← create v; pure (answer made)
  ]

-- `create_and_commit`: the checks in their order, then the row. fps, width, height and duration are
-- left NULL, as every caller leaves them.
unfoldable pub create_and_commit :
    Disk → Text → DateTime → DateTime → Option ℕ → Run (Answer VideoFile)
create_and_commit disk uri started ended station_id =
    let started_naive = to_naive_utc started in
    let ended_naive = to_naive_utc ended in
    let hash = disk.sha256_of_file uri in
    let v = new_video station_id uri hash started_naive ended_naive created in
    if leb ended_naive started_naive
    then pure unprocessable
    else (if disk.exists uri then register hash v else pure unprocessable)

-- `f"edge://{station_code}"`.
abbrev pub edge_sentinel_uri : Text → Text
edge_sentinel_uri station_code = b'e' ∷ b'd' ∷ b'g' ∷ b'e' ∷ b':' ∷ b'/' ∷ b'/' ∷ station_code

abbrev pub edge_sentinel_hash : Disk → Text → Text
edge_sentinel_hash disk station_code = disk.sha256 (edge_sentinel_uri station_code)

-- A row with the window stretched over another.
abbrev pub stretched : ℕ → ℕ → ℕ → VideoFile → VideoFile
stretched station_id started ended v = record v {
  started_at = min v.started_at started;
  ended_at = max v.ended_at ended;
  station_id = some station_id;
}

unfoldable pub extend_or_create : ℕ → ℕ → ℕ → VideoFile → Run (Answer (VideoFile × Bool))
extend_or_create station_id started ended fresh = do
  existing ← get_by_hash fresh.content_hash
  elim existing [
    | some v ↦ do v' ← update (stretched station_id started ended v); pure (answer (v', false))
    | none ↦ do v ← create fresh; pure (answer (v, true))
  ]

-- `get_or_create_edge_sentinel`: the window of an old sentinel only grows.
unfoldable pub get_or_create_edge_sentinel :
    Disk → ℕ → Text → DateTime → DateTime → Run (Answer (VideoFile × Bool))
get_or_create_edge_sentinel disk station_id station_code started ended =
    let started_naive = to_naive_utc started in
    let ended_naive = to_naive_utc ended in
    let hash = edge_sentinel_hash disk station_code in
    let uri = edge_sentinel_uri station_code in
    let fresh = new_video (some station_id) uri hash started_naive ended_naive processing in
    if leb ended_naive started_naive
    then pure unprocessable
    else extend_or_create station_id started_naive ended_naive fresh
