-- ===== src/Router/Upload.antt =====
-- `POST /v1/videos/upload`: `upload_video` of src/router/v1/video.py, over the files of the cold
-- storage and the session that `get_async_session` of src/dependencies.py gives a request. What
-- pathlib makes of a name, the hash algorithm, and what becomes of the body are arguments.
pub mod Paths
pub mod Kept
use portfolio_cv_project.Common.{
  ℕ, Bool, true, false, ◌||◌, List, [], ◌∷◌, ◌++◌, Option, none, some, if◌then◌else◌, Result, ok,
  raise, Error, Text, same_text,
}
use portfolio_cv_project.Clock.{DateTime, or_else}
use portfolio_cv_project.Event.Ingest.{Reply, replied, http, failed}
use portfolio_cv_project.Files.{Files, content_of, exists, write, unlink, rename}
use portfolio_cv_project.Files.Hash.{Hasher, hash_large_file, hex}
use portfolio_cv_project.Video.{VideoFile}
use portfolio_cv_project.Video.Session.{Session, Run, pure, update}
use portfolio_cv_project.Video.Service.{
  Disk, Answer, answer, unprocessable, not_acceptable, create_and_commit,
}

pub record StorageSettings : Type 0 where
  pub videos_storage : Text
  -- `Path(name).suffix.lower()`.
  pub suffix : Text → Text
  pub failed_path : Text → ℕ → Text

-- What `shutil.copyfileobj` meets: the file cannot be opened, breaks off, or arrives.
pub data Body : Type 0 where
  unopened : Error → Body
  broken : Text → Error → Body
  received : Text → Body

pub record UploadForm : Type 0 where
  pub filename : Option Text
  pub body : Body
  pub station_id : Option ℕ
  pub started_at : DateTime
  pub ended_at : DateTime
  -- `uuid.uuid4().hex`, and the error of the rename if it fails.
  pub uuid : Text
  pub rename_error : Option Error

pub record Site : Type 0 where
  pub files : Files
  pub videos : Session

-- The answer with the background task that it leaves.
pub record Uploaded : Type 0 where
  pub video : VideoFile
  pub task : ℕ × Text

-- `{".mp4", ".avi", ".mov", ".mkv"}`.
abbrev pub is_supported : Text → Bool
is_supported ext =
    same_text ext (b'.' ∷ b'm' ∷ b'p' ∷ b'4' ∷ [])
    || same_text ext (b'.' ∷ b'a' ∷ b'v' ∷ b'i' ∷ [])
    || same_text ext (b'.' ∷ b'm' ∷ b'o' ∷ b'v' ∷ [])
    || same_text ext (b'.' ∷ b'm' ∷ b'k' ∷ b'v' ∷ [])

abbrev pub chunk_size : ℕ
chunk_size = 65536

-- The handler of an exception: the temporary file goes.
abbrev pub cleaned : Text → Reply Uploaded × Site → Reply Uploaded × Site
cleaned tmp_path (replied u, s) = (replied u, s)
cleaned tmp_path (http n, s) = (http n, record s { files = unlink tmp_path s.files })
cleaned tmp_path (failed e, s) = (failed e, record s { files = unlink tmp_path s.files })

-- The end of `get_async_session`: a commit, or a rollback.
abbrev pub end_session : Reply Uploaded × Site → Reply Uploaded × Site
end_session (replied u, s) =
    (replied u, record s { videos = record s.videos { committed = s.videos.rows } })
end_session (http n, s) =
    (http n, record s { videos = record s.videos { rows = s.videos.committed } })
end_session (failed e, s) =
    (failed e, record s { videos = record s.videos { rows = s.videos.committed } })

-- The file under its final name, unless a file has that name.
abbrev pub move : Option Error → Text → Text → Files → Result (Unit {0}) × Files
move fault tmp_path final_path files =
    if exists final_path files
    then (ok tt, unlink tmp_path files)
    else elim fault [ none ↦ (ok tt, rename tmp_path final_path files) | some e ↦ (raise e, files) ]

-- The row with the final path, where it has another.
abbrev pub with_path : Text → VideoFile → Run VideoFile
with_path final_path v =
    if same_text final_path v.storage_uri
    then pure v
    else update (record v { storage_uri = final_path })

abbrev pub reply_with : Text → Files → Result VideoFile × Session → Reply Uploaded × Site
reply_with final_path files (ok v, videos) = (
  replied (record { video = v; task = (v.id, final_path) }),
  record { files = files; videos = videos },
)
reply_with final_path files (raise e, videos) =
    (failed e, record { files = files; videos = videos })

abbrev pub after_move :
    Text → VideoFile → Session → Result (Unit {0}) × Files → Reply Uploaded × Site
after_move final_path v videos (ok _, files) =
    reply_with final_path files (with_path final_path v videos)
after_move final_path v videos (raise e, files) =
    (failed e, record { files = files; videos = videos })

module _ (c : StorageSettings) where
  abbrev pub tmp_path : Text → Text → Text
  tmp_path uuid ext = c.videos_storage ++ (b'/' ∷ b't' ∷ b'm' ∷ b'p' ∷ b'_' ∷ (uuid ++ ext))

  abbrev pub final_path : Text → Text → Text
  final_path hash ext = c.videos_storage ++ (b'/' ∷ (hex hash ++ ext))

  -- What follows `create_and_commit`.
  abbrev pub after_create :
      UploadForm → Text → Files → Result (Answer VideoFile) × Session → Reply Uploaded × Site
  after_create form ext files (raise e, videos) =
      (failed e, record { files = files; videos = videos })
  after_create form ext files (ok unprocessable, videos) =
      (http 422, record { files = files; videos = videos })
  after_create form ext files (ok (not_acceptable _), videos) =
      (http 406, record { files = files; videos = videos })
  after_create form ext files (ok (answer v), videos) =
      let final = final_path v.content_hash ext in
      after_move final v videos (move form.rename_error (tmp_path form.uuid ext) final files)

module _ {S : Type 0} (h : Hasher S) (c : StorageSettings) where
  -- The hash of these bytes: `hash_large_file` ends with one.
  abbrev pub content_hash : Text → Text
  content_hash bytes = or_else (hash_large_file h chunk_size bytes) []

  abbrev pub disk_of : Files → Disk
  disk_of files = record {
    exists = λ path. exists path files;
    sha256_of_file = λ path. content_hash (or_else (content_of path files) []);
    sha256 = λ text. h.digest (h.updated h.new text);
    failed_path = c.failed_path;
    move_error = λ path. none;
  }

  -- The body of the `try`.
  abbrev pub try_upload : UploadForm → Text → Body → Site → Reply Uploaded × Site
  try_upload form ext (unopened e) s = (failed e, s)
  try_upload form ext (broken bytes e) s =
      (failed e, record s { files = write (tmp_path c form.uuid ext) bytes s.files })
  try_upload form ext (received bytes) s =
      let tmp = tmp_path c form.uuid ext in
      let files = write tmp bytes s.files in
      after_create c form ext files (
        create_and_commit (disk_of files) tmp form.started_at form.ended_at form.station_id
          s.videos)

  abbrev pub with_extension : UploadForm → Text → Site → Reply Uploaded × Site
  with_extension form ext s =
      if is_supported ext
      then cleaned (tmp_path c form.uuid ext) (try_upload form ext form.body s)
      else (http 422, s)

  abbrev pub with_filename : UploadForm → Option Text → Site → Reply Uploaded × Site
  with_filename form none s = (http 422, s)
  with_filename form (some []) s = (http 422, s)
  with_filename form (some (k ∷ ks)) s = with_extension form (c.suffix (k ∷ ks)) s

  unfoldable pub upload_video : UploadForm → Site → Reply Uploaded × Site
  upload_video form s = with_filename form form.filename s

  -- One request to the endpoint.
  unfoldable pub post_upload : UploadForm → Site → Reply Uploaded × Site
  unfolding upload_video
  post_upload form s = end_session (upload_video form s)

  pub serve_uploads : List UploadForm → Site → Site
  serve_uploads [] s = s
  serve_uploads (form ∷ forms) s = serve_uploads forms (post_upload form s).1
