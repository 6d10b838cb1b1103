-- ===== src/Router/Upload/Kept/Served.antt =====
-- Requests to `POST /v1/videos/upload`, one and many.
use portfolio_cv_project.Common.{
  ◌+◌, Bool, true, false, List, [], ◌∷◌, ◌++◌, Option, none, some, if◌then◌else◌, Text, same_text,
  same_text_refl, ◌≡◌, refl, sym, ap, ◌∙◌, arith, inl, inr, find,
}
use portfolio_cv_project.Clock.{or_else}
use portfolio_cv_project.Event.Ingest.{Reply, replied, http, failed}
use portfolio_cv_project.Files.{
  Files, content_of, is_there, write, unlink, rename, content_of-write,
}
use portfolio_cv_project.Files.Hash.{Hasher}
use portfolio_cv_project.Video.{VideoFile}
use portfolio_cv_project.Video.Session.{Session, has_hash}
use portfolio_cv_project.Video.Dedup.{
  create_and_commit_lem, registration, is_refused, candidate, with_row,
}
use portfolio_cv_project.Video.Dedup
use portfolio_cv_project.Router.Upload.{
  StorageSettings, Site, Body, unopened, broken, received, UploadForm, Uploaded, is_supported,
  tmp_path, final_path, content_hash, move, cleaned, end_session, after_move, after_create, disk_of,
  try_upload, with_filename, post_upload, serve_uploads,
}
use portfolio_cv_project.Router.Upload.Paths.{final_path-ne-tmp_path}
use portfolio_cv_project.Router.Upload.Kept.{
  IsKept, same_text_ne, Leaves-unlink, Leaves-unlink-write, Leaves-rename, move_cases,
}
use portfolio_cv_project.Router.Upload.Kept.Arrival.{Serves, dropped, arrives}

module _ {S : Type 0} (h : Hasher S) (c : StorageSettings) (form : UploadForm) (ext : Text)
    (supported : is_supported ext ≡ true) (s : Site) (kept : IsKept h c s) where
  abbrev tmp : Text
  tmp = tmp_path c form.uuid ext

  abbrev final : Text → Text
  final hash = final_path c hash ext

  some_of : (o : Option Text) → is_there o ≡ true → (b : Text) × (o ≡ some b)
  some_of none e = cc
  some_of (some b) e = (b, refl)

  -- The rest of the request for a new row.
  moved :
      (bytes : Text) (v : VideoFile)
      → content_hash h c bytes ≡ v.content_hash
      → v.storage_uri ≡ tmp
      → v.id ≡ s.videos.next_id
      → v.retry_count ≡ some 0
      → Serves h c (
          end_session (
            cleaned tmp (
              after_move
                (final v.content_hash)
                v
                (record s.videos {
                  rows = s.videos.rows ++ (v ∷ []);
                  next_id = s.videos.next_id + 1;
                })
                (move form.rename_error tmp (final v.content_hash) (write tmp bytes s.files)))))
  moved bytes v hashed uri key count =
      let hash = v.content_hash in
      let files : Files = write tmp bytes s.files in
      let made : Session = record s.videos {
        rows = s.videos.rows ++ (v ∷ []);
        next_id = s.videos.next_id + 1;
      } in
      let apart : same_text tmp (final hash) ≡ false =
        same_text_ne tmp (final hash)
          (λ same. final_path-ne-tmp_path c hash ext form.uuid ext supported (sym same)) in
      let left = Leaves-unlink-write tmp (final hash) bytes bytes s.files in
      let renamed =
        Leaves-rename tmp (final hash) bytes s.files
          (final_path-ne-tmp_path c hash ext form.uuid ext supported) in
      let kept_there : content_of (final hash) files ≡ content_of (final hash) s.files =
        content_of-write tmp bytes (final hash) s.files ∙ rw apart refl in
      elim (move_cases form.rename_error tmp (final hash) files) [
        | inl (there, m) ↦
            let (b, found) = some_of (content_of (final hash) files) there in
            rw m (
              arrives h c form ext supported s kept bytes hash v false (unlink tmp files) hashed
                refl uri key count refl left
                (b, left (final hash) ∙ rw apart (sym kept_there ∙ found)))
        | inr (inl (new, m)) ↦ rw m (
            arrives h c form ext supported s kept bytes hash v true (rename tmp (final hash) files)
              hashed refl uri key count (sym (ap is_there kept_there) ∙ new) renamed
              (bytes, renamed (final hash) ∙ rw (apart, same_text_refl (final hash)) refl))
        | inr (inr (e, m)) ↦ rw m (
            dropped h c form ext supported s kept (unlink tmp files) made refl (omega arith)
              (Leaves-unlink-write tmp (final (content_hash h c [])) [] bytes s.files))
      ]

  received-Serves :
      (bytes : Text)
      → Serves h c (end_session (cleaned tmp (try_upload h c form ext (received bytes) s)))
  received-Serves bytes =
      rw
        (create_and_commit_lem (disk_of h c (write tmp bytes s.files)) tmp form.started_at
          form.ended_at form.station_id s.videos)
        (go
          (is_refused (disk_of h c (write tmp bytes s.files)) tmp form.started_at form.ended_at
            form.station_id)
          (find (has_hash ((disk_of h c (write tmp bytes s.files)).sha256_of_file tmp))
            s.videos.rows))
    where
      go :
          (refused : Bool) (found : Option VideoFile)
          → Serves h c (
              end_session (
                cleaned tmp (
                  after_create c form ext (write tmp bytes s.files) (
                    registration
                      (disk_of h c (write tmp bytes s.files))
                      tmp
                      form.started_at
                      form.ended_at
                      form.station_id
                      refused
                      found
                      s.videos))))
      go true found =
          dropped h c form ext supported s kept (unlink tmp (write tmp bytes s.files)) s.videos refl
            (omega arith) (Leaves-unlink-write tmp (final (content_hash h c [])) [] bytes s.files)
      go false (some old) =
          dropped h c form ext supported s kept (unlink tmp (write tmp bytes s.files)) s.videos refl
            (omega arith) (Leaves-unlink-write tmp (final (content_hash h c [])) [] bytes s.files)
      go false none =
          let chosen : (if same_text tmp tmp then some bytes else content_of tmp s.files)
              ≡ some bytes =
            rw (same_text_refl tmp) in
          moved bytes
            (Dedup.stored
              (candidate (disk_of h c (write tmp bytes s.files)) tmp form.started_at form.ended_at
                form.station_id)
              s.videos)
            (sym (
              ap (λ o. content_hash h c (or_else o []))
                (content_of-write tmp bytes tmp s.files ∙ chosen)))
            refl refl refl

  pub try_upload-Serves :
      (body : Body) → Serves h c (end_session (cleaned tmp (try_upload h c form ext body s)))
  try_upload-Serves (unopened e) =
      dropped h c form ext supported s kept (unlink tmp s.files) s.videos refl (omega arith)
        (Leaves-unlink tmp (final (content_hash h c [])) [] s.files)
  try_upload-Serves (broken bytes e) =
      dropped h c form ext supported s kept (unlink tmp (write tmp bytes s.files)) s.videos refl
        (omega arith) (Leaves-unlink-write tmp (final (content_hash h c [])) [] bytes s.files)
  try_upload-Serves (received bytes) = received-Serves bytes

module _ {S : Type 0} (h : Hasher S) (c : StorageSettings) where
  -- A request that is turned away before the storage is touched.
  turned_away : (s : Site) → IsKept h c s → Serves h c (end_session (http 422, s))
  turned_away s kept = record {
    tidy = kept.tidy;
    addressed = kept.addressed;
    backed = kept.backed;
    below = kept.below;
    fresh = refl;
  }

  -- Whatever is uploaded and whatever fails on the way, a request keeps the storage: no temporary
  -- file stays, a final path holds a content of its hash, every committed row has its file, and ids
  -- are below the next. After a 201 the row is committed under its id with the path that the
  -- background task gets, where a file of its hash stands.
  pub post_upload-Serves :
      (form : UploadForm) (s : Site) → IsKept h c s → Serves h c (post_upload h c form s)
  unfolding post_upload
  post_upload-Serves form s kept = named form.filename
    where
      extended :
          (ext : Text) (supported : Bool)
          → is_supported ext ≡ supported
          → Serves h c (
              end_session (
                if supported
                then cleaned (tmp_path c form.uuid ext) (try_upload h c form ext form.body s)
                else (http 422, s)))
      extended ext true e = try_upload-Serves h c form ext e s kept form.body
      extended ext false e = turned_away s kept

      named : (name : Option Text) → Serves h c (end_session (with_filename h c form name s))
      named none = turned_away s kept
      named (some []) = turned_away s kept
      named (some (k ∷ ks)) = extended (c.suffix (k ∷ ks)) (is_supported (c.suffix (k ∷ ks))) refl

  Serves-IsKept : (r : Reply Uploaded × Site) → Serves h c r → IsKept h c r.1
  Serves-IsKept (replied u, s) served = served.0
  Serves-IsKept (http n, s) served = served
  Serves-IsKept (failed e, s) served = served

  -- Any number of requests, whatever fails in them, keep the storage.
  pub serve_uploads-IsKept :
      (forms : List UploadForm) (s : Site) → IsKept h c s → IsKept h c (serve_uploads h c forms s)
  unfolding serve_uploads
  serve_uploads-IsKept [] s kept = kept
  serve_uploads-IsKept (form ∷ forms) s kept =
      serve_uploads-IsKept forms (post_upload h c form s).1
        (Serves-IsKept (post_upload h c form s) (post_upload-Serves form s kept))
