-- ===== src/Router/Upload/Kept/Arrival.antt =====
-- The storage after an upload that arrived, or that did not: `upload_video` of src/router/v1/video.py
-- behind the copy of the request.
use portfolio_cv_project.Common.{
  ℕ, ◌+◌, ◌<◌, ◌≤◌, Bool, true, false, ◌&&◌, List, [], ◌∷◌, ◌++◌, some, Text, same_text, ◌≡◌, refl,
  sym, ap, ◌∙◌, arith, All, All-append, ok, find, ==_refl,
}
use portfolio_cv_project.Event.Ingest.{Reply, replied, http, failed}
use portfolio_cv_project.Files.{Files, content_of, exists}
use portfolio_cv_project.Files.Hash.{Hasher}
use portfolio_cv_project.Video.{VideoFile}
use portfolio_cv_project.Video.Session.{Session, has_id, save, update}
use portfolio_cv_project.Video.Dedup.{
  create_and_commit_lem, registration, is_refused, candidate, with_row,
}
use portfolio_cv_project.Video.Dedup
use portfolio_cv_project.Router.Upload.{
  StorageSettings, Site, UploadForm, Uploaded, is_supported, tmp_path, final_path, content_hash,
  cleaned, end_session, after_move, with_path,
}
use portfolio_cv_project.Router.Upload.Paths.{final_path-ne-tmp_path}
use portfolio_cv_project.Router.Upload.Kept.{
  IsBacked, IsKept, Leaves, same_text_ne, Leaves-tidy, Leaves-addressed, Leaves-All,
}

-- A row of the table with the newest id is saved where it stands, at the end.
save_last :
    (v old : VideoFile) (n : ℕ) (rows : List VideoFile)
    → All (λ r. r.id < n) rows
    → old.id ≡ n
    → v.id ≡ n
    → save v (rows ++ (old ∷ [])) ≡ rows ++ (v ∷ [])
save_last v old n [] all e k = ground arith
save_last v old n (r ∷ rows) all e k = ground (arith, save_last v old n rows all.1 e k)

All-below :
    (m n : ℕ) (rows : List VideoFile) → m ≤ n → All (λ r. r.id < m) rows → All (λ r. r.id < n) rows
All-below m n [] e all = tt
All-below m n (r ∷ rows) e all = (omega arith, All-below m n rows e all.1)

with_path_new :
    (final : Text) (v : VideoFile) (s : Session)
    → same_text final v.storage_uri ≡ false
    → v.retry_count ≡ some 0
    → with_path final v s ≡ (
      ok (record v { storage_uri = final; updated_at = s.now }),
      record s { rows = save (record v { storage_uri = final; updated_at = s.now }) s.rows },
    )
unfolding update
with_path_new final v s e k = rw e (rw (k) refl)

module _ {S : Type 0} (h : Hasher S) (c : StorageSettings) where
  -- The state after a request, and what a 201 promises: the row is committed with the path that the
  -- background task gets, and its file is there with the content that was hashed.
  abbrev pub Serves : Reply Uploaded × Site → Type 0
  Serves (replied u, s) =
      IsKept h c s
      × (find (has_id u.video.id) s.videos.committed ≡ some u.video)
      × IsBacked h c s.files u.video
      × (u.task ≡ (u.video.id, u.video.storage_uri))
  Serves (http n, s) = IsKept h c s
  Serves (failed e, s) = IsKept h c s

module _ {S : Type 0} (h : Hasher S) (c : StorageSettings) (form : UploadForm) (ext : Text)
    (supported : is_supported ext ≡ true) (s : Site) (kept : IsKept h c s) where
  abbrev tmp : Text
  tmp = tmp_path c form.uuid ext

  abbrev final : Text → Text
  final hash = final_path c hash ext

  -- Nothing arrived: the rows are rolled back.
  pub dropped :
      (files : Files) (videos : Session)
      → videos.committed ≡ s.videos.committed
      → s.videos.next_id ≤ videos.next_id
      → Leaves tmp (final (content_hash h c [])) [] false s.files files
      → IsKept h c (record { files = files; videos = record videos { rows = videos.committed } })
  dropped files videos same grown leaves = record {
    tidy =
        Leaves-tidy h c s kept form.uuid ext supported (content_hash h c []) [] refl false refl
          files leaves;
    addressed =
        Leaves-addressed h c s kept form.uuid ext supported (content_hash h c []) [] refl false refl
          files leaves;
    backed = rw same (
        Leaves-All h c s kept form.uuid ext supported (content_hash h c []) [] refl false refl files
          leaves s.videos.committed kept.backed);
    below = rw same (All-below s.videos.next_id videos.next_id s.videos.committed grown kept.below);
    fresh = refl;
  }

  -- It arrived as `v`, whose row was made in this request.
  pub arrives :
      (bytes hash : Text) (v : VideoFile) (arrived : Bool) (files : Files)
      → content_hash h c bytes ≡ hash
      → v.content_hash ≡ hash
      → v.storage_uri ≡ tmp
      → v.id ≡ s.videos.next_id
      → v.retry_count ≡ some 0
      → arrived && exists (final hash) s.files ≡ false
      → Leaves tmp (final hash) bytes arrived s.files files
      → (b : Text) × (content_of (final hash) files ≡ some b)
      → Serves h c (
          end_session (
            cleaned tmp (
              after_move
                (final hash)
                v
                (record s.videos {
                  rows = s.videos.rows ++ (v ∷ []);
                  next_id = s.videos.next_id + 1;
                })
                (ok tt, files))))
  arrives bytes hash v arrived files hashed e uri key count new leaves (b, found) =
      let v' : VideoFile = record v { storage_uri = final hash; updated_at = s.videos.now } in
      let others =
        Leaves-All h c s kept form.uuid ext supported hash bytes hashed arrived new files leaves
          s.videos.committed kept.backed in
      let addressed =
        Leaves-addressed h c s kept form.uuid ext supported hash bytes hashed arrived new files
          leaves in
      let backed : IsBacked h c files v' =
        (b, found, addressed hash ext b supported found ∙ sym e) in
      let apart : same_text (final hash) v.storage_uri ≡ false = rw uri (
        same_text_ne (final hash) tmp
          (final_path-ne-tmp_path c hash ext form.uuid ext supported)) in
      let below : All (λ r. r.id < s.videos.next_id) s.videos.rows = rw kept.fresh kept.below in
      let saved =
        save_last v' v s.videos.next_id s.videos.rows below key key
        ∙ ap (λ rs. rs ++ (v' ∷ [])) kept.fresh in
      rw (with_path_new (final hash) v _ apart count, saved)
        (
          record {
            tidy =
                Leaves-tidy h c s kept form.uuid ext supported hash bytes hashed arrived new files
                  leaves;
            addressed = addressed;
            backed = All-append _ s.videos.committed (v' ∷ []) others (backed, tt);
            below =
                All-append _ s.videos.committed (v' ∷ [])
                  (All-below s.videos.next_id (s.videos.next_id + 1) s.videos.committed
                    (omega arith) kept.below)
                  (omega arith, tt);
            fresh = refl;
          },
          Dedup.find_last (has_id v.id) s.videos.committed v'
              (rw key (Dedup.find-below s.videos.next_id s.videos.committed kept.below))
              (==_refl v.id),
          backed,
          refl,
        )
