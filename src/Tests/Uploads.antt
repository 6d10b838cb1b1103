-- ===== src/Tests/Uploads.antt =====
-- A storage with no file yet, and an upload to it; the hash of a text is the text.
use portfolio_cv_project.Common.{◌≡◌, refl, sym, true, [], ◌∷◌, ◌++◌, none, some, arith, Text}
use mathlib.Core.List.{append-nil, append_assoc}
use portfolio_cv_project.Clock.{naive}
use portfolio_cv_project.Files.{content_of}
use portfolio_cv_project.Files.Hash.{
  Hasher, IsHasher, Stream, update_chunks, hash_large_file, hash_stream, hash_large_file_whole,
}
use portfolio_cv_project.Video.Session.{create, get_by_hash, update}
use portfolio_cv_project.Video.Service.{create_and_commit, register}
use portfolio_cv_project.Router.Upload.{
  StorageSettings, UploadForm, Site, received, upload_video, post_upload,
}
use portfolio_cv_project.Router.Upload.Kept.{IsKept}
use portfolio_cv_project.Router.Upload.Kept.Arrival.{Serves}
use portfolio_cv_project.Router.Upload.Kept.Served.{post_upload-Serves}

abbrev concatenation : Hasher Text
concatenation = record { new = []; updated = λ s a. s ++ a; digest = λ s. s }

concatenation-IsHasher : IsHasher concatenation
concatenation-IsHasher = record {
  updated_nil = λ s. append-nil s;
  updated-append = λ s a b. sym (append_assoc s a b);
}

abbrev stream : Stream
stream = record { bytes = 1 ∷ 2 ∷ 3 ∷ []; position = 1; is_seekable = true }

hash_large_file_whole_example :
    (hash_large_file concatenation 2 (5 ∷ 6 ∷ 7 ∷ []) ≡ some (5 ∷ 6 ∷ 7 ∷ []))
    × ((hash_stream concatenation 2 stream).0 ≡ some (2 ∷ 3 ∷ []))
    × ((hash_stream concatenation 2 stream).1.position ≡ 0)
hash_large_file_whole_example =
    hash_large_file_whole concatenation concatenation-IsHasher 2 (5 ∷ 6 ∷ 7 ∷ []) stream
      (omega arith)

abbrev storage : StorageSettings
storage = record {
  videos_storage = b'v' ∷ [];
  suffix = λ name. b'.' ∷ b'm' ∷ b'p' ∷ b'4' ∷ [];
  failed_path = λ uri i. uri;
}

abbrev form : UploadForm
form = record {
  filename = some (b'a' ∷ []);
  body = received (17 ∷ []);
  station_id = some 1;
  started_at = naive 10;
  ended_at = naive 40;
  uuid = b'0' ∷ [];
  rename_error = none;
}

abbrev site : Site
site = record { files = []; videos = record { rows = []; committed = []; next_id = 1; now = 5 } }

site-IsKept : IsKept concatenation storage site
site-IsKept = record {
  tidy = λ uuid ext e. refl;
  addressed = λ hash ext bytes e found. cc;
  backed = tt;
  below = tt;
  fresh = refl;
}

-- The bytes stand under `v/11.mp4`.
upload_stores :
    content_of
      (b'v' ∷ b'/' ∷ b'1' ∷ b'1' ∷ b'.' ∷ b'm' ∷ b'p' ∷ b'4' ∷ [])
      (post_upload concatenation storage form site).1.files
    ≡ some (17 ∷ [])
unfolding post_upload upload_video create_and_commit register get_by_hash create update
    hash_large_file update_chunks
upload_stores = refl

post_upload-Serves_example :
    Serves concatenation storage (post_upload concatenation storage form site)
post_upload-Serves_example = post_upload-Serves concatenation storage form site site-IsKept
