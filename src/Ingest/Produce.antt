-- ===== src/Ingest/Produce.antt =====
-- `StationVideoFile`, `aget_contiguous_iterator`, `forward_video_to_api` and the loop of
-- `produce_for_directory`, for one directory. A file's path is a number, a directory a function from
-- paths. How `strptime` reads a stem is a parameter, as are the disk and the API of each pass.
use portfolio_cv_project.Common.{
  keep, not, ℕ, ◌==◌, leb, Bool, true, false, ◌&&◌, List, [], ◌∷◌, any, Option, none, some,
  if◌then◌else◌,
}
use portfolio_cv_project.Mqtt.{Text}

-- What a path of the directory holds; the suffix is in lower case.
pub record Entry : Type 0 where
  pub is_file : Bool
  pub stem : Text
  pub suffix : ℕ
  pub content_hash : ℕ

abbrev pub StoragePath : Type 0
StoragePath = ℕ × ℕ

abbrev pub storage_path : Entry → StoragePath
storage_path e = (e.content_hash, e.suffix)

pub record Disk : Type 0 where
  pub station : ℕ → Option Entry
  pub cold : List StoragePath
  pub accepted : List StoragePath

pub data ApiReply : Type 0 where
  timeout_error client_error : ApiReply
  status : ℕ → ApiReply

pub data Forward : Type 0 where
  forwarded already_exists api_error : Forward

abbrev pub forward_video_to_api : ApiReply → Forward
forward_video_to_api timeout_error = api_error
forward_video_to_api client_error = api_error
forward_video_to_api (status n) =
    if n == 406 then already_exists else (if leb 400 n then api_error else forwarded)

-- How `copy_to_cold_storage` ends: with the copy; with an exception before the target is opened, while
-- it is written, which leaves it cut off, or from `chmod`, after the copy.
pub data Copy : Type 0 where
  copied not_opened torn not_changed : Copy

-- One run of the directory's iterator, until the files end or the copy of one raises: the paths that
-- `iterdir` lists, how the copy of a path ends, and what the API answers about a path. Nobody writes
-- to a file between the reading of its hash and its removal.
pub record Pass : Type 0 where
  pub paths : List ℕ
  pub copies : ℕ → Copy
  pub reply : ℕ → ApiReply

abbrev pub copy_to_cold_storage : Entry → Disk → Disk
copy_to_cold_storage e disk = record disk { cold = storage_path e ∷ disk.cold }

abbrev pub same_path : StoragePath → StoragePath → Bool
same_path (h, s) (k, t) = h == k && s == t

-- The target was opened for writing and does not hold the content any more, also where it did before.
abbrev pub tear : Entry → Disk → Disk
tear e disk = record disk { cold = keep (λ s. not (same_path s (storage_path e))) disk.cold }

abbrev pub removed_at : ℕ → (ℕ → Option Entry) → ℕ → Option Entry
removed_at path station q = if q == path then none else station q

abbrev pub unlink : ℕ → Disk → Disk
unlink path disk = record disk { station = removed_at path disk.station }

-- The API's record that it has a storage path, kept on either good answer.
abbrev pub accept : Entry → Disk → Disk
accept e disk = record disk { accepted = storage_path e ∷ disk.accepted }

abbrev pub after_forward : Forward → ℕ → Entry → Disk → Disk
after_forward forwarded path e disk = unlink path (accept e disk)
after_forward already_exists path e disk = unlink path (accept e disk)
after_forward api_error path e disk = disk

module _ (allowed_extensions : List ℕ) (strptime : Text → Option ℕ) where
  abbrev pub has_timestamp : Text → Bool
  has_timestamp stem = elim (strptime stem) [ none ↦ false | some _ ↦ true ]

  abbrev pub is_yielded : Entry → Bool
  is_yielded e = e.is_file && any (λ x. e.suffix == x) allowed_extensions && has_timestamp e.stem

  -- The body of the loop over the items.
  abbrev pub handle_item : Pass → ℕ → Entry → Disk → Disk
  handle_item pass path e disk =
      after_forward (forward_video_to_api (pass.reply path)) path e (copy_to_cold_storage e disk)

  -- After the copy of a file: the rest of the pass if there is one, or its end.
  abbrev pub after_copy : Copy → Pass → ℕ → Entry → Disk → (Disk → Disk) → Disk
  after_copy copied pass path e disk rest = rest (handle_item pass path e disk)
  after_copy not_opened pass path e disk rest = disk
  after_copy torn pass path e disk rest = tear e disk
  after_copy not_changed pass path e disk rest = copy_to_cold_storage e disk

  abbrev pub at_path : Option Entry → Pass → ℕ → Disk → (Disk → Disk) → Disk
  at_path none pass path disk rest = rest disk
  at_path (some e) pass path disk rest =
      if is_yielded e then after_copy (pass.copies path) pass path e disk rest else rest disk

  -- The paths in turn; a file is looked at when its turn comes.
  unfoldable pub each_path : Pass → List ℕ → Disk → Disk
  each_path pass [] disk = disk
  each_path pass (path ∷ paths) disk =
      at_path (disk.station path) pass path disk (each_path pass paths)

  abbrev pub run_pass : Pass → Disk → Disk
  run_pass pass disk = each_path pass pass.paths disk

  unfoldable pub produce_for_directory : List Pass → Disk → Disk
  unfolding each_path
  produce_for_directory [] disk = disk
  produce_for_directory (pass ∷ passes) disk = produce_for_directory passes (run_pass pass disk)
