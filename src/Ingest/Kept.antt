-- ===== src/Ingest/Kept.antt =====
-- No file of a station directory is lost.
use portfolio_cv_project.Common.{
  keep, not, All, ℕ, ◌==◌, Bool, true, false, ◌||◌, List, [], ◌∷◌, any, Option, none, some,
  if◌then◌else◌, ◌≡◌, refl, sym, ap, ◌⊎◌, inl, inr, Bool-cases, ==_refl, ==→eq, arith,
}
use portfolio_cv_project.Mqtt.{Text}
use portfolio_cv_project.Ingest.Produce.{
  same_path, tear, Copy, copied, not_opened, torn, not_changed, after_copy, removed_at, Entry,
  StoragePath, storage_path, Disk, Forward, forwarded, already_exists, api_error,
  forward_video_to_api, Pass, copy_to_cold_storage, unlink, accept, after_forward, is_yielded,
  handle_item, at_path, each_path, run_pass, produce_for_directory,
}

abbrev pub IsIn : StoragePath → List StoragePath → Type 0
IsIn s xs = any (same_path s) xs ≡ true

-- A file's bytes are in cold storage, and the API has answered that it has them.
abbrev pub IsSafe : Entry → Disk → Type 0
IsSafe e disk = IsIn (storage_path e) disk.cold × IsIn (storage_path e) disk.accepted

abbrev pub IsKept : ℕ → Entry → Disk → Type 0
IsKept path e disk = (disk.station path ≡ some e) ⊎ IsSafe e disk

IsIn-head : (s : StoragePath) (xs : List StoragePath) → IsIn s (s ∷ xs)
IsIn-head s xs = ground (arith, ==_refl s.0, ==_refl s.1)

IsIn-same :
    (e f : Entry) (xs : List StoragePath) → e ≡ f → IsIn (storage_path e) (storage_path f ∷ xs)
IsIn-same e f xs e≡f = rw (sym e≡f) (IsIn-head (storage_path e) xs)

IsIn-tail : (s t : StoragePath) (xs : List StoragePath) → IsIn s xs → IsIn s (t ∷ xs)
IsIn-tail s t xs h = go (same_path s t) h
  where
    go : (b : Bool) → any (same_path s) xs ≡ true → b || any (same_path s) xs ≡ true
    go true k = refl
    go false k = k

IsIn-tear :
    (s t : StoragePath) (xs : List StoragePath)
    → same_path s t ≡ false
    → IsIn s xs
    → IsIn s (keep (λ x. not (same_path x t)) xs)
IsIn-tear s t [] apart h = cc
IsIn-tear s t (x ∷ xs) apart h = ground (arith, IsIn-tear s t xs)

tear-IsKept :
    (path : ℕ) (e f : Entry) (disk : Disk)
    → same_path (storage_path e) (storage_path f) ≡ false
    → IsKept path e disk
    → IsKept path e (tear f disk)
tear-IsKept path e f disk apart (inl k) = inl k
tear-IsKept path e f disk apart (inr safe) =
    inr (IsIn-tear (storage_path e) (storage_path f) disk.cold apart safe.0, safe.1)

copy-IsKept :
    (path : ℕ) (e f : Entry) (disk : Disk)
    → IsKept path e disk
    → IsKept path e (copy_to_cold_storage f disk)
copy-IsKept path e f disk (inl k) = inl k
copy-IsKept path e f disk (inr safe) =
    inr (IsIn-tail (storage_path e) (storage_path f) disk.cold safe.0, safe.1)

abbrev IsPart : (ℕ → Option Entry) → Disk → Type 0
IsPart station disk = (p : ℕ) (f : Entry) → disk.station p ≡ some f → station p ≡ some f

removed_at-some :
    (at : ℕ) (station : ℕ → Option Entry) (p : ℕ) (f : Entry)
    → removed_at at station p ≡ some f
    → station p ≡ some f
removed_at-some at station p f e = ground arith

-- In a pass no copy to the storage path of `e` is broken off.
abbrev pub Spares : (ℕ → Option Entry) → Entry → Pass → Type 0
Spares station e pass =
    (p : ℕ) (f : Entry)
    → station p ≡ some f
    → pass.copies p ≡ torn
    → same_path (storage_path e) (storage_path f) ≡ false

module _ (allowed_extensions : List ℕ) (strptime : Text → Option ℕ) where
  handle_item-IsSafe :
      (pass : Pass) (path : ℕ) (e f : Entry) (disk : Disk)
      → IsSafe e disk
      → IsSafe e (handle_item allowed_extensions strptime pass path f disk)
  handle_item-IsSafe pass path e f disk h = go (forward_video_to_api (pass.reply path))
    where
      cold : IsIn (storage_path e) (storage_path f ∷ disk.cold)
      cold = IsIn-tail (storage_path e) (storage_path f) disk.cold h.0

      accepted : IsIn (storage_path e) (storage_path f ∷ disk.accepted)
      accepted = IsIn-tail (storage_path e) (storage_path f) disk.accepted h.1

      go : (r : Forward) → IsSafe e (after_forward r path f (copy_to_cold_storage f disk))
      go forwarded = (cold, accepted)
      go already_exists = (cold, accepted)
      go api_error = (cold, h.1)

  unlink-IsKept :
      (path at : ℕ) (e f : Entry) (disk : Disk)
      → disk.station at ≡ some f
      → disk.station path ≡ some e
      → (path == at ≡ true) ⊎ (path == at ≡ false)
      → IsKept path e (unlink at (accept f (copy_to_cold_storage f disk)))
  unlink-IsKept path at e f disk h k (inl same) =
      let found : disk.station path ≡ disk.station at = ap disk.station (==→eq path at same) in
      let e≡f : e ≡ f = cc in inr (IsIn-same e f disk.cold e≡f, IsIn-same e f disk.accepted e≡f)
  unlink-IsKept path at e f disk h k (inr other) = inl (rw (other, k))

  handle_item-IsKept :
      (pass : Pass) (path at : ℕ) (e f : Entry) (disk : Disk)
      → disk.station at ≡ some f
      → IsKept path e disk
      → IsKept path e (handle_item allowed_extensions strptime pass at f disk)
  handle_item-IsKept pass path at e f disk h (inr safe) =
      inr (handle_item-IsSafe pass at e f disk safe)
  handle_item-IsKept pass path at e f disk h (inl k) = go (forward_video_to_api (pass.reply at))
    where
      go : (r : Forward) → IsKept path e (after_forward r at f (copy_to_cold_storage f disk))
      go forwarded = unlink-IsKept path at e f disk h k (Bool-cases (path == at))
      go already_exists = unlink-IsKept path at e f disk h k (Bool-cases (path == at))
      go api_error = inl k

  -- The files of the directory are some of those that were there at first.
  handle_item-IsPart :
      (station : ℕ → Option Entry) (pass : Pass) (at : ℕ) (f : Entry) (disk : Disk)
      → IsPart station disk
      → IsPart station (handle_item allowed_extensions strptime pass at f disk)
  handle_item-IsPart station pass at f disk h p g =
      go (forward_video_to_api (pass.reply at)) (h p g)
    where
      go :
          (r : Forward)
          → (disk.station p ≡ some g → station p ≡ some g)
          → (after_forward r at f (copy_to_cold_storage f disk)).station p ≡ some g
          → station p ≡ some g
      go forwarded k e = k (removed_at-some at disk.station p g e)
      go already_exists k e = k (removed_at-some at disk.station p g e)
      go api_error k e = k e

  module _ (station : ℕ → Option Entry) (path : ℕ) (e : Entry) where
    abbrev Goes : Disk → Type 0
    Goes disk = IsKept path e disk × IsPart station disk

    each_path-Goes :
        (pass : Pass) (paths : List ℕ) (disk : Disk)
        → Spares station e pass
        → Goes disk
        → Goes (each_path allowed_extensions strptime pass paths disk)
    unfolding each_path
    each_path-Goes pass [] disk spares h = h
    each_path-Goes pass (at ∷ paths) disk spares h =
        go (disk.station at) refl (λ next. each_path-Goes pass paths next spares)
      where
        rest_of : Disk → Disk
        rest_of = each_path allowed_extensions strptime pass paths

        go :
            (o : Option Entry)
            → disk.station at ≡ o
            → ((next : Disk) → Goes next → Goes (rest_of next))
            → Goes (at_path allowed_extensions strptime o pass at disk rest_of)
        go none there rest = rest disk h
        go (some f) there rest =
            yielded (is_yielded allowed_extensions strptime f) (pass.copies at) refl
          where
            yielded :
                (b : Bool) (copy : Copy)
                → pass.copies at ≡ copy
                → Goes (
                    if b
                    then after_copy allowed_extensions strptime copy pass at f disk rest_of
                    else rest_of disk)
            yielded false copy same = rest disk h
            yielded true copied same =
                rest (handle_item allowed_extensions strptime pass at f disk) (
                  handle_item-IsKept pass path at e f disk there h.0,
                  handle_item-IsPart station pass at f disk h.1,
                )
            yielded true not_opened same = h
            yielded true torn same =
                (tear-IsKept path e f disk (spares at f (h.1 at f there) same) h.0, h.1)
            yielded true not_changed same = (copy-IsKept path e f disk h.0, h.1)

    produce-Goes :
        (passes : List Pass) (disk : Disk)
        → All (Spares station e) passes
        → Goes disk
        → Goes (produce_for_directory allowed_extensions strptime passes disk)
    unfolding produce_for_directory
    produce-Goes [] disk spares h = h
    produce-Goes (pass ∷ passes) disk spares h =
        produce-Goes passes (run_pass allowed_extensions strptime pass disk) spares.1
          (each_path-Goes pass pass.paths disk spares.0 h)

  -- If no file's copy breaks off while it is written to the very path in cold storage that a given
  -- file of the station's directory has there: in any number of passes, with whatever other copies
  -- fail and whatever the API answers, the file still stands in the directory, or it was copied to
  -- cold storage under its hash, is there, and the API answered for that copy, by a status below 400
  -- or by 406.
  pub produce_for_directory-IsKept :
      (passes : List Pass) (path : ℕ) (e : Entry) (disk : Disk)
      → All (Spares disk.station e) passes
      → disk.station path ≡ some e
      → IsKept path e (produce_for_directory allowed_extensions strptime passes disk)
  produce_for_directory-IsKept passes path e disk spares h =
      (produce-Goes disk.station path e passes disk spares (inl h, λ p f k. k)).0
