-- ===== src/Video/Dedup.antt =====
-- Registration by content: `create_and_commit` of src/services/video_service.py never stores a
-- content twice.
use portfolio_cv_project.Common.{
  same_text_refl, same_text_sym, ℕ, ◌+◌, ◌<◌, All, leb, Bool, true, false, not, ◌||◌, List, [], ◌∷◌,
  ◌++◌, Option, none, some, if◌then◌else◌, ◌≡◌, refl, sym, ◌∙◌, Result, ok, find, any, arith,
}
use portfolio_cv_project.Clock.{DateTime, to_naive_utc}
use portfolio_cv_project.Video.{created, Text, VideoFile}
use portfolio_cv_project.Video.Session.{Session, pure, has_hash, has_id, get_by_hash, create}
use portfolio_cv_project.Video.Service.{
  Disk, new_video, Answer, answer, unprocessable, not_acceptable, register, create_and_commit,
}

pub find-none :
    (p : VideoFile → Bool) (rows : List VideoFile) → find p rows ≡ none → any p rows ≡ false
find-none p [] h = refl
find-none p (r ∷ rows) h = ground (arith, find-none p rows)

pub find_last :
    (p : VideoFile → Bool) (rows : List VideoFile) (v : VideoFile)
    → find p rows ≡ none
    → p v ≡ true
    → find p (rows ++ (v ∷ [])) ≡ some v
find_last p [] v h k = rw k
find_last p (r ∷ rows) v h k = ground (arith, find_last p rows v)

pub find-below :
    (n : ℕ) (rows : List VideoFile) → All (λ r. r.id < n) rows → find (has_id n) rows ≡ none
find-below n [] all = refl
find-below n (r ∷ rows) all = ground (arith, find-below n rows all.1)

-- The row and the session of a new registration.
abbrev pub stored : VideoFile → Session → VideoFile
stored v s = record v { id = s.next_id; updated_at = s.now }

abbrev pub with_row : VideoFile → Session → Session
with_row v s = record s { rows = s.rows ++ (stored v s ∷ []); next_id = s.next_id + 1 }

register_new :
    (v : VideoFile) (s : Session)
    → find (has_hash v.content_hash) s.rows ≡ none
    → register v.content_hash v s ≡ (ok (answer (stored v s)), with_row v s)
unfolding register create get_by_hash
register_new v s h = rw (h, find-none (has_hash v.content_hash) s.rows h)

register_old :
    (v old : VideoFile) (s : Session)
    → find (has_hash v.content_hash) s.rows ≡ some old
    → register v.content_hash v s ≡ (ok (not_acceptable old.id), s)
unfolding register get_by_hash
register_old v old s h = rw h

module _ (disk : Disk) (uri : Text) (started ended : DateTime) (station_id : Option ℕ) where
  abbrev pub candidate : VideoFile
  candidate =
      new_video station_id uri (disk.sha256_of_file uri) (to_naive_utc started) (to_naive_utc ended)
        created

  abbrev pub is_refused : Bool
  is_refused = leb (to_naive_utc ended) (to_naive_utc started) || not (disk.exists uri)

  -- What `create_and_commit` does, by the window and the file, and then by the row of that content.
  abbrev pub registration : Bool → Option VideoFile → Session → Result (Answer VideoFile) × Session
  registration true found s = (ok unprocessable, s)
  registration false none s = (ok (answer (stored candidate s)), with_row candidate s)
  registration false (some old) s = (ok (not_acceptable old.id), s)

  pub create_and_commit_lem :
      (s : Session)
      → create_and_commit disk uri started ended station_id s
        ≡ registration is_refused (find (has_hash (disk.sha256_of_file uri)) s.rows) s
  unfolding create_and_commit
  create_and_commit_lem s =
      go (leb (to_naive_utc ended) (to_naive_utc started)) (disk.exists uri)
        (find (has_hash (disk.sha256_of_file uri)) s.rows) refl
    where
      go :
          (late here : Bool) (found : Option VideoFile)
          → find (has_hash (disk.sha256_of_file uri)) s.rows ≡ found
          → (if late
                then pure unprocessable
                else (if here
                    then register candidate.content_hash candidate
                    else pure unprocessable))
              s
            ≡ registration (late || not here) found s
      go true here found e = refl
      go false false found e = refl
      go false true none e = register_new candidate s e
      go false true (some old) e = register_old candidate old s e

  registered_found :
      (s s' : Session) (v : VideoFile)
      → create_and_commit disk uri started ended station_id s ≡ (ok (answer v), s')
      → (find (has_hash v.content_hash) s'.rows ≡ some v)
        × (v.content_hash ≡ disk.sha256_of_file uri)
  registered_found s s' v e =
      go is_refused (find (has_hash (disk.sha256_of_file uri)) s.rows) refl
        (sym (create_and_commit_lem s) ∙ e)
    where
      go :
          (refused : Bool) (found : Option VideoFile)
          → find (has_hash (disk.sha256_of_file uri)) s.rows ≡ found
          → registration refused found s ≡ (ok (answer v), s')
          → (find (has_hash v.content_hash) s'.rows ≡ some v)
            × (v.content_hash ≡ disk.sha256_of_file uri)
      go true found h k = cc
      go false (some old) h k = cc
      go false none h k =
          let same : stored candidate s ≡ v = cc in
          let after : with_row candidate s ≡ s' = cc in
          rw (sym same, sym after)
            (
              find_last (has_hash (disk.sha256_of_file uri)) s.rows (stored candidate s) h
                  (same_text_refl (disk.sha256_of_file uri)),
              refl,
            )

-- A file that `create_and_commit` has registered is refused when it is offered again, with 406 and
-- the id of its row, and nothing changes: under any path with the same content, for any station, at
-- any window that is not refused for itself.
pub duplicate_refused :
    (disk : Disk) (uri again : Text) (t u t' u' : DateTime) (station station' : Option ℕ)
    (s s' : Session) (v : VideoFile)
    → create_and_commit disk uri t u station s ≡ (ok (answer v), s')
    → disk.sha256_of_file again ≡ disk.sha256_of_file uri
    → is_refused disk again t' u' station' ≡ false
    → create_and_commit disk again t' u' station' s' ≡ (ok (not_acceptable v.id), s')
duplicate_refused disk uri again t u t' u' station station' s s' v e same valid =
    let (found, hash) = registered_found disk uri t u station s s' v e in
    let old : find (has_hash (disk.sha256_of_file again)) s'.rows ≡ some v =
      rw (same, sym hash) found in
    create_and_commit_lem disk again t' u' station' s' ∙ rw (valid, old)

-- No two rows have one content.
abbrev pub IsUnique : List VideoFile → Type 0
IsUnique [] = Unit
IsUnique (r ∷ rows) = (any (has_hash r.content_hash) rows ≡ false) × IsUnique rows

any-last :
    (p : VideoFile → Bool) (rows : List VideoFile) (v : VideoFile)
    → any p rows ≡ false
    → p v ≡ false
    → any p (rows ++ (v ∷ [])) ≡ false
any-last p [] v h k = rw k
any-last p (r ∷ rows) v h k = ground (arith, any-last p rows v)

IsUnique-last :
    (rows : List VideoFile) (v : VideoFile)
    → IsUnique rows
    → find (has_hash v.content_hash) rows ≡ none
    → IsUnique (rows ++ (v ∷ []))
IsUnique-last [] v h k = (refl, tt)
IsUnique-last (r ∷ rows) v h k =
    let other : has_hash r.content_hash v ≡ false =
      same_text_sym v.content_hash r.content_hash ∙ ground arith in
    (any-last (has_hash r.content_hash) rows v h.0 other, IsUnique-last rows v h.1 (ground arith))

-- `create_and_commit` keeps the rows free of two with one content, on every branch.
pub create_and_commit-IsUnique :
    (disk : Disk) (uri : Text) (started ended : DateTime) (station_id : Option ℕ) (s : Session)
    → IsUnique s.rows
    → IsUnique (create_and_commit disk uri started ended station_id s).1.rows
create_and_commit-IsUnique disk uri started ended station_id s h =
    rw (create_and_commit_lem disk uri started ended station_id s) (
      go (is_refused disk uri started ended station_id)
        (find (has_hash (disk.sha256_of_file uri)) s.rows) refl)
  where
    go :
        (refused : Bool) (found : Option VideoFile)
        → find (has_hash (disk.sha256_of_file uri)) s.rows ≡ found
        → IsUnique (registration disk uri started ended station_id refused found s).1.rows
    go true found k = h
    go false (some old) k = h
    go false none k =
        let v = stored (candidate disk uri started ended station_id) s in IsUnique-last s.rows v h k
