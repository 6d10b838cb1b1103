-- ===== src/Video/Session.antt =====
-- A database session over `video_files`: src/repositories/base.py and
-- src/repositories/video_file.py. An operation returns or raises, and leaves a session either way.
-- `rows` is what the session sees, `committed` what a rollback leaves, `now` the database's clock.
use mathlib.Core.List.{reverse}
use portfolio_cv_project.Common.{
  same_text, ℕ, ◌+◌, ◌==◌, ltb, Bool, true, false, ◌&&◌, ◌||◌, List, [], ◌∷◌, ◌++◌, Option, none,
  some, keep, find, if◌then◌else◌, Result, ok, raise, Error, value_error, integrity_error, any,
  take, drop, tally,
}
use portfolio_cv_project.Video.{VideoStatus, failed, same_status, Text, VideoFile}

pub record Session : Type 0 where
  pub rows : List VideoFile
  pub committed : List VideoFile
  pub next_id : ℕ
  pub now : ℕ

abbrev pub Run : Type 0 → Type 0
Run A = Session → Result A × Session

abbrev pub pure : {A : Type 0} → A → Run A
pure a s = (ok a, s)

abbrev pub throw : {A : Type 0} → Error → Run A
throw e s = (raise e, s)

abbrev pub then_do : {A B : Type 0} → Result A × Session → (A → Run B) → Result B × Session
then_do (ok a, s) f = f a s
then_do (raise e, s) f = (raise e, s)

infixl 5 ◌>>=◌ ◌>>◌
abbrev pub ◌>>=◌ : {A B : Type 0} → Run A → (A → Run B) → Run B
◌>>=◌ m f s = then_do (m s) f

abbrev pub ◌>>◌ : {A B : Type 0} → Run A → Run B → Run B
m >> k = m >>= λ _. k

-- `try: m` with `except Exception as exc: handler(exc)`.
abbrev pub caught : {A : Type 0} → Result A × Session → (Error → Run A) → Result A × Session
caught (ok a, s) handler = (ok a, s)
caught (raise e, s) handler = handler e s

abbrev pub try_except : {A : Type 0} → Run A → (Error → Run A) → Run A
try_except m handler s = caught (m s) handler

abbrev pub commit : Run (Unit {0})
commit s = (ok tt, record s { committed = s.rows })

abbrev pub rollback : Run (Unit {0})
rollback s = (ok tt, record s { rows = s.committed })

abbrev pub has_id : ℕ → VideoFile → Bool
has_id i v = v.id == i

-- `AsyncRepository.get`.
abbrev pub get : ℕ → Run (Option VideoFile)
get i s = (ok (find (has_id i) s.rows), s)

-- `AsyncRepository.list`, in the order of the ids.
abbrev pub list : ℕ → ℕ → List VideoFile → List VideoFile
list limit offset rows = take limit (drop offset rows)

abbrev pub save : VideoFile → List VideoFile → List VideoFile
save v [] = []
save v (r ∷ rows) = if r.id == v.id then v ∷ rows else r ∷ save v rows

-- The column `retry_count` is NOT NULL.
abbrev pub is_storable : VideoFile → Bool
is_storable v = elim v.retry_count [ none ↦ false | some n ↦ true ]

-- `AsyncRepository.update`: the flush writes the row with a new `updated_at`, or is refused.
unfoldable pub update : VideoFile → Run VideoFile
update v s =
    let v' = record v { updated_at = s.now } in
    if is_storable v
    then (ok v', record s { rows = save v' s.rows })
    else (raise integrity_error, s)

-- `AsyncRepository.update_by_id`, with the assignments as a function on the row.
unfoldable pub update_by_id : ℕ → (VideoFile → VideoFile) → Run VideoFile
update_by_id i change s = elim (find (has_id i) s.rows) [
  | none ↦ (raise value_error, s)
  | some v ↦ update (change v) s
]

abbrev pub has_hash : Text → VideoFile → Bool
has_hash h v = same_text v.content_hash h

unfoldable pub get_by_hash : Text → Run (Option VideoFile)
get_by_hash h s = (ok (find (has_hash h) s.rows), s)

-- `AsyncRepository.create`: the flush gives the row its id, or is refused by the unique hash. The
-- foreign key of the station is checked where a request names a station by its number, in
-- Router/Videos; the others pass on a station that they have just read.
unfoldable pub create : VideoFile → Run VideoFile
create v s =
    let v' = record v { id = s.next_id; updated_at = s.now } in
    if any (has_hash v.content_hash) s.rows
    then (raise integrity_error, s)
    else (ok v', record s { rows = s.rows ++ v' ∷ []; next_id = s.next_id + 1 })

-- `get_stale_videos`: the threshold is `threshold` before now.
abbrev pub is_stale : VideoStatus → ℕ → ℕ → VideoFile → Bool
is_stale status threshold now v = same_status v.status status && ltb (v.updated_at + threshold) now

unfoldable pub get_stale_videos : VideoStatus → ℕ → Run (List VideoFile)
get_stale_videos status threshold s = (ok (keep (is_stale status threshold s.now) s.rows), s)

-- `retry_count < max` and `retry_count IS NULL`, as SQL has them: NULL is below nothing.
abbrev pub is_below : ℕ → Option ℕ → Bool
is_below max_attempts none = false
is_below max_attempts (some n) = ltb n max_attempts

abbrev pub is_null : Option ℕ → Bool
is_null none = true
is_null (some n) = false

abbrev pub is_retriable : ℕ → VideoFile → Bool
is_retriable max_attempts v =
    same_status v.status failed && (is_below max_attempts v.retry_count || is_null v.retry_count)

abbrev pub is_unlimited : VideoFile → Bool
is_unlimited v = same_status v.status failed && is_null v.retry_count

unfoldable pub get_failed_videos_within_limit : ℕ → Run (List VideoFile)
get_failed_videos_within_limit max_attempts s = (ok (keep (is_retriable max_attempts) s.rows), s)

unfoldable pub get_failed_videos_unlimited : Run (List VideoFile)
get_failed_videos_unlimited s = (ok (keep is_unlimited s.rows), s)

abbrev pub is_at : ℕ → VideoFile → Bool
is_at station_id v = elim v.station_id [ none ↦ false | some i ↦ i == station_id ]

-- `ORDER BY id DESC`.
unfoldable pub list_by_station : ℕ → ℕ → ℕ → List VideoFile → List VideoFile
list_by_station station_id limit offset rows =
    take limit (drop offset (reverse (keep (is_at station_id) rows)))

-- The dict `count_by_status` by its keys, where a status that no row has is left out of the dict.
unfoldable pub count_by_status : List VideoFile → VideoStatus → ℕ
count_by_status rows status = tally (λ v. same_status v.status status) rows
