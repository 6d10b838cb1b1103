-- ===== src/Ingest/Journey.antt =====
-- A file of a station's directory from the producer to the API's answer: the request that
-- `forward_video_to_api` of ingestion/main.py makes, served by `POST /v1/videos/handle`.
use portfolio_cv_project.Common.{
  ==_refl, same_text, ◌==◌, ℕ, ◌+◌, ◌<◌, leb, lt→leb_false, Bool, true, false, not, ◌&&◌, ◌∷◌,
  Option, none, some, if◌then◌else◌, Text, find, ◌≡◌, refl, arith,
}
use portfolio_cv_project.Clock.{DateTime, naive, aware, to_naive_utc}
use portfolio_cv_project.Event.Ingest.{Reply, replied, http, failed}
use portfolio_cv_project.Farm.{Station}
use portfolio_cv_project.Farm.Table.{Table}
use portfolio_cv_project.Farm.Stations.{get_by_code}
use portfolio_cv_project.Video.{VideoFile}
use portfolio_cv_project.Video.Session.{Session, has_hash, then_do}
use portfolio_cv_project.Video.Service.{Disk}
use portfolio_cv_project.Video.Dedup.{registration, create_and_commit_lem}
use portfolio_cv_project.Video.Handler.{Pipeline, handle_video, handle_registered}
use portfolio_cv_project.Farm.Clash.{find-any}
use portfolio_cv_project.Router.Videos.{
  refers, HandleForm, known, end_session, to_reply, with_station, post_handle,
}
use portfolio_cv_project.Ingest.Produce.{
  ApiReply, status, Forward, forwarded, already_exists, api_error, forward_video_to_api,
}

-- A `StationVideoFile`, by what is sent of it: its cold-storage path, station and time.
pub record Item : Type 0 where
  pub storage_path : Text
  pub station_code : Text
  pub begin_ts : DateTime

-- A naive time is taken for UTC.
abbrev pub to_utc_iso : DateTime → DateTime
to_utc_iso (naive t) = aware t
to_utc_iso (aware t) = aware t

-- `dt + timedelta(seconds=…)`.
abbrev pub later_by : ℕ → DateTime → DateTime
later_by d (naive t) = naive (t + d)
later_by d (aware t) = aware (t + d)

-- The form of the request.
abbrev pub params : ℕ → Item → HandleForm
params default_video_duration item = record {
  filepath = item.storage_path;
  station_id = none;
  station_code = some item.station_code;
  started_at = to_utc_iso item.begin_ts;
  ended_at = to_utc_iso (later_by default_video_duration item.begin_ts);
}

-- The answer on the wire: 200, the status of an HTTPException, or 500.
abbrev pub on_wire : {A S : Type 0} → Reply A × S → ApiReply
on_wire (replied a, s) = status 200
on_wire (http n, s) = status n
on_wire (failed e, s) = status 500

abbrev pub is_some : {A : Type 0} → Option A → Bool
is_some none = false
is_some (some a) = true

-- By the station's code, the file at the path, and a row of its content.
abbrev pub verdict : Bool → Bool → Bool → Forward
verdict known exists seen =
    if known && exists then (if seen then already_exists else forwarded) else api_error

module _ (p : Pipeline) (disk : Disk) (d : ℕ) (item : Item) (positive : 0 < d) (s : Session) where
  abbrev form : HandleForm
  form = params d item

  window :
      (t : DateTime)
      → leb (to_naive_utc (to_utc_iso (later_by d t))) (to_naive_utc (to_utc_iso t)) ≡ false
  window (naive t) = lt→leb_false (t + d) t (omega arith)
  window (aware t) = lt→leb_false (t + d) t (omega arith)

  registered :
      (sid : Option ℕ)
      → forward_video_to_api (
          on_wire (
            end_session (
              to_reply
                (handle_video p disk form.filepath sid form.started_at form.ended_at true s))))
        ≡ verdict true
            (disk.exists item.storage_path)
            (is_some (find (has_hash (disk.sha256_of_file item.storage_path)) s.rows))
  unfolding handle_video
  registered sid =
      rw
        (
          create_and_commit_lem disk form.filepath form.started_at form.ended_at sid s,
          window item.begin_ts,
        )
        (go (disk.exists item.storage_path)
          (find (has_hash (disk.sha256_of_file item.storage_path)) s.rows))
    where
      go :
          (here : Bool) (found : Option VideoFile)
          → forward_video_to_api (
              on_wire (
                end_session (
                  to_reply (
                    then_do
                      (registration disk form.filepath form.started_at form.ended_at sid
                        (not here)
                        found
                        s)
                      (handle_registered p true)))))
            ≡ verdict true here (is_some found)
      go false found = refl
      go true none = refl
      go true (some old) = refl

  -- Where a clip lasts some time: the producer takes the API's answer for a success exactly when the
  -- station's code is known, the file is at its path and no row has its content; for a duplicate
  -- exactly when a row has; and otherwise for a failure, after which the source file is kept.
  pub forward_video_to_api-post_handle :
      (stations : Table Station) (k : ℕ) (ks : Text)
      → item.station_code ≡ k ∷ ks
      → forward_video_to_api (on_wire (post_handle p disk (params d item) stations s))
        ≡ verdict
            (is_some (get_by_code (k ∷ ks) stations))
            (disk.exists item.storage_path)
            (is_some (find (has_hash (disk.sha256_of_file item.storage_path)) s.rows))
  unfolding post_handle get_by_code
  forward_video_to_api-post_handle stations k ks e = rw e (go (get_by_code (k ∷ ks) stations) refl)
    where
      go :
          (found : Option Station)
          → get_by_code (k ∷ ks) stations ≡ found
          → forward_video_to_api
              (on_wire (end_session (with_station p disk (params d item) stations (known found) s)))
            ≡ verdict
                (is_some found)
                (disk.exists item.storage_path)
                (is_some (find (has_hash (disk.sha256_of_file item.storage_path)) s.rows))
      go none looked = refl
      go (some station) looked =
          let there : refers (some station.id) stations ≡ true =
            find-any (λ r. same_text r.code (k ∷ ks)) (λ r. r.id == station.id) stations.rows
              station looked (==_refl station.id) in
          rw there (registered (some station.id))
