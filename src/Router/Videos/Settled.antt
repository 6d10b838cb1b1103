-- ===== src/Router/Videos/Settled.antt =====
-- `POST /v1/videos/handle` and what becomes of the video that it registers.
use portfolio_cv_project.Common.{integrity_error, ℕ, true, false, [], ◌∷◌, ◌++◌, Option, some, ◌≡◌}
use portfolio_cv_project.Event.Ingest.{Reply, replied, http, failed}
use portfolio_cv_project.Farm.{Station}
use portfolio_cv_project.Farm.Table.{Table}
use portfolio_cv_project.Video.{VideoFile, created}
use portfolio_cv_project.Video.Session.{Session}
use portfolio_cv_project.Video.Handler.{Pipeline, Handled, queued, processed}
use portfolio_cv_project.Video.Background.{IsSettled}
use portfolio_cv_project.Router.Videos.{refers, get_video, background_process}

module _ (p : Pipeline) (stations : Table Station) (before : Session) where
  -- What an answer of the endpoint promises, where `station_id` is the one that was looked up.
  abbrev pub Promises : Option (Option ℕ) → Reply Handled × Session → Type 0
  Promises station_id (replied (queued i uri), s) =
      (v : VideoFile) × (s.committed ≡ before.committed ++ (v ∷ []))
      × ((get_video i s).0 ≡ replied v)
      × (some v.station_id ≡ station_id)
      × (refers v.station_id stations ≡ true)
      × (v.status ≡ created)
      × (v.storage_uri ≡ uri)
      × IsSettled i (background_process p i uri s).1
  Promises station_id (replied (processed i st), s) = ⊥
  Promises station_id (http n, s) = s.committed ≡ before.committed
  Promises station_id (failed e, s) =
      (sid : Option ℕ) × (station_id ≡ some sid)
      × (refers sid stations ≡ false)
      × (e ≡ integrity_error)
      × (s.committed ≡ before.committed)
