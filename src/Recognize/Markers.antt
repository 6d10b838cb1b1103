-- ===== src/Recognize/Markers.antt =====
-- The cache of markers is no more than a lookup.
use portfolio_cv_project.Common.{
  ℕ, suc, ◌==◌, true, List, [], ◌∷◌, Option, none, some, if◌then◌else◌, length, Result, ok, find,
  Text, ◌≡◌, refl, sym, ap, ◌∙◌, Bool-cases, ==→eq, inl, inr,
}
use mathlib.Core.Path.{subst}
use portfolio_cv_project.Event.{EventCreate, Event}
use portfolio_cv_project.Event.Store.{create_many, numbered}
use portfolio_cv_project.Event.Gathered.{grown}
use portfolio_cv_project.Farm.{Station, Tractor}
use portfolio_cv_project.Farm.Table.{Table}
use portfolio_cv_project.Farm.Tractors.{get_by_any_aruco_id}
use portfolio_cv_project.Video.{VideoFile}
use portfolio_cv_project.Video.Session.{Session, has_id, save, is_storable}
use portfolio_cv_project.Video.Service.{update_counters}
use portfolio_cv_project.Visit.{VisitSettings}
use portfolio_cv_project.Visit.Store.{World, Database}
use portfolio_cv_project.Visit.Process.{process_video_for_visits}
use portfolio_cv_project.Video.Retry.{Holds, find-save, update_row}
use portfolio_cv_project.Detect.Frame.{Point}
use portfolio_cv_project.Detect.Pipeline.{DetectionEvent}
use portfolio_cv_project.Recognize.{
  Stores, Cache, cached, looked_up, resolve, payload_of, build_payloads, aggregate_visits, roi_of,
  station_id, aggregated, persist, recognized, recognize_video,
}

abbrev pub id_of : Option Tractor → Option ℕ
id_of none = none
id_of (some t) = some t.id

-- The tractor of a marker, asked of the table.
abbrev pub tractor_of : Table Tractor → Option ℕ → Option ℕ
tractor_of tractors none = none
tractor_of tractors (some m) = id_of (get_by_any_aruco_id m tractors)

-- The payloads, with every marker asked anew.
abbrev pub payloads : Table Tractor → (ℕ → ℕ) → ℕ → ℕ → List DetectionEvent → List EventCreate
payloads tractors clock video_id n [] = []
payloads tractors clock video_id n (ev ∷ evs) =
    payload_of video_id (tractor_of tractors ev.aruco_id) (clock n) ev
    ∷ payloads tractors clock video_id (suc n) evs

-- What a cache holds is what the table holds.
abbrev pub IsTrue : Table Tractor → Cache → Type 0
IsTrue tractors d = (m i : ℕ) → cached m d ≡ some i → tractor_of tractors (some m) ≡ some i

resolve-tractor_of :
    (tractors : Table Tractor) (o : Option ℕ) (d : Cache)
    → IsTrue tractors d
    → ((resolve tractors o d).0 ≡ tractor_of tractors o) × IsTrue tractors (resolve tractors o d).1
unfolding resolve
resolve-tractor_of tractors none d h = (refl, h)
resolve-tractor_of tractors (some m) d h =
    go (cached m d) (get_by_any_aruco_id m tractors) refl refl
  where
    go :
        (hit : Option ℕ) (found : Option Tractor)
        → cached m d ≡ hit
        → get_by_any_aruco_id m tractors ≡ found
        → let r = elim hit as (λ _. Option ℕ × Cache) [
          | some i ↦ (some i, d)
          | none ↦ looked_up m d found
        ] in
          (r.0 ≡ id_of found) × IsTrue tractors r.1
    go (some i) found e k = (sym (subst (λ o. id_of o ≡ some i) k (h m i e)), h)
    go none none e k = (refl, h)
    go none (some t) e k = (refl, hits)
      where
        hits : IsTrue tractors ((m, t.id) ∷ d)
        hits n i e' = elim (Bool-cases (m == n)) [
          | inl same ↦
              let one : m ≡ n = ==→eq m n same in
              let found : get_by_any_aruco_id n tractors ≡ some t =
                subst (λ j. get_by_any_aruco_id j tractors ≡ some t) one k in
              let it : some t.id ≡ some i =
                subst (λ b. (if b then some t.id else cached n d) ≡ some i) same e' in
              rw found it
          | inr other ↦ h n i (subst (λ b. (if b then some t.id else cached n d) ≡ some i) other e')
        ]

build_payloads-payloads :
    (tractors : Table Tractor) (clock : ℕ → ℕ) (video_id n : ℕ) (evs : List DetectionEvent)
    (d : Cache)
    → IsTrue tractors d
    → build_payloads tractors clock video_id n evs d ≡ payloads tractors clock video_id n evs
unfolding build_payloads
build_payloads-payloads tractors clock video_id n [] d h = refl
build_payloads-payloads tractors clock video_id n (ev ∷ evs) d h =
    let (found, true_still) = resolve-tractor_of tractors ev.aruco_id d h in
    rw (found, build_payloads-payloads tractors clock video_id (suc n) evs _ true_still)

-- The row of a video with the three counters.
abbrev pub counted_row : ℕ → ℕ → ℕ → Session → VideoFile → VideoFile
counted_row frames triggers n s v = record v {
  frames_processed = frames;
  triggers_fired = triggers;
  events_found = n;
  updated_at = s.now;
}

abbrev pub counted_in : ℕ → ℕ → ℕ → VideoFile → Session → Session
counted_in frames triggers n v s = record s {
  rows = save (counted_row frames triggers n s v) s.rows;
}

update_counters-ok :
    (frames triggers n : ℕ) (s : Session) (v : VideoFile)
    → Holds v s.rows
    → is_storable v ≡ true
    → update_counters v.id frames triggers n s
      ≡ (ok (counted_row frames triggers n s v), counted_in frames triggers n v s)
unfolding update_counters
update_counters-ok frames triggers n s v =
    update_row
      (λ u. record u { frames_processed = frames; triggers_fired = triggers; events_found = n }) v s

aggregate_visits-found :
    (db : Database) (c : VisitSettings) (i station_id : ℕ) (e : Event) (es : List Event)
    (s : Session) (w : World) (v : VideoFile)
    → find (has_id i) s.rows ≡ some v
    → aggregate_visits db c i (some station_id) (e ∷ es) s w
      ≡ process_video_for_visits db c v.station_id (e ∷ es) w
unfolding aggregate_visits
aggregate_visits-found db c i station_id e es s w v h =
    ap
      (λ o. elim o as (λ _. Result World) [
        | none ↦ ok w
        | some u ↦ process_video_for_visits db c u.station_id (e ∷ es) w
      ])
      h

module _ (db : Database) (c : VisitSettings) (clock : ℕ → ℕ) where
  -- For a video of a station whose row is there and has a retry count, and whose worker reports at
  -- least one event: the counters go to the row; the new events are the reported ones in their order,
  -- under the next ids, each with the tractor that a lookup of its own marker finds, whatever markers
  -- came before it; the visits are what the state machine makes of just these events at the station
  -- of the row; and the answer is the three counters, or the exception of the state machine. Where the
  -- state machine returns after a rollback of its own, the counters and the new events are gone.
  pub recognize_video-events :
      (worker : Text → Option (List Point) → Result (List DetectionEvent × ℕ × ℕ)) (uri : Text)
      (station : Station) (st : Stores) (ev : DetectionEvent) (evs : List DetectionEvent)
      (frames triggers : ℕ) (v : VideoFile)
      → worker uri (roi_of (some station)) ≡ ok (ev ∷ evs, frames, triggers)
      → Holds v st.videos.rows
      → is_storable v ≡ true
      → let ps = payloads st.tractors clock v.id 0 (ev ∷ evs) in
        recognize_video db c clock worker v.id uri (some station) st
        ≡ aggregated
            (length (ev ∷ evs), frames, triggers)
            st
            (record st {
              videos = counted_in frames triggers (length (ev ∷ evs)) v st.videos;
              events = grown st.events ps;
            })
            (process_video_for_visits db c v.station_id (numbered st.events.next_id ps) st.visits)
  unfolding recognize_video create_many
  recognize_video-events worker uri station st ev evs frames triggers v worked there storable =
      let built = build_payloads-payloads st.tractors clock v.id 0 (ev ∷ evs) [] (λ m i e. cc) in
      let n = length (ev ∷ evs) in
      let read = find-save (counted_row frames triggers n st.videos v) v st.videos.rows there in
      ap (λ r. recognized db c clock v.id (some station) r st) worked
      ∙ ap (λ r. persist db c clock v.id (some station) (ev ∷ evs) frames triggers r st)
          (update_counters-ok frames triggers n st.videos v there storable)
      ∙ rw built (
          ap
            (aggregated (n, frames, triggers) st
              (record st {
                videos = counted_in frames triggers n v st.videos;
                events = grown st.events (payloads st.tractors clock v.id 0 (ev ∷ evs));
              }))
            (aggregate_visits-found db c v.id station.id _ _
              (counted_in frames triggers n v st.videos) st.visits
              (counted_row frames triggers n st.videos v) read))
