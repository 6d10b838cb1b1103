-- ===== src/Event/Feed.antt =====
-- Batches of one station through the endpoint.
use portfolio_cv_project.Common.{
  append_nil, ℕ, suc, ◌+◌, leb, Bool, true, false, not, ◌&&◌, List, [], ◌∷◌, ◌++◌, map, none, some,
  if◌then◌else◌, length, length-map, ok, Text, ◌≡◌, refl, sym, ap, ◌∙◌, inl, inr, arith, Bool-cases,
}
use portfolio_cv_project.Clock.{to_naive_utc}
use portfolio_cv_project.Event.{EventCreate}
use portfolio_cv_project.Event.Store.{create_many, numbered}
use portfolio_cv_project.Event.Ingest.{
  EdgeEvent, EdgeBatch, EdgeBatchOut, Reply, replied, http, Base, is_acceptable, event_of,
  with_sentinel, ingest_edge_batch, end_session, post_ingest,
}
use portfolio_cv_project.Farm.{Station}
use portfolio_cv_project.Farm.Stations.{get_by_code}
use portfolio_cv_project.Video.{VideoFile}
use portfolio_cv_project.Video.Session.{Session}
use portfolio_cv_project.Video.Service.{Disk, answer, get_or_create_edge_sentinel}
use portfolio_cv_project.Video.Sentinel.{Window, covered, call, IsSentinel, call_late}

abbrev pub is_late : EdgeBatch → Bool
is_late p = leb (to_naive_utc p.ended_at) (to_naive_utc p.started_at)

-- Whether the batch is written.
abbrev pub is_effective : EdgeBatch → Bool
is_effective p = is_acceptable p && not (is_late p)

abbrev pub window : ℕ → EdgeBatch → Window
window station_id p = record { station_id = station_id; started = p.started_at; ended = p.ended_at }

abbrev pub hull : ℕ × ℕ → EdgeBatch → ℕ × ℕ
hull tu p = if is_acceptable p then covered tu (window 0 p) else tu

abbrev pub hull_of : ℕ × ℕ → List EdgeBatch → ℕ × ℕ
hull_of tu [] = tu
hull_of tu (p ∷ ps) = hull_of (hull tu p) ps

-- The events of the written batches, in the order of their arrival.
abbrev pub payloads : ℕ → EdgeBatch → List EventCreate
payloads k p = if is_effective p then map (event_of k p) p.events else []

abbrev pub all_payloads : ℕ → List EdgeBatch → List EventCreate
all_payloads k [] = []
all_payloads k (p ∷ ps) = payloads k p ++ all_payloads k ps

pub add_zero : (n : ℕ) → n + 0 ≡ n
add_zero n = omega arith

pub numbered-append :
    (i : ℕ) (ps qs : List EventCreate)
    → numbered i (ps ++ qs) ≡ numbered i ps ++ numbered (i + length ps) qs
numbered-append i [] qs = let e : i ≡ i + 0 = omega arith in rw (sym e)
numbered-append i (p ∷ ps) qs =
    let e : i + suc (length ps) ≡ suc i + length ps = omega arith in
    rw (numbered-append (suc i) ps qs, e)

length-numbered : (i : ℕ) (ps : List EventCreate) → length (numbered i ps) ≡ length ps
length-numbered i [] = refl
length-numbered i (p ∷ ps) = ap suc (length-numbered (suc i) ps)

module _ (disk : Disk) where
  unfoldable pub post_all : List EdgeBatch → Base → Base
  post_all [] b = b
  post_all (p ∷ ps) b = post_all ps (post_ingest disk p b).1

  -- Between two requests: what the session sees is committed, the station is known, and its sentinel
  -- covers the window.
  pub record IsReady (code : Text) (station : Station) (k : ℕ) (tu : ℕ × ℕ) (b : Base)
      : Type 0 where
    pub quiet : b.videos.rows ≡ b.videos.committed
    pub known : get_by_code code b.stations ≡ some station
    pub sentinel : IsSentinel disk code k tu b.videos

  -- The answer to a written batch.
  abbrev pub reply : ℕ → EdgeBatch → Bool → EdgeBatchOut
  reply k p made = record {
    video_file_id = k;
    events_created = length p.events;
    sentinel_created = made;
  }

  abbrev pub with_events : List EventCreate → Session → Base → Base
  with_events ps s b = record b {
    videos = s;
    events = record {
      rows = b.events.rows ++ numbered b.events.next_id ps;
      next_id = b.events.next_id + length ps;
    };
  }

  -- With a sentinel at hand, the handler answers its id and the number of the events, and adds them.
  with_sentinel-ok :
      (p : EdgeBatch) (b : Base) (v : VideoFile) (made : Bool) (s : Session)
      → with_sentinel p b (ok (answer (v, made)), s)
        ≡ (replied (reply v.id p made), with_events (map (event_of v.id p) p.events) s b)
  unfolding create_many
  with_sentinel-ok p b v made s = go p.events
    where
      go :
          (es : List EdgeEvent)
          → elim es as (λ _. Reply EdgeBatchOut × Base) [
            | [] ↦ (
              replied
                  (record { video_file_id = v.id; events_created = 0; sentinel_created = made }),
              record b { videos = s },
            )
            | _ ∷ _ ↦ (
              replied (record {
                video_file_id = v.id;
                events_created = length (numbered b.events.next_id (map (event_of v.id p) es));
                sentinel_created = made;
              }),
              with_events (map (event_of v.id p) es) s b,
            )
          ]
            ≡ (
              replied (record {
                video_file_id = v.id;
                events_created = length es;
                sentinel_created = made;
              }),
              with_events (map (event_of v.id p) es) s b,
            )
      go [] = rw (append_nil b.events.rows, add_zero b.events.next_id)
      go (e ∷ es) = rw (
        length-numbered (suc b.events.next_id) (map (event_of v.id p) es),
        length-map (event_of v.id p) es,
      )

  -- The handler at a known station.
  ingest-known :
      (p : EdgeBatch) (station : Station) (b : Base)
      → get_by_code p.station_code b.stations ≡ some station
      → ingest_edge_batch disk p b
        ≡ with_sentinel p b (
            get_or_create_edge_sentinel disk station.id p.station_code p.started_at p.ended_at
              b.videos)
  unfolding ingest_edge_batch
  ingest-known p station b known =
      ap
        (λ o. elim o as (λ _. Reply EdgeBatchOut × Base) [
          | none ↦ (http 404, b)
          | some u ↦ with_sentinel p b (
              get_or_create_edge_sentinel disk u.id p.station_code p.started_at p.ended_at b.videos)
        ])
        known

  -- A batch that is out of bounds or has no window is refused, and changes nothing.
  pub post_refused :
      (p : EdgeBatch) (station : Station) (b : Base)
      → is_effective p ≡ false
      → get_by_code p.station_code b.stations ≡ some station
      → b.videos.rows ≡ b.videos.committed
      → post_ingest disk p b ≡ (http 422, b)
  unfolding post_ingest
  post_refused p station b idle known quiet = elim (Bool-cases (is_acceptable p)) [
    | inl e ↦
        let late : is_late p ≡ true = ground arith in
        rw e (
          ap (end_session b) (
            ingest-known p station b known
            ∙ ap (with_sentinel p b)
                (call_late disk p.station_code (window station.id p) b.videos late))
          ∙ rw (sym quiet) refl)
    | inr e ↦ rw e
  ]

  unfoldable pub kept : Session → Session
  kept s = record s { committed = s.rows }

  pub post_written :
      (p : EdgeBatch) (station : Station) (b : Base) (v : VideoFile) (made : Bool)
      → is_effective p ≡ true
      → get_by_code p.station_code b.stations ≡ some station
      → (get_or_create_edge_sentinel disk station.id p.station_code p.started_at p.ended_at
          b.videos).0
        ≡ ok (answer (v, made))
      → post_ingest disk p b ≡ (
        replied (reply v.id p made),
        with_events
            (map (event_of v.id p) p.events)
            (kept (call disk p.station_code (window station.id p) b.videos))
            b,
      )
  unfolding post_ingest kept
  post_written p station b v made busy known answered =
      let e : is_acceptable p ≡ true = ground arith in
      rw e (
        ap (end_session b) (
          ingest-known p station b known
          ∙ ap (λ r. with_sentinel p b (r, s)) answered
          ∙ with_sentinel-ok p b v made s))
    where
      s : Session
      s = call disk p.station_code (window station.id p) b.videos
