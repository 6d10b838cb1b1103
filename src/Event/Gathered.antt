-- ===== src/Event/Gathered.antt =====
-- All batches of one station gather under one sentinel: the events, in order, are those of the
-- batches that were written.
use portfolio_cv_project.Common.{
  append_nil, ℕ, ◌+◌, Bool, true, false, List, [], ◌∷◌, ◌++◌, none, some, length, length-append, ok,
  Text, ◌≡◌, refl, sym, ap, ◌∙◌, inl, inr, All, arith, Bool-cases, find,
}
use mathlib.Core.Path.{subst}
use portfolio_cv_project.Clock.{to_naive_utc}
use portfolio_cv_project.Event.{EventCreate}
use portfolio_cv_project.Event.Store.{Events, numbered}
use portfolio_cv_project.Event.Ingest.{EdgeBatch, Base, is_acceptable, post_ingest}
use portfolio_cv_project.Farm.{Station}
use portfolio_cv_project.Farm.Stations.{get_by_code}
use portfolio_cv_project.Video.{VideoFile}
use portfolio_cv_project.Video.Session.{has_id, has_hash}
use portfolio_cv_project.Video.Service.{
  Disk, answer, get_or_create_edge_sentinel, edge_sentinel_hash,
}
use portfolio_cv_project.Video.Sentinel.{
  covered, call, IsSentinel, call_extends, call_creates, call_answers, call_answers_first,
}
use portfolio_cv_project.Event.Feed.{
  is_late, is_effective, window, hull, hull_of, payloads, all_payloads, numbered-append, add_zero,
  post_all, IsReady, post_refused, kept, post_written,
}

-- The rows after some more.
abbrev pub grown : Events → List EventCreate → Events
grown t ps = record { rows = t.rows ++ numbered t.next_id ps; next_id = t.next_id + length ps }

append_assoc : {A : Type 0} (xs ys zs : List A) → (xs ++ ys) ++ zs ≡ xs ++ (ys ++ zs)
append_assoc [] ys zs = refl
append_assoc (x ∷ xs) ys zs = ap (λ l. x ∷ l) (append_assoc xs ys zs)

grown_twice : (t : Events) (ps qs : List EventCreate) → grown (grown t ps) qs ≡ grown t (ps ++ qs)
grown_twice t ps qs =
    let sum : (t.next_id + length ps) + length qs ≡ t.next_id + length (ps ++ qs) =
      omega (arith, length-append ps qs) in
    rw (
      numbered-append t.next_id ps qs,
      append_assoc t.rows (numbered t.next_id ps) (numbered (t.next_id + length ps) qs),
      sum,
    )

grown_nil : (t : Events) → grown t [] ≡ t
grown_nil t = rw (append_nil t.rows, add_zero t.next_id)

hull_idle : (tu : ℕ × ℕ) (p : EdgeBatch) → is_effective p ≡ false → hull tu p ≡ tu
hull_idle tu p h = elim (Bool-cases (is_acceptable p)) [
  | inl e ↦ let late : is_late p ≡ true = ground arith in rw (e, late)
  | inr e ↦ rw e
]

hull_busy :
    (tu : ℕ × ℕ) (i : ℕ) (p : EdgeBatch)
    → is_effective p ≡ true
    → hull tu p ≡ covered tu (window i p)
hull_busy tu i p h = let e : is_acceptable p ≡ true = ground arith in rw e

module _ (disk : Disk) where
  -- The base after a request, in which only these two tables may differ.
  step_written :
      (p : EdgeBatch) (station : Station) (k : ℕ) (tu : ℕ × ℕ) (b : Base) (v : VideoFile)
      (made : Bool)
      → is_effective p ≡ true
      → get_by_code p.station_code b.stations ≡ some station
      → (get_or_create_edge_sentinel disk station.id p.station_code p.started_at p.ended_at
          b.videos).0
        ≡ ok (answer (v, made))
      → v.id ≡ k
      → IsSentinel disk p.station_code k tu
          (call disk p.station_code (window station.id p) b.videos)
      → IsReady disk p.station_code station k tu (post_ingest disk p b).1
        × ((post_ingest disk p b).1.events ≡ grown b.events (payloads k p))
  unfolding kept
  step_written p station k tu b v made busy known answered id sentinel =
      let ran = post_written disk p station b v made busy known answered in
      (
        subst (IsReady disk p.station_code station k tu) (sym (ap (λ r. r.1) ran))
            (record { quiet = refl; known = known; sentinel = sentinel }),
        ap (λ r. r.1.events) ran ∙ rw (id, busy) refl,
      )

  pub step :
      (p : EdgeBatch) (station : Station) (k : ℕ) (tu : ℕ × ℕ) (b : Base)
      → IsReady disk p.station_code station k tu b
      → IsReady disk p.station_code station k (hull tu p) (post_ingest disk p b).1
        × ((post_ingest disk p b).1.events ≡ grown b.events (payloads k p))
  step p station k tu b ready = elim (Bool-cases (is_effective p)) [
    | inl busy ↦
        let valid : is_late p ≡ false = ground arith in
        let (v, answered, id) =
          call_answers disk p.station_code k tu (window station.id p) b.videos ready.sentinel
            valid in
        step_written p station k (hull tu p) b v false busy ready.known answered id (
          subst
            (λ uv.
              IsSentinel disk p.station_code k uv
                (call disk p.station_code (window station.id p) b.videos))
            (sym (hull_busy tu station.id p busy))
            (call_extends disk p.station_code k tu (window station.id p) b.videos ready.sentinel))
    | inr idle ↦
        let ran = post_refused disk p station b idle ready.known ready.quiet in
        (
          subst (IsReady disk p.station_code station k (hull tu p)) (sym (ap (λ r. r.1) ran)) (
              subst (λ uv. IsReady disk p.station_code station k uv b) (sym (hull_idle tu p idle))
                ready),
          ap (λ r. r.1.events) ran ∙ rw idle (sym (grown_nil b.events)),
        )
  ]

  first_step :
      (p : EdgeBatch) (station : Station) (b : Base)
      → is_effective p ≡ true
      → get_by_code p.station_code b.stations ≡ some station
      → find (has_hash (edge_sentinel_hash disk p.station_code)) b.videos.rows ≡ none
      → find (has_id b.videos.next_id) b.videos.rows ≡ none
      → IsReady disk p.station_code station b.videos.next_id
          (to_naive_utc p.started_at, to_naive_utc p.ended_at)
          (post_ingest disk p b).1
        × ((post_ingest disk p b).1.events ≡ grown b.events (payloads b.videos.next_id p))
  first_step p station b busy known absent fresh_id =
      let valid : is_late p ≡ false = ground arith in
      let w = window station.id p in
      let (v, answered, id) = call_answers_first disk p.station_code w b.videos valid absent in
      step_written p station b.videos.next_id (to_naive_utc p.started_at, to_naive_utc p.ended_at) b
        v true busy known answered id
        (call_creates disk p.station_code w b.videos valid absent fresh_id)

  post_all-IsReady :
      (code : Text) (station : Station) (k : ℕ) (tu : ℕ × ℕ) (ps : List EdgeBatch) (b : Base)
      → All (λ p. p.station_code ≡ code) ps
      → IsReady disk code station k tu b
      → IsReady disk code station k (hull_of tu ps) (post_all disk ps b)
        × ((post_all disk ps b).events ≡ grown b.events (all_payloads k ps))
  unfolding post_all
  post_all-IsReady code station k tu [] b same ready = (ready, sym (grown_nil b.events))
  post_all-IsReady code station k tu (p ∷ ps) b same ready =
      let (ready', added) =
        subst
          (λ c.
            IsReady disk c station k tu b
            → IsReady disk c station k (hull tu p) (post_ingest disk p b).1
              × ((post_ingest disk p b).1.events ≡ grown b.events (payloads k p)))
          same.0 (step p station k tu b) ready in
      let (last, rest) =
        post_all-IsReady code station k (hull tu p) ps (post_ingest disk p b).1 same.1 ready' in
      (last, rest ∙ rw added (grown_twice b.events (payloads k p) (all_payloads k ps)))

  -- From a base in which the station is known and has no sentinel, and the next video id is unused:
  -- after a batch that is within the bounds and has a window, and any further batches of the station,
  -- all of them find one sentinel, whose window is the hull of the written batches' windows, and the
  -- events are those before, then those of the written batches in the order of arrival, under
  -- consecutive ids, each pointing at the sentinel, with no tractor, and timed by its batch's end.
  pub post_all-gathers :
      (code : Text) (station : Station) (p : EdgeBatch) (ps : List EdgeBatch) (b : Base)
      → All (λ q. q.station_code ≡ code) (p ∷ ps)
      → is_effective p ≡ true
      → get_by_code code b.stations ≡ some station
      → find (has_hash (edge_sentinel_hash disk code)) b.videos.rows ≡ none
      → find (has_id b.videos.next_id) b.videos.rows ≡ none
      → IsReady disk code station b.videos.next_id
          (hull_of (to_naive_utc p.started_at, to_naive_utc p.ended_at) ps)
          (post_all disk (p ∷ ps) b)
        × ((post_all disk (p ∷ ps) b).events
            ≡ grown b.events (all_payloads b.videos.next_id (p ∷ ps)))
  unfolding post_all
  post_all-gathers code station p ps b same busy known absent fresh_id =
      let (ready, added) =
        subst
          (λ c.
            get_by_code c b.stations ≡ some station
            → find (has_hash (edge_sentinel_hash disk c)) b.videos.rows ≡ none
            → IsReady disk c station b.videos.next_id
                (to_naive_utc p.started_at, to_naive_utc p.ended_at) (post_ingest disk p b).1
              × ((post_ingest disk p b).1.events ≡ grown b.events (payloads b.videos.next_id p)))
          same.0 (λ known absent. first_step p station b busy known absent fresh_id) known absent in
      let (last, rest) =
        post_all-IsReady code station b.videos.next_id _ ps (post_ingest disk p b).1 same.1 ready in
      (
        last,
        rest
            ∙ rw added (
                grown_twice b.events (payloads b.videos.next_id p)
                  (all_payloads b.videos.next_id ps)),
      )
