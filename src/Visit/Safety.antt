-- ===== src/Visit/Safety.antt =====
-- `process_video_for_visits` keeps the table valid: the induction over its two loops.
use portfolio_cv_project.Common.{
  ℕ, ◌≡◌, refl, sym, ◌⊎◌, inl, inr, true, false, List, [], ◌∷◌, Option, none, some, if◌then◌else◌,
  arith, Bool-cases, find, ok, >>=-ok, set_item, get_item,
}
use mathlib.Core.Path.{subst}
use portfolio_cv_project.Clock.{DateTime}
use portfolio_cv_project.Event.{Event}
use portfolio_cv_project.Visit.{
  VisitState, absent, entering, present, leaving, closed, Visit, is_open, VisitSettings,
}
use portfolio_cv_project.Visit.Machine.{Effect, apply_state_transition, maybe_close_visit}
use portfolio_cv_project.Visit.Store.{World, Database, has_id, load, store, commit}
use portfolio_cv_project.Visit.Exit.{maybe_close_visit-closed_iff}
use portfolio_cv_project.Visit.Rows.{IsKept, Holds, All-find, id_of_find, find-save}
use portfolio_cv_project.Visit.Process.{
  Loop, Pair, held, close_stale, advance, process_sighting, process_event, process_events, settle,
  start, run_sorted, process_video_for_visits, flat, sort_by_frame, last_time,
}
use portfolio_cv_project.Visit.Times.{
  Times, IsWellFormed, apply-IsKept, apply-IsWellFormed, close-IsKept, close-IsWellFormed,
}
use portfolio_cv_project.Visit.Invariant.{IsValid, store-IsValid, create-IsValid}

pub load-Holds : (i : ℕ) (w : World) (v : Visit) → load i w ≡ ok v → Holds v w.rows
unfolding load
load-Holds i w v e =
    let found : find (has_id i) w.rows ≡ some v = ground arith in
    let same : v.id ≡ i = id_of_find i w.rows v found in
    subst (λ j. find (has_id j) w.rows ≡ some v) (sym same) found

abbrev pub AllHeld : Option Visit → World → Type 0
AllHeld none w = Unit
AllHeld (some v) w = Holds v w.rows

pub held-AllHeld : (o : Option ℕ) (w : World) (r : Option Visit) → held o w ≡ ok r → AllHeld r w
unfolding held
held-AllHeld o w none e = tt
held-AllHeld none w (some v) e = cc
held-AllHeld (some i) w (some v) e =
    let (u, loaded, same) = >>=-ok (load i w) (λ x. ok (some x)) e in
    let p : u ≡ v = cc in load-Holds i w v (rw p at loaded)

-- The effect of a LEAVING visit's exit check, by which a stale visit is closed.
abbrev pub stale_effect : VisitSettings → Visit → DateTime → Effect
stale_effect c v t = maybe_close_visit c (record v { state = leaving }) t

pub close_stale-cases :
    (c : VisitSettings) (pair : Pair) (t : DateTime) (v : Visit) (l l' : Loop) (o : Option Visit)
    → close_stale c pair t (some v) l ≡ ok (o, l')
    → ((o ≡ some v) × (l' ≡ l))
      ⊎ ((v.state ≡ present)
          × (o ≡ some (stale_effect c v t).visit)
          × (l' ≡ record l {
            world = store (stale_effect c v t) l.world;
            last_seen = set_item pair (some t) l.last_seen;
          }))
unfolding close_stale
close_stale-cases c pair t v l l' o e = ground arith

leaving-IsWellFormed :
    (s : VisitState) (a d : Option DateTime) → s ≡ present → Times s a d → Times leaving a d
leaving-IsWellFormed present (some a) none e h = tt
leaving-IsWellFormed leaving a d e h = h
leaving-IsWellFormed entering a d e h = cc
leaving-IsWellFormed closed a d e h = cc
leaving-IsWellFormed absent a d e h = cc
leaving-IsWellFormed present a d e h = absurd h

pub stale_effect-IsKept :
    (c : VisitSettings) (v : Visit) (t : DateTime)
    → v.state ≡ present
    → IsKept v (stale_effect c v t).visit
stale_effect-IsKept c v t e =
    let k = close-IsKept c (record v { state = leaving }) t in
    record {
      same_id = k.same_id;
      same_tractor = k.same_tractor;
      same_station = k.same_station;
      not_reopened = λ _. rw e;
    }

-- A row that is read, changed and stored: the table stays valid, and the changed row is in it.
pub store-Holds :
    (e : Effect) (v : Visit) (w : World)
    → Holds v w.rows
    → IsKept v e.visit
    → e.deleted ≡ false
    → Holds e.visit (store e w).rows
unfolding store
store-Holds e v w h k d = rw d (find-save e.visit w.rows v (rw k.same_id h))

pub close_stale-IsValid :
    (c : VisitSettings) (pair : Pair) (t : DateTime) (o : Option Visit) (l l' : Loop)
    (o' : Option Visit)
    → AllHeld o l.world
    → IsValid l.world
    → close_stale c pair t o l ≡ ok (o', l')
    → IsValid l'.world × AllHeld o' l'.world
unfolding close_stale
close_stale-IsValid c pair t none l l' o' h k e =
    let p : o' ≡ none = ground arith in let q : l' ≡ l = ground arith in rw (p, q) (k, tt)
close_stale-IsValid c pair t (some v) l l' o' h k e =
    elim (close_stale-cases c pair t v l l' o' e) [
      | inl (p, q) ↦ rw (p, q) (k, h)
      | inr (s, p, q) ↦
          let f = stale_effect c v t in
          let kept = stale_effect-IsKept c v t s in
          let formed =
            close-IsWellFormed c (record v { state = leaving }) t
              (leaving-IsWellFormed v.state v.arrived_at v.departed_at s
                (All-find IsWellFormed v.id l.world.rows h k.now.formed)) in
          let here =
            (maybe_close_visit-closed_iff c (record v { state = leaving }) t (inr refl)).3 in
          rw (p, q)
            (
              store-IsValid f v l.world (rw kept.same_id h) kept formed k,
              store-Holds f v l.world h kept here,
            )
    ]

pub advance-IsValid :
    (db : Database) (c : VisitSettings) (pair : Pair) (t : DateTime) (i : Option ℕ)
    (o : Option Visit) (l : Loop)
    → AllHeld o l.world
    → IsValid l.world
    → IsValid (advance db c pair t i o l).world
unfolding advance
advance-IsValid db c pair t i none l h k = create-IsValid db pair.0 pair.1 t i l.world k
advance-IsValid db c pair t i (some v) l h k = elim (Bool-cases (is_open v.state)) [
  | inl a ↦
      let kept = apply-IsKept c v t i in
      rw a (
        store-IsValid (apply_state_transition c v t i) v l.world (rw kept.same_id h) kept
          (apply-IsWellFormed c v t i (All-find IsWellFormed v.id l.world.rows h k.now.formed)) k)
  | inr a ↦ rw a (create-IsValid db pair.0 pair.1 t i l.world k)
]

process_sighting-IsValid :
    (db : Database) (c : VisitSettings) (station_id : ℕ) (event : Event) (tractor_id : ℕ)
    (l l' : Loop)
    → IsValid l.world
    → process_sighting db c station_id event tractor_id l ≡ ok l'
    → IsValid l'.world
unfolding process_sighting
process_sighting-IsValid db c station_id event tractor_id l l' k e =
    let pair : Pair = (tractor_id, station_id) in
    let t = event.wall_clock_at in
    let (o, read, rest) = >>=-ok (held (flat (get_item pair l.active)) l.world) _ e in
    let (s, stale, last) = >>=-ok (close_stale c pair t o l) _ rest in
    let (valid, here) =
      close_stale-IsValid c pair t o l s.1 s.0 (held-AllHeld _ l.world o read) k stale in
    let p : advance db c pair t event.id s.0 s.1 ≡ l' = cc in
    subst (λ x. IsValid x.world) p (advance-IsValid db c pair t event.id s.0 s.1 here valid)

-- A round either skips the event or processes a sighting inside the ROI of a known tractor.
pub process_event-cases :
    (db : Database) (c : VisitSettings) (station_id : ℕ) (event : Event) (l l' : Loop)
    → process_event db c station_id event l ≡ ok l'
    → (l' ≡ l)
      ⊎ ((tractor_id : ℕ) × (event.tractor_id ≡ some tractor_id)
          × (event.inside_roi ≡ true)
          × (process_sighting db c station_id event tractor_id l ≡ ok l'))
unfolding process_event
process_event-cases db c station_id event l l' e = ground arith

process_event-IsValid :
    (db : Database) (c : VisitSettings) (station_id : ℕ) (event : Event) (l l' : Loop)
    → IsValid l.world
    → process_event db c station_id event l ≡ ok l'
    → IsValid l'.world
process_event-IsValid db c station_id event l l' k e =
    elim (process_event-cases db c station_id event l l' e) [
      | inl same ↦ rw same k
      | inr (t, _, _, p) ↦ process_sighting-IsValid db c station_id event t l l' k p
    ]

process_events-IsValid :
    (db : Database) (c : VisitSettings) (station_id : ℕ) (es : List Event) (l l' : Loop)
    → IsValid l.world
    → process_events db c station_id es l ≡ ok l'
    → IsValid l'.world
unfolding process_events
process_events-IsValid db c station_id [] l l' k e = let p : l ≡ l' = cc in rw (← p) k
process_events-IsValid db c station_id (x ∷ es) l l' k e =
    let (m, first, rest) = >>=-ok (process_event db c station_id x l) _ e in
    process_events-IsValid db c station_id es m l'
      (process_event-IsValid db c station_id x l m k first) rest

settle_one-IsValid :
    (c : VisitSettings) (t : DateTime) (v : Visit) (w : World)
    → Holds v w.rows
    → IsValid w
    → IsValid (if is_open v.state then store (maybe_close_visit c v t) w else w)
settle_one-IsValid c t v w h k = elim (Bool-cases (is_open v.state)) [
  | inl a ↦
      let kept = close-IsKept c v t in
      rw a (
        store-IsValid (maybe_close_visit c v t) v w (rw kept.same_id h) kept
          (close-IsWellFormed c v t (All-find IsWellFormed v.id w.rows h k.now.formed)) k)
  | inr a ↦ rw a k
]

settle-IsValid :
    (c : VisitSettings) (t : DateTime) (d : List (Pair × Option ℕ)) (w w' : World)
    → IsValid w
    → settle c t d w ≡ ok w'
    → IsValid w'
unfolding settle
settle-IsValid c t [] w w' k e = let p : w ≡ w' = cc in rw (← p) k
settle-IsValid c t ((pair, none) ∷ d) w w' k e = cc
settle-IsValid c t ((pair, some i) ∷ d) w w' k e =
    let (v, read, rest) = >>=-ok (load i w) _ e in
    settle-IsValid c t d _ w' (settle_one-IsValid c t v w (load-Holds i w v read) k) rest

run_sorted-IsValid :
    (db : Database) (c : VisitSettings) (station_id : Option ℕ) (es : List Event) (w w' : World)
    → IsValid w
    → run_sorted db c station_id es w ≡ ok w'
    → IsValid w'
unfolding run_sorted start commit
run_sorted-IsValid db c station_id [] w w' k e = let p : w ≡ w' = cc in rw (← p) k
run_sorted-IsValid db c none (x ∷ es) w w' k e = let p : w ≡ w' = cc in rw (← p) k
run_sorted-IsValid db c (some s) (x ∷ es) w w' k e =
    let (l, looped, rest) = >>=-ok (process_events db c s (x ∷ es) (start s w)) _ e in
    let (u, settled, done) =
      >>=-ok (settle c (last_time x.wall_clock_at es) l.active l.world) _ rest in
    let valid =
      settle-IsValid c _ l.active l.world u
        (process_events-IsValid db c s (x ∷ es) (start s w) l k looped) settled in
    let p : commit u ≡ w' = cc in
    subst IsValid p (record {
      now = valid.now;
      before = valid.now;
      fresh = valid.fresh;
      fresh_before = valid.fresh;
    })

-- However the events of a video come, and whatever the database refuses on the way, a run that
-- returns leaves the table valid, in the session and as committed: every row has the times of its
-- state, and no tractor has two open visits at one station.
pub process_video_for_visits-IsValid :
    (db : Database) (c : VisitSettings) (station_id : Option ℕ) (events : List Event) (w w' : World)
    → IsValid w
    → process_video_for_visits db c station_id events w ≡ ok w'
    → IsValid w'
unfolding process_video_for_visits
process_video_for_visits-IsValid db c station_id events w w' =
    run_sorted-IsValid db c station_id (sort_by_frame events) w w'
