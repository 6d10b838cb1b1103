-- ===== src/Visit/Process.antt =====
-- `process_video_for_visits` and `_create_or_get_open_visit` of src/services/visit_service.py.
-- `active_visits` maps a pair to the id of its visit, or to None where no row could be made.
use portfolio_cv_project.Common.{
  ℕ, ℤ, pos, reaches, leb, List, [], ◌∷◌, ◌++◌, Option, none, some, if◌then◌else◌, get_item,
  set_item, Result, ok, raise, ◌>>=◌, key_error, type_error, attribute_error,
}
use portfolio_cv_project.Clock.{DateTime, subtract}
use portfolio_cv_project.Event.{Event}
use portfolio_cv_project.Visit.{entering, present, leaving, is_open, Visit, VisitSettings}
use portfolio_cv_project.Visit.Machine.{status_change, apply_state_transition, maybe_close_visit}
use portfolio_cv_project.Visit.Store.{
  World, Database, list_open_for_station, get_open_for_pair, load, store, flush_new, rollback,
  commit,
}

abbrev pub Pair : Type 0
Pair = ℕ × ℕ

-- The loop's variables: the session, `active_visits` and `last_seen`.
pub record Loop : Type 0 where
  pub world : World
  pub active : List (Pair × Option ℕ)
  pub last_seen : List (Pair × Option DateTime)

abbrev pub new_visit : Database → ℕ → ℕ → DateTime → Option ℕ → ℕ → Visit
new_visit db tractor_id station_id frame_time event_id i = record {
  id = i;
  tractor_id = tractor_id;
  station_id = station_id;
  state = entering;
  arrived_at = none;
  departed_at = none;
  last_seen_at = some frame_time;
  entry_event_id = event_id;
  exit_event_id = none;
  last_event_id = event_id;
  entry_seen_seconds = pos 0;
  created_at = some db.current_timestamp;
}

abbrev pub visit_id : Option Visit → Option ℕ
visit_id none = none
visit_id (some v) = some v.id

-- The `except IntegrityError` branch: everything pending is lost, then the pair's open row is
-- looked up.
unfoldable pub adopt : ℕ → ℕ → World → World × Option ℕ
adopt tractor_id station_id w =
    let w' = rollback w in (w', visit_id (get_open_for_pair tractor_id station_id w'.rows))

unfoldable pub create_or_get_open_visit :
    Database → ℕ → ℕ → DateTime → Option ℕ → World → World × Option ℕ
create_or_get_open_visit db tractor_id station_id frame_time event_id w =
    let v = new_visit db tractor_id station_id frame_time event_id w.next_id in
    elim (flush_new db v w) [
      | ok w' ↦ (record w' { published = w'.published ++ status_change v event_id ∷ [] }, some v.id)
      | raise e ↦ adopt tractor_id station_id w
    ]

-- `active_visits.get(pair)`, read as an object.
unfoldable pub held : Option ℕ → World → Result (Option Visit)
held none w = ok none
held (some i) w = do v ← load i w; ok (some v)

abbrev pub flat {ℓ} : {A : Type ℓ} → Option (Option A) → Option A
flat none = none
flat (some o) = o

-- `frame_time - last_seen[pair]`.
unfoldable pub gap_since : DateTime → Option (Option DateTime) → Result ℤ
gap_since frame_time none = raise key_error
gap_since frame_time (some none) = raise type_error
gap_since frame_time (some (some seen)) = subtract frame_time seen

-- The first `if` of the loop body: a PRESENT visit that has gone quiet becomes LEAVING, and is closed
-- if it has been quiet for long enough. It returns the visit as it then is.
unfoldable pub close_stale :
    VisitSettings → Pair → DateTime → Option Visit → Loop → Result (Option Visit × Loop)
close_stale c pair frame_time none l = ok (none, l)
close_stale c pair frame_time (some v) l = elim v.state [
  | present ↦ do
    gap ← gap_since frame_time (get_item pair l.last_seen)
    let e = maybe_close_visit c (record v { state = leaving }) frame_time
    if reaches gap c.exit_confirm_seconds
        then ok (
          some e.visit,
          record l {
            world = store e l.world;
            last_seen = set_item pair (some frame_time) l.last_seen;
          },
        )
        else ok (some v, l)
  | _ ↦ ok (some v, l)
]

-- The second `if` of the loop body.
unfoldable pub advance :
    Database → VisitSettings → Pair → DateTime → Option ℕ → Option Visit → Loop → Loop
advance db c pair frame_time event_id o l =
    let seen = set_item pair (some frame_time) l.last_seen in
    elim o [
      | none ↦
          let (w, made) = create_or_get_open_visit db pair.0 pair.1 frame_time event_id l.world in
          record { world = w; active = set_item pair made l.active; last_seen = seen }
      | some v ↦
          let (w, made) = create_or_get_open_visit db pair.0 pair.1 frame_time event_id l.world in
          let e = apply_state_transition c v frame_time event_id in
          if is_open v.state
          then record l { world = store e l.world; last_seen = seen }
          else record { world = w; active = set_item pair made l.active; last_seen = seen }
    ]

unfoldable pub process_sighting : Database → VisitSettings → ℕ → Event → ℕ → Loop → Result Loop
process_sighting db c station_id event tractor_id l =
    let pair : Pair = (tractor_id, station_id) in
    do
      o ← held (flat (get_item pair l.active)) l.world
      (o', l') ← close_stale c pair event.wall_clock_at o l
      ok (advance db c pair event.wall_clock_at event.id o' l')

-- One round of the loop: an unknown tractor or a marker outside the ROI is skipped.
unfoldable pub process_event : Database → VisitSettings → ℕ → Event → Loop → Result Loop
process_event db c station_id event l = elim event.tractor_id [
  | none ↦ ok l
  | some tractor_id ↦
      if event.inside_roi then process_sighting db c station_id event tractor_id l else ok l
]

unfoldable pub process_events : Database → VisitSettings → ℕ → List Event → Loop → Result Loop
process_events db c station_id [] l = ok l
process_events db c station_id (e ∷ es) l = do
  l' ← process_event db c station_id e l
  process_events db c station_id es l'

-- The loop after it, over `active_visits.values()`; None has no attribute `state`.
unfoldable pub settle : VisitSettings → DateTime → List (Pair × Option ℕ) → World → Result World
settle c final_time [] w = ok w
settle c final_time ((pair, none) ∷ d) w = raise attribute_error
settle c final_time ((pair, some i) ∷ d) w = do
  v ← load i w
  let w' = if is_open v.state then store (maybe_close_visit c v final_time) w else w
  settle c final_time d w'

-- `sorted(events, key=lambda e: e.frame_number)`, which is stable.
abbrev pub insert_by_frame : Event → List Event → List Event
insert_by_frame e [] = e ∷ []
insert_by_frame e (f ∷ fs) =
    if leb e.frame_number f.frame_number then e ∷ f ∷ fs else f ∷ insert_by_frame e fs

unfoldable pub sort_by_frame : List Event → List Event
sort_by_frame [] = []
sort_by_frame (e ∷ es) = insert_by_frame e (sort_by_frame es)

abbrev pub last_time : DateTime → List Event → DateTime
last_time t [] = t
last_time t (e ∷ es) = last_time e.wall_clock_at es

abbrev pub row_pair : Visit → Pair
row_pair v = (v.tractor_id, v.station_id)

-- The dicts that the loop starts from, in the order of the rows.
abbrev pub index_active : List Visit → List (Pair × Option ℕ) → List (Pair × Option ℕ)
index_active [] d = d
index_active (v ∷ vs) d = index_active vs (set_item (row_pair v) (some v.id) d)

abbrev pub index_seen : List Visit → List (Pair × Option DateTime) → List (Pair × Option DateTime)
index_seen [] d = d
index_seen (v ∷ vs) d = index_seen vs (set_item (row_pair v) v.last_seen_at d)

unfoldable pub start : ℕ → World → Loop
start station_id w =
    let rows = list_open_for_station station_id w.rows in
    record { world = w; active = index_active rows []; last_seen = index_seen rows [] }

unfoldable pub run_sorted : Database → VisitSettings → Option ℕ → List Event → World → Result World
run_sorted db c station_id [] w = ok w
run_sorted db c none (e ∷ es) w = ok w
run_sorted db c (some station_id) (e ∷ es) w = do
  l ← process_events db c station_id (e ∷ es) (start station_id w)
  w' ← settle c (last_time e.wall_clock_at es) l.active l.world
  ok (commit w')

-- `process_video_for_visits`, at the station of the video.
unfoldable pub process_video_for_visits :
    Database → VisitSettings → Option ℕ → List Event → World → Result World
process_video_for_visits db c station_id events w =
    run_sorted db c station_id (sort_by_frame events) w
