-- ===== src/Visit/Missing.antt =====
-- A sighting of a tractor whose row is gone: `_create_or_get_open_visit` hands back None, which the
-- loop after the events does not expect.
use portfolio_cv_project.Common.{
  ℕ, ◌≡◌, refl, Bool, true, false, List, [], ◌∷◌, Option, none, some, arith, find, any, Result, ok,
  raise, attribute_error,
}
use portfolio_cv_project.Clock.{DateTime}
use portfolio_cv_project.Event.{Event}
use portfolio_cv_project.Visit.{Visit, VisitSettings}
use portfolio_cv_project.Visit.Store.{
  World, Database, open_at, get_open_for_pair, list_open_for_station, flush_new, rollback,
}
use portfolio_cv_project.Visit.Process.{
  new_visit, create_or_get_open_visit, adopt, held, close_stale, advance, process_sighting,
  process_event, process_events, settle, start, run_sorted, process_video_for_visits, sort_by_frame,
}

find-none : (p : Visit → Bool) (rows : List Visit) → any p rows ≡ false → find p rows ≡ none
find-none p [] h = refl
find-none p (r ∷ rows) h = ground (arith, find-none p rows)

-- With the foreign key broken and no open row to adopt, there is no visit to hand back.
create_none :
    (db : Database) (t s : ℕ) (time : DateTime) (i : Option ℕ) (w : World)
    → db.tractor_exists t ≡ false
    → any (open_at t s) w.committed ≡ false
    → create_or_get_open_visit db t s time i w ≡ (rollback w, none)
unfolding create_or_get_open_visit adopt rollback get_open_for_pair
create_none db t s time i w gone free = go (flush_new db v w) refl
  where
    v : Visit
    v = new_visit db t s time i w.next_id

    refused : (w' : World) → flush_new db v w ≡ ok w' → ⊥
    refused w' e = unfold flush_new in ground arith

    go :
        (r : Result World)
        → flush_new db v w ≡ r
        → create_or_get_open_visit db t s time i w ≡ (rollback w, none)
    go (ok w') e = absurd (refused w' e)
    go (raise x) e =
        rw (e, create_or_get_open_visit) (rw (find-none (open_at t s) w.committed free))

-- Where the station has no open visit, a video whose only sighting is of a tractor that the
-- database does not have makes the aggregation raise AttributeError, and so fail.
pub vanished_tractor_raises :
    (db : Database) (c : VisitSettings) (station_id tractor_id : ℕ) (event : Event) (w : World)
    → event.tractor_id ≡ some tractor_id
    → event.inside_roi ≡ true
    → db.tractor_exists tractor_id ≡ false
    → list_open_for_station station_id w.rows ≡ []
    → any (open_at tractor_id station_id) w.committed ≡ false
    → process_video_for_visits db c (some station_id) (event ∷ []) w ≡ raise attribute_error
unfolding process_video_for_visits run_sorted sort_by_frame process_events process_event
    process_sighting start held close_stale advance settle
vanished_tractor_raises db c s t event w known inside gone empty free =
    rw (known, process_event)
      (rw inside (rw empty (rw (create_none db t s event.wall_clock_at event.id w gone free))))
