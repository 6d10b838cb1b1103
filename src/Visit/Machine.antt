-- ===== src/Visit/Machine.antt =====
-- The state machine on one visit: `_apply_state_transition`, `_maybe_close_visit` and
-- `_publish_status_change` of src/services/visit_service.py. A method that changes the row returns
-- the changed row, whether it deleted it, and what it published.
use portfolio_cv_project.Common.{
  ℕ, ◌+◌, ◌*◌, reaches, Bool, false, List, [], ◌∷◌, ◌++◌, Option, none, some, if◌then◌else◌,
}
use portfolio_cv_project.Clock.{DateTime, naive, to_naive_utc, elapsed, or_else}
use portfolio_cv_project.Visit.{
  VisitState, entering, present, leaving, closed, Visit, VisitSettings, StatusChange,
}

pub record Effect : Type 0 where
  pub visit : Visit
  pub deleted : Bool
  pub published : List StatusChange

abbrev pub status_change : Visit → Option ℕ → StatusChange
status_change v event_id = record {
  visit_id = v.id;
  tractor_id = v.tractor_id;
  station_id = v.station_id;
  state = v.state;
  arrived_at = v.arrived_at;
  last_seen_at = v.last_seen_at;
  event_id = event_id;
}

abbrev touched : Visit → DateTime → Option ℕ → Visit
touched v frame_time event_id = record v {
  last_seen_at = some frame_time;
  last_event_id = event_id;
}

-- The branch for ENTERING: the debounce timer runs from the last sighting.
apply_entering : VisitSettings → Visit → DateTime → Option ℕ → Effect
apply_entering c v frame_time event_id =
    let anchor = or_else v.last_seen_at (or_else v.created_at frame_time) in
    let seen = c.add_seconds v.entry_seen_seconds (elapsed frame_time anchor) in
    let v' = record (touched v frame_time event_id) { entry_seen_seconds = seen } in
    let v'' = record v' {
      state = present;
      arrived_at = some frame_time;
      entry_event_id = event_id;
    } in
    if c.reaches_entry seen
    then record { visit = v''; deleted = false; published = status_change v'' event_id ∷ [] }
    else record { visit = v'; deleted = false; published = [] }

-- The branch for LEAVING: the tractor came back.
apply_leaving : Visit → DateTime → Option ℕ → Effect
apply_leaving v frame_time event_id =
    let v' = record (touched v frame_time event_id) { state = present } in
    record { visit = v'; deleted = false; published = status_change v' event_id ∷ [] }

apply_by_state : VisitState → VisitSettings → Visit → DateTime → Option ℕ → Effect
unfolding apply_entering apply_leaving
apply_by_state entering c v frame_time event_id = apply_entering c v frame_time event_id
apply_by_state present c v frame_time event_id = record {
  visit = touched v frame_time event_id;
  deleted = false;
  published = [];
}
apply_by_state leaving c v frame_time event_id = apply_leaving v frame_time event_id
apply_by_state _ c v frame_time event_id = record { visit = v; deleted = false; published = [] }

unfoldable pub apply_state_transition : VisitSettings → Visit → DateTime → Option ℕ → Effect
unfolding apply_by_state
apply_state_transition c v frame_time event_id = apply_by_state v.state c v frame_time event_id

-- The last `if` of `_maybe_close_visit`, at a LEAVING visit; `sent` is what was published before.
close_leaving : VisitSettings → Visit → DateTime → List StatusChange → Effect
close_leaving c v current_time sent =
    let seen = or_else v.last_seen_at current_time in
    let v' = record v {
      state = closed;
      departed_at = some (naive (to_naive_utc seen + c.exit_confirm_seconds));
    } in
    if reaches (elapsed current_time seen) (2 * c.exit_confirm_seconds)
    then record { visit = v'; deleted = false; published = sent ++ status_change v' none ∷ [] }
    else record { visit = v; deleted = false; published = sent }

close_present : VisitSettings → Visit → DateTime → Effect
unfolding close_leaving
close_present c v current_time =
    let seen = or_else v.last_seen_at current_time in
    let v' = record v { state = leaving } in
    if reaches (elapsed current_time seen) c.exit_confirm_seconds
    then close_leaving c v' current_time (status_change v' none ∷ [])
    else record { visit = v; deleted = false; published = [] }

-- The branch for ENTERING: too old means that the tractor drove past.
close_entering : VisitSettings → Visit → DateTime → Effect
close_entering c v current_time =
    let gap = elapsed current_time (or_else v.created_at current_time) in
    record { visit = v; deleted = reaches gap (c.entry_confirm_seconds * 3); published = [] }

close_by_state : VisitState → VisitSettings → Visit → DateTime → Effect
unfolding close_entering close_present close_leaving
close_by_state entering c v current_time = close_entering c v current_time
close_by_state present c v current_time = close_present c v current_time
close_by_state leaving c v current_time = close_leaving c v current_time []
close_by_state _ c v current_time = record { visit = v; deleted = false; published = [] }

unfoldable pub maybe_close_visit : VisitSettings → Visit → DateTime → Effect
unfolding close_by_state
maybe_close_visit c v current_time = close_by_state v.state c v current_time
