-- ===== src/Tests/Visits.antt =====
-- A farm with one station: the visit machine on concrete times, in microseconds.
use portfolio_cv_project.Common.{
  reaches, ℕ, ◌+◌, ◌*◌, ◌≤◌, ◌≡◌, refl, true, List, [], ◌∷◌, none, some, arith, pos, ◌+ℤ◌, sub_ℕ,
  Result, ok, raise, attribute_error, tally, keep, ◌==◌,
}
use portfolio_cv_project.Clock.{naive}
use portfolio_cv_project.Event.{Event, detected, aruco}
use portfolio_cv_project.Visit.{present, Visit, VisitSettings}
use portfolio_cv_project.Visit.Machine.{status_change, maybe_close_visit, apply_state_transition}
use portfolio_cv_project.Visit.Store.{
  World, Database, has_id, open_at, list_open, list_open_for_station, get_open_for_pair, load,
  store, flush_new, rollback, commit,
}
use portfolio_cv_project.Visit.Process.{
  Loop, new_visit, create_or_get_open_visit, adopt, held, gap_since, close_stale, advance,
  process_sighting, process_event, process_events, settle, start, run_sorted,
  process_video_for_visits, sort_by_frame,
}
use portfolio_cv_project.Visit.Debounce.{
  watch, confirmation, confirmed_state, confirmed_at, confirmed_by, debounce,
}
use portfolio_cv_project.Visit.Invariant.{IsValid}
use portfolio_cv_project.Visit.Safety.{process_video_for_visits-IsValid}
use portfolio_cv_project.Visit.Lifecycle.{
  list_active, check_loop, check_stale_visits, recover_loop, recover_open_visits,
}
use portfolio_cv_project.Visit.Recovery.{stays, recover_open_visits-keep}
use portfolio_cv_project.Visit.Silence.{IsParked, IsSighting, IsResumed, short_silence}
use portfolio_cv_project.Visit.Missing.{vanished_tractor_raises}

program : Unit {0}
unfolding maybe_close_visit apply_state_transition list_open list_open_for_station get_open_for_pair
    load store flush_new rollback commit create_or_get_open_visit adopt held gap_since close_stale
    advance process_sighting process_event process_events settle start run_sorted
    process_video_for_visits sort_by_frame list_active check_loop check_stale_visits recover_loop
    recover_open_visits watch sub_ℕ ◌+ℤ◌
program = tt

abbrev pub second : ℕ
second = 1000000

-- The defaults of `VisitSettings`.
abbrev pub settings : VisitSettings
settings = record {
  entry_confirm_seconds = second;
  add_seconds = λ x y. x +ℤ y;
  reaches_entry = λ x. reaches x second;
  exit_confirm_seconds = 10 * second;
  recovery_grace_multiplier = 3;
}

abbrev pub db : Database
db = record {
  current_timestamp = naive 0;
  tractor_exists = λ t. t == 7;
  station_exists = λ s. s == 1;
}

abbrev pub sighting : ℕ → ℕ → ℕ → Event
sighting tractor frame time = record {
  id = some (100 + frame);
  video_file_id = 1;
  tractor_id = some tractor;
  aruco_id = some 4;
  event_type = detected;
  detector_method = aruco;
  inside_roi = true;
  frame_number = frame;
  timestamp_in_video = 0;
  wall_clock_at = naive time;
  confidence = none;
  bbox = none;
  detector_metadata = none;
}

abbrev pub empty : World
empty = record { rows = []; committed = []; next_id = 1; published = []; rollbacks = 0 }

pub empty-IsValid : IsValid empty
empty-IsValid = record {
  now = record { formed = tt; one_open = λ t s. omega arith; distinct = λ i. omega arith };
  before = record { formed = tt; one_open = λ t s. omega arith; distinct = λ i. omega arith };
  fresh = tt;
  fresh_before = tt;
}

abbrev pub clip : List Event
clip = sighting 7 2 (2 * second) ∷ sighting 7 1 (1 * second) ∷ sighting 7 3 (3 * second) ∷ []

-- The visit that the clip leaves: PRESENT from the second frame.
abbrev pub here : Visit
here = record {
  id = 1;
  tractor_id = 7;
  station_id = 1;
  state = present;
  arrived_at = some (naive (2 * second));
  departed_at = none;
  last_seen_at = some (naive (3 * second));
  entry_event_id = some 102;
  exit_event_id = none;
  last_event_id = some 103;
  entry_seen_seconds = pos second;
  created_at = some (naive 0);
}

rows_of : Result World → List Visit
rows_of (ok w) = w.rows
rows_of (raise e) = []

clip_runs : rows_of (process_video_for_visits db settings (some 1) clip empty) ≡ here ∷ []
unfolding program rows_of
clip_runs = refl

abbrev pub farm : World
farm = record {
  rows = here ∷ [];
  committed = here ∷ [];
  next_id = 2;
  published = [];
  rollbacks = 0;
}

one_row : (t s : ℕ) → tally (open_at t s) (here ∷ []) ≤ 1
one_row t s = ground arith

one_key : (i : ℕ) → tally (has_id i) (here ∷ []) ≤ 1
one_key i = ground arith

pub farm-IsValid : IsValid farm
farm-IsValid = record {
  now = record { formed = (tt, tt); one_open = one_row; distinct = one_key };
  before = record { formed = (tt, tt); one_open = one_row; distinct = one_key };
  fresh = (omega arith, tt);
  fresh_before = (omega arith, tt);
}

abbrev farm_loop : Loop
farm_loop = record {
  world = farm;
  active = ((7, 1), some 1) ∷ [];
  last_seen = ((7, 1), some (naive (3 * second))) ∷ [];
}

farm-IsParked : IsParked (7, 1) here (3 * second) farm_loop
farm-IsParked = record { is_present = refl; seen = refl; row = refl; active = refl; last = refl }

seen_at : (t : ℕ) → IsSighting (sighting 7 9 t) 7 t
seen_at t = record { known = refl; inside = refl; time = refl }

-- The session after the clip: the visit's messages went out as it entered and as it was confirmed.
abbrev after_clip : World
after_clip = record {
  rows = here ∷ [];
  committed = here ∷ [];
  next_id = 2;
  published =
      status_change arriving_at_once (some 101)
      ∷ status_change (record here { last_seen_at = some (naive (2 * second)) }) (some 102)
      ∷ [];
  rollbacks = 0;
}
  where
    arriving_at_once : Visit
    arriving_at_once = new_visit db 7 1 (naive second) (some 101) 1

process_video_for_visits-IsValid_example : IsValid after_clip
unfolding program
process_video_for_visits-IsValid_example =
    process_video_for_visits-IsValid db settings (some 1) clip empty after_clip empty-IsValid refl

abbrev pub arriving : Visit
arriving = new_visit db 7 1 (naive 0) none 5

debounce_example :
    let found = confirmation second (naive 0) (
      record { at = naive 500000; event_id = none }
      ∷ record { at = naive 1500000; event_id = some 3 }
      ∷ []) in
    ((watch settings arriving (
        record { at = naive 500000; event_id = none }
        ∷ record { at = naive 1500000; event_id = some 3 }
        ∷ [])).state
      ≡ confirmed_state found)
    × ((watch settings arriving (
          record { at = naive 500000; event_id = none }
          ∷ record { at = naive 1500000; event_id = some 3 }
          ∷ [])).arrived_at
        ≡ confirmed_at found)
    × ((watch settings arriving (
          record { at = naive 500000; event_id = none }
          ∷ record { at = naive 1500000; event_id = some 3 }
          ∷ [])).entry_event_id
        ≡ confirmed_by none found)
unfolding program
debounce_example =
    debounce settings (naive 0) (naive 0) arriving
      (record { at = naive 500000; event_id = none }
        ∷ record { at = naive 1500000; event_id = some 3 }
        ∷ [])
      (record { entering_now = refl; seen_last = refl; timer = refl })
      (refl, refl, (refl, refl, tt)) refl

recover_open_visits-keep_example :
    let (w', report) = recover_open_visits settings (naive (9 * second)) farm in
    (w' ≡ record farm {
      rows = keep (stays settings (naive (9 * second))) farm.rows;
      committed = keep (stays settings (naive (9 * second))) farm.rows;
    })
    × (report.recovered_visits ≡ 1)
    × (report.deleted_enterings ≡ 0)
unfolding program
recover_open_visits-keep_example =
    recover_open_visits-keep settings (naive (9 * second)) farm farm-IsValid

short_silence_example :
    (l' : Loop) × (v' : Visit) × (process_event db settings 1 (sighting 7 9 (15 * second)) farm_loop
      ≡ ok l')
    × IsResumed (7, 1) here v' (15 * second) farm_loop l'
short_silence_example =
    short_silence db settings 1 7 (sighting 7 9 (15 * second)) here (3 * second) (15 * second)
      farm_loop farm-IsParked (seen_at (15 * second)) (omega arith)

vanished_tractor_raises_example :
    process_video_for_visits db settings (some 1) (sighting 8 1 second ∷ []) empty
    ≡ raise attribute_error
unfolding program
vanished_tractor_raises_example =
    vanished_tractor_raises db settings 1 8 (sighting 8 1 second) empty refl refl refl refl refl
