-- ===== src/Visit.antt =====
-- The `visits` table: src/schemas/visit.py, src/models/visit.py and src/config/visit.py. Durations
-- and settings given in seconds are whole microseconds.
pub mod Machine
pub mod Store
pub mod Process
pub mod Exit
pub mod Graph
pub mod Debounce
pub mod Rows
pub mod Times
pub mod Invariant
pub mod Safety
pub mod Lifecycle
pub mod Board
pub mod Recovery
pub mod Sweep
pub mod Silence
pub mod Missing
use portfolio_cv_project.Common.{ℕ, ℤ, sub_ℕ, Bool, true, false, List, Option, none, some}
use portfolio_cv_project.Clock.{DateTime, elapsed}

pub data VisitState : Type 0 where
  absent entering present leaving closed : VisitState

-- `state != VisitState.CLOSED`, which the open-visit queries and the partial index test.
abbrev pub is_open : VisitState → Bool
is_open closed = false
is_open _ = true

pub record Visit : Type 0 where
  pub id : ℕ
  pub tractor_id : ℕ
  pub station_id : ℕ
  pub state : VisitState
  pub arrived_at : Option DateTime
  pub departed_at : Option DateTime
  pub last_seen_at : Option DateTime
  pub entry_event_id : Option ℕ
  pub exit_event_id : Option ℕ
  pub last_event_id : Option ℕ
  pub entry_seen_seconds : ℤ
  pub created_at : Option DateTime

-- The generated column `duration_seconds`: set only for a closed row with both times.
abbrev pub duration_seconds : Visit → Option ℤ
duration_seconds v = of v.state v.arrived_at v.departed_at
  where
    of : VisitState → Option DateTime → Option DateTime → Option ℤ
    of closed (some arrived) (some departed) = some (elapsed departed arrived)
    of closed (some arrived) none = none
    of closed none departed = none
    of _ _ _ = none

-- `VisitSettings`; the multiplier is a whole number. Two operations on floats stand beside them: the
-- double that `entry_seen_seconds += delta.total_seconds()` gives, and whether a double is at least
-- `entry_confirm_seconds`. A double has a number of its own, which for a whole number of microseconds
-- is that number; sums of doubles may be rounded, so the first need not be exact.
pub record VisitSettings : Type 0 where
  pub entry_confirm_seconds : ℕ
  pub exit_confirm_seconds : ℕ
  pub recovery_grace_multiplier : ℕ
  pub add_seconds : ℤ → ℤ → ℤ
  pub reaches_entry : ℤ → Bool

-- The payload of `_publish_status_change`, less its own timestamp and the stored duration.
pub record StatusChange : Type 0 where
  pub visit_id : ℕ
  pub tractor_id : ℕ
  pub station_id : ℕ
  pub state : VisitState
  pub arrived_at : Option DateTime
  pub last_seen_at : Option DateTime
  pub event_id : Option ℕ
