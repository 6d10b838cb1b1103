-- ===== src/Visit/Board.antt =====
-- `get_current_stations` and `get_history` of src/services/visit_service.py, with `list_history` of
-- src/repositories/visit.py. The rows of a join come in the order of the scanned tables here.
pub mod Entries
pub mod History
use portfolio_cv_project.Common.{
  ℕ, ◌==◌, leb, Bool, true, false, not, ◌&&◌, ◌||◌, List, [], ◌∷◌, ◌++◌, map, Option, none, some,
  if◌then◌else◌, keep, find, take, drop, ℤ, Text,
}
use portfolio_cv_project.Clock.{DateTime, to_naive_utc}
use portfolio_cv_project.Farm.{Station, Tractor}
use portfolio_cv_project.Visit.{VisitState, is_open, Visit}
use portfolio_cv_project.Visit.Lifecycle.{dwell}

-- One row of the two outer joins.
pub record Row : Type 0 where
  pub station : Station
  pub visit : Option Visit
  pub tractor : Option Tractor

pub record TractorEntry : Type 0 where
  pub tractor_id : Option ℕ
  pub tractor_name : Option Text
  pub state : VisitState
  pub arrived_at : Option DateTime
  pub current_dwell_seconds : Option ℤ

pub record StationEntry : Type 0 where
  pub station_id : ℕ
  pub code : Text
  pub name : Text
  pub tractors : List TractorEntry

abbrev pub open_at : ℕ → List Visit → List Visit
open_at station_id visits = keep (λ v. v.station_id == station_id && is_open v.state) visits

abbrev pub tractor_of : List Tractor → Visit → Option Tractor
tractor_of tractors v = find (λ t. t.id == v.tractor_id) tractors

-- A station without an open visit has one row, of NULLs.
abbrev pub joined_visits : List Tractor → Station → List Visit → List Row
joined_visits tractors s [] = []
joined_visits tractors s (v ∷ vs) =
    record { station = s; visit = some v; tractor = tractor_of tractors v }
    ∷ joined_visits tractors s vs

abbrev pub outer_rows : List Tractor → Station → List Visit → List Row
outer_rows tractors s [] = record { station = s; visit = none; tractor = none } ∷ []
outer_rows tractors s (v ∷ vs) = joined_visits tractors s (v ∷ vs)

unfoldable pub join : List Tractor → List Visit → List Station → List Row
join tractors visits [] = []
join tractors visits (s ∷ stations) =
    let rest = join tractors visits stations in
    if s.is_active then outer_rows tractors s (open_at s.id visits) ++ rest else rest

abbrev pub id_of : Option Tractor → Option ℕ
id_of none = none
id_of (some t) = some t.id

abbrev pub name_of : Option Tractor → Option Text
name_of none = none
name_of (some t) = some t.name

abbrev pub tractor_entry : DateTime → Option Tractor → Visit → TractorEntry
tractor_entry now tractor v = record {
  tractor_id = id_of tractor;
  tractor_name = name_of tractor;
  state = v.state;
  arrived_at = v.arrived_at;
  current_dwell_seconds = dwell now v.arrived_at;
}

abbrev pub entries_of : DateTime → Row → List TractorEntry
entries_of now r = elim r.visit [ none ↦ [] | some v ↦ tractor_entry now r.tractor v ∷ [] ]

abbrev pub station_entry : Station → List TractorEntry → StationEntry
station_entry s ts = record { station_id = s.id; code = s.code; name = s.name; tractors = ts }

-- `grouped.setdefault(station.id, …)`, and the tractors appended to its list.
unfoldable pub add_row : Station → List TractorEntry → List StationEntry → List StationEntry
add_row s ts [] = station_entry s ts ∷ []
add_row s ts (e ∷ grouped) =
    if e.station_id == s.id
    then record e { tractors = e.tractors ++ ts } ∷ grouped
    else e ∷ add_row s ts grouped

unfoldable pub group : DateTime → List Row → List StationEntry → List StationEntry
unfolding add_row
group now [] grouped = grouped
group now (r ∷ rows) grouped = group now rows (add_row r.station (entries_of now r) grouped)

unfoldable pub get_current_stations :
    DateTime → List Station → List Visit → List Tractor → List StationEntry
unfolding join group
get_current_stations now stations visits tractors = group now (join tractors visits stations) []

-- `state == CLOSED`, and the filters that are given.
abbrev pub is_given : Option ℕ → ℕ → Bool
is_given none i = true
is_given (some k) i = i == k

abbrev pub in_history : Option ℕ → Option ℕ → Visit → Bool
in_history tractor_id station_id v =
    not (is_open v.state) && (is_given tractor_id v.tractor_id && is_given station_id v.station_id)

-- Whether `a` may stand before `b` in `ORDER BY arrived_at DESC`, where NULL comes first.
abbrev pub is_newer : Option DateTime → Option DateTime → Bool
is_newer none b = true
is_newer (some a) none = false
is_newer (some a) (some b) = leb (to_naive_utc b) (to_naive_utc a)

-- The database may give rows of one time in any order, and in another one for the next query: `rank`
-- is its choice for a query, by ids.
abbrev pub comes_before : (ℕ → ℕ) → Visit → Visit → Bool
comes_before rank v u =
    is_newer v.arrived_at u.arrived_at
    && (not (is_newer u.arrived_at v.arrived_at) || leb (rank v.id) (rank u.id))

abbrev pub place : (ℕ → ℕ) → Visit → List Visit → List Visit
place rank v [] = v ∷ []
place rank v (u ∷ us) = if comes_before rank v u then v ∷ (u ∷ us) else u ∷ place rank v us

abbrev pub newest_first : (ℕ → ℕ) → List Visit → List Visit
newest_first rank [] = []
newest_first rank (v ∷ vs) = place rank v (newest_first rank vs)

unfoldable pub get_history : (ℕ → ℕ) → Option ℕ → Option ℕ → ℕ → ℕ → List Visit → List Visit
get_history rank tractor_id station_id limit offset rows =
    take limit (drop offset (newest_first rank (keep (in_history tractor_id station_id) rows)))
