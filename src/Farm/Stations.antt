-- ===== src/Farm/Stations.antt =====
-- `StationService` of src/services/station_service.py, over src/repositories/station.py.
use portfolio_cv_project.Common.{
  ℕ, Bool, true, List, Option, none, some, if◌then◌else◌, find, Text, same_text,
}
use portfolio_cv_project.Farm.{Station, Field}
use portfolio_cv_project.Farm.Table.{Model, Table, get}
use portfolio_cv_project.Farm.Table
use portfolio_cv_project.Farm.Service.{
  Outcome, done, http, integrity, answered, put_null, put, ◌>>=◌,
}

abbrev pub station_model : Model Station
station_model = record {
  key = λ s. s.id;
  with_key = λ i s. record s { id = i };
  clashes = λ s u. same_text s.code u.code;
  is_allowed = λ s. true;
}

unfoldable pub get_by_code : Text → Table Station → Option Station
get_by_code code t = find (λ s. same_text s.code code) t.rows

unfoldable pub create : Station → Table Station → Outcome Station × Table Station
unfolding get_by_code
create payload t = elim (get_by_code payload.code t) [
  | some _ ↦ (http 409, t)
  | none ↦ answered integrity (Table.create station_model payload t)
]

pub record StationUpdate : Type 0 where
  pub code : Field Text
  pub name : Field Text
  pub location : Field Text
  pub video_dir : Field Text
  pub roi_polygon : Field (List (ℕ × ℕ))
  pub is_entry_zone : Field Bool
  pub is_active : Field Bool

-- None where a NULL is given for a column that is NOT NULL.
unfoldable pub changed : StationUpdate → Station → Option Station
changed c s = do
  code ← put c.code s.code
  name ← put c.name s.name
  video_dir ← put c.video_dir s.video_dir
  entry_zone ← put c.is_entry_zone s.is_entry_zone
  active ← put c.is_active s.is_active
  some (record {
    id = s.id;
    code = code;
    name = name;
    location = put_null c.location s.location;
    video_dir = video_dir;
    roi_polygon = put_null c.roi_polygon s.roi_polygon;
    is_entry_zone = entry_zone;
    is_active = active;
  })

unfoldable pub update : ℕ → StationUpdate → Table Station → Outcome Station × Table Station
unfolding changed
update station_id payload t = elim (get station_model station_id t) [
  | none ↦ (http 404, t)
  | some s ↦ elim (changed payload s) [
    | none ↦ (integrity, t)
    | some s' ↦ answered integrity (Table.update station_model s' t)
  ]
]

-- The foreign keys of visits restrict the delete: the commit raises.
unfoldable pub delete : (ℕ → Bool) → ℕ → Table Station → Outcome (Unit {0}) × Table Station
delete is_visited station_id t = elim (get station_model station_id t) [
  | none ↦ (http 404, t)
  | some s ↦
      if is_visited station_id
      then (integrity, t)
      else (done tt, Table.delete station_model station_id t)
]
