-- ===== src/Router/Farm.antt =====
-- The endpoints of the reference tables: src/router/v1/station.py and src/router/v1/tractor.py, with
-- the handler of an exception that nothing else handles, in src/main.py.
pub mod Taken
pub mod Marked
use portfolio_cv_project.Common.{
  ℕ, Bool, true, false, List, [], ◌∷◌, map, Option, none, some, Text, same_text,
}
use portfolio_cv_project.Clock.{or_else}
use portfolio_cv_project.Event.Ingest.{Reply, replied, http, failed}
use portfolio_cv_project.Farm.{Station, Tractor, primary_aruco_id, Field, unset, null, given}
use portfolio_cv_project.Farm.Table.{Table, get, get_filtered}
use portfolio_cv_project.Farm.Service.{Outcome, done, http as http_error, integrity}
use portfolio_cv_project.Farm.Stations
use portfolio_cv_project.Farm.Stations.{station_model, StationUpdate}
use portfolio_cv_project.Farm.Tractors
use portfolio_cv_project.Farm.Tractors.{tractor_model, TractorUpdate}

-- What the client gets: `generic_exception_handler` answers 500.
abbrev pub respond : {A T : Type 0} → Outcome A × T → Reply A × T
respond (done a, t) = (replied a, t)
respond (http_error n, t) = (http n, t)
respond (integrity, t) = (http 500, t)

-- `except IntegrityError`, answered by 409.
abbrev pub or_conflict : {A T : Type 0} → Outcome A × T → Reply A × T
or_conflict (done a, t) = (replied a, t)
or_conflict (http_error n, t) = (http n, t)
or_conflict (integrity, t) = (http 409, t)

abbrev pub found_or_404 : {A : Type 0} → Option A → Reply A
found_or_404 none = http 404
found_or_404 (some a) = replied a

-- A filter that is left out or None filters nothing.
abbrev pub filter_by : {A B : Type 0} → (A → B → Bool) → Field A → Option (B → Bool)
filter_by test unset = none
filter_by test null = none
filter_by test (given a) = some (test a)

abbrev pub same_flag : Bool → Bool → Bool
same_flag true b = b
same_flag false true = false
same_flag false false = true

pub record StationFilter : Type 0 where
  pub code : Field Text
  pub name : Field Text
  pub is_active : Field Bool

unfoldable pub list_stations : ℕ → ℕ → Table Station → List Station
unfolding get_filtered
list_stations limit offset t = get_filtered station_model [] limit offset false t

unfoldable pub filter_stations : StationFilter → ℕ → ℕ → Table Station → List Station
unfolding get_filtered
filter_stations f limit offset t =
    get_filtered station_model
      (filter_by (λ code s. same_text s.code code) f.code
        ∷ filter_by (λ name s. same_text s.name name) f.name
        ∷ filter_by (λ active s. same_flag s.is_active active) f.is_active
        ∷ [])
      limit offset false t

unfoldable pub get_station : ℕ → Table Station → Reply Station
get_station station_id t = found_or_404 (get station_model station_id t)

unfoldable pub create_station : Station → Table Station → Reply Station × Table Station
create_station payload t = or_conflict (Stations.create payload t)

unfoldable pub update_station : ℕ → StationUpdate → Table Station → Reply Station × Table Station
update_station station_id payload t = respond (Stations.update station_id payload t)

unfoldable pub delete_station : (ℕ → Bool) → ℕ → Table Station → Reply (Unit {0}) × Table Station
delete_station is_visited station_id t = respond (Stations.delete is_visited station_id t)

pub record TractorFilter : Type 0 where
  pub name : Field Text
  pub is_active : Field Bool

-- `created_at` is left out.
pub record TractorPublic : Type 0 where
  pub id : ℕ
  pub aruco_ids : List ℕ
  pub primary_aruco_id : ℕ
  pub name : Text
  pub model : Option Text
  pub notes : Option Text
  pub is_active : Bool

abbrev pub to_public : Tractor → TractorPublic
to_public t = record {
  id = t.id;
  aruco_ids = t.aruco_ids;
  primary_aruco_id = or_else (primary_aruco_id t) 0;
  name = t.name;
  model = t.model;
  notes = t.notes;
  is_active = t.is_active;
}

abbrev pub public_reply : Reply Tractor × Table Tractor → Reply TractorPublic × Table Tractor
public_reply (replied u, t) = (replied (to_public u), t)
public_reply (http n, t) = (http n, t)
public_reply (failed e, t) = (failed e, t)

unfoldable pub list_tractors : ℕ → ℕ → Table Tractor → List TractorPublic
unfolding get_filtered
list_tractors limit offset t = map to_public (get_filtered tractor_model [] limit offset false t)

unfoldable pub filter_tractors : TractorFilter → ℕ → ℕ → Table Tractor → List TractorPublic
unfolding get_filtered
filter_tractors f limit offset t = map to_public (
    get_filtered tractor_model
      (filter_by (λ name u. same_text u.name name) f.name
        ∷ filter_by (λ active u. same_flag u.is_active active) f.is_active
        ∷ [])
      limit offset false t)

unfoldable pub get_tractor : ℕ → Table Tractor → Reply TractorPublic × Table Tractor
get_tractor tractor_id t = public_reply (found_or_404 (get tractor_model tractor_id t), t)

unfoldable pub create_tractor : Tractor → Table Tractor → Reply TractorPublic × Table Tractor
create_tractor payload t = public_reply (or_conflict (Tractors.create payload t))

unfoldable pub update_tractor :
    ℕ → TractorUpdate → Table Tractor → Reply TractorPublic × Table Tractor
update_tractor tractor_id payload t = public_reply (respond (Tractors.update tractor_id payload t))

unfoldable pub delete_tractor : (ℕ → Bool) → ℕ → Table Tractor → Reply (Unit {0}) × Table Tractor
delete_tractor is_visited tractor_id t = respond (Tractors.delete is_visited tractor_id t)
