-- ===== src/Tests/Farms.antt =====
-- Two stations and a tractor.
use portfolio_cv_project.Common.{ℕ, refl, true, List, [], ◌∷◌, none, arith}
use portfolio_cv_project.Farm.{Station, Tractor}
use portfolio_cv_project.Farm.Table.{Table}
use portfolio_cv_project.Farm.Stations.{station_model}
use portfolio_cv_project.Farm.Sound.{IsSound}

abbrev pub north : Station
north = record {
  id = 1;
  code = b'n' ∷ [];
  name = b'n' ∷ [];
  location = none;
  video_dir = b'n' ∷ [];
  roi_polygon = none;
  is_entry_zone = true;
  is_active = true;
}

abbrev pub south : Station
south = record north { id = 2; code = b's' ∷ [] }

abbrev pub stations : Table Station
stations = record { rows = north ∷ south ∷ []; next_id = 3 }

pub stations-IsSound : IsSound station_model stations
stations-IsSound = record {
  apart = (refl, (refl, tt));
  below = (omega arith, (omega arith, tt));
  allowed = (refl, (refl, tt));
}

abbrev tractor : ℕ → List ℕ → Tractor
tractor i markers = record {
  id = i;
  aruco_ids = markers;
  name = [];
  model = none;
  notes = none;
  is_active = true;
}

-- The marker 8 is the first tractor's second one.
abbrev pub tractors : Table Tractor
tractors = record { rows = tractor 1 (7 ∷ 8 ∷ []) ∷ []; next_id = 2 }
