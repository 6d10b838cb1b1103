-- ===== src/Farm.antt =====
-- The reference tables: stations and tractors, src/models/station.py and src/models/tractor.py with
-- their schemas, the repository that all tables share, and the two services over them.
pub mod Table
pub mod Service
pub mod Stations
pub mod Tractors
pub mod Sound
pub mod Markers
pub mod Clash
pub mod Seed
use portfolio_cv_project.Common.{ℕ, Bool, List, [], ◌∷◌, Option, none, some, Text}

pub record Station : Type 0 where
  pub id : ℕ
  pub code : Text
  pub name : Text
  pub location : Option Text
  pub video_dir : Text
  pub roi_polygon : Option (List (ℕ × ℕ))
  pub is_entry_zone : Bool
  pub is_active : Bool

pub record Tractor : Type 0 where
  pub id : ℕ
  pub aruco_ids : List ℕ
  pub name : Text
  pub model : Option Text
  pub notes : Option Text
  pub is_active : Bool

-- The generated column `aruco_ids[1]`.
abbrev pub primary_aruco_id : Tractor → Option ℕ
primary_aruco_id t = elim t.aruco_ids [ [] ↦ none | m ∷ ms ↦ some m ]

-- A field of a partial update, dumped with `exclude_unset`: left out, NULL, or a value.
pub data Field (A : Type 0) : Type 0 where
  unset : Field A
  null : Field A
  given : A → Field A
