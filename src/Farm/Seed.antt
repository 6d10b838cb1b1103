-- ===== src/Farm/Seed.antt =====
-- `seed` of scripts/seed_reference.py: the reference rows that a new installation starts with.
pub mod Again
use portfolio_cv_project.Common.{
  ℕ, zero, suc, ◌+◌, ◌/◌, ◌%◌, ==_refl, Bool, true, false, ◌||◌, List, [], ◌∷◌, ◌++◌, some,
  if◌then◌else◌, any, Text, same_text, All, ◌⊎◌, same_text_refl, same_text_sym, ◌≡◌, refl, ap, ◌∙◌,
  arith, Bool-cases, inl, inr,
}
use portfolio_cv_project.Farm.{Station, Tractor, primary_aruco_id}
use portfolio_cv_project.Farm.Table.{Model, Table, Flushed, stored, refused}
use portfolio_cv_project.Farm.Table
use portfolio_cv_project.Farm.Stations.{station_model}
use portfolio_cv_project.Farm.Tractors.{tractor_model, same_primary}
use portfolio_cv_project.Farm.Sound.{table_of}
use portfolio_cv_project.Farm.Tractors.{same_primary_sym}

-- `f"{i:02d}"` below a hundred.
abbrev pub two_digits : ℕ → Text
two_digits i = (b'0' + i / 10) ∷ (b'0' + i % 10) ∷ []

-- `f"STATION_{i:02d}"`.
abbrev pub seed_code : ℕ → Text
seed_code i = b'S' ∷ b'T' ∷ b'A' ∷ b'T' ∷ b'I' ∷ b'O' ∷ b'N' ∷ b'_' ∷ two_digits i

-- The other texts of a row are those of the script, in Russian: an argument.
pub record Texts : Type 0 where
  pub station_name : ℕ → Text
  pub location : ℕ → Text
  pub queue : Text
  pub tractor_name : ℕ → Text
  pub model : Text
  pub notes : ℕ → Text

abbrev pub default_roi : List (ℕ × ℕ)
default_roi = (100, 100) ∷ (540, 100) ∷ (540, 380) ∷ (100, 380) ∷ []

-- The session gives the row its id.
abbrev pub seed_station : Texts → ℕ → Station
seed_station c i = record {
  id = 0;
  code = seed_code i;
  name = c.station_name i;
  location = some (c.location i);
  video_dir = c.queue ++ seed_code i;
  roi_polygon = some default_roi;
  is_entry_zone = true;
  is_active = true;
}

abbrev pub seed_tractor : Texts → ℕ → Tractor
seed_tractor c aruco_id = record {
  id = 0;
  aruco_ids = aruco_id ∷ (aruco_id + 10) ∷ (aruco_id + 20) ∷ [];
  name = c.tractor_name aruco_id;
  model = some c.model;
  notes = some (c.notes aruco_id);
  is_active = true;
}

-- `range(1, n + 1)`.
abbrev pub up_to : ℕ → List ℕ
up_to zero = []
up_to (suc n) = up_to n ++ (suc n ∷ [])

module _ {A : Type 0} (m : Model A) (row : ℕ → A) (exists : ℕ → List A → Bool) where
  -- The loop over the wanted rows: those of `existing`, read before the loop, are skipped.
  unfoldable pub seed_rows : List ℕ → List A → Table A → Table A
  seed_rows [] existing t = t
  seed_rows (i ∷ is) existing t =
      let t' = if exists i existing then t else table_of (Table.create m (row i) t) in
      seed_rows is existing t'

abbrev pub has_code : ℕ → List Station → Bool
has_code i rows = any (λ s. same_text s.code (seed_code i)) rows

abbrev pub has_primary : ℕ → List Tractor → Bool
has_primary i rows = any (λ t. same_primary (primary_aruco_id t) (some i)) rows

-- `--reset` deletes every row, and leaves the sequence.
abbrev pub cleared : {A : Type 0} → Bool → Table A → Table A
cleared true t = record t { rows = [] }
cleared false t = t

unfoldable pub seed_stations : Texts → Bool → Table Station → Table Station
seed_stations c reset t =
    let t' = cleared reset t in
    seed_rows station_model (seed_station c) has_code (up_to 35) t'.rows t'

unfoldable pub seed_tractors : Texts → Bool → Table Tractor → Table Tractor
seed_tractors c reset t =
    let t' = cleared reset t in
    seed_rows tractor_model (seed_tractor c) has_primary (up_to 6) t'.rows t'
