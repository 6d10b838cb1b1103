-- ===== src/Router/Farm/Taken.antt =====
-- A code that another station has, at the endpoints of src/router/v1/station.py.
use portfolio_cv_project.Common.{
  ℕ, ◌==◌, true, not, Option, none, some, Text, same_text, same_text_sym, find, ◌≡◌, ◌≢◌, refl, ap,
  ◌∙◌, arith,
}
use portfolio_cv_project.Event.Ingest.{http}
use portfolio_cv_project.Farm.{Station, given}
use portfolio_cv_project.Farm.Table.{Table, Model, get, is_taken, has_key}
use portfolio_cv_project.Farm.Table
use portfolio_cv_project.Farm.Service.{Outcome, answered}
use portfolio_cv_project.Farm.Service
use portfolio_cv_project.Farm.Stations
use portfolio_cv_project.Farm.Stations.{station_model, StationUpdate, get_by_code}
use mathlib.Core.Path.{subst}
use portfolio_cv_project.Router.Farm.{respond, or_conflict, create_station, update_station}
use portfolio_cv_project.Farm.Clash.{find_holds, both, update_refused}

changed_code :
    (c : StationUpdate) (s s' : Station) (code : Text)
    → c.code ≡ given code
    → Stations.changed c s ≡ some s'
    → (s'.code ≡ code) × (s'.id ≡ s.id)
unfolding Stations.changed
changed_code c s s' code e h = (ground arith, ground arith)

module _ (t : Table Station) (code : Text) (u : Station) (taken : get_by_code code t ≡ some u) where
  by_code : find (λ r. same_text r.code code) t.rows ≡ some u
  unfolding get_by_code
  by_code = taken

  create_taken :
      (payload : Station) → payload.code ≡ code → Stations.create payload t ≡ (Service.http 409, t)
  unfolding Stations.create
  create_taken payload e =
      ap
        (λ (o : Option Station). elim o as (λ _. Outcome Station × Table Station) [
          | some _ ↦ (Service.http 409, t)
          | none ↦ answered Service.integrity (Table.create station_model payload t)
        ])
        (ap (λ (k : Text). find (λ (r : Station). same_text r.code k) t.rows) e ∙ by_code)

  update_taken :
      (i : ℕ) (c : StationUpdate) (s : Station)
      → get station_model i t ≡ some s
      → u.id ≢ s.id
      → c.code ≡ given code
      → Stations.update i c t ≡ (Service.integrity, t)
  unfolding Stations.update
  update_taken i c s found other e = go (get station_model i t) found
    where
      write :
          (o : Option Station)
          → Stations.changed c s ≡ o
          → elim o as (λ _. Outcome Station × Table Station) [
            | none ↦ (Service.integrity, t)
            | some s' ↦ answered Service.integrity (Table.update station_model s' t)
          ]
            ≡ (Service.integrity, t)
      write none h = refl
      write (some s') h =
          let (new_code, same) = changed_code c s s' code e h in
          let has_code : same_text u.code code ≡ true =
            find_holds (λ (r : Station). same_text r.code code) t.rows u by_code in
          let clash : same_text s'.code u.code ≡ true =
            ap (λ (k : Text). same_text k u.code) new_code
            ∙ (same_text_sym code u.code ∙ has_code) in
          let away : not (u.id == s'.id) ≡ true = ground (arith, other) in
          ap (answered Service.integrity) (
            update_refused station_model (λ r. same_text r.code code) s' u t by_code
              (both (not (u.id == s'.id)) (same_text s'.code u.code) away clash))

      go :
          (o : Option Station)
          → o ≡ some s
          → elim o as (λ _. Outcome Station × Table Station) [
            | none ↦ (Service.http 404, t)
            | some r ↦ elim (Stations.changed c r) as (λ _. Outcome Station × Table Station) [
              | none ↦ (Service.integrity, t)
              | some s' ↦ answered Service.integrity (Table.update station_model s' t)
            ]
          ]
            ≡ (Service.integrity, t)
      go none h = cc
      go (some r) h =
          let same : s ≡ r = cc in
          subst
            (λ (r : Station).
              elim (Stations.changed c r) as (λ _. Outcome Station × Table Station) [
                | none ↦ (Service.integrity, t)
                | some s' ↦ answered Service.integrity (Table.update station_model s' t)
              ]
              ≡ (Service.integrity, t))
            same (write (Stations.changed c s) refl)

-- A new station with a code that a station has is refused with 409, and a change of another station to
-- that code, with whatever else it changes, with 500. The table stays as it is.
pub station_code_taken :
    (t : Table Station) (i : ℕ) (c : StationUpdate) (payload s u : Station)
    → get station_model i t ≡ some s
    → get_by_code payload.code t ≡ some u
    → u.id ≢ s.id
    → c.code ≡ given payload.code
    → (create_station payload t ≡ (http 409, t)) × (update_station i c t ≡ (http 500, t))
unfolding create_station update_station
station_code_taken t i c payload s u found taken other code = (
  ap or_conflict (create_taken t payload.code u taken payload refl),
  ap respond (update_taken t payload.code u taken i c s found other code),
)
