-- ===== src/Router/Farm/Marked.antt =====
-- A primary marker that another tractor has, at the endpoints of src/router/v1/tractor.py.
use portfolio_cv_project.Common.{
  ℕ, ◌+◌, ◌==◌, Bool, true, false, not, List, [], ◌∷◌, Option, none, some, find, any, ◌≡◌, ◌≢◌,
  refl, ap, ◌∙◌, arith,
}
use portfolio_cv_project.Event.Ingest.{http}
use portfolio_cv_project.Farm.{Tractor, primary_aruco_id, given}
use portfolio_cv_project.Farm.Table.{Table, Model, get, is_taken, has_key}
use portfolio_cv_project.Farm.Table
use portfolio_cv_project.Farm.Service.{Outcome, answered}
use portfolio_cv_project.Farm.Service
use portfolio_cv_project.Farm.Tractors
use portfolio_cv_project.Farm.Tractors.{
  tractor_model, TractorUpdate, get_by_primary_aruco_id, same_primary, has_marker,
}
use portfolio_cv_project.Farm.Tractors.{same_primary_sym}
use mathlib.Core.Path.{subst}
use portfolio_cv_project.Router.Farm.{
  respond, or_conflict, public_reply, create_tractor, update_tractor,
}
use portfolio_cv_project.Farm.Clash.{find_holds, find-any, both, update_refused}

changed_primary :
    (c : TractorUpdate) (s s' : Tractor) (ids : List ℕ)
    → c.aruco_ids ≡ given ids
    → Tractors.changed c s ≡ some s'
    → (s'.aruco_ids ≡ ids) × (s'.id ≡ s.id)
unfolding Tractors.changed
changed_primary c s s' ids e h = (ground arith, ground arith)

module _ (t : Table Tractor) (m : ℕ) (ms : List ℕ) (u : Tractor)
    (taken : get_by_primary_aruco_id m t ≡ some u) where
  by_primary : find (λ r. same_primary (primary_aruco_id r) (some m)) t.rows ≡ some u
  unfolding get_by_primary_aruco_id
  by_primary = taken

  -- A row with these markers clashes with `u`.
  clashing : (r : Tractor) → r.aruco_ids ≡ m ∷ ms → tractor_model.clashes r u ≡ true
  clashing r e =
      let has : same_primary (primary_aruco_id u) (some m) ≡ true =
        find_holds (λ (r : Tractor). same_primary (primary_aruco_id r) (some m)) t.rows u
          by_primary in
      ap
        (λ (ids : List ℕ).
          same_primary (elim ids as (λ _. Option ℕ) [ [] ↦ none | k ∷ ks ↦ some k ])
            (primary_aruco_id u))
        e
      ∙ (same_primary_sym (some m) (primary_aruco_id u) ∙ has)

  create_tractor_taken :
      (payload : Tractor)
      → payload.aruco_ids ≡ m ∷ ms
      → Tractors.create payload t ≡ (Service.http 409, record t { next_id = t.next_id + 1 })
  unfolding Tractors.create Table.create
  create_tractor_taken payload e =
      let new : Tractor = record payload { id = t.next_id } in
      let found : any (tractor_model.clashes new) t.rows ≡ true =
        find-any (λ (r : Tractor). same_primary (primary_aruco_id r) (some m))
          (tractor_model.clashes new) t.rows u by_primary (clashing new e) in
      let marked : has_marker payload ≡ true =
        ap (λ (ids : List ℕ). elim ids as (λ _. Bool) [ [] ↦ false | k ∷ ks ↦ true ]) e in
      rw (marked) (rw found refl)

  update_tractor_taken :
      (i : ℕ) (c : TractorUpdate) (s : Tractor)
      → get tractor_model i t ≡ some s
      → u.id ≢ s.id
      → c.aruco_ids ≡ given (m ∷ ms)
      → Tractors.update i c t ≡ (Service.http 409, t)
  unfolding Tractors.update
  update_tractor_taken i c s found other e = go (get tractor_model i t) found
    where
      write :
          (o : Option Tractor)
          → Tractors.changed c s ≡ o
          → elim o as (λ _. Outcome Tractor × Table Tractor) [
            | none ↦ (Service.http 409, t)
            | some s' ↦ answered (Service.http 409) (Table.update tractor_model s' t)
          ]
            ≡ (Service.http 409, t)
      write none h = refl
      write (some s') h =
          let (new_ids, same) = changed_primary c s s' (m ∷ ms) e h in
          let clash : tractor_model.clashes s' u ≡ true = clashing s' new_ids in
          let away : not (u.id == s'.id) ≡ true = ground (arith, other) in
          ap (answered (Service.http 409)) (
            update_refused tractor_model (λ r. same_primary (primary_aruco_id r) (some m)) s' u t
              by_primary (both (not (u.id == s'.id)) (tractor_model.clashes s' u) away clash))

      go :
          (o : Option Tractor)
          → o ≡ some s
          → elim o as (λ _. Outcome Tractor × Table Tractor) [
            | none ↦ (Service.http 404, t)
            | some r ↦ elim (Tractors.changed c r) as (λ _. Outcome Tractor × Table Tractor) [
              | none ↦ (Service.http 409, t)
              | some s' ↦ answered (Service.http 409) (Table.update tractor_model s' t)
            ]
          ]
            ≡ (Service.http 409, t)
      go none h = cc
      go (some r) h =
          let same : s ≡ r = cc in
          subst
            (λ (r : Tractor).
              elim (Tractors.changed c r) as (λ _. Outcome Tractor × Table Tractor) [
                | none ↦ (Service.http 409, t)
                | some s' ↦ answered (Service.http 409) (Table.update tractor_model s' t)
              ]
              ≡ (Service.http 409, t))
            same (write (Tractors.changed c s) refl)

-- A new tractor with a primary marker that is another's, and a change of a tractor to such markers, are
-- refused with 409. No row changes; the refused insert uses up an id.
pub tractor_primary_taken :
    (t : Table Tractor) (i m : ℕ) (ms : List ℕ) (c : TractorUpdate) (payload s u : Tractor)
    → get tractor_model i t ≡ some s
    → get_by_primary_aruco_id m t ≡ some u
    → u.id ≢ s.id
    → c.aruco_ids ≡ given (m ∷ ms)
    → payload.aruco_ids ≡ m ∷ ms
    → (create_tractor payload t ≡ (http 409, record t { next_id = t.next_id + 1 }))
      × (update_tractor i c t ≡ (http 409, t))
unfolding create_tractor update_tractor
tractor_primary_taken t i m ms c payload s u found taken other ids new = (
  ap (λ r. public_reply (or_conflict r)) (create_tractor_taken t m ms u taken payload new),
  ap (λ r. public_reply (respond r)) (update_tractor_taken t m ms u taken i c s found other ids),
)
