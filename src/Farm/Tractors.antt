-- ===== src/Farm/Tractors.antt =====
-- `TractorService` of src/services/tractor_service.py, over src/repositories/tractor.py.
use portfolio_cv_project.Common.{
  ◌≡◌, refl, arith, leb, length, ℕ, ◌==◌, Bool, true, false, List, [], ◌∷◌, Option, none, some,
  if◌then◌else◌, find, any, Text,
}
use portfolio_cv_project.Farm.{Tractor, primary_aruco_id, Field}
use portfolio_cv_project.Farm.Table.{Model, Table, get}
use portfolio_cv_project.Farm.Table
use portfolio_cv_project.Farm.Service.{
  Outcome, done, http, integrity, answered, put_null, put, ◌>>=◌,
}

abbrev pub same_primary : Option ℕ → Option ℕ → Bool
same_primary (some a) (some b) = a == b
same_primary _ _ = false

abbrev pub has_marker : Tractor → Bool
has_marker t = elim t.aruco_ids [ [] ↦ false | m ∷ ms ↦ true ]

-- SQL's `array_length(a, 1)`, which is NULL for an empty array.
abbrev pub array_length : List ℕ → Option ℕ
array_length [] = none
array_length (m ∷ ms) = some (length (m ∷ ms))

-- `chk_tractors_aruco_ids_nonempty`: a check that is NULL passes.
abbrev pub is_long_enough : Option ℕ → Bool
is_long_enough none = true
is_long_enough (some n) = leb 1 n

-- `uq_tractors_primary_aruco` and the check; NULL clashes with nothing.
abbrev pub tractor_model : Model Tractor
tractor_model = record {
  key = λ t. t.id;
  with_key = λ i t. record t { id = i };
  clashes = λ t u. same_primary (primary_aruco_id t) (primary_aruco_id u);
  is_allowed = λ t. is_long_enough (array_length t.aruco_ids);
}

-- `WHERE :p = ANY(aruco_ids)` with no ORDER BY: the first row that the scan meets. The rows of `t` stand
-- in the order of that scan, which is the database's.
unfoldable pub get_by_any_aruco_id : ℕ → Table Tractor → Option Tractor
get_by_any_aruco_id aruco_id t = find (λ u. any (λ m. m == aruco_id) u.aruco_ids) t.rows

unfoldable pub get_by_primary_aruco_id : ℕ → Table Tractor → Option Tractor
get_by_primary_aruco_id aruco_id t =
    find (λ u. same_primary (primary_aruco_id u) (some aruco_id)) t.rows

unfoldable pub create : Tractor → Table Tractor → Outcome Tractor × Table Tractor
create payload t =
    if has_marker payload
    then answered (http 409) (Table.create tractor_model payload t)
    else (http 422, t)

pub record TractorUpdate : Type 0 where
  pub name : Field Text
  pub model : Field Text
  pub notes : Field Text
  pub is_active : Field Bool
  pub aruco_ids : Field (List ℕ)

unfoldable pub changed : TractorUpdate → Tractor → Option Tractor
changed c t = do
  aruco_ids ← put c.aruco_ids t.aruco_ids
  name ← put c.name t.name
  active ← put c.is_active t.is_active
  some (record {
    id = t.id;
    aruco_ids = aruco_ids;
    name = name;
    model = put_null c.model t.model;
    notes = put_null c.notes t.notes;
    is_active = active;
  })

unfoldable pub update : ℕ → TractorUpdate → Table Tractor → Outcome Tractor × Table Tractor
unfolding changed
update tractor_id payload t = elim (get tractor_model tractor_id t) [
  | none ↦ (http 404, t)
  | some u ↦ elim (changed payload u) [
    | none ↦ (http 409, t)
    | some u' ↦ answered (http 409) (Table.update tractor_model u' t)
  ]
]

unfoldable pub delete : (ℕ → Bool) → ℕ → Table Tractor → Outcome (Unit {0}) × Table Tractor
delete is_visited tractor_id t = elim (get tractor_model tractor_id t) [
  | none ↦ (http 404, t)
  | some u ↦
      if is_visited tractor_id
      then (integrity, t)
      else (done tt, Table.delete tractor_model tractor_id t)
]

pub same_primary_sym : (a b : Option ℕ) → same_primary a b ≡ same_primary b a
same_primary_sym none none = refl
same_primary_sym none (some b) = refl
same_primary_sym (some a) none = refl
same_primary_sym (some a) (some b) = ground arith
