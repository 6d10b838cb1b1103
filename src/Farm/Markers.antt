-- ===== src/Farm/Markers.antt =====
-- What a lookup of a station finds after a create: by id and by code.
use portfolio_cv_project.Common.{
  ℕ, ◌+◌, Bool, true, false, not, ◌||◌, List, [], ◌∷◌, ◌++◌, Option, none, some, if◌then◌else◌, ◌≡◌,
  refl, sym, ◌∙◌, inl, inr, find, any, arith, same_text, same_text_refl, ==_refl, All, Bool-cases,
}
use mathlib.Core.Path.{subst}
use portfolio_cv_project.Farm.{Station}
use portfolio_cv_project.Farm.Table.{Model, Table, Flushed, stored, refused, has_key, get}
use portfolio_cv_project.Farm.Table
use portfolio_cv_project.Farm.Service.{Outcome, done, http, integrity, answered}
use portfolio_cv_project.Farm.Stations
use portfolio_cv_project.Farm.Stations.{station_model, get_by_code}
use portfolio_cv_project.Farm.Sound.{IsBelow}

-- The first of two results.
abbrev pub or_then : {A : Type 0} → Option A → Option A → Option A
or_then none b = b
or_then (some a) b = some a

find-append :
    {A : Type 0} (p : A → Bool) (rows : List A) (a : A)
    → p a ≡ true
    → find p (rows ++ (a ∷ [])) ≡ or_then (find p rows) (some a)
find-append p [] a h = rw h
find-append p (b ∷ rows) a h = elim (Bool-cases (p b)) [
  | inl e ↦ rw e
  | inr e ↦ rw e (find-append p rows a h)
]

-- A flush that stores leaves the row last, under the next id.
create-stored :
    {A : Type 0} (m : Model A) (a b : A) (t t' : Table A)
    → Table.create m a t ≡ stored b t'
    → (b ≡ m.with_key t.next_id a) × (t'.rows ≡ t.rows ++ (b ∷ []))
unfolding Table.create
create-stored {A = A} m a b t t' e = go (any (m.clashes new) t.rows || not (m.is_allowed new)) e
  where
    new : A
    new = m.with_key t.next_id a

    go :
        (bad : Bool)
        → (if bad
            then refused (record t { next_id = t.next_id + 1 })
            else stored new (record { rows = t.rows ++ (new ∷ []); next_id = t.next_id + 1 }))
          ≡ stored b t'
        → (b ≡ new) × (t'.rows ≡ t.rows ++ (b ∷ []))
    go true e = cc
    go false e = (cc, cc)

abbrev is_done : {A : Type 0} → Outcome A → Bool
is_done (done a) = true
is_done (http n) = false
is_done integrity = false

create-done :
    {A : Type 0} (m : Model A) (o : Outcome A) (a b : A) (t t' : Table A)
    → is_done o ≡ false
    → answered o (Table.create m a t) ≡ (done b, t')
    → (b ≡ m.with_key t.next_id a) × (t'.rows ≡ t.rows ++ (b ∷ []))
create-done {A = A} m o a b t t' failing e = go (Table.create m a t) refl e
  where
    go :
        (f : Flushed A)
        → Table.create m a t ≡ f
        → answered o f ≡ (done b, t')
        → (b ≡ m.with_key t.next_id a) × (t'.rows ≡ t.rows ++ (b ∷ []))
    go (stored c u) k e = create-stored m a b t t' cc
    go (refused u) k e = let lost : o ≡ done b = cc in let odd : is_done o ≡ true = rw lost in cc

create_station_done :
    (payload u : Station) (t t' : Table Station)
    → Stations.create payload t ≡ (done u, t')
    → (get_by_code payload.code t ≡ none)
      × (u ≡ record payload { id = t.next_id })
      × (t'.rows ≡ t.rows ++ (u ∷ []))
unfolding Stations.create
create_station_done payload u t t' e = go (get_by_code payload.code t) refl e
  where
    go :
        (found : Option Station)
        → get_by_code payload.code t ≡ found
        → elim found as (λ _. Outcome Station × Table Station) [
          | some _ ↦ (http 409, t)
          | none ↦ answered integrity (Table.create station_model payload t)
        ]
          ≡ (done u, t')
        → (get_by_code payload.code t ≡ none)
          × (u ≡ record payload { id = t.next_id })
          × (t'.rows ≡ t.rows ++ (u ∷ []))
    go (some v) k e = cc
    go none k e =
        let (new, grown) = create-done station_model integrity payload u t t' refl e in
        (k, new, grown)

unused_id :
    {A : Type 0} (m : Model A) (n : ℕ) (rows : List A)
    → All (IsBelow m n) rows
    → find (has_key m n) rows ≡ none
unused_id m n [] h = refl
unused_id m n (b ∷ rows) h = ground (arith, unused_id m n rows)

-- In a table whose ids are below the next one, a station that `create` answers with is found by its
-- code and by its id.
pub get_by_code-create :
    (payload u : Station) (t t' : Table Station)
    → All (IsBelow station_model t.next_id) t.rows
    → Stations.create payload t ≡ (done u, t')
    → (get_by_code payload.code t' ≡ some u) × (get station_model u.id t' ≡ some u)
unfolding get_by_code get
get_by_code-create payload u t t' below e =
    let (absent, new, grown) = create_station_done payload u t t' e in
    let coded : same_text u.code payload.code ≡ true = rw new (same_text_refl payload.code) in
    let id : u.id ≡ t.next_id = rw new in
    let unused : find (has_key station_model u.id) t.rows ≡ none =
      subst (λ i. find (has_key station_model i) t.rows ≡ none) (sym id)
        (unused_id station_model t.next_id t.rows below) in
    (
      rw grown (find-append (λ v. same_text v.code payload.code) t.rows u coded ∙ rw absent),
      rw grown (find-append (has_key station_model u.id) t.rows u (==_refl u.id) ∙ rw unused),
    )
