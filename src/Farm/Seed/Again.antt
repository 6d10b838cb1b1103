-- ===== src/Farm/Seed/Again.antt =====
-- What a second run of scripts/seed_reference.py does.
use portfolio_cv_project.Common.{
  ℕ, ◌+◌, ==_refl, Bool, true, false, ◌||◌, List, [], ◌∷◌, ◌++◌, some, if◌then◌else◌, any,
  same_text, All, ◌⊎◌, same_text_refl, same_text_sym, ◌≡◌, refl, ap, ◌∙◌, arith, Bool-cases, inl,
  inr,
}
use portfolio_cv_project.Farm.{Station, Tractor, primary_aruco_id}
use portfolio_cv_project.Farm.Table.{Model, Table, Flushed, stored, refused}
use portfolio_cv_project.Farm.Table
use portfolio_cv_project.Farm.Stations.{station_model}
use portfolio_cv_project.Farm.Tractors.{tractor_model, same_primary}
use portfolio_cv_project.Farm.Sound.{table_of}
use portfolio_cv_project.Farm.Tractors.{same_primary_sym}
use portfolio_cv_project.Farm.Seed.{
  seed_code, Texts, seed_station, seed_tractor, up_to, seed_rows, has_code, has_primary,
  seed_stations, seed_tractors,
}

module _ {A : Type 0} (m : Model A) (row : ℕ → A) (same : ℕ → A → Bool)
    (keyed : (i n : ℕ) → same i (m.with_key n (row i)) ≡ true)
    (allowed : (i n : ℕ) → m.is_allowed (m.with_key n (row i)) ≡ true)
    (clash : (i n : ℕ) (a : A) → m.clashes (m.with_key n (row i)) a ≡ same i a) where
  abbrev present : ℕ → List A → Bool
  present i rows = any (same i) rows

  any-append : (p : A → Bool) (xs ys : List A) → any p (xs ++ ys) ≡ any p xs || any p ys
  any-append p [] ys = refl
  any-append p (x ∷ xs) ys = ground (arith, any-append p xs ys)

  any-clashes :
      (i n : ℕ) (rows : List A) → any (m.clashes (m.with_key n (row i))) rows ≡ present i rows
  any-clashes i n [] = refl
  any-clashes i n (a ∷ rows) = ground (arith, clash i n a, any-clashes i n rows)

  create_lem :
      (i : ℕ) (t : Table A)
      → (table_of (Table.create m (row i) t)).rows
        ≡ (if present i t.rows then t.rows else t.rows ++ (m.with_key t.next_id (row i) ∷ []))
  unfolding Table.create
  create_lem i t = rw (any-clashes i t.next_id t.rows, allowed i t.next_id) (go (present i t.rows))
    where
      new : A
      new = m.with_key t.next_id (row i)

      go :
          (b : Bool)
          → (table_of (
              if b || false
              then refused (record t { next_id = t.next_id + 1 })
              else stored new
                  (record { rows = t.rows ++ (new ∷ []); next_id = t.next_id + 1 }))).rows
            ≡ (if b then t.rows else t.rows ++ (new ∷ []))
      go true = refl
      go false = refl

  -- A wanted row is there after its turn, and nothing goes.
  create-present :
      (i : ℕ) (t : Table A) → present i (table_of (Table.create m (row i) t)).rows ≡ true
  create-present i t = ap (present i) (create_lem i t) ∙ go (Bool-cases (present i t.rows))
    where
      new : A
      new = m.with_key t.next_id (row i)

      go :
          (present i t.rows ≡ true) ⊎ (present i t.rows ≡ false)
          → present i (if present i t.rows then t.rows else t.rows ++ (new ∷ [])) ≡ true
      go (inl old) = rw old old
      go (inr fresh) =
          rw fresh (any-append (same i) t.rows (new ∷ []) ∙ ground (arith, keyed i t.next_id))

  create_grows :
      (p : A → Bool) (i : ℕ) (t : Table A)
      → any p t.rows ≡ true
      → any p (table_of (Table.create m (row i) t)).rows ≡ true
  create_grows p i t h = ap (any p) (create_lem i t) ∙ go (present i t.rows)
    where
      new : A
      new = m.with_key t.next_id (row i)

      go : (b : Bool) → any p (if b then t.rows else t.rows ++ (new ∷ [])) ≡ true
      go true = h
      go false = any-append p t.rows (new ∷ []) ∙ ground (arith, h)

  seed_rows-grows :
      (p : A → Bool) (is : List ℕ) (existing : List A) (t : Table A)
      → any p t.rows ≡ true
      → any p (seed_rows m row present is existing t).rows ≡ true
  unfolding seed_rows
  seed_rows-grows p [] existing t h = h
  seed_rows-grows p (i ∷ is) existing t h =
      seed_rows-grows p is existing _ (go (present i existing))
    where
      go : (b : Bool) → any p (if b then t else table_of (Table.create m (row i) t)).rows ≡ true
      go true = h
      go false = create_grows p i t h

  seed_rows-present :
      (is : List ℕ) (existing : List A) (t : Table A)
      → ((i : ℕ) → present i existing ≡ true → present i t.rows ≡ true)
      → All (λ i. present i (seed_rows m row present is existing t).rows ≡ true) is
  unfolding seed_rows
  seed_rows-present [] existing t h = tt
  seed_rows-present (i ∷ is) existing t h = (
    seed_rows-grows (same i) is existing t' (here (Bool-cases (present i existing))),
    seed_rows-present is existing t' (λ j e. kept (present i existing) j (h j e)),
  )
    where
      t' : Table A
      t' = if present i existing then t else table_of (Table.create m (row i) t)

      kept :
          (b : Bool) (j : ℕ)
          → present j t.rows ≡ true
          → present j (if b then t else table_of (Table.create m (row i) t)).rows ≡ true
      kept true j e = e
      kept false j e = create_grows (same j) i t e

      here :
          (present i existing ≡ true) ⊎ (present i existing ≡ false)
          → present i (if present i existing then t else table_of (Table.create m (row i) t)).rows
            ≡ true
      here (inl old) = rw old (h i old)
      here (inr new) = rw new (create-present i t)

  seed_rows_idle :
      (is : List ℕ) (existing : List A) (t : Table A)
      → All (λ i. present i existing ≡ true) is
      → seed_rows m row present is existing t ≡ t
  unfolding seed_rows
  seed_rows_idle [] existing t h = refl
  seed_rows_idle (i ∷ is) existing t h = rw h.0 (seed_rows_idle is existing t h.1)

module _ (c : Texts) where
  seeded_stations :
      (t : Table Station) → All (λ i. has_code i (seed_stations c false t).rows ≡ true) (up_to 35)
  unfolding seed_stations
  seeded_stations t =
      seed_rows-present station_model (seed_station c) (λ i s. same_text s.code (seed_code i))
        (λ i n. same_text_refl (seed_code i)) (λ i n. refl)
        (λ i n s. same_text_sym (seed_code i) s.code) (up_to 35) t.rows t (λ i e. e)

  seeded_tractors :
      (t : Table Tractor) → All (λ i. has_primary i (seed_tractors c false t).rows ≡ true) (up_to 6)
  unfolding seed_tractors
  seeded_tractors t =
      seed_rows-present tractor_model (seed_tractor c)
        (λ i u. same_primary (primary_aruco_id u) (some i)) (λ i n. ==_refl i) (λ i n. refl)
        (λ i n u. same_primary_sym (some i) (primary_aruco_id u)) (up_to 6) t.rows t (λ i e. e)

  idle_stations :
      (t : Table Station)
      → All (λ i. has_code i t.rows ≡ true) (up_to 35)
      → seed_stations c false t ≡ t
  unfolding seed_stations
  idle_stations t h =
      seed_rows_idle station_model (seed_station c) (λ i s. same_text s.code (seed_code i))
        (λ i n. same_text_refl (seed_code i)) (λ i n. refl)
        (λ i n s. same_text_sym (seed_code i) s.code) (up_to 35) t.rows t h

  idle_tractors :
      (t : Table Tractor)
      → All (λ i. has_primary i t.rows ≡ true) (up_to 6)
      → seed_tractors c false t ≡ t
  unfolding seed_tractors
  idle_tractors t h =
      seed_rows_idle tractor_model (seed_tractor c)
        (λ i u. same_primary (primary_aruco_id u) (some i)) (λ i n. ==_refl i) (λ i n. refl)
        (λ i n u. same_primary_sym (some i) (primary_aruco_id u)) (up_to 6) t.rows t h

  -- After seeding, the stations STATION_01 to STATION_35 and tractors with the primary markers 1 to 6
  -- are there, whatever was there before; and seeding again without a reset changes neither table.
  pub seed_again :
      (stations : Table Station) (tractors : Table Tractor)
      → All (λ i. has_code i (seed_stations c false stations).rows ≡ true) (up_to 35)
        × All (λ i. has_primary i (seed_tractors c false tractors).rows ≡ true) (up_to 6)
        × (seed_stations c false (seed_stations c false stations) ≡ seed_stations c false stations)
        × (seed_tractors c false (seed_tractors c false tractors) ≡ seed_tractors c false tractors)
  seed_again stations tractors =
      let s = seeded_stations stations in
      let t = seeded_tractors tractors in
      (
        s,
        t,
        idle_stations (seed_stations c false stations) s,
        idle_tractors (seed_tractors c false tractors) t,
      )
