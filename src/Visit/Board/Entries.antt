-- ===== src/Visit/Board/Entries.antt =====
-- The stations' answer of src/services/visit_service.py, looked up by a station's id.
use portfolio_cv_project.Common.{
  ℕ, ◌==◌, Bool, true, false, ◌&&◌, List, [], ◌∷◌, ◌++◌, map, Option, none, some, if◌then◌else◌,
  find, any, ◌≡◌, refl, sym, ap, ◌∙◌, arith, Bool-cases, inl, inr,
}
use mathlib.Core.List.{append-nil, append_assoc}
use portfolio_cv_project.Clock.{DateTime}
use portfolio_cv_project.Farm.{Station, Tractor}
use portfolio_cv_project.Farm.Table.{Table}
use portfolio_cv_project.Farm.Stations.{station_model}
use portfolio_cv_project.Farm.Sound.{IsSound, Apart, conflicts}
use portfolio_cv_project.Visit.{Visit}
use portfolio_cv_project.Visit.Board.{
  Row, TractorEntry, StationEntry, open_at, tractor_of, joined_visits, outer_rows, join,
  tractor_entry, entries_of, station_entry, add_row, group, get_current_stations,
}

abbrev is_of : ℕ → StationEntry → Bool
is_of i e = e.station_id == i

-- The tractors that the rows have for a station, and the first row of it.
abbrev pub tractors_of : DateTime → ℕ → List Row → List TractorEntry
tractors_of now i [] = []
tractors_of now i (r ∷ rows) =
    let rest = tractors_of now i rows in
    if r.station.id == i then entries_of now r ++ rest else rest

abbrev pub station_of : ℕ → List Row → Option Station
station_of i [] = none
station_of i (r ∷ rows) = if r.station.id == i then some r.station else station_of i rows

-- An entry with more tractors, or a new one if there is a row.
abbrev pub entry_after :
    Option StationEntry → Option Station → List TractorEntry → Option StationEntry
entry_after (some e) s ts = some (record e { tractors = e.tractors ++ ts })
entry_after none none ts = none
entry_after none (some s) ts = some (station_entry s ts)

find-add_row :
    (i : ℕ) (s : Station) (ts : List TractorEntry) (g : List StationEntry)
    → find (is_of i) (add_row s ts g)
      ≡ (if s.id == i then entry_after (find (is_of i) g) (some s) ts else find (is_of i) g)
unfolding add_row
find-add_row i s ts [] = refl
find-add_row i s ts (e ∷ g) = ground (arith, find-add_row i s ts g)

after_row :
    (i : ℕ) (s : Station) (b : Bool) (ts : List TractorEntry) (o : Option StationEntry)
    (later : Option Station) (rest : List TractorEntry)
    → entry_after (if b then entry_after o (some s) ts else o) later rest
      ≡ entry_after o (if b then some s else later) (if b then ts ++ rest else rest)
after_row i s false ts o later rest = refl
after_row i s true ts none later rest = refl
after_row i s true ts (some e) later rest =
    ap (λ us. some (record e { tractors = us })) (append_assoc e.tractors ts rest)

-- Whatever the order of the rows, an entry has the tractors of its rows, in their order, and a
-- station has one exactly when a row has it.
pub group-lookup :
    (now : DateTime) (i : ℕ) (rows : List Row) (g : List StationEntry)
    → find (is_of i) (group now rows g)
      ≡ entry_after (find (is_of i) g) (station_of i rows) (tractors_of now i rows)
unfolding group
group-lookup now i [] g = go (find (is_of i) g)
  where
    go : (o : Option StationEntry) → o ≡ entry_after o none []
    go none = refl
    go (some e) = ap (λ us. some (record e { tractors = us })) (sym (append-nil e.tractors))
group-lookup now i (r ∷ rows) g =
    group-lookup now i rows (add_row r.station (entries_of now r) g)
    ∙ (ap (λ o. entry_after o (station_of i rows) (tractors_of now i rows))
          (find-add_row i r.station (entries_of now r) g)
        ∙ after_row i r.station (r.station.id == i) (entries_of now r) (find (is_of i) g)
            (station_of i rows) (tractors_of now i rows))

-- The entries of a station's visits.
abbrev pub present : DateTime → List Tractor → List Visit → List TractorEntry
present now tractors vs = map (λ v. tractor_entry now (tractor_of tractors v) v) vs

abbrev active_station : ℕ → List Station → Option Station
active_station i stations = find (λ s. s.is_active && s.id == i) stations

tractors_of-append :
    (now : DateTime) (i : ℕ) (a b : List Row)
    → tractors_of now i (a ++ b) ≡ tractors_of now i a ++ tractors_of now i b
tractors_of-append now i [] b = refl
tractors_of-append now i (r ∷ a) b = elim (Bool-cases (r.station.id == i)) [
  | inl e ↦ rw (e, tractors_of-append now i a b) (sym (append_assoc (entries_of now r) _ _))
  | inr e ↦ rw e (tractors_of-append now i a b)
]

tractors_of-joined :
    (now : DateTime) (i : ℕ) (tractors : List Tractor) (s : Station) (vs : List Visit)
    → tractors_of now i (joined_visits tractors s vs)
      ≡ (if s.id == i then present now tractors vs else [])
tractors_of-joined now i tractors s [] = ground arith
tractors_of-joined now i tractors s (v ∷ vs) =
    ground (arith, tractors_of-joined now i tractors s vs)

tractors_of-outer :
    (now : DateTime) (i : ℕ) (tractors : List Tractor) (s : Station) (vs : List Visit)
    → tractors_of now i (outer_rows tractors s vs)
      ≡ (if s.id == i then present now tractors vs else [])
tractors_of-outer now i tractors s [] = ground arith
tractors_of-outer now i tractors s (v ∷ vs) = tractors_of-joined now i tractors s (v ∷ vs)

station_of-outer :
    (i : ℕ) (tractors : List Tractor) (s : Station) (vs : List Visit) (rest : List Row)
    → station_of i (outer_rows tractors s vs ++ rest)
      ≡ (if s.id == i then some s else station_of i rest)
station_of-outer i tractors s [] rest = refl
station_of-outer i tractors s (v ∷ []) rest = refl
station_of-outer i tractors s (v ∷ u ∷ vs) rest =
    ground (arith, station_of-outer i tractors s (u ∷ vs) rest)

module _ (now : DateTime) (i : ℕ) (tractors : List Tractor) (visits : List Visit) where
  station_of-join :
      (stations : List Station)
      → station_of i (join tractors visits stations) ≡ active_station i stations
  unfolding join
  station_of-join [] = refl
  station_of-join (s ∷ stations) = go s.is_active (station_of-join stations)
    where
      go :
          (b : Bool)
          → station_of i (join tractors visits stations) ≡ active_station i stations
          → station_of i (
              if b
              then outer_rows tractors s (open_at s.id visits) ++ join tractors visits stations
              else join tractors visits stations)
            ≡ (if b && s.id == i then some s else active_station i stations)
      go true rest =
          station_of-outer i tractors s (open_at s.id visits) (join tractors visits stations)
          ∙ ap (λ o. if s.id == i then some s else o) rest
      go false rest = rest

  abbrev present_at : Option Station → List TractorEntry
  present_at none = []
  present_at (some s) = present now tractors (open_at s.id visits)

  no_other :
      (s : Station) (stations : List Station)
      → any (conflicts station_model s) stations ≡ false
      → s.id == i ≡ true
      → active_station i stations ≡ none
  no_other s [] h e = refl
  no_other s (u ∷ stations) h e = ground (arith, no_other s stations)

  tractors_of-join :
      (stations : List Station)
      → Apart station_model stations
      → tractors_of now i (join tractors visits stations) ≡ present_at (active_station i stations)
  unfolding join
  tractors_of-join [] h = refl
  tractors_of-join (s ∷ stations) h =
      go s.is_active (s.id == i) refl (tractors_of-join stations h.1)
    where
      choose :
          {b : Bool}
          → s.id == i ≡ b
          → (if s.id == i then present now tractors (open_at s.id visits) else [])
            ≡ (if b then present now tractors (open_at s.id visits) else [])
      choose e = ap (λ x. if x then present now tractors (open_at s.id visits) else []) e

      go :
          (a b : Bool)
          → s.id == i ≡ b
          → tractors_of now i (join tractors visits stations)
            ≡ present_at (active_station i stations)
          → tractors_of now i (
              if a
              then outer_rows tractors s (open_at s.id visits) ++ join tractors visits stations
              else join tractors visits stations)
            ≡ present_at (if a && b then some s else active_station i stations)
      go false b e rest = rest
      go true false e rest =
          tractors_of-append now i (outer_rows tractors s (open_at s.id visits)) _
          ∙ (ap (λ ts. ts ++ tractors_of now i (join tractors visits stations))
                (tractors_of-outer now i tractors s (open_at s.id visits) ∙ choose e)
              ∙ rest)
      go true true e rest =
          tractors_of-append now i (outer_rows tractors s (open_at s.id visits)) _
          ∙ (ap (λ ts. ts ++ tractors_of now i (join tractors visits stations))
                (tractors_of-outer now i tractors s (open_at s.id visits) ∙ choose e)
              ∙ (ap (λ ts. present now tractors (open_at s.id visits) ++ ts)
                    (rest ∙ ap present_at (no_other s stations h.0 e))
                  ∙ append-nil _))

-- The entry that a station should have: its code and name, and each tractor with an open visit there.
abbrev pub board : DateTime → List Tractor → List Visit → Option Station → Option StationEntry
board now tractors visits none = none
board now tractors visits (some s) =
    some (station_entry s (present now tractors (open_at s.id visits)))

-- In a table of distinct stations an id is answered exactly when an active station has it, with that
-- station's code and name and one tractor for each open visit there, in the order of the visits.
pub get_current_stations-lookup :
    (now : DateTime) (stations : Table Station) (visits : List Visit) (tractors : List Tractor)
    (i : ℕ)
    → IsSound station_model stations
    → find (λ e. e.station_id == i) (get_current_stations now stations.rows visits tractors)
      ≡ board now tractors visits (find (λ s. s.is_active && s.id == i) stations.rows)
unfolding get_current_stations
get_current_stations-lookup now stations visits tractors i sound =
    group-lookup now i (join tractors visits stations.rows) []
    ∙ rw
        (
          station_of-join now i tractors visits stations.rows,
          tractors_of-join now i tractors visits stations.rows sound.apart,
        )
        (go (active_station i stations.rows))
  where
    go :
        (o : Option Station)
        → entry_after none o (present_at now i tractors visits o) ≡ board now tractors visits o
    go none = refl
    go (some s) = refl
