-- ===== src/Visit/Store.antt =====
-- The `visits` table behind one database session: the queries of src/repositories/visit.py, the
-- partial unique index and foreign keys of src/models/visit.py, and what `flush`, `rollback` and
-- `commit` do to the rows. Rows stand in the order of their ids. `rows` is what the session sees,
-- `committed` what a rollback leaves. The objects that the service holds are the rows themselves,
-- so the service keeps ids and reads a row when it uses it.
use portfolio_cv_project.Common.{
  ℕ, ◌+◌, ◌==◌, Bool, ◌&&◌, List, [], ◌∷◌, ◌++◌, Option, none, some, keep, find, any, if◌then◌else◌,
  Result, ok, raise, integrity_error, instance_gone,
}
use portfolio_cv_project.Clock.{DateTime}
use portfolio_cv_project.Visit.{is_open, Visit, StatusChange}
use portfolio_cv_project.Visit.Machine.{Effect}

pub record World : Type 0 where
  pub rows : List Visit
  pub committed : List Visit
  pub next_id : ℕ
  pub published : List StatusChange
  pub rollbacks : ℕ

-- What the database knows beside the visits: the transaction's CURRENT_TIMESTAMP and the rows that
-- the foreign keys refer to.
pub record Database : Type 0 where
  pub current_timestamp : DateTime
  pub tractor_exists : ℕ → Bool
  pub station_exists : ℕ → Bool

-- The rows that the partial index `uq_visit_open` compares.
abbrev pub open_at : ℕ → ℕ → Visit → Bool
open_at tractor_id station_id v =
    v.tractor_id == tractor_id && (v.station_id == station_id && is_open v.state)

abbrev pub open_for_station : ℕ → Visit → Bool
open_for_station station_id v = v.station_id == station_id && is_open v.state

abbrev pub open_for_tractor : ℕ → Visit → Bool
open_for_tractor tractor_id v = v.tractor_id == tractor_id && is_open v.state

unfoldable pub list_open : List Visit → List Visit
list_open rows = keep (λ v. is_open v.state) rows

unfoldable pub list_open_for_station : ℕ → List Visit → List Visit
list_open_for_station station_id rows = keep (open_for_station station_id) rows

unfoldable pub list_open_for_tractor : ℕ → List Visit → List Visit
list_open_for_tractor tractor_id rows = keep (open_for_tractor tractor_id) rows

unfoldable pub get_open_for_pair : ℕ → ℕ → List Visit → Option Visit
get_open_for_pair tractor_id station_id rows = find (open_at tractor_id station_id) rows

abbrev pub has_id : ℕ → Visit → Bool
has_id i v = v.id == i

-- Reading a held object; one whose row a rollback or a delete took away cannot be refreshed.
unfoldable pub load : ℕ → World → Result Visit
load i w = elim (find (has_id i) w.rows) [ some v ↦ ok v | none ↦ raise instance_gone ]

abbrev pub save : Visit → List Visit → List Visit
save v [] = []
save v (r ∷ rows) = if r.id == v.id then v ∷ rows else r ∷ save v rows

abbrev pub delete : ℕ → List Visit → List Visit
delete i [] = []
delete i (r ∷ rows) = if r.id == i then rows else r ∷ delete i rows

-- `session.add(visit)` or `session.delete(visit)` after a method changed the row, and its
-- publications.
unfoldable pub store : Effect → World → World
store e w = record w {
  rows = if e.deleted then delete e.visit.id w.rows else save e.visit w.rows;
  published = w.published ++ e.published;
}

-- `session.add` and `session.flush` of a new row, which takes the next id. The index and the foreign
-- keys may refuse it.
unfoldable pub flush_new : Database → Visit → World → Result World
flush_new db v w =
    if any (open_at v.tractor_id v.station_id) w.rows
    then raise integrity_error
    else (if db.tractor_exists v.tractor_id && db.station_exists v.station_id
        then ok (record w { rows = w.rows ++ v ∷ []; next_id = w.next_id + 1 })
        else raise integrity_error)

-- A rollback gives back no id. It takes the session's other tables back too, so it is counted here.
unfoldable pub rollback : World → World
rollback w = record w { rows = w.committed; next_id = w.next_id + 1; rollbacks = w.rollbacks + 1 }

unfoldable pub commit : World → World
commit w = record w { committed = w.rows }
