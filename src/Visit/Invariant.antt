-- ===== src/Visit/Invariant.antt =====
-- What holds of the `visits` table as a whole when a row is stored, deleted or created.
use portfolio_cv_project.Common.{
  ℕ, ◌+◌, ◌≤◌, ◌<◌, ◌≡◌, refl, inl, inr, ◌==◌, ==→eq, false, List, [], ◌∷◌, ◌++◌, Option, some,
  arith, Bool-cases, find, tally, any, All, All-append, Result, ok, raise,
}
use mathlib.Core.Path.{subst, subst₂}
use portfolio_cv_project.Clock.{DateTime}
use portfolio_cv_project.Visit.{Visit}
use portfolio_cv_project.Visit.Machine.{Effect}
use portfolio_cv_project.Visit.Store.{World, Database, open_at, has_id, store, flush_new, rollback}
use portfolio_cv_project.Visit.Rows.{
  IsKept, All-find, All-save, All-delete, tally-save-le, tally-delete-le, tally_of_any-false,
  tally-append,
}
use portfolio_cv_project.Visit.Process.{new_visit, create_or_get_open_visit, adopt}
use portfolio_cv_project.Visit.Rows.{
  IsBelow, tally_id-fresh, All-IsBelow-suc, tally_id-save-le, tally_id-delete-le,
}
use portfolio_cv_project.Visit.Times.{IsWellFormed}

-- The rows of a table: each well formed, with a key of its own, and no two open for one tractor
-- at one station.
pub record IsTable (rows : List Visit) : Type 0 where
  pub formed : All IsWellFormed rows
  pub one_open : (t s : ℕ) → tally (open_at t s) rows ≤ 1
  pub distinct : (i : ℕ) → tally (has_id i) rows ≤ 1

pub record IsValid (w : World) : Type 0 where
  pub now : IsTable w.rows
  pub before : IsTable w.committed
  pub fresh : All (IsBelow w.next_id) w.rows
  pub fresh_before : All (IsBelow w.next_id) w.committed

store-IsTable :
    (e : Effect) (v : Visit) (w : World)
    → find (has_id e.visit.id) w.rows ≡ some v
    → IsKept v e.visit
    → IsWellFormed e.visit
    → IsTable w.rows
    → IsTable (store e w).rows
unfolding store
store-IsTable e v w found kept formed h = elim (Bool-cases e.deleted) [
  | inl d ↦ rw d (record {
    formed = All-delete IsWellFormed e.visit.id w.rows h.formed;
    one_open = λ t s. omega (arith, tally-delete-le t s e.visit.id w.rows, h.one_open t s);
    distinct = λ i. omega (arith, tally_id-delete-le i e.visit.id w.rows, h.distinct i);
  })
  | inr d ↦ rw d (record {
    formed = All-save IsWellFormed e.visit w.rows formed h.formed;
    one_open = λ t s. omega (arith, tally-save-le t s v e.visit w.rows found kept, h.one_open t s);
    distinct = λ i. omega (arith, tally_id-save-le i e.visit w.rows, h.distinct i);
  })
]

append_one_open :
    (v : Visit) (rows : List Visit) (t s : ℕ)
    → any (open_at v.tractor_id v.station_id) rows ≡ false
    → tally (open_at t s) rows ≤ 1
    → tally (open_at t s) (rows ++ v ∷ []) ≤ 1
append_one_open v rows t s free h = elim (Bool-cases (open_at t s v)) [
  | inl a ↦
      let p : v.tractor_id ≡ t = ground arith in
      let q : v.station_id ≡ s = ground arith in
      let none_here : tally (open_at t s) rows ≡ 0 =
        subst₂ (λ t s. tally (open_at t s) rows ≡ 0) p q
          (tally_of_any-false (open_at v.tractor_id v.station_id) rows free) in
      ground (arith, tally-append (open_at t s) rows (v ∷ []))
  | inr a ↦ ground (arith, tally-append (open_at t s) rows (v ∷ []))
]

append_distinct :
    (v : Visit) (rows : List Visit) (i : ℕ)
    → All (IsBelow v.id) rows
    → tally (has_id i) rows ≤ 1
    → tally (has_id i) (rows ++ v ∷ []) ≤ 1
append_distinct v rows i fresh h = elim (Bool-cases (v.id == i)) [
  | inl a ↦
      let p : v.id ≡ i = ==→eq v.id i a in
      let none_here : tally (has_id i) rows ≡ 0 =
        subst (λ j. tally (has_id j) rows ≡ 0) p (tally_id-fresh v.id rows fresh) in
      ground (arith, tally-append (has_id i) rows (v ∷ []))
  | inr a ↦ ground (arith, tally-append (has_id i) rows (v ∷ []))
]

append-IsTable :
    (v : Visit) (rows : List Visit)
    → any (open_at v.tractor_id v.station_id) rows ≡ false
    → All (IsBelow v.id) rows
    → IsWellFormed v
    → IsTable rows
    → IsTable (rows ++ v ∷ [])
append-IsTable v rows free fresh formed h = record {
  formed = All-append IsWellFormed rows (v ∷ []) h.formed (formed, tt);
  one_open = λ t s. append_one_open v rows t s free (h.one_open t s);
  distinct = λ i. append_distinct v rows i fresh (h.distinct i);
}

-- What a flush that succeeds has checked, and the session after it.
pub flush_new-ok :
    (db : Database) (v : Visit) (w w' : World)
    → flush_new db v w ≡ ok w'
    → (any (open_at v.tractor_id v.station_id) w.rows ≡ false)
      × (w' ≡ record w { rows = w.rows ++ v ∷ []; next_id = w.next_id + 1 })
unfolding flush_new
flush_new-ok db v w w' e = ground arith

pub create-IsValid :
    (db : Database) (tractor_id station_id : ℕ) (t : DateTime) (i : Option ℕ) (w : World)
    → IsValid w
    → IsValid (create_or_get_open_visit db tractor_id station_id t i w).0
unfolding create_or_get_open_visit adopt rollback
create-IsValid db tractor_id station_id t i w h = go (flush_new db v w) refl
  where
    v : Visit
    v = new_visit db tractor_id station_id t i w.next_id

    later : (rows : List Visit) → All (IsBelow w.next_id) rows → All (IsBelow (w.next_id + 1)) rows
    later = All-IsBelow-suc w.next_id

    go :
        (r : Result World)
        → flush_new db v w ≡ r
        → IsValid (create_or_get_open_visit db tractor_id station_id t i w).0
    go (ok w') e =
        let (free, made) = flush_new-ok db v w w' e in
        let this : IsBelow (w.next_id + 1) v = omega arith in
        rw (e, create_or_get_open_visit, made)
          (record {
            now = append-IsTable v w.rows free h.fresh tt h.now;
            before = h.before;
            fresh = All-append _ w.rows (v ∷ []) (later w.rows h.fresh) (this, tt);
            fresh_before = later w.committed h.fresh_before;
          })
    go (raise x) e =
        let old = later w.committed h.fresh_before in
        rw (e, create_or_get_open_visit)
          (record { now = h.before; before = h.before; fresh = old; fresh_before = old })

store_fresh :
    (e : Effect) (v : Visit) (w : World)
    → find (has_id e.visit.id) w.rows ≡ some v
    → IsKept v e.visit
    → All (IsBelow w.next_id) w.rows
    → All (IsBelow (store e w).next_id) (store e w).rows
unfolding store
store_fresh e v w found kept h = elim (Bool-cases e.deleted) [
  | inl d ↦ rw d (All-delete _ e.visit.id w.rows h)
  | inr d ↦
      let old : v.id < w.next_id = All-find _ e.visit.id w.rows found h in
      rw d (All-save _ e.visit w.rows (rw kept.same_id old) h)
]

pub store-IsValid :
    (e : Effect) (v : Visit) (w : World)
    → find (has_id e.visit.id) w.rows ≡ some v
    → IsKept v e.visit
    → IsWellFormed e.visit
    → IsValid w
    → IsValid (store e w)
store-IsValid e v w found kept formed h = record {
  now = store-IsTable e v w found kept formed h.now;
  before = unfold store in h.before;
  fresh = store_fresh e v w found kept h.fresh;
  fresh_before = unfold store in h.fresh_before;
}
