-- ===== src/Visit/Rows.antt =====
-- What saving, deleting and adding a row does to the other rows.
use portfolio_cv_project.Common.{
  ℕ, ◌+◌, ◌≤◌, ◌<◌, ◌≡◌, refl, inl, inr, ◌==◌, ==_refl, Bool, true, false, List, [], ◌∷◌, ◌++◌,
  some, arith, Bool-cases, find, tally, any, All,
}
use mathlib.Core.Path.{subst}
use portfolio_cv_project.Visit.{Visit, is_open}
use portfolio_cv_project.Visit.Store.{open_at, has_id, save, delete}

-- `v'` is `v` after a change that keeps its key and does not open a closed visit.
pub record IsKept (v v' : Visit) : Type 0 where
  pub same_id : v'.id ≡ v.id
  pub same_tractor : v'.tractor_id ≡ v.tractor_id
  pub same_station : v'.station_id ≡ v.station_id
  pub not_reopened : is_open v'.state ≡ true → is_open v.state ≡ true

abbrev pub Holds : Visit → List Visit → Type 0
Holds v rows = find (has_id v.id) rows ≡ some v

pub All-find :
    (P : Visit → Type 0) (i : ℕ) (rows : List Visit) {v : Visit}
    → find (has_id i) rows ≡ some v
    → All P rows
    → P v
All-find P i [] e h = cc
All-find P i (r ∷ rows) {v} e h = elim (Bool-cases (r.id == i)) [
  | inl a ↦ let q : some r ≡ some v = rw a at e in let p : r ≡ v = cc in subst P p h.0
  | inr a ↦ All-find P i rows (rw a at e) h.1
]

pub id_of_find : (i : ℕ) (rows : List Visit) (v : Visit) → find (has_id i) rows ≡ some v → v.id ≡ i
id_of_find i [] v e = cc
id_of_find i (r ∷ rows) v e = ground (arith, id_of_find i rows v)

pub find-save :
    (v : Visit) (rows : List Visit) (u : Visit)
    → find (has_id v.id) rows ≡ some u
    → Holds v (save v rows)
find-save v [] u e = cc
find-save v (r ∷ rows) u e = elim (Bool-cases (r.id == v.id)) [
  | inl a ↦ rw a (ground arith)
  | inr a ↦ rw a (rw a (find-save v rows u (rw a at e)))
]

pub All-save :
    (P : Visit → Type 0) (v : Visit) (rows : List Visit) → P v → All P rows → All P (save v rows)
All-save P v [] p h = h
All-save P v (r ∷ rows) p h = elim (Bool-cases (r.id == v.id)) [
  | inl a ↦ rw a (p, h.1)
  | inr a ↦ rw a (h.0, All-save P v rows p h.1)
]

pub All-delete :
    (P : Visit → Type 0) (i : ℕ) (rows : List Visit) → All P rows → All P (delete i rows)
All-delete P i [] h = h
All-delete P i (r ∷ rows) h = elim (Bool-cases (r.id == i)) [
  | inl a ↦ rw a h.1
  | inr a ↦ rw a (h.0, All-delete P i rows h.1)
]

pub tally-save-le :
    (t s : ℕ) (v v' : Visit) (rows : List Visit)
    → find (has_id v'.id) rows ≡ some v
    → IsKept v v'
    → tally (open_at t s) (save v' rows) ≤ tally (open_at t s) rows
tally-save-le t s v v' [] e k = omega arith
tally-save-le t s v v' (r ∷ rows) e k = ground (arith, tally-save-le t s v v' rows)

pub tally-delete-le :
    (t s i : ℕ) (rows : List Visit) → tally (open_at t s) (delete i rows) ≤ tally (open_at t s) rows
tally-delete-le t s i [] = omega arith
tally-delete-le t s i (r ∷ rows) = ground (arith, tally-delete-le t s i rows)

pub tally_of_any-false {ℓ} :
    {A : Type ℓ} (p : A → Bool) (xs : List A) → any p xs ≡ false → tally p xs ≡ 0
tally_of_any-false p [] h = refl
tally_of_any-false p (x ∷ xs) h = ground (arith, tally_of_any-false p xs)

pub tally-append {ℓ} :
    {A : Type ℓ} (p : A → Bool) (xs ys : List A) → tally p (xs ++ ys) ≡ tally p xs + tally p ys
tally-append p [] ys = omega arith
tally-append p (x ∷ xs) ys = ground (arith, tally-append p xs ys)

pub tally_id-save-le :
    (i : ℕ) (v : Visit) (rows : List Visit) → tally (has_id i) (save v rows) ≤ tally (has_id i) rows
tally_id-save-le i v [] = omega arith
tally_id-save-le i v (r ∷ rows) = ground (arith, tally_id-save-le i v rows)

pub tally_id-delete-le :
    (i j : ℕ) (rows : List Visit) → tally (has_id i) (delete j rows) ≤ tally (has_id i) rows
tally_id-delete-le i j [] = omega arith
tally_id-delete-le i j (r ∷ rows) = ground (arith, tally_id-delete-le i j rows)

-- The ids of all rows are below `n`.
abbrev pub IsBelow : ℕ → Visit → Type 0
IsBelow n v = v.id < n

pub tally_id-fresh : (n : ℕ) (rows : List Visit) → All (IsBelow n) rows → tally (has_id n) rows ≡ 0
tally_id-fresh n [] h = refl
tally_id-fresh n (r ∷ rows) h = ground (arith, tally_id-fresh n rows h.1)

pub All-IsBelow-suc :
    (n : ℕ) (rows : List Visit) → All (IsBelow n) rows → All (IsBelow (n + 1)) rows
All-IsBelow-suc n [] h = h
All-IsBelow-suc n (r ∷ rows) h = (omega arith, All-IsBelow-suc n rows h.1)

-- Closing the open row of a pair leaves one open row less.
pub tally-save-closed :
    (t s : ℕ) (v v' : Visit) (rows : List Visit)
    → find (has_id v'.id) rows ≡ some v
    → open_at t s v ≡ true
    → open_at t s v' ≡ false
    → tally (open_at t s) (save v' rows) + 1 ≡ tally (open_at t s) rows
tally-save-closed t s v v' [] e p q = cc
tally-save-closed t s v v' (r ∷ rows) e p q = ground (arith, tally-save-closed t s v v' rows)

pub any-false_of_tally {ℓ} :
    {A : Type ℓ} (p : A → Bool) (xs : List A) → tally p xs ≡ 0 → any p xs ≡ false
any-false_of_tally p [] h = refl
any-false_of_tally p (x ∷ xs) h = ground (arith, any-false_of_tally p xs)

pub find-append_left :
    (i : ℕ) (v : Visit) (rows added : List Visit)
    → find (has_id i) rows ≡ some v
    → find (has_id i) (rows ++ added) ≡ some v
find-append_left i v [] added e = cc
find-append_left i v (r ∷ rows) added e = ground (arith, find-append_left i v rows added)

pub find-append_fresh :
    (v : Visit) (rows : List Visit) → All (IsBelow v.id) rows → Holds v (rows ++ v ∷ [])
find-append_fresh v [] h = rw (==_refl v.id)
find-append_fresh v (r ∷ rows) h = ground (arith, find-append_fresh v rows h.1)
