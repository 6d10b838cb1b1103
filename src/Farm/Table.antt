-- ===== src/Farm/Table.antt =====
-- `AsyncRepository` of src/repositories/base.py over the rows of one table, which stand in the order
-- of their ids. What the model of a row declares is an argument: its key, and the constraints that a
-- flush checks.
use portfolio_cv_project.Common.{
  ℕ, ◌+◌, ◌==◌, Bool, true, not, ◌&&◌, ◌||◌, List, [], ◌∷◌, ◌++◌, Option, none, some, if◌then◌else◌,
  length, keep, find, any, take, drop,
}
use mathlib.Core.List.{reverse}

pub record Model (A : Type 0) : Type 0 where
  pub key : A → ℕ
  pub with_key : ℕ → A → A
  -- Whether two rows differ in no column of a unique index.
  pub clashes : A → A → Bool
  -- Whether a row meets the checks.
  pub is_allowed : A → Bool

pub record Table (A : Type 0) : Type 0 where
  pub rows : List A
  pub next_id : ℕ

-- The result of a statement that the database may refuse, with the table after it.
pub data Flushed (A : Type 0) : Type 0 where
  stored : A → Table A → Flushed A
  refused : Table A → Flushed A

module _ {A : Type 0} (m : Model A) where
  abbrev pub has_key : ℕ → A → Bool
  has_key i a = m.key a == i

  unfoldable pub get : ℕ → Table A → Option A
  get i t = find (has_key i) t.rows

  -- `list`, and `get_filtered` without `reverse`: the rows that pass every filter, in pages.
  abbrev pub passes_all : List (Option (A → Bool)) → A → Bool
  passes_all [] a = true
  passes_all (none ∷ tests) a = passes_all tests a
  passes_all (some test ∷ tests) a = test a && passes_all tests a

  unfoldable pub get_filtered : List (Option (A → Bool)) → ℕ → ℕ → Bool → Table A → List A
  get_filtered tests limit offset backwards t =
      let rows = keep (passes_all tests) t.rows in
      take limit (drop offset (if backwards then reverse rows else rows))

  -- Whether a row may stand beside the others: a refused flush uses up an id.
  unfoldable pub create : A → Table A → Flushed A
  create a t =
      let a' = m.with_key t.next_id a in
      if any (m.clashes a') t.rows || not (m.is_allowed a')
      then refused (record t { next_id = t.next_id + 1 })
      else stored a' (record { rows = t.rows ++ (a' ∷ []); next_id = t.next_id + 1 })

  abbrev pub save : A → List A → List A
  save a [] = []
  save a (b ∷ rows) = if m.key b == m.key a then a ∷ rows else b ∷ save a rows

  -- Whether another row stands in the way of `a`.
  abbrev pub is_taken : A → List A → Bool
  is_taken a rows = any (λ b. not (m.key b == m.key a) && m.clashes a b) rows

  -- `update`: the row as changed, its key kept.
  unfoldable pub update : A → Table A → Flushed A
  update a t =
      if is_taken a t.rows || not (m.is_allowed a)
      then refused t
      else stored a (record t { rows = save a t.rows })

  abbrev pub without : ℕ → List A → List A
  without i [] = []
  without i (b ∷ rows) = if m.key b == i then rows else b ∷ without i rows

  unfoldable pub delete : ℕ → Table A → Table A
  delete i t = record t { rows = without i t.rows }

  unfoldable pub count : Table A → ℕ
  count t = length t.rows
