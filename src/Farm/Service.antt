-- ===== src/Farm/Service.antt =====
-- What the two services of the reference tables share. A request runs in a session of its own, which
-- is rolled back if it raises: the table after it is the committed one.
use portfolio_cv_project.Common.{ℕ, Option, none, some}
use portfolio_cv_project.Farm.{Field, unset, null, given}
use portfolio_cv_project.Farm.Table.{Table, Flushed, stored, refused}

-- What a request answers: a value, the status of an HTTPException, or an IntegrityError.
pub data Outcome (A : Type 0) : Type 0 where
  done : A → Outcome A
  http : ℕ → Outcome A
  integrity : Outcome A

-- The answer to a flush, where a refusal is answered by `otherwise`.
abbrev pub answered : {A : Type 0} → Outcome A → Flushed A → Outcome A × Table A
answered otherwise (stored a t) = (done a, t)
answered otherwise (refused t) = (otherwise, t)

-- A column that may be NULL, and one that may not.
abbrev pub put_null : {A : Type 0} → Field A → Option A → Option A
put_null unset old = old
put_null null old = none
put_null (given a) old = some a

abbrev pub put : {A : Type 0} → Field A → A → Option A
put unset old = some old
put null old = none
put (given a) old = some a

infixl 5 ◌>>=◌
abbrev pub ◌>>=◌ : {A B : Type 0} → Option A → (A → Option B) → Option B
none >>= f = none
some a >>= f = f a
