-- ===== src/Clock.antt =====
-- Python datetimes, counted in microseconds. `naive` has no time zone. `aware` is kept as the
-- instant in UTC that it denotes. The service modules' `_to_naive_utc` and the subtraction of
-- datetimes, which Python refuses between a naive and an aware value.
use portfolio_cv_project.Common.{ℕ, ℤ, sub_ℕ, Option, none, some, Result, ok, raise, type_error}

pub data DateTime : Type 0 where
  naive : ℕ → DateTime
  aware : ℕ → DateTime

-- The naive UTC value of a datetime, as its count.
abbrev pub to_naive_utc : DateTime → ℕ
to_naive_utc (naive t) = t
to_naive_utc (aware t) = t

-- `(a - b).total_seconds()` of the values as they are.
abbrev pub subtract : DateTime → DateTime → Result ℤ
subtract (naive a) (naive b) = ok (sub_ℕ a b)
subtract (aware a) (aware b) = ok (sub_ℕ a b)
subtract (naive a) (aware b) = raise type_error
subtract (aware a) (naive b) = raise type_error

-- `(_to_naive_utc(a) - _to_naive_utc(b)).total_seconds()`.
abbrev pub elapsed : DateTime → DateTime → ℤ
elapsed a b = sub_ℕ (to_naive_utc a) (to_naive_utc b)

-- `x or y` at a value that may be None; a datetime is never falsy.
abbrev pub or_else {ℓ} : {A : Type ℓ} → Option A → A → A
or_else none y = y
or_else (some x) y = x
