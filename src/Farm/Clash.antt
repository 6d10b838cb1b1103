-- ===== src/Farm/Clash.antt =====
-- A row of a table that another row is in the way of.
use portfolio_cv_project.Common.{
  ℕ, ◌==◌, Bool, true, not, ◌&&◌, List, [], ◌∷◌, some, find, any, ◌≡◌, ◌≢◌, arith,
}
use portfolio_cv_project.Farm.Table.{Table, Model, get, is_taken, has_key}
use portfolio_cv_project.Farm.Table

module _ {A : Type 0} where
  pub find_holds : (p : A → Bool) (rows : List A) (a : A) → find p rows ≡ some a → p a ≡ true
  find_holds p [] a e = cc
  find_holds p (r ∷ rows) a e = ground (arith, find_holds p rows a)

  pub find-any :
      (p q : A → Bool) (rows : List A) (a : A)
      → find p rows ≡ some a
      → q a ≡ true
      → any q rows ≡ true
  find-any p q [] a e h = cc
  find-any p q (r ∷ rows) a e h = ground (arith, find-any p q rows a)

pub both : (a b : Bool) → a ≡ true → b ≡ true → a && b ≡ true
both a b h k = ground arith

-- A changed row that differs from the one in the way is refused.
pub update_refused :
    {A : Type 0} (m : Model A) (p : A → Bool) (a u : A) (t : Table A)
    → find p t.rows ≡ some u
    → not (m.key u == m.key a) && m.clashes a u ≡ true
    → Table.update m a t ≡ Table.refused t
unfolding Table.update
update_refused m p a u t e h =
    rw (find-any p (λ b. not (m.key b == m.key a) && m.clashes a b) t.rows u e h)

pub apart : (i j : ℕ) → i ≢ j → not (i == j) ≡ true
apart i j h = ground (arith, h)
