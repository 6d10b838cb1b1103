-- ===== src/Common/Pages.antt =====
-- Pages of a list, as `offset` and `limit` cut them.
use Prim.Native.Nat.{ℕ, zero, suc, ◌+◌, ◌*◌, ◌≤◌}
use mathlib.Core.Path.{◌≡◌, refl, sym, ap, ◌∙◌}
use mathlib.Core.List.{List, [], ◌∷◌, ◌++◌}
use native.Mathlib.Omega.{arith}
use portfolio_cv_project.Common.Lists.{length, take, drop}

module _ {ℓ} {A : Type ℓ} where
  -- The pages `page`, `page + 1`, … , `n` of them, one after the other.
  abbrev pub pages : ℕ → ℕ → ℕ → List A → List A
  pages limit page zero xs = []
  pages limit page (suc n) xs = take limit (drop (page * limit) xs) ++ pages limit (page + 1) n xs

  pub take-append-drop : (n : ℕ) (xs : List A) → take n xs ++ drop n xs ≡ xs
  take-append-drop zero xs = refl
  take-append-drop (suc n) [] = refl
  take-append-drop (suc n) (x ∷ xs) = ap (λ ys. x ∷ ys) (take-append-drop n xs)

  pub length-drop-le : (n : ℕ) (xs : List A) → length (drop n xs) ≤ length xs
  length-drop-le zero xs = omega arith
  length-drop-le (suc n) [] = omega arith
  length-drop-le (suc n) (x ∷ xs) = omega (arith, length-drop-le n xs)

  drop_nil : (n : ℕ) → let nil : List A = [] in drop n (nil) ≡ nil
  drop_nil zero = refl
  drop_nil (suc n) = refl

  drop_all : (n : ℕ) (xs : List A) → length xs ≤ n → drop n xs ≡ []
  drop_all zero [] h = refl
  drop_all zero (x ∷ xs) h = absurd (omega arith)
  drop_all (suc n) [] h = refl
  drop_all (suc n) (x ∷ xs) h = drop_all n xs (omega arith)

  drop-drop : (a b : ℕ) (xs : List A) → drop a (drop b xs) ≡ drop (b + a) xs
  drop-drop a zero xs = ap (λ k. drop k xs) (omega arith)
  drop-drop a (suc b) [] = drop_nil a ∙ sym (drop_nil (suc b + a))
  drop-drop a (suc b) (x ∷ xs) = drop-drop a b xs ∙ ap (λ k. drop k (x ∷ xs)) shift
    where
      shift : suc (b + a) ≡ suc b + a
      shift = omega arith

  pub pages_whole :
      (limit page n : ℕ) (xs : List A)
      → length xs ≤ (page + n) * limit
      → pages limit page n xs ≡ drop (page * limit) xs
  pages_whole limit page zero xs h = sym (drop_all (page * limit) xs (grind arith))
  pages_whole limit page (suc n) xs h =
      ap (λ ys. take limit (drop (page * limit) xs) ++ ys)
        (pages_whole limit (page + 1) n xs (grind arith)
          ∙ (ap (λ k. drop k xs) next ∙ sym (drop-drop limit (page * limit) xs)))
      ∙ take-append-drop limit (drop (page * limit) xs)
    where
      next : (page + 1) * limit ≡ page * limit + limit
      next = grind arith
