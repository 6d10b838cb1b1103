-- ===== src/Ingest/Members.antt =====
-- The sets of directories of ingestion/cursor.py and ingestion/main.py, as lists.
use portfolio_cv_project.Common.{
  ℕ, ◌==◌, Bool, true, false, not, ◌&&◌, ◌||◌, List, [], ◌∷◌, ◌++◌, any, keep, if◌then◌else◌, All,
  ◌≡◌, refl, sym, ap, ◌∙◌, ◌⊎◌, inl, inr, Bool-cases, ==→eq, ==_refl, arith,
}
use portfolio_cv_project.Ingest.Watch.{member, minus, as_set, cancel, cancel_each}

abbrev pub IsDistinct : List ℕ → Type 0
IsDistinct [] = Unit
IsDistinct (d ∷ ds) = (member d ds ≡ false) × IsDistinct ds

pub any-keep :
    {A : Type 0} (p q : A → Bool) (xs : List A) → any p xs ≡ false → any p (keep q xs) ≡ false
any-keep p q [] e = refl
any-keep p q (x ∷ xs) e = ground (arith, any-keep p q xs)

pub IsDistinct-keep : (q : ℕ → Bool) (ds : List ℕ) → IsDistinct ds → IsDistinct (keep q ds)
IsDistinct-keep q [] h = tt
IsDistinct-keep q (d ∷ ds) h = go (q d) (IsDistinct-keep q ds h.1)
  where
    go : (b : Bool) → IsDistinct (keep q ds) → IsDistinct (if b then d ∷ keep q ds else keep q ds)
    go true k = (any-keep (λ x. d == x) q ds h.0, k)
    go false k = k

pub IsDistinct-as_set : (ds : List ℕ) → IsDistinct (as_set ds)
IsDistinct-as_set [] = tt
IsDistinct-as_set (d ∷ ds) = go (member d (as_set ds)) refl (IsDistinct-as_set ds)
  where
    go :
        (b : Bool)
        → member d (as_set ds) ≡ b
        → IsDistinct (as_set ds)
        → IsDistinct (if b then as_set ds else d ∷ as_set ds)
    go true e k = k
    go false e k = (e, k)

-- What is left when the elements of `d ∷ ds` are taken away one after the other.
pub minus-cons :
    (xs : List ℕ) (d : ℕ) (ds : List ℕ) → minus (keep (λ x. not (d == x)) xs) ds ≡ minus xs (d ∷ ds)
minus-cons [] d ds = refl
minus-cons (x ∷ xs) d ds = ground (arith, minus-cons xs d ds)

pub minus_nothing : (xs : List ℕ) → minus xs [] ≡ xs
minus_nothing [] = refl
minus_nothing (x ∷ xs) = ap (λ ys. x ∷ ys) (minus_nothing xs)

pub member-append : (d : ℕ) (xs ys : List ℕ) → member d (xs ++ ys) ≡ member d xs || member d ys
member-append d [] ys = refl
member-append d (x ∷ xs) ys = ground (arith, member-append d xs ys)

pub new_unknown :
    (ds xs : List ℕ) (us : List ℕ) → All (λ d. member d (minus xs us) ≡ false) (minus ds xs)
new_unknown [] xs us = tt
new_unknown (d ∷ ds) xs us = go (Bool-cases (member d xs)) (new_unknown ds xs us)
  where
    go :
        (member d xs ≡ true) ⊎ (member d xs ≡ false)
        → All (λ x. member x (minus xs us) ≡ false) (minus ds xs)
        → All (λ x. member x (minus xs us) ≡ false) (minus (d ∷ ds) xs)
    go (inl old) rest = rw old rest
    go (inr new) rest = rw new (any_keep xs new, rest)
      where
        any_keep : (ys : List ℕ) → member d ys ≡ false → member d (minus ys us) ≡ false
        any_keep [] e = refl
        any_keep (y ∷ ys) e = ground (arith, any_keep ys)

pub member-as_set : (d : ℕ) (ds : List ℕ) → member d (as_set ds) ≡ member d ds
member-as_set d [] = refl
member-as_set d (x ∷ ds) = go (Bool-cases (d == x)) (member x (as_set ds)) refl (member-as_set d ds)
  where
    go :
        (d == x ≡ true) ⊎ (d == x ≡ false)
        → (b : Bool) → member x (as_set ds) ≡ b
        → member d (as_set ds) ≡ member d ds
        → member d (if b then as_set ds else x ∷ as_set ds) ≡ member d (x ∷ ds)
    go (inl same) true e ih = rw same (ap (λ y. member y (as_set ds)) (==→eq d x same) ∙ e)
    go (inr other) true e ih = rw other ih
    go same false e ih = ap (λ b. d == x || b) ih

pub member-keep : (d : ℕ) (p : ℕ → Bool) (xs : List ℕ) → member d (keep p xs) ≡ member d xs && p d
member-keep d p [] = refl
member-keep d p (x ∷ xs) = go (Bool-cases (d == x)) (p x) refl (member-keep d p xs)
  where
    go :
        (d == x ≡ true) ⊎ (d == x ≡ false)
        → (b : Bool) → p x ≡ b
        → member d (keep p xs) ≡ member d xs && p d
        → member d (if b then x ∷ keep p xs else keep p xs) ≡ (d == x || member d xs) && p d
    go (inl same) b takes ih =
        let pd : p d ≡ b = ap p (==→eq d x same) ∙ takes in ground (arith, pd, ih)
    go (inr other) b takes ih = ground (arith, ih)

-- What is left of the active directories, and what is added, as tests.
pub still_or_new : (a l e : Bool) → (a && not (a && not l)) || ((l && not a) && e) ≡ l && (a || e)
still_or_new true true e = refl
still_or_new true false e = refl
still_or_new false true e = refl
still_or_new false false e = refl

pub none_left : (a : Bool) → a && not a ≡ false
none_left true = refl
none_left false = refl

-- The end of the loop.
pub cancel_each-minus : (ts us : List ℕ) → cancel_each ts us ≡ minus us ts
cancel_each-minus [] us = sym (minus_nothing us)
cancel_each-minus (t ∷ ts) us = cancel_each-minus ts (cancel t us) ∙ minus-cons us t ts

wider : (t : ℕ) (ts us : List ℕ) → minus us ts ≡ [] → minus us (t ∷ ts) ≡ []
wider t ts [] e = refl
wider t ts (u ∷ us) e = ground (arith, wider t ts us)

pub minus_self : (ts : List ℕ) → minus ts ts ≡ []
minus_self [] = refl
minus_self (t ∷ ts) = rw (==_refl t) (wider t ts ts (minus_self ts))
