-- ===== src/Ingest/Tasks.antt =====
-- The dict of tasks of `watch_station_dirs` (ingestion/main.py).
use portfolio_cv_project.Common.{
  ℕ, suc, ◌==◌, ◌<◌, Bool, true, false, not, ◌||◌, List, [], ◌∷◌, ◌++◌, any, keep, map, none, some,
  if◌then◌else◌, All, ◌≡◌, refl, sym, ap, ◌∙◌, ◌⊎◌, inl, inr, Bool-cases, ==→eq, ==_refl, arith,
}
use portfolio_cv_project.Ingest.Watch.{assign, member, directories, tasks, task_of, without, cancel}
use portfolio_cv_project.Ingest.Members.{any-keep}

abbrev pub clash : ℕ × ℕ → ℕ × ℕ → Bool
clash p q = p.0 == q.0 || p.1 == q.1

-- No directory and no task twice.
abbrev pub IsApart : List (ℕ × ℕ) → Type 0
IsApart [] = Unit
IsApart (p ∷ active) = (any (clash p) active ≡ false) × IsApart active

pub IsApart-keep :
    (q : ℕ × ℕ → Bool) (active : List (ℕ × ℕ)) → IsApart active → IsApart (keep q active)
IsApart-keep q [] h = tt
IsApart-keep q (p ∷ active) h = go (q p) (IsApart-keep q active h.1)
  where
    go :
        (b : Bool)
        → IsApart (keep q active)
        → IsApart (if b then p ∷ keep q active else keep q active)
    go true k = (any-keep (clash p) q active h.0, k)
    go false k = k

pub directories-without :
    (d : ℕ) (active : List (ℕ × ℕ))
    → directories (without d active) ≡ keep (λ x. not (d == x)) (directories active)
directories-without d [] = refl
directories-without d (p ∷ active) = go (d == p.0) (directories-without d active)
  where
    go :
        (b : Bool)
        → directories (without d active) ≡ keep (λ x. not (d == x)) (directories active)
        → directories (if not b then p ∷ without d active else without d active) ≡ (
            if not b
            then p.0 ∷ keep (λ x. not (d == x)) (directories active)
            else keep (λ x. not (d == x)) (directories active))
    go true e = e
    go false e = ap (λ ds. p.0 ∷ ds) e

pub below-without :
    (n d : ℕ) (active : List (ℕ × ℕ))
    → All (λ t. t < n) (tasks active)
    → All (λ t. t < n) (tasks (without d active))
below-without n d [] h = tt
below-without n d (p ∷ active) h = go (d == p.0) (below-without n d active h.1)
  where
    go :
        (b : Bool)
        → All (λ t. t < n) (tasks (without d active))
        → All (λ t. t < n) (tasks (if not b then p ∷ without d active else without d active))
    go true k = k
    go false k = (h.0, k)

pub without-none :
    (d : ℕ) (active : List (ℕ × ℕ)) → task_of d active ≡ none → without d active ≡ active
without-none d [] e = refl
without-none d (p ∷ active) e = ground (arith, without-none d active)

-- The other tasks and directories are those that do not clash.
others_tasks :
    (p : ℕ × ℕ) (active : List (ℕ × ℕ))
    → any (clash p) active ≡ false
    → (cancel p.1 (tasks active) ≡ tasks active) × (without p.0 active ≡ active)
others_tasks p [] e = (refl, refl)
others_tasks p (q ∷ active) e =
    let ih = others_tasks p active (ground arith) in (ground (arith, ih.0), ground (arith, ih.1))

task_of-apart :
    (p : ℕ × ℕ) (d t : ℕ) (active : List (ℕ × ℕ))
    → any (clash p) active ≡ false
    → task_of d active ≡ some t
    → t == p.1 ≡ false
task_of-apart p d t [] e k = cc
task_of-apart p d t (q ∷ active) e k = ground (arith, task_of-apart p d t active)

pub cancel-without :
    (d t : ℕ) (active : List (ℕ × ℕ))
    → IsApart active
    → task_of d active ≡ some t
    → cancel t (tasks active) ≡ tasks (without d active)
cancel-without d t [] h e = cc
cancel-without d t (p ∷ active) h e = go (Bool-cases (d == p.0)) (cancel-without d t active h.1)
  where
    go :
        (d == p.0 ≡ true) ⊎ (d == p.0 ≡ false)
        → (task_of d active ≡ some t → cancel t (tasks active) ≡ tasks (without d active))
        → cancel t (tasks (p ∷ active)) ≡ tasks (without d (p ∷ active))
    go (inl same) ih =
        let others = others_tasks p active h.0 in
        let eq : d ≡ p.0 = ==→eq d p.0 same in
        let key : t ≡ p.1 = ground arith in
        let first : cancel p.1 (tasks (p ∷ active)) ≡ tasks (without p.0 (p ∷ active)) =
          rw (==_refl p.1, ==_refl p.0) (others.0 ∙ sym (ap tasks others.1)) in
        ap (λ u. cancel u (tasks (p ∷ active))) key
        ∙ (first ∙ ap (λ x. tasks (without x (p ∷ active))) (sym eq))
    go (inr other) ih =
        let rest : task_of d active ≡ some t = ground arith in
        let away = task_of-apart p d t active h.0 rest in
        rw (other, away) (ap (λ ts. p.1 ∷ ts) (ih rest))

-- A directory that is not in the dict is put at its end.
pub assign_new :
    (d t : ℕ) (active : List (ℕ × ℕ))
    → member d (directories active) ≡ false
    → assign d t active ≡ active ++ ((d, t) ∷ [])
assign_new d t [] e = refl
assign_new d t (p ∷ active) e = ground (arith, assign_new d t active)

pub IsApart-last :
    (d n : ℕ) (active : List (ℕ × ℕ))
    → IsApart active
    → member d (directories active) ≡ false
    → All (λ t. t < n) (tasks active)
    → IsApart (active ++ ((d, n) ∷ []))
IsApart-last d n [] h e below = (refl, tt)
IsApart-last d n (p ∷ active) h e below = (
  clash_last active h.0 (ground arith) (omega (arith, below.0)),
  IsApart-last d n active h.1 (ground arith) below.1,
)
  where
    clash_last :
        (rest : List (ℕ × ℕ))
        → any (clash p) rest ≡ false
        → d == p.0 ≡ false
        → p.1 < n
        → any (clash p) (rest ++ ((d, n) ∷ [])) ≡ false
    clash_last [] k other less = ground arith
    clash_last (q ∷ rest) k other less = ground (arith, clash_last rest)

pub map-last :
    (f : ℕ × ℕ → ℕ) (active : List (ℕ × ℕ)) (p : ℕ × ℕ)
    → map f (active ++ (p ∷ [])) ≡ map f active ++ (f p ∷ [])
map-last f [] p = refl
map-last f (q ∷ active) p = ap (λ xs. f q ∷ xs) (map-last f active p)

pub below-last : (n : ℕ) (ts : List ℕ) → All (λ t. t < n) ts → All (λ t. t < suc n) (ts ++ (n ∷ []))
below-last n [] h = (omega arith, tt)
below-last n (t ∷ ts) h = (omega (arith, h.0), below-last n ts h.1)
