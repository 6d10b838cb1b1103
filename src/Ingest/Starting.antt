-- ===== src/Ingest/Starting.antt =====
-- A turn of `watch_station_dirs` (ingestion/main.py) stops producers and starts others.
use portfolio_cv_project.Common.{
  ℕ, ◌==◌, ◌<◌, Bool, true, false, not, List, [], ◌∷◌, ◌++◌, keep, Option, none, some,
  if◌then◌else◌, All, append_nil, ◌≡◌, refl, sym, ap, ◌∙◌, arith,
}
use mathlib.Core.List.{append_assoc}
use portfolio_cv_project.Ingest.Watch.{
  member, minus, Setup, found, missing, unreadable, Watcher, directories, tasks, task_of, without,
  cancel, stop, stop_each, start, start_each,
}
use portfolio_cv_project.Ingest.Members.{IsDistinct, minus-cons, minus_nothing, member-append}
use portfolio_cv_project.Ingest.Tasks.{
  IsApart, IsApart-keep, directories-without, below-without, without-none, cancel-without,
  assign_new, IsApart-last, map-last, below-last,
}

-- The tasks that run are those of the dict, one for a directory.
pub record IsTracked (w : Watcher) : Type 0 where
  pub apart : IsApart w.active
  pub tracked : w.running ≡ tasks w.active
  pub below : All (λ t. t < w.next_task) (tasks w.active)

abbrev pub is_found : Setup → Bool
is_found found = true
is_found missing = false
is_found unreadable = false

abbrev pub is_readable : Setup → Bool
is_readable found = true
is_readable missing = true
is_readable unreadable = false

stop_lem :
    (d : ℕ) (w : Watcher)
    → IsTracked w
    → IsTracked (stop d w)
      × (directories (stop d w).active ≡ keep (λ x. not (d == x)) (directories w.active))
stop_lem d w h = go (task_of d w.active) refl
  where
    go :
        (o : Option ℕ)
        → task_of d w.active ≡ o
        → let w' = elim o as (λ _. Watcher) [
          | none ↦ w
          | some t ↦ record w { active = without d w.active; running = cancel t w.running }
        ] in
          IsTracked w' × (directories w'.active ≡ keep (λ x. not (d == x)) (directories w.active))
    go none e =
        (h, sym (ap directories (without-none d w.active e)) ∙ directories-without d w.active)
    go (some t) e = (
      record {
        apart = IsApart-keep (λ p. not (d == p.0)) w.active h.apart;
        tracked = ap (cancel t) h.tracked ∙ cancel-without d t w.active h.apart e;
        below = below-without w.next_task d w.active h.below;
      },
      directories-without d w.active,
    )

pub stop_each_lem :
    (ds : List ℕ) (w : Watcher)
    → IsTracked w
    → IsTracked (stop_each ds w)
      × (directories (stop_each ds w).active ≡ minus (directories w.active) ds)
stop_each_lem [] w h = (h, sym (minus_nothing (directories w.active)))
stop_each_lem (d ∷ ds) w h =
    let (one, left) = stop_lem d w h in
    let (all, rest) = stop_each_lem ds (stop d w) one in
    (all, rest ∙ (ap (λ xs. minus xs ds) left ∙ minus-cons (directories w.active) d ds))

start_lem :
    (d : ℕ) (w : Watcher)
    → IsTracked w
    → member d (directories w.active) ≡ false
    → IsTracked (start d w) × (directories (start d w).active ≡ directories w.active ++ (d ∷ []))
start_lem d w h new = rw (assign_new d w.next_task w.active new) (
  record {
    apart = IsApart-last d w.next_task w.active h.apart new h.below;
    tracked =
        ap (λ ts. ts ++ (w.next_task ∷ [])) h.tracked
        ∙ sym (map-last (λ p. p.1) w.active (d, w.next_task));
    below =
        rw (map-last (λ p. p.1) w.active (d, w.next_task))
          (below-last w.next_task (tasks w.active) h.below);
  },
  map-last (λ p. p.0) w.active (d, w.next_task),
)

-- None of the others is in the list, after the first was put there.
still_new :
    (d : ℕ) (ds xs : List ℕ)
    → member d ds ≡ false
    → All (λ x. member x xs ≡ false) ds
    → All (λ x. member x (xs ++ (d ∷ [])) ≡ false) ds
still_new d [] xs e h = tt
still_new d (x ∷ ds) xs e h =
    (member-append x xs (d ∷ []) ∙ ground (arith, h.0), still_new d ds xs (ground arith) h.1)

-- All were looked at, and `more` is added to the directories `before`.
abbrev pub Starts : List ℕ → List ℕ → Bool × Watcher → Type 0
Starts before more r = (r.0 ≡ true) × IsTracked r.1 × (directories r.1.active ≡ before ++ more)

pub start_each_lem :
    (setup : ℕ → Setup) (readable : (d : ℕ) → is_readable (setup d) ≡ true) (ds : List ℕ)
    (w : Watcher)
    → IsTracked w
    → IsDistinct ds
    → All (λ d. member d (directories w.active) ≡ false) ds
    → Starts (directories w.active) (keep (λ d. is_found (setup d)) ds) (start_each setup ds w)
start_each_lem setup readable [] w h distinct new =
    (refl, h, sym (append_nil (directories w.active)))
start_each_lem setup readable (d ∷ ds) w h distinct new =
    let (one, added) = start_lem d w h new.0 in
    let still = still_new d ds (directories w.active) distinct.0 new.1 in
    go (setup d) (readable d)
      (start_each_lem setup readable ds (start d w) one distinct.1 (rw added still)) added
      (start_each_lem setup readable ds w h distinct.1 new.1)
  where
    go :
        (s : Setup)
        → is_readable s ≡ true
        → Starts
            (directories (start d w).active)
            (keep (λ x. is_found (setup x)) ds)
            (start_each setup ds (start d w))
        → directories (start d w).active ≡ directories w.active ++ (d ∷ [])
        → Starts (directories w.active) (keep (λ x. is_found (setup x)) ds) (start_each setup ds w)
        → Starts
            (directories w.active)
            (if is_found s
              then d ∷ keep (λ x. is_found (setup x)) ds
              else keep (λ x. is_found (setup x)) ds)
            (elim s as (λ _. Bool × Watcher) [
              | found ↦ start_each setup ds (start d w)
              | missing ↦ start_each setup ds w
              | unreadable ↦ (false, w)
            ])
    go found e (fine, all, dirs) added other = (
      fine,
      all,
      dirs
          ∙ (ap (λ xs. xs ++ keep (λ x. is_found (setup x)) ds) added
              ∙ append_assoc (directories w.active) (d ∷ []) (keep (λ x. is_found (setup x)) ds)),
    )
    go missing e first added other = other
    go unreadable e first added other = cc
