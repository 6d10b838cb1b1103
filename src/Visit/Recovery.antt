-- ===== src/Visit/Recovery.antt =====
-- What the startup recovery leaves, and what the periodic check counts.
use portfolio_cv_project.Common.{
  ℕ, ◌+◌, ◌≤◌, ◌≡◌, refl, ap, ◌∙◌, ==_refl, Bool, true, false, not, List, [], ◌∷◌, ◌++◌,
  if◌then◌else◌, arith, tally, keep, length,
}
use native.Mathlib.Nat.{add-zero}
use mathlib.Core.List.{append_assoc}
use portfolio_cv_project.Clock.{DateTime}
use portfolio_cv_project.Visit.{Visit, is_open, VisitSettings}
use portfolio_cv_project.Visit.Store.{World, has_id, delete, list_open, commit}
use portfolio_cv_project.Visit.Rows.{tally-append}
use portfolio_cv_project.Visit.Invariant.{IsValid}
use portfolio_cv_project.Visit.Lifecycle.{is_stale_entering, recover_loop, recover_open_visits}

pub delete_middle :
    (done : List Visit) (v : Visit) (vs : List Visit)
    → tally (has_id v.id) (done ++ v ∷ vs) ≤ 1
    → delete v.id (done ++ v ∷ vs) ≡ done ++ vs
delete_middle [] v vs h = rw (==_refl v.id)
delete_middle (d ∷ done) v vs h =
    ground (arith, delete_middle done v vs, tally-append (has_id v.id) done (v ∷ vs))

module _ (c : VisitSettings) (now : DateTime) where
  abbrev pub stays : Visit → Bool
  stays v = not (is_stale_entering c now v)

  stale-is_open : (v : Visit) → is_stale_entering c now v ≡ true → is_open v.state ≡ true
  stale-is_open v h = ground arith

  recover_loop_step :
      (v : Visit) (vs rows : List Visit) (n : ℕ) (b : Bool)
      → is_stale_entering c now v ≡ b
      → recover_loop c now (v ∷ vs) rows n
        ≡ recover_loop c now vs (if b then delete v.id rows else rows) (if b then n + 1 else n)
  unfolding recover_loop
  recover_loop_step v vs rows n b e =
      ap
        (λ s. recover_loop c now vs (if s then delete v.id rows else rows) (if s then n + 1 else n))
        e

  -- The loop deletes from `done ++ vs` the stale rows of `vs`, one after the other.
  recover_loop-keep :
      (done vs : List Visit) (n : ℕ)
      → ((i : ℕ) → tally (has_id i) (done ++ vs) ≤ 1)
      → recover_loop c now (keep (λ v. is_open v.state) vs) (done ++ vs) n
        ≡ (done ++ keep stays vs, n + tally (is_stale_entering c now) vs)
  recover_loop-keep done [] n h = unfold recover_loop in rw add-zero
  recover_loop-keep done (v ∷ vs) n h =
      go (is_stale_entering c now v) (is_open v.state) refl refl (recover_loop-keep done vs (n + 1))
        (recover_loop-keep (done ++ v ∷ []) vs n)
    where
      fewer : (i : ℕ) → tally (has_id i) (done ++ vs) ≤ 1
      fewer i =
          ground
            (arith, h i, tally-append (has_id i) done (v ∷ vs), tally-append (has_id i) done vs)

      shifted : (done ++ v ∷ []) ++ vs ≡ done ++ v ∷ vs
      shifted = append_assoc done (v ∷ []) vs

      Goal : Type 0
      Goal =
          recover_loop c now (keep (λ v. is_open v.state) (v ∷ vs)) (done ++ v ∷ vs) n
          ≡ (done ++ keep stays (v ∷ vs), n + tally (is_stale_entering c now) (v ∷ vs))

      go :
          (b o : Bool)
          → is_stale_entering c now v ≡ b
          → is_open v.state ≡ o
          → (((i : ℕ) → tally (has_id i) (done ++ vs) ≤ 1)
              → recover_loop c now (keep (λ v. is_open v.state) vs) (done ++ vs) (n + 1)
                ≡ (done ++ keep stays vs, n + 1 + tally (is_stale_entering c now) vs))
          → (((i : ℕ) → tally (has_id i) ((done ++ v ∷ []) ++ vs) ≤ 1)
              → recover_loop c now (keep (λ v. is_open v.state) vs) ((done ++ v ∷ []) ++ vs) n
                ≡ ((done ++ v ∷ []) ++ keep stays vs, n + tally (is_stale_entering c now) vs))
          → Goal
      go true false a o ih ih' = absurd (cc (stale-is_open v a))
      go true true a o ih ih' = rw o (
          rw a (
            recover_loop_step v _ _ n true a
            ∙ rw (delete_middle done v vs (h v.id))
                (ih fewer ∙ ap (λ k. (done ++ keep stays vs, k)) (omega arith))))
      go false true a o ih ih' = rw o (
          rw a (
            recover_loop_step v _ _ n false a
            ∙ rw shifted at (ih' (λ i. rw shifted (h i)))
            ∙ ap (λ r. (r, n + tally (is_stale_entering c now) vs))
                (append_assoc done (v ∷ []) (keep stays vs))))
      go false false a o ih ih' = rw o (
          rw a (
            rw shifted at (ih' (λ i. rw shifted (h i)))
            ∙ ap (λ r. (r, n + tally (is_stale_entering c now) vs))
                (append_assoc done (v ∷ []) (keep stays vs))))

-- On a valid table the startup recovery deletes exactly the ENTERING rows older than the grace
-- time, keeps every other row as it is and in its place, commits that, and reports how many
-- visits were open before and how many it deleted.
pub recover_open_visits-keep :
    (c : VisitSettings) (now : DateTime) (w : World)
    → IsValid w
    → let (w', report) = recover_open_visits c now w in
      (w' ≡ record w { rows = keep (stays c now) w.rows; committed = keep (stays c now) w.rows })
      × (report.recovered_visits ≡ length (keep (λ v. is_open v.state) w.rows))
      × (report.deleted_enterings ≡ tally (is_stale_entering c now) w.rows)
unfolding recover_open_visits list_open commit
recover_open_visits-keep c now w h =
    let run = recover_loop-keep c now [] w.rows 0 h.now.distinct in rw run (refl, refl, omega arith)
