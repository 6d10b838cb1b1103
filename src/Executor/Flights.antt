-- ===== src/Executor/Flights.antt =====
-- Whatever the order in which workers end, the results are those of the jobs, and no more run at once
-- than allowed.
use portfolio_cv_project.Common.{
  ℕ, suc, ◌+◌, List, [], ◌∷◌, Option, none, some, map, Result, Text, tally, ◌≡◌, refl, ap, ◌∙◌, All,
  arith,
}
use portfolio_cv_project.Detect.Frame.{Point}
use portfolio_cv_project.Executor.{
  VideoJob, Output, Stage, waiting, running, finished, Flight, is_running, semaphore, take_off,
  process_video_worker, Moves, here, there, Step, starts, starts_freely, ends, ends_freely, Reaches,
  stop, next,
}

abbrev pub job_of : VideoJob × Stage → VideoJob
job_of p = p.0

-- The steps that are left.
abbrev pub work : List (VideoJob × Stage) → ℕ
work [] = 0
work ((job, waiting) ∷ rest) = suc (suc (work rest))
work ((job, running) ∷ rest) = suc (work rest)
work ((job, finished r) ∷ rest) = work rest

module _ (process_video : Text → Option (List Point) → Result Output) where
  -- A job that has ended has its own worker's result.
  abbrev pub IsTrue : VideoJob × Stage → Type 0
  IsTrue (job, finished r) = r ≡ process_video_worker process_video job
  IsTrue (job, _) = Unit

  -- The permits given out and those left are the limit.
  abbrev pub IsWithin : Option ℕ → Flight → Type 0
  IsWithin none f = f.permits ≡ none
  IsWithin (some n) f = (left : ℕ) × (f.permits ≡ some left) × (left + tally is_running f.jobs ≡ n)

  pub record IsSound (limit : Option ℕ) (jobs : List VideoJob) (f : Flight) : Type 0 where
    pub within : IsWithin limit f
    pub same_jobs : map job_of f.jobs ≡ jobs
    pub results : All IsTrue f.jobs

  move-same :
      (job : VideoJob) (a b : Stage) (js js' : List (VideoJob × Stage))
      → Moves process_video job a b js js'
      → map job_of js' ≡ map job_of js
  move-same _ _ _ _ _ (here job a b rest) = refl
  move-same _ _ _ _ _ (there job a b first rest rest' m) =
      ap (λ l. first.0 ∷ l) (move-same job a b rest rest' m)

  move-All :
      (job : VideoJob) (a b : Stage) (js js' : List (VideoJob × Stage))
      → Moves process_video job a b js js'
      → IsTrue (job, b)
      → All IsTrue js
      → All IsTrue js'
  move-All _ _ _ _ _ (here job a b rest) t h = (t, h.1)
  move-All _ _ _ _ _ (there job a b first rest rest' m) t h =
      (h.0, move-All job a b rest rest' m t h.1)

  move_starts :
      (job : VideoJob) (js js' : List (VideoJob × Stage))
      → Moves process_video job waiting running js js'
      → tally is_running js' ≡ suc (tally is_running js)
  move_starts _ _ _ (here job _ _ rest) = refl
  move_starts _ _ _ (there job _ _ first rest rest' m) =
      ground (arith, move_starts job rest rest' m)

  move_ends :
      (job : VideoJob) (r : Result Output) (js js' : List (VideoJob × Stage))
      → Moves process_video job running (finished r) js js'
      → tally is_running js ≡ suc (tally is_running js')
  move_ends _ r _ _ (here job _ _ rest) = refl
  move_ends _ r _ _ (there job _ _ first rest rest' m) =
      ground (arith, move_ends job r rest rest' m)

  work_starts :
      (job : VideoJob) (js js' : List (VideoJob × Stage))
      → Moves process_video job waiting running js js'
      → work js ≡ suc (work js')
  work_starts _ _ _ (here job _ _ rest) = refl
  work_starts _ _ _ (there job _ _ (_, waiting) rest rest' m) =
      ap (λ n. suc (suc n)) (work_starts job rest rest' m)
  work_starts _ _ _ (there job _ _ (_, running) rest rest' m) =
      ap suc (work_starts job rest rest' m)
  work_starts _ _ _ (there job _ _ (_, finished r) rest rest' m) = work_starts job rest rest' m

  work_ends :
      (job : VideoJob) (q : Result Output) (js js' : List (VideoJob × Stage))
      → Moves process_video job running (finished q) js js'
      → work js ≡ suc (work js')
  work_ends _ q _ _ (here job _ _ rest) = refl
  work_ends _ q _ _ (there job _ _ (_, waiting) rest rest' m) =
      ap (λ n. suc (suc n)) (work_ends job q rest rest' m)
  work_ends _ q _ _ (there job _ _ (_, running) rest rest' m) =
      ap suc (work_ends job q rest rest' m)
  work_ends _ q _ _ (there job _ _ (_, finished r) rest rest' m) = work_ends job q rest rest' m

  pub Step-work : (f g : Flight) → Step process_video f g → work f.jobs ≡ suc (work g.jobs)
  Step-work _ _ (starts job js js' n m) = work_starts job js js' m
  Step-work _ _ (starts_freely job js js' m) = work_starts job js js' m
  Step-work _ _ (ends job js js' n m) = work_ends job _ js js' m
  Step-work _ _ (ends_freely job js js' m) = work_ends job _ js js' m

  Step-IsSound :
      (limit : Option ℕ) (jobs : List VideoJob) (f g : Flight)
      → Step process_video f g
      → IsSound limit jobs f
      → IsSound limit jobs g
  Step-IsSound none jobs _ _ (starts job js js' n m) h = let e = h.within in cc
  Step-IsSound (some n') jobs _ _ (starts job js js' n m) h =
      let (left, is_left, sum) = h.within in
      let one : suc n ≡ left = cc in
      record {
        within = (n, refl, omega (arith, move_starts job js js' m, sum, one));
        same_jobs = move-same job _ _ js js' m ∙ h.same_jobs;
        results = move-All job _ _ js js' m tt h.results;
      }
  Step-IsSound none jobs _ _ (starts_freely job js js' m) h = record {
    within = refl;
    same_jobs = move-same job _ _ js js' m ∙ h.same_jobs;
    results = move-All job _ _ js js' m tt h.results;
  }
  Step-IsSound (some n') jobs _ _ (starts_freely job js js' m) h = let e = h.within.1 in cc
  Step-IsSound none jobs _ _ (ends job js js' n m) h = let e = h.within in cc
  Step-IsSound (some n') jobs _ _ (ends job js js' n m) h =
      let (left, is_left, sum) = h.within in
      let one : n ≡ left = cc in
      record {
        within = (suc n, refl, omega (arith, move_ends job _ js js' m, sum, one));
        same_jobs = move-same job _ _ js js' m ∙ h.same_jobs;
        results = move-All job _ _ js js' m refl h.results;
      }
  Step-IsSound none jobs _ _ (ends_freely job js js' m) h = record {
    within = refl;
    same_jobs = move-same job _ _ js js' m ∙ h.same_jobs;
    results = move-All job _ _ js js' m refl h.results;
  }
  Step-IsSound (some n') jobs _ _ (ends_freely job js js' m) h = let e = h.within.1 in cc

  pub Reaches-IsSound :
      (limit : Option ℕ) (jobs : List VideoJob) (f g : Flight)
      → Reaches process_video f g
      → IsSound limit jobs f
      → IsSound limit jobs g
  Reaches-IsSound limit jobs _ _ (stop f) h = h
  Reaches-IsSound limit jobs _ _ (next f g k s r) h =
      Reaches-IsSound limit jobs g k r (Step-IsSound limit jobs f g s h)

  pub take_off-IsSound :
      (jobs : List VideoJob) (limit : Option ℕ)
      → IsSound (semaphore limit) jobs (take_off jobs limit)
  take_off-IsSound jobs limit = record {
    within = go (semaphore limit);
    same_jobs = same jobs;
    results = none_yet jobs;
  }
    where
      idle : (js : List VideoJob) → tally is_running (map (λ job. (job, waiting)) js) ≡ 0
      idle [] = refl
      idle (j ∷ js) = idle js

      same : (js : List VideoJob) → map job_of (map (λ job. (job, waiting)) js) ≡ js
      same [] = refl
      same (j ∷ js) = ap (λ l. j ∷ l) (same js)

      none_yet : (js : List VideoJob) → All IsTrue (map (λ job. (job, waiting)) js)
      none_yet [] = tt
      none_yet (j ∷ js) = (tt, none_yet js)

      go :
          (l : Option ℕ)
          → IsWithin l (record { jobs = map (λ job. (job, waiting)) jobs; permits = l })
      go none = refl
      go (some n) = (n, refl, omega (arith, idle jobs))
