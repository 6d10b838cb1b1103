-- ===== src/Executor/Landing.antt =====
-- Every run of `run_videos_in_parallel` comes to its end, and to the thread pool's results.
use portfolio_cv_project.Common.{
  ℕ, zero, suc, ◌≤◌, List, [], ◌∷◌, Option, none, some, map, Result, ok, raise, Text, tally, ◌≡◌,
  refl, sym, ap, ◌⊎◌, ◌∙◌, All, arith, inl, inr,
}
use portfolio_cv_project.Common.{◌*◌, ◌+◌, length}
use native.Mathlib.Decide.{dec_lt}
use mathlib.Core.Path.{subst}
use portfolio_cv_project.Detect.Frame.{Point}
use portfolio_cv_project.Executor.{
  stop, next, VideoJob, Output, Stage, waiting, running, finished, Flight, is_running, semaphore,
  take_off, process_video_worker, wrap_job, run_videos_in_thread_pool, Moves, here, there, Step,
  starts, starts_freely, ends, ends_freely, Reaches, gathered,
}
use portfolio_cv_project.Executor.Flights.{
  job_of, IsTrue, IsWithin, IsSound, work, Step-work, Reaches-IsSound, take_off-IsSound,
}

abbrev AreFinished : List (VideoJob × Stage) → Type 0
AreFinished [] = Unit
AreFinished ((job, finished r) ∷ rest) = AreFinished rest
AreFinished ((job, _) ∷ rest) = ⊥

semaphore_positive : (limit : Option ℕ) (n : ℕ) → semaphore limit ≡ some n → 1 ≤ n
semaphore_positive none n e = cc
semaphore_positive (some m) n e = ground arith

module _ (process_video : Text → Option (List Point) → Result Output) where
  running_job :
      (js : List (VideoJob × Stage))
      → 1 ≤ tally is_running js
      → (job : VideoJob) × (js' : List (VideoJob × Stage)) × Moves process_video job running
          (finished (process_video_worker process_video job))
          js
          js'
  running_job [] h = let nobody : ⊥ = omega (arith, h) in absurd nobody
  running_job ((job, running) ∷ rest) h =
      (job, (job, finished (process_video_worker process_video job)) ∷ rest, here job _ _ rest)
  running_job ((j, waiting) ∷ rest) h =
      let (job, rest', m) = running_job rest h in
      (job, (j, waiting) ∷ rest', there job _ _ (j, waiting) rest rest' m)
  running_job ((j, finished r) ∷ rest) h =
      let (job, rest', m) = running_job rest h in
      (job, (j, finished r) ∷ rest', there job _ _ (j, finished r) rest rest' m)

  waiting_job :
      (js : List (VideoJob × Stage))
      → tally is_running js ≡ 0
      → AreFinished js
        ⊎ ((job : VideoJob) × (js' : List (VideoJob × Stage)) × Moves process_video job waiting
              running js js')
  waiting_job [] h = inl tt
  waiting_job ((job, running) ∷ rest) h = cc
  waiting_job ((job, waiting) ∷ rest) h = inr (job, (job, running) ∷ rest, here job _ _ rest)
  waiting_job ((j, finished r) ∷ rest) h = elim (waiting_job rest h) [
    | inl all ↦ inl all
    | inr (job, rest', m) ↦
        inr (job, (j, finished r) ∷ rest', there job _ _ (j, finished r) rest rest' m)
  ]

  -- A flight goes on until every job has ended.
  goes_on :
      (limit : Option ℕ) (jobs : List VideoJob) (js : List (VideoJob × Stage)) (permits : Option ℕ)
      → ((n : ℕ) → limit ≡ some n → 1 ≤ n)
      → IsSound process_video limit jobs (record { jobs = js; permits = permits })
      → AreFinished js
        ⊎ ((g : Flight) × Step process_video (record { jobs = js; permits = permits }) g)
  goes_on none jobs js (some n) positive h = let e = h.within in cc
  goes_on (some n) jobs js none positive h = let e = h.within.1 in cc
  goes_on none jobs js none positive h = elim (dec_lt 0 (tally is_running js)) [
    | yes busy ↦
        let (job, js', m) = running_job js (omega arith) in
        inr (record { jobs = js'; permits = none }, ends_freely job js js' m)
    | no idle ↦ elim (waiting_job js (omega arith)) [
      | inl done ↦ inl done
      | inr (job, js', m) ↦ inr (record { jobs = js'; permits = none }, starts_freely job js js' m)
    ]
  ]
  goes_on (some n) jobs js (some zero) positive h = elim (dec_lt 0 (tally is_running js)) [
    | yes busy ↦
        let (job, js', m) = running_job js (omega arith) in
        inr (record { jobs = js'; permits = some 1 }, ends job js js' zero m)
    | no idle ↦
        let (left, is_left, sum) = h.within in
        let none_left : zero ≡ left = cc in
        let some_left = positive n refl in let nobody : ⊥ = omega arith in absurd nobody
  ]
  goes_on (some n) jobs js (some (suc k)) positive h = elim (dec_lt 0 (tally is_running js)) [
    | yes busy ↦
        let (job, js', m) = running_job js (omega arith) in
        inr (record { jobs = js'; permits = some (suc (suc k)) }, ends job js js' (suc k) m)
    | no idle ↦ elim (waiting_job js (omega arith)) [
      | inl done ↦ inl done
      | inr (job, js', m) ↦ inr (record { jobs = js'; permits = some k }, starts job js js' k m)
    ]
  ]

  gathered-done :
      (js : List (VideoJob × Stage))
      → AreFinished js
      → All (IsTrue process_video) js
      → All (λ job. (r : Output) × (process_video_worker process_video job ≡ ok r)) (map job_of js)
      → gathered js ≡ some (map (wrap_job process_video) (map job_of js))
  unfolding gathered wrap_job
  gathered-done [] done true_all good = refl
  gathered-done ((job, finished (ok r)) ∷ rest) done true_all good =
      rw (gathered-done rest done true_all.1 good.1, sym true_all.0) refl
  gathered-done ((job, finished (raise e)) ∷ rest) done true_all good =
      let bad = true_all.0 in let fine = good.0.1 in cc
  gathered-done ((job, waiting) ∷ rest) done true_all good = absurd done
  gathered-done ((job, running) ∷ rest) done true_all good = absurd done

  -- The number of steps of a run.
  abbrev pub steps : (f g : Flight) → Reaches process_video f g → ℕ
  steps _ _ (stop f) = 0
  steps _ _ (next f g h s r) = suc (steps g h r)

  steps-work :
      (f g : Flight) (r : Reaches process_video f g) → steps f g r + work g.jobs ≡ work f.jobs
  steps-work _ _ (stop f) = omega arith
  steps-work _ _ (next f g h s r) = omega (arith, steps-work g h r, Step-work process_video f g s)

  work_before : (jobs : List VideoJob) → work (map (λ job. (job, waiting)) jobs) ≡ 2 * length jobs
  work_before [] = omega arith
  work_before (job ∷ jobs) = omega (arith, work_before jobs)

  -- Where the worker returns for every job, whatever state the coroutines have reached, in any order:
  -- the jobs that run and the permits that are left make up the given limit, if it is not zero; the
  -- steps taken and those left are two for each job; and either a step is left to take, or gather
  -- returns, in the order of the jobs, just what the thread pool returns.
  pub run_videos-lands :
      (jobs : List VideoJob) (max_concurrent : Option ℕ) (f : Flight)
      → All (λ job. (r : Output) × (process_video_worker process_video job ≡ ok r)) jobs
      → (reached : Reaches process_video (take_off jobs max_concurrent) f)
      → IsWithin process_video (semaphore max_concurrent) f
        × (steps (take_off jobs max_concurrent) f reached + work f.jobs ≡ 2 * length jobs)
        × ((gathered f.jobs ≡ some (run_videos_in_thread_pool process_video jobs))
            ⊎ ((g : Flight) × Step process_video f g))
  unfolding run_videos_in_thread_pool
  run_videos-lands jobs max_concurrent f good reached =
      let h =
        Reaches-IsSound process_video (semaphore max_concurrent) jobs _ f reached
          (take_off-IsSound process_video jobs max_concurrent) in
      (
        h.within,
        steps-work _ f reached ∙ work_before jobs,
        elim (goes_on (semaphore max_concurrent) jobs f.jobs f.permits
            (semaphore_positive max_concurrent) h) [
              | inr more ↦ inr more
              | inl done ↦
                  let fine =
                    subst
                      (λ js.
                        All (λ job. (r : Output) × (process_video_worker process_video job ≡ ok r))
                          js)
                      (sym h.same_jobs) good in
                  inl (
                    gathered-done f.jobs done h.results fine
                    ∙ ap (λ js. some (map (wrap_job process_video) js)) h.same_jobs)
            ],
      )
