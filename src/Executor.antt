-- ===== src/Executor.antt =====
-- src/services/video_executor.py: the two pools and the jobs sent to them. What `process_video` makes of
-- a file is an argument. The coroutines that `asyncio.gather` waits for are steps: a job begins when
-- the semaphore has a permit, and ends when its worker does, in any order.
pub mod Flights
pub mod Landing
use portfolio_cv_project.Common.{
  ℕ, suc, ◌+◌, ◌-◌, ◌==◌, Bool, true, false, List, [], ◌∷◌, Option, none, some, map, if◌then◌else◌,
  Result, ok, raise, Error, Text, tally, ◌≡◌,
}
use portfolio_cv_project.Detect.Frame.{Point}
use portfolio_cv_project.Detect.Pipeline.{DetectionEvent}

pub record VideoJob : Type 0 where
  pub video_path : Text
  pub roi_polygon : Option (List Point)

pub record VideoJobResult : Type 0 where
  pub job : VideoJob
  pub events : List DetectionEvent
  pub frames_processed : ℕ
  pub triggers_fired : ℕ
  pub error : Option Error

-- The module's variables: the pools, each known by a number, and the pools that were shut down.
pub record Pools : Type 0 where
  pub process_pool : Option ℕ
  pub thread_pool : Option ℕ
  pub next_pool : ℕ
  pub shut_down : List ℕ

abbrev opened : Option ℕ → ℕ → ℕ
opened none fresh = fresh
opened (some i) fresh = i

abbrev next_after : Option ℕ → ℕ → ℕ
next_after none fresh = suc fresh
next_after (some i) fresh = fresh

unfoldable pub get_process_pool : Pools → ℕ × Pools
get_process_pool p =
    let i = opened p.process_pool p.next_pool in
    (i, record p { process_pool = some i; next_pool = next_after p.process_pool p.next_pool })

unfoldable pub get_thread_pool : Pools → ℕ × Pools
get_thread_pool p =
    let i = opened p.thread_pool p.next_pool in
    (i, record p { thread_pool = some i; next_pool = next_after p.thread_pool p.next_pool })

abbrev closing : Option ℕ → List ℕ → List ℕ
closing none shut = shut
closing (some i) shut = i ∷ shut

unfoldable pub reset_executors : Pools → Pools
reset_executors p = record p {
  process_pool = none;
  thread_pool = none;
  shut_down = closing p.thread_pool (closing p.process_pool p.shut_down);
}

abbrev pub Output : Type 0
Output = List DetectionEvent × ℕ × ℕ

abbrev pub result_of : VideoJob → Output → VideoJobResult
result_of job (events, frames, triggers) = record {
  job = job;
  events = events;
  frames_processed = frames;
  triggers_fired = triggers;
  error = none;
}

-- Where a coroutine of `run_videos_in_parallel` is.
pub data Stage : Type 0 where
  waiting running : Stage
  finished : Result Output → Stage

-- The jobs in their order, and the permits of the semaphore, if there is one.
pub record Flight : Type 0 where
  pub jobs : List (VideoJob × Stage)
  pub permits : Option ℕ

abbrev pub is_running : VideoJob × Stage → Bool
is_running (job, running) = true
is_running (job, _) = false

-- `asyncio.Semaphore(max_concurrent) if max_concurrent else None`.
abbrev pub semaphore : Option ℕ → Option ℕ
semaphore none = none
semaphore (some n) = if n == 0 then none else some n

abbrev pub take_off : List VideoJob → Option ℕ → Flight
take_off jobs max_concurrent = record {
  jobs = map (λ job. (job, waiting)) jobs;
  permits = semaphore max_concurrent;
}

module _ (process_video : Text → Option (List Point) → Result Output) where
  abbrev pub process_video_worker : VideoJob → Result Output
  process_video_worker job = process_video job.video_path job.roi_polygon

  abbrev pub wrapped : VideoJob → Result Output → VideoJobResult
  wrapped job (ok r) = result_of job r
  wrapped job (raise e) = record {
    job = job;
    events = [];
    frames_processed = 0;
    triggers_fired = 0;
    error = some e;
  }

  unfoldable pub wrap_job : VideoJob → VideoJobResult
  wrap_job job = wrapped job (process_video_worker job)

  -- A thread's result never raises, so the gathered list is that of the jobs.
  unfoldable pub run_videos_in_thread_pool : List VideoJob → List VideoJobResult
  unfolding wrap_job
  run_videos_in_thread_pool jobs = map wrap_job jobs

  -- One job of the list moves from one stage to the next.
  pub data Moves
      : VideoJob → Stage → Stage → List (VideoJob × Stage) → List (VideoJob × Stage) → Type 0 where
    here :
        (job : VideoJob) (a b : Stage) (rest : List (VideoJob × Stage))
        → Moves job a b ((job, a) ∷ rest) ((job, b) ∷ rest)
    there :
        (job : VideoJob) (a b : Stage) (first : VideoJob × Stage)
        (rest rest' : List (VideoJob × Stage))
        → Moves job a b rest rest'
        → Moves job a b (first ∷ rest) (first ∷ rest')

  pub data Step : Flight → Flight → Type 0 where
    starts :
        (job : VideoJob) (jobs jobs' : List (VideoJob × Stage)) (n : ℕ)
        → Moves job waiting running jobs jobs'
        → Step
            (record { jobs = jobs; permits = some (suc n) })
            (record { jobs = jobs'; permits = some n })
    starts_freely :
        (job : VideoJob) (jobs jobs' : List (VideoJob × Stage))
        → Moves job waiting running jobs jobs'
        → Step (record { jobs = jobs; permits = none }) (record { jobs = jobs'; permits = none })
    ends :
        (job : VideoJob) (jobs jobs' : List (VideoJob × Stage)) (n : ℕ)
        → Moves job running (finished (process_video_worker job)) jobs jobs'
        → Step
            (record { jobs = jobs; permits = some n })
            (record { jobs = jobs'; permits = some (suc n) })
    ends_freely :
        (job : VideoJob) (jobs jobs' : List (VideoJob × Stage))
        → Moves job running (finished (process_video_worker job)) jobs jobs'
        → Step (record { jobs = jobs; permits = none }) (record { jobs = jobs'; permits = none })

  pub data Reaches : Flight → Flight → Type 0 where
    stop : (f : Flight) → Reaches f f
    next : (f g h : Flight) → Step f g → Reaches g h → Reaches f h

-- What `asyncio.gather` returns once every coroutine has: the results in the order of the jobs. It
-- returns nothing while one is under way or where one has raised.
unfoldable pub gathered : List (VideoJob × Stage) → Option (List VideoJobResult)
gathered [] = some []
gathered ((job, finished (ok r)) ∷ rest) =
    let results = gathered rest in
    elim results [ none ↦ none | some rs ↦ some (result_of job r ∷ rs) ]
gathered ((job, finished (raise e)) ∷ rest) = none
gathered ((job, waiting) ∷ rest) = none
gathered ((job, running) ∷ rest) = none
