-- ===== src/Tests/Jobs.antt =====
-- Two jobs, one at a time, of which the first has begun.
use portfolio_cv_project.Common.{
  ◌≡◌, refl, List, [], ◌∷◌, Option, none, some, Result, ok, Text, ◌⊎◌,
}
use portfolio_cv_project.Detect.Frame.{Point}
use portfolio_cv_project.Executor.{
  VideoJob, Output, waiting, running, Flight, run_videos_in_thread_pool, here, Step, starts, stop,
  next, gathered,
}
use portfolio_cv_project.Common.{◌+◌}
use portfolio_cv_project.Executor.{Reaches, take_off, next, stop}
use portfolio_cv_project.Executor.Flights.{IsWithin}
use portfolio_cv_project.Executor.Landing.{steps, run_videos-lands}

abbrev clip : VideoJob
clip = record { video_path = b'a' ∷ []; roi_polygon = none }

abbrev other : VideoJob
other = record { video_path = b'b' ∷ []; roi_polygon = none }

abbrev seen : Text → Option (List Point) → Result Output
seen path roi = ok ([], 2, 1)

abbrev begun : Flight
begun = record { jobs = (clip, running) ∷ (other, waiting) ∷ []; permits = some 0 }

first_begins : Reaches seen (take_off (clip ∷ other ∷ []) (some 1)) begun
first_begins = next _ begun begun (starts clip _ _ 0 (here clip waiting running _)) (stop begun)

run_videos-lands_example :
    IsWithin seen (some 1) begun
    × (steps seen (take_off (clip ∷ other ∷ []) (some 1)) begun first_begins + 3 ≡ 4)
    × ((gathered begun.jobs ≡ some (run_videos_in_thread_pool seen (clip ∷ other ∷ [])))
        ⊎ ((g : Flight) × Step seen begun g))
run_videos-lands_example =
    run_videos-lands seen (clip ∷ other ∷ []) (some 1) begun
      ((([], 2, 1), refl), ((([], 2, 1), refl), tt)) first_begins
