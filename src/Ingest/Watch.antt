-- ===== src/Ingest/Watch.antt =====
-- `collect_station_directories` of ingestion/cursor.py and `watch_station_dirs` of ingestion/main.py. A
-- directory is a number, its resolved path, and a task is a number, in the order of their creation. A
-- producer ends by being cancelled and in no other way: what its iterator raises when the directory
-- vanishes is no StationDirectoryDoesntExist, so it is caught, and the loop goes on.
use portfolio_cv_project.Common.{
  ℕ, suc, ◌==◌, Bool, true, false, not, List, [], ◌∷◌, ◌++◌, any, keep, map, Option, none, some,
  if◌then◌else◌,
}

abbrev pub member : ℕ → List ℕ → Bool
member d ds = any (λ x. d == x) ds

abbrev pub minus : List ℕ → List ℕ → List ℕ
minus ds es = keep (λ d. not (member d es)) ds

-- The elements, each once.
abbrev pub as_set : List ℕ → List ℕ
as_set [] = []
as_set (d ∷ ds) = let rest = as_set ds in if member d rest then rest else d ∷ rest

pub record Changes : Type 0 where
  pub new : List ℕ
  pub removed : List ℕ
  pub union : List ℕ

-- Whether the root exists, the station directories in it, and the current ones.
unfoldable pub collect_station_directories : Bool → List ℕ → List ℕ → Changes
collect_station_directories root_exists listed current =
    if root_exists
    then (let new_dirs = as_set listed in
        record { new = minus new_dirs current; removed = minus current new_dirs; union = new_dirs })
    else record { new = []; removed = current; union = current }

-- What `StationDirectory(d)` does: the path is there, it is not, or the look at it raises.
pub data Setup : Type 0 where
  found missing unreadable : Setup

-- One turn of the watcher: whether the listing raises, what it finds, and the set-up of a directory.
pub record Look : Type 0 where
  pub raises : Bool
  pub root_exists : Bool
  pub listed : List ℕ
  pub setup : ℕ → Setup

-- The directories with their tasks, in the order of the dict, those of the last turn that did not
-- raise, and the tasks that run.
pub record Watcher : Type 0 where
  pub active : List (ℕ × ℕ)
  pub current : List ℕ
  pub running : List ℕ
  pub next_task : ℕ

abbrev pub idle : Watcher
idle = record { active = []; current = []; running = []; next_task = 0 }

abbrev pub directories : List (ℕ × ℕ) → List ℕ
directories active = map (λ p. p.0) active

abbrev pub tasks : List (ℕ × ℕ) → List ℕ
tasks active = map (λ p. p.1) active

abbrev pub task_of : ℕ → List (ℕ × ℕ) → Option ℕ
task_of d [] = none
task_of d (p ∷ active) = if d == p.0 then some p.1 else task_of d active

-- `del active[d]`.
abbrev pub without : ℕ → List (ℕ × ℕ) → List (ℕ × ℕ)
without d active = keep (λ p. not (d == p.0)) active

-- `active[d] = task`.
abbrev pub assign : ℕ → ℕ → List (ℕ × ℕ) → List (ℕ × ℕ)
assign d t [] = (d, t) ∷ []
assign d t (p ∷ active) = if d == p.0 then (p.0, t) ∷ active else p ∷ assign d t active

-- `task.cancel()` and the wait for its end.
abbrev pub cancel : ℕ → List ℕ → List ℕ
cancel t running = keep (λ u. not (t == u)) running

abbrev pub stop : ℕ → Watcher → Watcher
stop d w = elim (task_of d w.active) as (λ _. Watcher) [
  | none ↦ w
  | some t ↦ record w { active = without d w.active; running = cancel t w.running }
]

abbrev pub stop_each : List ℕ → Watcher → Watcher
stop_each [] w = w
stop_each (d ∷ ds) w = stop_each ds (stop d w)

abbrev pub start : ℕ → Watcher → Watcher
start d w = record w {
  active = assign d w.next_task w.active;
  running = w.running ++ (w.next_task ∷ []);
  next_task = suc w.next_task;
}

-- The new directories in turn, and whether none of them raised.
abbrev pub start_each : (ℕ → Setup) → List ℕ → Watcher → Bool × Watcher
start_each setup [] w = (true, w)
start_each setup (d ∷ ds) w = elim (setup d) as (λ _. Bool × Watcher) [
  | found ↦ start_each setup ds (start d w)
  | missing ↦ start_each setup ds w
  | unreadable ↦ (false, w)
]

abbrev pub settle : Bool × Watcher → Watcher
settle (true, w) = record w { current = directories w.active }
settle (false, w) = w

unfoldable pub watch_turn : Look → Watcher → Watcher
unfolding collect_station_directories
watch_turn look w =
    let changes = collect_station_directories look.root_exists look.listed w.current in
    if look.raises
    then w
    else settle (start_each look.setup changes.new (stop_each changes.removed w))

unfoldable pub watch_turns : List Look → Watcher → Watcher
unfolding watch_turn
watch_turns [] w = w
watch_turns (look ∷ looks) w = watch_turns looks (watch_turn look w)

abbrev pub cancel_each : List ℕ → List ℕ → List ℕ
cancel_each [] running = running
cancel_each (t ∷ ts) running = cancel_each ts (cancel t running)

abbrev pub shutdown : Watcher → Watcher
shutdown w = record w { running = cancel_each (tasks w.active) w.running }

-- The turns until the stop event is set, and the end.
unfoldable pub watch_station_dirs : List Look → Watcher → Watcher
unfolding watch_turns
watch_station_dirs looks w = shutdown (watch_turns looks w)
