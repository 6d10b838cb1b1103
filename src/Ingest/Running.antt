-- ===== src/Ingest/Running.antt =====
-- What `watch_station_dirs` (ingestion/main.py) knows of the producers that run.
use portfolio_cv_project.Common.{
  ℕ, Bool, true, false, not, ◌&&◌, ◌||◌, List, [], ◌∷◌, ◌++◌, keep, if◌then◌else◌, All, append_nil,
  ◌≡◌, refl, ap, ◌∙◌,
}
use portfolio_cv_project.Ingest.Watch.{
  member, minus, as_set, Look, Watcher, idle, directories, tasks, stop_each, start_each, settle,
  collect_station_directories, watch_turn, watch_turns, watch_station_dirs,
}
use portfolio_cv_project.Ingest.Members.{
  IsDistinct, IsDistinct-keep, IsDistinct-as_set, member-append, new_unknown, member-as_set,
  member-keep, still_or_new, none_left, cancel_each-minus, minus_self,
}
use portfolio_cv_project.Ingest.Starting.{
  IsTracked, is_found, is_readable, stop_each_lem, start_each_lem,
}

-- Between two turns.
pub record IsRunning (w : Watcher) : Type 0 where
  pub producers : IsTracked w
  pub known : w.current ≡ directories w.active

-- Whether a directory has a producer after a turn.
abbrev pub has_producer : Look → Watcher → ℕ → Bool
has_producer look w d =
    let had = member d (directories w.active) in
    if look.raises
    then had
    else look.root_exists && member d look.listed && (had || is_found (look.setup d))

-- A turn of the watcher from a state between two turns.
module _ (look : Look) (readable : (d : ℕ) → is_readable (look.setup d) ≡ true) (w : Watcher)
    (h : IsRunning w) where
  changed :
      (new removed : List ℕ)
      → IsDistinct new
      → All (λ d. member d (minus (directories w.active) removed) ≡ false) new
      → let w' = settle (start_each look.setup new (stop_each removed w)) in
        IsRunning w'
        × (directories w'.active
            ≡ minus (directories w.active) removed ++ keep (λ d. is_found (look.setup d)) new)
  changed new removed distinct unknown =
      let (left, rest) = stop_each_lem removed w h.producers in
      let (fine, all, dirs) =
        start_each_lem look.setup readable new (stop_each removed w) left distinct
          (rw rest unknown) in
      let result = start_each look.setup new (stop_each removed w) in
      settled result.0 fine result.1 all
        (dirs ∙ ap (λ xs. xs ++ keep (λ d. is_found (look.setup d)) new) rest)
    where
      settled :
          (b : Bool)
          → b ≡ true
          → (w' : Watcher) → IsTracked w'
          → directories w'.active
            ≡ minus (directories w.active) removed ++ keep (λ d. is_found (look.setup d)) new
          → IsRunning (settle (b, w'))
            × (directories (settle (b, w')).active
                ≡ minus (directories w.active) removed ++ keep (λ d. is_found (look.setup d)) new)
      settled true e w' all dirs = (
        record {
          producers = record { apart = all.apart; tracked = all.tracked; below = all.below };
          known = refl;
        },
        dirs,
      )
      settled false e w' all dirs = cc

  pub watch_turn_lem :
      (d : ℕ)
      → IsRunning (watch_turn look w)
        × (member d (directories (watch_turn look w).active) ≡ has_producer look w d)
  unfolding watch_turn
  watch_turn_lem d = go look.raises look.root_exists
    where
      go :
          (raised there : Bool)
          → let changes = collect_station_directories there look.listed w.current in
            let had = member d (directories w.active) in
            let w' =
              if raised
              then w
              else settle (start_each look.setup changes.new (stop_each changes.removed w)) in
            IsRunning w'
            × (member d (directories w'.active) ≡ (
                if raised
                then had
                else there && member d look.listed && (had || is_found (look.setup d))))
      go true there = (h, refl)
      go false true =
          let dirs = directories w.active in
          let listed = as_set look.listed in
          let (runs, left) =
            changed (minus listed w.current) (minus w.current listed)
              (IsDistinct-keep (λ x. not (member x w.current)) listed
                (IsDistinct-as_set look.listed))
              (rw (h.known) (new_unknown listed dirs (minus dirs listed))) in
          (
            runs,
            ap (member d) left
                ∙ rw
                    (
                      h.known,
                      member-append d (minus dirs (minus dirs listed))
                          (keep (λ x. is_found (look.setup x)) (minus listed dirs)),
                      member-keep d (λ x. not (member x (minus dirs listed))) dirs,
                      member-keep d (λ x. not (member x listed)) dirs,
                      member-keep d (λ x. is_found (look.setup x)) (minus listed dirs),
                      member-keep d (λ x. not (member x dirs)) listed,
                      member-as_set d look.listed,
                    )
                    (still_or_new (member d dirs) (member d look.listed) (is_found (look.setup d))),
          )
      go false false =
          let dirs = directories w.active in
          let (runs, left) = changed [] w.current tt tt in
          (
            runs,
            ap (member d) left
                ∙ rw
                    (
                      h.known,
                      append_nil (minus dirs dirs),
                      member-keep d (λ x. not (member x dirs)) dirs,
                    )
                    (none_left (member d dirs)),
          )

turns-IsRunning :
    (looks : List Look) (w : Watcher)
    → All (λ look. (d : ℕ) → is_readable (look.setup d) ≡ true) looks
    → IsRunning w
    → IsRunning (watch_turns looks w)
unfolding watch_turns
turns-IsRunning [] w readable h = h
turns-IsRunning (look ∷ looks) w (first, rest) h =
    turns-IsRunning looks (watch_turn look w) rest (watch_turn_lem look first w h 0).0

idle-IsRunning : IsRunning idle
idle-IsRunning = record {
  producers = record { apart = tt; tracked = refl; below = tt };
  known = refl;
}

-- While no look at a directory raises: between two turns the running producers are those of the dict,
-- no directory and no task twice; a turn keeps the dict if the listing raises, and otherwise leaves
-- the directories that the root lists and that had a producer or were found by the set-up; and when
-- the watcher ends, no producer runs.
pub watch_station_dirs-tracks :
    (looks : List Look) (readable : All (λ look. (d : ℕ) → is_readable (look.setup d) ≡ true) looks)
    (last : Look) (fine : (d : ℕ) → is_readable (last.setup d) ≡ true) (d : ℕ)
    → let w = watch_turns looks idle in
      IsRunning w
      × (member d (directories (watch_turn last w).active) ≡ has_producer last w d)
      × ((watch_station_dirs looks idle).running ≡ [])
unfolding watch_station_dirs
watch_station_dirs-tracks looks readable last fine d =
    let w = watch_turns looks idle in
    let h = turns-IsRunning looks idle readable idle-IsRunning in
    (
      h,
      (watch_turn_lem last fine w h d).1,
      cancel_each-minus (tasks w.active) w.running
          ∙ (ap (λ us. minus us (tasks w.active)) h.producers.tracked
              ∙ minus_self (tasks w.active)),
    )
