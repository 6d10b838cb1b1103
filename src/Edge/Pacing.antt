-- ===== src/Edge/Pacing.antt =====
-- How fast the loop of `_consume_stream` (edge/main.py) turns, and the settings that `main` starts the
-- pipeline with. Times are microseconds of the monotonic clock.
use portfolio_cv_project.Common.{
  ℕ, ◌==◌, ◌+◌, ◌/◌, ◌≤◌, max, ℤ, pos, negsuc, sub_ℕ, Bool, true, false, List, [], ◌∷◌, Option,
  if◌then◌else◌, ◌≡◌, refl, arith,
}
use portfolio_cv_project.Clock.{or_else}
use portfolio_cv_project.Mqtt.{Text}

-- `1.0 / max(fps_target, 0.1)`, where the target is counted in tenths of a frame a second.
abbrev pub min_frame_dt : ℕ → ℕ
min_frame_dt fps_target = 10000000 / max fps_target 1

-- How a wait for the stop event ends: by the event after some time, or by its timeout, late by some.
pub data Wait : Type 0 where
  stopped : ℕ → Wait
  timed_out : ℕ → Wait

abbrev pub waited : ℕ → Wait → ℕ → ℕ
waited seconds (stopped after) now = now + after
waited seconds (timed_out late) now = now + seconds + late

-- `_maybe_sleep`: when it returns.
unfoldable pub maybe_sleep : ℤ → Wait → ℕ → ℕ
maybe_sleep (pos seconds) wait now = if seconds == 0 then now else waited seconds wait now
maybe_sleep (negsuc n) wait now = now

-- One turn: how long reading and processing took, and how the wait ended.
pub record Turn : Type 0 where
  pub elapsed : ℕ
  pub wait : Wait

abbrev pub is_stopped : Wait → Bool
is_stopped (stopped after) = true
is_stopped (timed_out late) = false

-- `if remaining > 0: await self._maybe_sleep(remaining)`.
abbrev pub paced : ℕ → ℕ → Turn → ℕ
paced fps_target loop_start turn =
    maybe_sleep (sub_ℕ (min_frame_dt fps_target) turn.elapsed) turn.wait (loop_start + turn.elapsed)

-- The starts of the turns. A wait that the stop event ends is the last; a turn that needs no wait
-- meets the event too, if it is set by then.
unfoldable pub loop_starts : ℕ → ℕ → List Turn → List ℕ
loop_starts fps_target loop_start [] = loop_start ∷ []
loop_starts fps_target loop_start (turn ∷ turns) =
    loop_start
    ∷ (let rest = loop_starts fps_target (paced fps_target loop_start turn) turns in
        if is_stopped turn.wait then [] else rest)

-- Each start is later than the one before by the gap or more.
abbrev pub IsSpaced : ℕ → ℕ → List ℕ → Type 0
IsSpaced gap last [] = Unit
IsSpaced gap last (t ∷ ts) = (last + gap ≤ t) × IsSpaced gap t ts

-- The turns after the first.
abbrev pub later : List ℕ → List ℕ
later [] = []
later (t ∷ ts) = ts

paced-le :
    (fps_target loop_start elapsed late : ℕ)
    → loop_start + min_frame_dt fps_target
      ≤ paced fps_target loop_start (record { elapsed = elapsed; wait = timed_out late })
unfolding maybe_sleep sub_ℕ
paced-le fps_target loop_start elapsed late = go (min_frame_dt fps_target)
  where
    go :
        (dt : ℕ)
        → loop_start + dt ≤ maybe_sleep (sub_ℕ dt elapsed) (timed_out late) (loop_start + elapsed)
    go dt = ground arith

loop_starts-first :
    (fps_target loop_start : ℕ) (turns : List Turn)
    → loop_starts fps_target loop_start turns
      ≡ loop_start ∷ later (loop_starts fps_target loop_start turns)
unfolding loop_starts
loop_starts-first fps_target loop_start [] = refl
loop_starts-first fps_target loop_start (turn ∷ turns) = refl

-- However long the frames take and the waits oversleep: between the starts of two successive turns of
-- the loop over one opened stream, a frame's time at the target rate passes or more. The read itself
-- runs in a thread at some time in the turn.
pub loop_starts-IsSpaced :
    (fps_target loop_start : ℕ) (turns : List Turn)
    → IsSpaced
        (min_frame_dt fps_target)
        loop_start
        (later (loop_starts fps_target loop_start turns))
unfolding loop_starts
loop_starts-IsSpaced fps_target loop_start [] = tt
loop_starts-IsSpaced fps_target loop_start (turn ∷ turns) =
    go turn.wait refl (loop_starts-IsSpaced fps_target (paced fps_target loop_start turn) turns)
  where
    next : ℕ
    next = paced fps_target loop_start turn

    go :
        (w : Wait)
        → turn.wait ≡ w
        → IsSpaced (min_frame_dt fps_target) next (later (loop_starts fps_target next turns))
        → IsSpaced
            (min_frame_dt fps_target)
            loop_start
            (if is_stopped w then [] else loop_starts fps_target next turns)
    go (stopped after) e spaced = tt
    go (timed_out late) e spaced =
        rw (loop_starts-first fps_target next turns)
          (rw e (paced-le fps_target loop_start turn.elapsed late), spaced)

-- The command line of the edge process, and its settings: each a value or left out.
pub record EdgeArgs : Type 0 where
  pub rtsp_url : Option Text
  pub station_code : Option Text
  pub fps_target : Option ℕ
  pub frame_skip : Option ℕ
  pub reconnect_delay : Option ℕ
  pub publish_interval_sec : Option ℕ
  pub publish_max_events : Option ℕ

pub record EdgeConfig : Type 0 where
  pub rtsp_url : Text
  pub station_code : Text
  pub fps_target : ℕ
  pub frame_skip : ℕ
  pub reconnect_delay : ℕ
  pub publish_interval_sec : ℕ
  pub publish_max_events : ℕ

-- `_settings_from_args` with the `overrides.get(name, edge_settings.name)` of `main`.
abbrev pub settings_from_args : EdgeArgs → EdgeConfig → EdgeConfig
settings_from_args args edge_settings = record {
  rtsp_url = or_else args.rtsp_url edge_settings.rtsp_url;
  station_code = or_else args.station_code edge_settings.station_code;
  fps_target = or_else args.fps_target edge_settings.fps_target;
  frame_skip = or_else args.frame_skip edge_settings.frame_skip;
  reconnect_delay = or_else args.reconnect_delay edge_settings.reconnect_delay;
  publish_interval_sec = or_else args.publish_interval_sec edge_settings.publish_interval_sec;
  publish_max_events = or_else args.publish_max_events edge_settings.publish_max_events;
}
