-- ===== src/Visit/Debounce.antt =====
-- The entry debounce: the accumulated timer of ENTERING against the time of the first sighting.
use portfolio_cv_project.Common.{
  ℕ, ◌≡◌, ◌∙◌, refl, inl, inr, reaches, true, false, List, [], ◌∷◌, Option, none, some,
  if◌then◌else◌, arith, Bool-cases,
}
use portfolio_cv_project.Clock.{DateTime, elapsed, or_else}
use portfolio_cv_project.Visit.{VisitState, entering, present, Visit, VisitSettings}
use portfolio_cv_project.Visit.Machine.{apply_state_transition}

pub record Sighting : Type 0 where
  pub at : DateTime
  pub event_id : Option ℕ

-- The visit after a run of sightings, with no exit check between them.
unfoldable pub watch : VisitSettings → Visit → List Sighting → Visit
watch c v [] = v
watch c v (s ∷ ss) = watch c (apply_state_transition c v s.at s.event_id).visit ss

-- The first sighting that is at least the entry time after `first`.
abbrev pub confirmation : ℕ → DateTime → List Sighting → Option Sighting
confirmation n first [] = none
confirmation n first (s ∷ ss) =
    if reaches (elapsed s.at first) n then some s else confirmation n first ss

abbrev pub confirmed_state : Option Sighting → VisitState
confirmed_state none = entering
confirmed_state (some s) = present

abbrev pub confirmed_at : Option Sighting → Option DateTime
confirmed_at none = none
confirmed_at (some s) = some s.at

abbrev pub confirmed_by : Option ℕ → Option Sighting → Option ℕ
confirmed_by i none = i
confirmed_by i (some s) = s.event_id

watch-present :
    (c : VisitSettings) (v : Visit) (ss : List Sighting)
    → v.state ≡ present
    → let v' = watch c v ss in
      (v'.state ≡ present) × (v'.arrived_at ≡ v.arrived_at) × (v'.entry_event_id ≡ v.entry_event_id)
unfolding watch apply_state_transition
watch-present c v [] h = (h, refl, refl)
watch-present c v (s ∷ ss) h =
    let step = (apply_state_transition c v s.at s.event_id).visit in
    ground (arith, watch-present c step ss)

-- An ENTERING visit that was last seen at `last`, with a timer that counts from `first`.
pub record IsTimed (first last : DateTime) (v : Visit) : Type 0 where
  pub entering_now : v.state ≡ entering
  pub seen_last : v.last_seen_at ≡ some last
  pub timer : v.entry_seen_seconds ≡ elapsed last first

-- The float sums of the timer are exact from `last` on, and so is the comparison with the entry time.
abbrev pub IsExact : VisitSettings → DateTime → DateTime → List Sighting → Type 0
IsExact c first last [] = Unit
IsExact c first last (s ∷ ss) =
    (c.add_seconds (elapsed last first) (elapsed s.at last) ≡ elapsed s.at first)
    × (c.reaches_entry (elapsed s.at first) ≡ reaches (elapsed s.at first) c.entry_confirm_seconds)
    × IsExact c first s.at ss

module _ (c : VisitSettings) (first last : DateTime) (v : Visit) (s : Sighting)
    (h : IsTimed first last v)
    (sum : c.add_seconds (elapsed last first) (elapsed s.at last) ≡ elapsed s.at first)
    (test : c.reaches_entry (elapsed s.at first)
      ≡ reaches (elapsed s.at first) c.entry_confirm_seconds) where
  step_timer :
      c.add_seconds v.entry_seen_seconds
        (elapsed s.at (or_else v.last_seen_at (or_else v.created_at s.at)))
      ≡ elapsed s.at first
  step_timer = rw (h.seen_last, h.timer) sum

  watch_waiting :
      reaches (elapsed s.at first) c.entry_confirm_seconds ≡ false
      → let v' = (apply_state_transition c v s.at s.event_id).visit in
        IsTimed first s.at v'
        × (v'.arrived_at ≡ v.arrived_at)
        × (v'.entry_event_id ≡ v.entry_event_id)
  unfolding apply_state_transition
  watch_waiting e =
      rw (h.entering_now, step_timer, test, e)
        (record { entering_now = refl; seen_last = refl; timer = refl }, refl, refl)

  watch_confirmed :
      reaches (elapsed s.at first) c.entry_confirm_seconds ≡ true
      → let v' = (apply_state_transition c v s.at s.event_id).visit in
        (v'.state ≡ present) × (v'.arrived_at ≡ some s.at) × (v'.entry_event_id ≡ s.event_id)
  unfolding apply_state_transition
  watch_confirmed e = rw (h.entering_now, step_timer, test, e) (refl, refl, refl)

-- Where the float sums of the timer are exact (whole seconds, say), a visit whose timer counts from
-- `first` is, after any run of sightings, PRESENT from the first of them that is at least the entry
-- time after `first`, with its arrival and entry event taken from that sighting; if there is none it
-- is still ENTERING, with both as they were. The summed timer of the code is then the plain distance
-- from the first sighting, through any gaps between sightings and also where times go back.
pub debounce :
    (c : VisitSettings) (first last : DateTime) (v : Visit) (ss : List Sighting)
    → IsTimed first last v
    → IsExact c first last ss
    → v.arrived_at ≡ none
    → let found = confirmation c.entry_confirm_seconds first ss in
      ((watch c v ss).state ≡ confirmed_state found)
      × ((watch c v ss).arrived_at ≡ confirmed_at found)
      × ((watch c v ss).entry_event_id ≡ confirmed_by v.entry_event_id found)
unfolding watch
debounce c first last v [] h exact a = (h.entering_now, a, refl)
debounce c first last v (s ∷ ss) h (sum, test, exact) a =
    let v' = (apply_state_transition c v s.at s.event_id).visit in
    elim (Bool-cases (reaches (elapsed s.at first) c.entry_confirm_seconds)) [
      | inl e ↦
          let (p, q, r) = watch_confirmed c first last v s h sum test e in
          let (p', q', r') = watch-present c v' ss p in rw e (p', q' ∙ q, r' ∙ r)
      | inr e ↦
          let (p, q, r) = watch_waiting c first last v s h sum test e in
          let (p', q', r') = debounce c first s.at v' ss p exact (q ∙ a) in
          rw e (p', q', rw r at r')
    ]
