-- ===== src/Visit/Silence.antt =====
-- A sighting of a tractor whose visit is PRESENT, after a silence shorter or longer than twice the
-- exit time.
use portfolio_cv_project.Common.{
  get_item-set_item_self, ℕ, ◌+◌, ◌*◌, ◌≤◌, ◌<◌, ◌≡◌, refl, ap, ◌∙◌, ◌⊎◌, inl, inr, true, false,
  List, [], ◌∷◌, Option, some, arith, length, reaches-sub_ℕ, get_item, set_item, ok,
}
use portfolio_cv_project.Clock.{DateTime, naive}
use portfolio_cv_project.Event.{Event}
use portfolio_cv_project.Visit.{present, leaving, closed, Visit, is_open, VisitSettings}
use portfolio_cv_project.Visit.Machine.{Effect, apply_state_transition, maybe_close_visit}
use portfolio_cv_project.Visit.Store.{World, Database, save, load, store}
use portfolio_cv_project.Visit.Rows.{Holds}
use native.Mathlib.Decide.{dec_lt}
use portfolio_cv_project.Visit.Times.{apply-IsKept}
use portfolio_cv_project.Visit.Process.{
  Loop, Pair, held, close_stale, advance, process_sighting, process_event, gap_since,
}
use portfolio_cv_project.Visit.Safety.{stale_effect, store-Holds, stale_effect-IsKept}

length-save : (v : Visit) (rows : List Visit) → length (save v rows) ≡ length rows
length-save v [] = refl
length-save v (r ∷ rows) = ground (arith, length-save v rows)

-- The tractor's visit before the sighting: PRESENT, last seen at `a`, and known to the loop.
pub record IsParked (pair : Pair) (v : Visit) (a : ℕ) (l : Loop) : Type 0 where
  pub is_present : v.state ≡ present
  pub seen : v.last_seen_at ≡ some (naive a)
  pub row : Holds v l.world.rows
  pub active : get_item pair l.active ≡ some (some v.id)
  pub last : get_item pair l.last_seen ≡ some (some (naive a))

pub held_row : (v : Visit) (w : World) → Holds v w.rows → held (some v.id) w ≡ ok (some v)
unfolding held load
held_row v w h = rw (h, held, load)

module _ (c : VisitSettings) (pair : Pair) (v : Visit) (a b : ℕ) (l : Loop) where
  close_stale_fresh :
      IsParked pair v a l
      → b < c.exit_confirm_seconds + a
      → close_stale c pair (naive b) (some v) l ≡ ok (some v, l)
  unfolding close_stale gap_since
  close_stale_fresh p lt =
      ground (arith, p.is_present, p.last, reaches-sub_ℕ b a c.exit_confirm_seconds)

  pub close_stale_late :
      IsParked pair v a l
      → c.exit_confirm_seconds + a ≤ b
      → close_stale c pair (naive b) (some v) l
        ≡ ok (
          some (stale_effect c v (naive b)).visit,
          record l {
            world = store (stale_effect c v (naive b)) l.world;
            last_seen = set_item pair (some (naive b)) l.last_seen;
          },
        )
  unfolding close_stale gap_since
  close_stale_late p le =
      ground (arith, p.is_present, p.last, reaches-sub_ℕ b a c.exit_confirm_seconds)

  stale_effect_short :
      v.last_seen_at ≡ some (naive a)
      → b < 2 * c.exit_confirm_seconds + a
      → stale_effect c v (naive b)
        ≡ record { visit = record v { state = leaving }; deleted = false; published = [] }
  unfolding maybe_close_visit
  stale_effect_short p lt = ground (arith, reaches-sub_ℕ b a (2 * c.exit_confirm_seconds))

  pub stale_effect_long :
      v.last_seen_at ≡ some (naive a)
      → 2 * c.exit_confirm_seconds + a ≤ b
      → let e = stale_effect c v (naive b) in
        (e.visit
          ≡ record v { state = closed; departed_at = some (naive (a + c.exit_confirm_seconds)) })
        × (e.deleted ≡ false)
  unfolding maybe_close_visit
  stale_effect_long p lt = (
    ground (arith, reaches-sub_ℕ b a (2 * c.exit_confirm_seconds)),
    ground (arith, reaches-sub_ℕ b a (2 * c.exit_confirm_seconds)),
  )

-- An event that is a sighting inside the ROI, of a known tractor, at the naive time `b`.
pub record IsSighting (event : Event) (tractor_id b : ℕ) : Type 0 where
  pub known : event.tractor_id ≡ some tractor_id
  pub inside : event.inside_roi ≡ true
  pub time : event.wall_clock_at ≡ naive b

-- `v'` is `v`, resumed or still there: PRESENT since the same arrival, seen at `b`, which is also the
-- last time kept for its pair, with no row added and no pair given another visit.
pub record IsResumed (pair : Pair) (v v' : Visit) (b : ℕ) (l l' : Loop) : Type 0 where
  pub same_id : v'.id ≡ v.id
  pub is_present : v'.state ≡ present
  pub same_arrival : v'.arrived_at ≡ v.arrived_at
  pub seen : v'.last_seen_at ≡ some (naive b)
  pub row : Holds v' l'.world.rows
  pub same_active : l'.active ≡ l.active
  pub same_length : length l'.world.rows ≡ length l.world.rows
  pub remembered : get_item pair l'.last_seen ≡ some (some (naive b))

apply_here :
    (c : VisitSettings) (v : Visit) (t : DateTime) (i : Option ℕ)
    → (v.state ≡ present) ⊎ (v.state ≡ leaving)
    → let e = apply_state_transition c v t i in
      (e.visit ≡ record v { state = present; last_seen_at = some t; last_event_id = i })
      × (e.deleted ≡ false)
unfolding apply_state_transition
apply_here c v t i h = (ground arith, ground arith)

length-store :
    (e : Effect) (w : World) → e.deleted ≡ false → length (store e w).rows ≡ length w.rows
unfolding store
length-store e w d = rw d (length-save e.visit w.rows)

advance_resumes :
    (db : Database) (c : VisitSettings) (pair : Pair) (b : ℕ) (i : Option ℕ) (v : Visit) (l : Loop)
    → (v.state ≡ present) ⊎ (v.state ≡ leaving)
    → Holds v l.world.rows
    → IsResumed pair v
        (apply_state_transition c v (naive b) i).visit
        b
        l
        (advance db c pair (naive b) i (some v) l)
unfolding advance
advance_resumes db c pair b i v l h row =
    let (changed, kept) = apply_here c v (naive b) i h in
    let e = apply_state_transition c v (naive b) i in
    let is_there : is_open v.state ≡ true = ground arith in
    rw is_there (record {
      same_id = rw changed;
      is_present = rw changed;
      same_arrival = rw changed;
      seen = rw changed;
      row = store-Holds e v l.world row (apply-IsKept c v (naive b) i) kept;
      same_active = refl;
      same_length = length-store e l.world kept;
      remembered = get_item-set_item_self pair (some (naive b)) l.last_seen;
    })

IsResumed-late :
    (pair : Pair) (v v1 v' : Visit) (b : ℕ) (l l1 l' : Loop)
    → v1 ≡ record v { state = leaving }
    → l1.active ≡ l.active
    → length l1.world.rows ≡ length l.world.rows
    → IsResumed pair v1 v' b l1 l'
    → IsResumed pair v v' b l l'
IsResumed-late pair v v1 v' b l l1 l' e f g r = record {
  same_id = r.same_id ∙ ap (λ (x : Visit). x.id) e;
  is_present = r.is_present;
  same_arrival = r.same_arrival ∙ ap (λ (x : Visit). x.arrived_at) e;
  seen = r.seen;
  row = r.row;
  same_active = r.same_active ∙ f;
  same_length = r.same_length ∙ g;
  remembered = r.remembered;
}

module _ (db : Database) (c : VisitSettings) (station_id tractor_id : ℕ) (event : Event) (v : Visit)
    (a b : ℕ) (l : Loop) (p : IsParked (tractor_id, station_id) v a l)
    (s : IsSighting event tractor_id b) where
  abbrev at : Pair
  at = (tractor_id, station_id)

  pub round :
      (o : Option Visit) (l' : Loop)
      → close_stale c at (naive b) (some v) l ≡ ok (o, l')
      → process_event db c station_id event l ≡ ok (advance db c at (naive b) event.id o l')
  unfolding process_event process_sighting
  round o l' e =
      rw (s.known, process_event)
        (rw s.inside (rw s.time (rw p.active (rw (held_row v l.world p.row) (rw e)))))

  -- A tractor seen again before twice the exit time has passed keeps its one visit: the round
  -- returns, adds no row, and the visit is PRESENT since the same arrival and seen at the new time,
  -- which is kept as its last, whether or not the silence had reached the exit time.
  pub short_silence :
      b < 2 * c.exit_confirm_seconds + a
      → (l' : Loop) × (v' : Visit) × (process_event db c station_id event l ≡ ok l')
        × IsResumed at v v' b l l'
  short_silence lt = elim (dec_lt b (c.exit_confirm_seconds + a)) [
    | yes q ↦ (
      advance db c at (naive b) event.id (some v) l,
      (apply_state_transition c v (naive b) event.id).visit,
      round (some v) l (close_stale_fresh c at v a b l p q),
      advance_resumes db c at b event.id v l (inl p.is_present) p.row,
    )
    | no q ↦
        let e = stale_effect c v (naive b) in
        let l1 : Loop = record l {
          world = store e l.world;
          last_seen = set_item at (some (naive b)) l.last_seen;
        } in
        let short = stale_effect_short c at v a b l p.seen lt in
        let gone : e.visit ≡ record v { state = leaving } = rw short in
        let kept : e.deleted ≡ false = rw short in
        let row =
          store-Holds e v l.world p.row (stale_effect-IsKept c v (naive b) p.is_present) kept in
        (
          advance db c at (naive b) event.id (some e.visit) l1,
          (apply_state_transition c e.visit (naive b) event.id).visit,
          round (some e.visit) l1 (close_stale_late c at v a b l p (omega arith)),
          IsResumed-late at v e.visit _ b l l1 _ gone refl (length-store e l.world kept)
              (advance_resumes db c at b event.id e.visit l1 (inr (rw gone)) row),
        )
  ]
