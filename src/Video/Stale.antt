-- ===== src/Video/Stale.antt =====
-- What `_mark_stale_videos` of src/services/scheduler.py does to the table.
use portfolio_cv_project.Common.{
  ℕ, suc, length-append, Bool, true, false, ◌&&◌, ◌||◌, List, [], ◌∷◌, ◌++◌, map, if◌then◌else◌,
  keep, any, tally, length, All, ok, ◌≡◌, refl, sym, ap, ◌∙◌, arith,
}
use portfolio_cv_project.Video.{
  VideoStatus, created, processing, completed, failed, invalid, same_status, VideoFile,
}
use portfolio_cv_project.Video.Session.{
  Session, Run, pure, ◌>>=◌, commit, has_id, is_stale, get_stale_videos, try_except, rollback,
}
use portfolio_cv_project.Video.Scheduler.{
  SchedulerSettings, mark_each, mark_stale_loop, mark_stale_videos, in_session,
}
use portfolio_cv_project.Video.Marking.{
  marked, saves, IsDistinct, IsStorable, AreThere, mark_each-saves, saves-append, Distinct-two,
  AreThere-keep, AreThere-append, saves_pass,
}

abbrev pub is_stuck : SchedulerSettings → ℕ → VideoFile → Bool
is_stuck c now v =
    is_stale created c.stale_threshold now v || is_stale processing c.stale_threshold now v

never_both :
    (st : VideoStatus) (a b : Bool)
    → (same_status st created && a) && (same_status st processing && b) ≡ false
never_both created a b = ground arith
never_both processing a b = refl
never_both completed a b = refl
never_both failed a b = refl
never_both invalid a b = refl

tally-two :
    (p q : VideoFile → Bool) (vs : List VideoFile)
    → ((v : VideoFile) → p v && q v ≡ false)
    → length (keep p vs ++ keep q vs) ≡ tally (λ v. p v || q v) vs
tally-two p q [] h = refl
tally-two p q (v ∷ vs) h = go (p v) (q v) (h v) (tally-two p q vs h)
  where
    go :
        (a b : Bool)
        → a && b ≡ false
        → length (keep p vs ++ keep q vs) ≡ tally (λ v. p v || q v) vs
        → length
            ((if a then v ∷ keep p vs else keep p vs) ++ (if b then v ∷ keep q vs else keep q vs))
          ≡ (let rest = tally (λ v. p v || q v) vs in if a || b then suc rest else rest)
    go true true e ih = cc
    go true false e ih = ap suc ih
    go false false e ih = ih
    go false true e ih =
        length-append (keep p vs) (v ∷ keep q vs)
        ∙ omega (arith, length-append (keep p vs) (keep q vs), ih)

map-id : (vs : List VideoFile) → map (λ v. v) vs ≡ vs
map-id [] = refl
map-id (v ∷ vs) = ap (λ us. v ∷ us) (map-id vs)

map_or :
    (p q : VideoFile → Bool) (f : VideoFile → VideoFile) (vs : List VideoFile)
    → map (λ v. if q v then f v else (if p v then f v else v)) vs
      ≡ map (λ v. if p v || q v then f v else v) vs
map_or p q f [] = refl
map_or p q f (v ∷ vs) = go (p v) (q v) (map_or p q f vs)
  where
    go :
        (a b : Bool)
        → map (λ v. if q v then f v else (if p v then f v else v)) vs
          ≡ map (λ v. if p v || q v then f v else v) vs
        → (if b then f v else (if a then f v else v))
            ∷ map (λ v. if q v then f v else (if p v then f v else v)) vs
          ≡ (if a || b then f v else v) ∷ map (λ v. if p v || q v then f v else v) vs
    go true true ih = ap (λ us. f v ∷ us) ih
    go true false ih = ap (λ us. f v ∷ us) ih
    go false true ih = ap (λ us. f v ∷ us) ih
    go false false ih = ap (λ us. v ∷ us) ih

All-new : (vs : List VideoFile) → All (λ (v : VideoFile). any (has_id v.id) [] ≡ false) vs
All-new [] = tt
All-new (v ∷ vs) = (refl, All-new vs)

module _ (c : SchedulerSettings) (s : Session) (distinct : IsDistinct s.committed)
    (storable : All IsStorable s.committed) where
  abbrev at_created : VideoFile → Bool
  at_created = is_stale created c.stale_threshold s.now

  abbrev at_processing : VideoFile → Bool
  at_processing = is_stale processing c.stale_threshold s.now

  abbrev stale : List VideoFile
  stale = keep at_created s.committed ++ keep at_processing s.committed

  apart : (v : VideoFile) → at_created v && at_processing v ≡ false
  apart v = never_both v.status _ _

  saved :
      saves s.now stale s.committed
      ≡ map (λ v. if is_stuck c s.now v then marked s.now v else v) s.committed
  saved =
      saves-append s.now (keep at_created s.committed) (keep at_processing s.committed) s.committed
      ∙ (ap (saves s.now (keep at_processing s.committed)) (
            ap (saves s.now (keep at_created s.committed)) (sym (map-id s.committed))
            ∙ saves_pass s.now at_created (λ v. v) (λ v. refl) [] s.committed (All-new s.committed)
                distinct)
          ∙ (saves_pass s.now at_processing (λ v. if at_created v then marked s.now v else v)
                (λ v. kept_id v (at_created v)) [] s.committed (All-new s.committed) distinct
              ∙ map_or at_created at_processing (marked s.now) s.committed))
    where
      kept_id : (v : VideoFile) (b : Bool) → (if b then marked s.now v else v).id ≡ v.id
      kept_id v true = refl
      kept_id v false = refl

  -- In a table of distinct ids whose rows have a retry count: the marking makes exactly the rows that
  -- have stood in CREATED or PROCESSING for longer than the threshold FAILED, with a message that
  -- names the status, leaves every other committed row as it is and in its place, commits that, and
  -- returns how many there were.
  pub mark_stale_videos_lem :
      ((mark_stale_videos c s).0 ≡ ok (tally (is_stuck c s.now) s.committed))
      × ((mark_stale_videos c s).1.committed
          ≡ map (λ v. if is_stuck c s.now v then marked s.now v else v) s.committed)
  unfolding mark_stale_videos mark_stale_loop get_stale_videos
  mark_stale_videos_lem =
      go stale
        (AreThere-append s.committed (keep at_created s.committed) (keep at_processing s.committed)
          (AreThere-keep at_created s.committed distinct storable)
          (AreThere-keep at_processing s.committed distinct storable))
        (Distinct-two at_created at_processing apart s.committed distinct)
        (tally-two at_created at_processing s.committed apart) saved
    where
      s0 : Session
      s0 = record s { rows = s.committed }

      after : List VideoFile
      after = map (λ v. if is_stuck c s.now v then marked s.now v else v) s.committed

      loop : List VideoFile → Run ℕ
      loop l = elim l as (λ _. Run ℕ) [
        | [] ↦ pure 0
        | v ∷ vs ↦ mark_each (v ∷ vs) >>= λ _. commit >>= λ _. pure (length (v ∷ vs))
      ]

      go :
          (l : List VideoFile)
          → AreThere s.committed l
          → IsDistinct l
          → length l ≡ tally (is_stuck c s.now) s.committed
          → saves s.now l s.committed ≡ after
          → ((in_session (try_except (loop l) (λ e. rollback >>= λ _. pure 0)) s).0
              ≡ ok (tally (is_stuck c s.now) s.committed))
            × ((in_session (try_except (loop l) (λ e. rollback >>= λ _. pure 0)) s).1.committed
                ≡ after)
      go [] there d count e = (ap ok count, e)
      go (v ∷ vs) there d count e = rw (mark_each-saves (v ∷ vs) s0 there d) (ap ok count, e)
