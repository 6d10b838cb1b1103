-- ===== src/Video/Switch.antt =====
-- Starting and stopping the retry scheduler: `start` and `stop` of src/services/scheduler.py. A task is
-- known by its number; one that was cancelled ends some time later, and `stop` waits for it, during
-- which other calls may run.
use portfolio_cv_project.Common.{
  ℕ, ◌+◌, ◌==◌, ◌≡◌, refl, ap, ◌∙◌, Bool, true, false, not, ◌||◌, List, [], ◌∷◌, ◌++◌, Option, none,
  some, if◌then◌else◌, keep, arith, Bool-cases, inl, inr,
}
use portfolio_cv_project.Video.Scheduler.{SchedulerSettings}

pub record Task : Type 0 where
  pub number : ℕ
  pub is_cancelled : Bool

pub record Switch : Type 0 where
  pub is_running : Bool
  pub task : Option ℕ
  pub alive : List Task
  pub next_task : ℕ

unfoldable pub start : SchedulerSettings → Switch → Switch
start settings s =
    if not settings.scheduler_activate
    then s
    else (if s.is_running then s else record {
      is_running = true;
      task = some s.next_task;
      alive = s.alive ++ (record { number = s.next_task; is_cancelled = false } ∷ []);
      next_task = s.next_task + 1;
    })

abbrev pub cancel : Option ℕ → List Task → List Task
cancel none tasks = tasks
cancel (some i) [] = []
cancel (some i) (t ∷ tasks) =
    (if t.number == i then record t { is_cancelled = true } else t) ∷ cancel (some i) tasks

-- `stop` up to where it waits for the task.
unfoldable pub stop : Switch → Switch
stop s =
    if not s.is_running then s else record s { is_running = false; alive = cancel s.task s.alive }

-- A cancelled task ends.
abbrev pub ended : ℕ → Switch → Switch
ended i s = record s { alive = keep (λ t. not (t.number == i) || not t.is_cancelled) s.alive }

pub data Call : Type 0 where
  starts stops : Call
  ends : ℕ → Call

unfoldable pub calls : SchedulerSettings → List Call → Switch → Switch
calls settings [] s = s
calls settings (starts ∷ cs) s = calls settings cs (start settings s)
calls settings (stops ∷ cs) s = calls settings cs (stop s)
calls settings (ends i ∷ cs) s = calls settings cs (ended i s)

-- The tasks that go on.
abbrev pub going : List Task → List Task
going tasks = keep (λ t. not t.is_cancelled) tasks

abbrev pub the_task : Option ℕ → List Task
the_task none = []
the_task (some i) = record { number = i; is_cancelled = false } ∷ []

-- While the scheduler runs its task goes on, and no other does; while it does not, none does.
abbrev pub IsSingle : Switch → Type 0
IsSingle s = going s.alive ≡ (if s.is_running then the_task s.task else [])

going-append :
    (ts : List Task) (n : ℕ)
    → going ts ≡ []
    → going (ts ++ (record { number = n; is_cancelled = false } ∷ [])) ≡ the_task (some n)
going-append [] n h = refl
going-append (t ∷ ts) n h = ground (arith, going-append ts n)

going-ended :
    (i : ℕ) (ts : List Task)
    → going (keep (λ t. not (t.number == i) || not t.is_cancelled) ts) ≡ going ts
going-ended i [] = refl
going-ended i (t ∷ ts) = ground (arith, going-ended i ts)

going-cancel_none : (i : ℕ) (ts : List Task) → going ts ≡ [] → going (cancel (some i) ts) ≡ []
going-cancel_none i [] h = refl
going-cancel_none i (t ∷ ts) h = ground (arith, going-cancel_none i ts)

going-cancel :
    (i : ℕ) (ts : List Task) → going ts ≡ the_task (some i) → going (cancel (some i) ts) ≡ []
going-cancel i [] h = cc
going-cancel i (t ∷ ts) h = elim (Bool-cases t.is_cancelled) [
  | inl c ↦ ground (arith, c, going-cancel i ts (rw c at h))
  | inr c ↦
      let all : record { number = t.number; is_cancelled = false } ∷ going ts
          ≡ record { number = i; is_cancelled = false } ∷ [] =
        rw c at h in
      let rest : going ts ≡ [] = cc in
      let first : ◌≡◌ {A = Task} (record { number = t.number; is_cancelled = false })
          (record { number = i; is_cancelled = false }) =
        cc in
      let same : t.number ≡ i = ap (λ (u : Task). u.number) first in
      ground (arith, same, going-cancel_none i ts rest)
]

pub start-IsSingle :
    (settings : SchedulerSettings) (s : Switch) → IsSingle s → IsSingle (start settings s)
unfolding start
start-IsSingle settings s h = elim (Bool-cases settings.scheduler_activate) [
  | inr off ↦ rw off h
  | inl on ↦ elim (Bool-cases s.is_running) [
    | inl r ↦ rw (on, r) (rw r at h)
    | inr r ↦ rw (on, r) (going-append s.alive s.next_task (rw r at h))
  ]
]

pub stop-IsSingle : (s : Switch) → IsSingle s → IsSingle (stop s)
unfolding stop
stop-IsSingle s h = elim (Bool-cases s.is_running) [
  | inr r ↦ rw r (rw r at h)
  | inl r ↦ rw r (go s.task (rw r at h))
]
  where
    go : (o : Option ℕ) → going s.alive ≡ the_task o → going (cancel o s.alive) ≡ []
    go none e = e
    go (some i) e = going-cancel i s.alive e

pub ended-IsSingle : (i : ℕ) (s : Switch) → IsSingle s → IsSingle (ended i s)
ended-IsSingle i s h = going-ended i s.alive ∙ h

-- However start and stop are called and whenever cancelled tasks end: the scheduler's one task goes
-- on just while it is running, and no other task goes on, if this holds before.
pub calls-IsSingle :
    (settings : SchedulerSettings) (cs : List Call) (s : Switch)
    → IsSingle s
    → IsSingle (calls settings cs s)
unfolding calls
calls-IsSingle settings [] s h = h
calls-IsSingle settings (starts ∷ cs) s h =
    calls-IsSingle settings cs _ (start-IsSingle settings s h)
calls-IsSingle settings (stops ∷ cs) s h = calls-IsSingle settings cs _ (stop-IsSingle s h)
calls-IsSingle settings (ends i ∷ cs) s h = calls-IsSingle settings cs _ (ended-IsSingle i s h)
