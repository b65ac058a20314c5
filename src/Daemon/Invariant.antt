-- ===== src/Daemon/Invariant.antt =====
-- What the maps and the scheduler of the daemon hold about each job agrees.
use cronbat.Prelude.{
  ℕ, ◌≡◌, refl, sym, ◌∙◌, ap, subst, inl, inr, Bool, true, false, not, Option, none, some, arith,
  if◌then◌else◌, Bool-cases,
}
use cronbat.Text.{Text, text_eq, trim_space}
use cronbat.Text.Laws.{text_eq→eq}
use cronbat.Dict.{lookup, is_some}
use cronbat.Errors.{Result, ok, err}
use cronbat.Config.Job.{Job, is_enabled}
use cronbat.World.{World}
use cronbat.Scheduler
use cronbat.Scheduler.{Scheduler}
use cronbat.Scheduler.Laws.{
  IsUnique, add_job-IsUnique, remove_job-IsUnique, next_run_time-add_job, next_run_time-remove_job,
}
use cronbat.Daemon.State.{Daemon, JobState, state_of, apply_schedule, schedule_parsed}

abbrev next_of : ℕ → Result (ℕ → ℕ) → Option ℕ
next_of now (err e) = none
next_of now (ok schedule) = some (schedule now)

-- When a job runs next: never if it is disabled or its schedule does not parse.
unfoldable pub due_at : World → ℕ → Job → Option ℕ
due_at w now j = if is_enabled j then next_of now (w.parse_schedule j.schedule) else none

-- A job is due by its schedule, wherever its file is.
pub due_at_path :
    (w : World) (now : ℕ) (j : Job) (path : Text)
    → due_at w now (record j { file_path = path }) ≡ due_at w now j
unfolding due_at is_enabled
due_at_path w now j path = refl

module _ (w : World) (now : ℕ) (j : Job) (s : Scheduler) (u : IsUnique s.heap) where
  abbrev s' : Scheduler
  s' = Scheduler.remove_job now j.name s

  u' : IsUnique s'.heap
  u' = remove_job-IsUnique now j.name s u

  parsed-IsUnique : (r : Result (ℕ → ℕ)) → IsUnique (schedule_parsed now j.name s' r).1.heap
  unfolding schedule_parsed
  parsed-IsUnique (err e) = u'
  parsed-IsUnique (ok schedule) = add_job-IsUnique now j.name s' u' schedule

  pub apply_schedule-IsUnique : IsUnique (apply_schedule w now j s).1.heap
  unfolding apply_schedule
  apply_schedule-IsUnique = elim (Bool-cases (is_enabled j)) [
    | inl e ↦ rw e (parsed-IsUnique (w.parse_schedule j.schedule))
    | inr e ↦ rw e u'
  ]

  parsed-next :
      (r : Result (ℕ → ℕ)) (n : Text)
      → Scheduler.next_run_time n (schedule_parsed now j.name s' r).1
        ≡ (if text_eq j.name n then next_of now r else Scheduler.next_run_time n s)
  unfolding schedule_parsed
  parsed-next (err e) n = next_run_time-remove_job now j.name s u n
  parsed-next (ok schedule) n = ground (
    arith,
    next_run_time-add_job now j.name s' u' schedule n,
    next_run_time-remove_job now j.name s u n,
  )

  -- Afterwards the job is due when its schedule says, or never; no other job's next run changes.
  pub next-apply_schedule :
      (n : Text)
      → Scheduler.next_run_time n (apply_schedule w now j s).1
        ≡ (if text_eq j.name n then due_at w now j else Scheduler.next_run_time n s)
  unfolding apply_schedule due_at
  next-apply_schedule n = elim (Bool-cases (is_enabled j)) [
    | inl e ↦ rw e (parsed-next (w.parse_schedule j.schedule) n)
    | inr e ↦ rw e (next_run_time-remove_job now j.name s u n)
  ]

-- A state on record fits the job's `enabled`.
abbrev pub state_fits : Job → Option JobState → Bool
state_fits j none = false
state_fits j (some JobState.started) = is_enabled j
state_fits j (some _) = not (is_enabled j)

-- Whether the scheduler is to hold the job.
unfoldable pub runs : World → Job → Bool
unfolding due_at
runs w j = is_some (due_at w 0 j)

-- What the two maps and the scheduler hold under one name.
-- Whether a job is on the schedule is told by whether it is to run, or, where it is excused, allowed
-- by that.
pub record OnSchedule (excused on_it running : Bool) : Type 0 where
  pub sound : on_it ≡ true → running ≡ true
  pub complete : excused ≡ false → on_it ≡ running

pub on_time : {excused on_it running : Bool} → on_it ≡ running → OnSchedule excused on_it running
on_time e = record { sound = λ on. sym e ∙ on; complete = λ held. e }

-- What the two maps and the scheduler hold under one name. `lax` tells the names whose job may be
-- off the schedule.
abbrev pub Fits : (Text → Bool) → World → Text → Option Job → Option JobState → Option ℕ → Type 0
Fits lax w n none s t = (s ≡ none) × (t ≡ none)
Fits lax w n (some j) s t =
    (j.name ≡ n)
    × (trim_space n ≡ n)
    × (state_fits j s ≡ true)
    × OnSchedule (lax n) (is_some t) (runs w j)

abbrev pub FitsAt : (Text → Bool) → World → Daemon → Text → Type 0
FitsAt lax w d n =
    Fits lax w n (lookup n d.jobs) (lookup n d.states) (Scheduler.next_run_time n d.sched)

pub record IsConsistent (lax : Text → Bool) (w : World) (d : Daemon) : Type 0 where
  pub unique : IsUnique d.sched.heap
  pub fits : (n : Text) → FitsAt lax w d n

-- No job is excused.
abbrev pub nowhere : Text → Bool
nowhere n = false

-- The two maps and the scheduler hold the same under one name.
pub record SameAt (d d' : Daemon) (n : Text) : Type 0 where
  pub jobs : lookup n d'.jobs ≡ lookup n d.jobs
  pub states : lookup n d'.states ≡ lookup n d.states
  pub next : Scheduler.next_run_time n d'.sched ≡ Scheduler.next_run_time n d.sched

-- An operation that touches one name keeps the rest consistent.
pub IsConsistent-step :
    {lax : Text → Bool}
    → (w : World) (d d' : Daemon) (k : Text) → IsConsistent lax w d
    → IsUnique d'.sched.heap
    → ((n : Text) → text_eq k n ≡ false → SameAt d d' n)
    → FitsAt lax w d' k
    → IsConsistent lax w d'
IsConsistent-step {lax = lax} w d d' k h u others own = record { unique = u; fits = at }
  where
    at : (n : Text) → FitsAt lax w d' n
    at n = elim (Bool-cases (text_eq k n)) [
      | inl e ↦ subst (FitsAt lax w d') (text_eq→eq k n e) own
      | inr e ↦ let o = others n e in rw (o.jobs, o.states, o.next) (h.fits n)
    ]

-- When a job is due depends on the clock, whether it is due at all does not.
pub is_some-due_at : (w : World) (now : ℕ) (j : Job) → is_some (due_at w now j) ≡ runs w j
unfolding runs due_at
is_some-due_at w now j = by_result (is_enabled j) (w.parse_schedule j.schedule)
  where
    by_result :
        (b : Bool) (r : Result (ℕ → ℕ))
        → is_some (if b then next_of now r else none) ≡ is_some (if b then next_of 0 r else none)
    by_result false r = refl
    by_result true (err e) = refl
    by_result true (ok schedule) = refl

pub state_fits-state_of : (j : Job) → state_fits j (some (state_of j)) ≡ true
state_fits-state_of j = elim (Bool-cases (is_enabled j)) [
  | inl e ↦ rw (e, e) refl
  | inr e ↦ rw (e, e) refl
]

pub SameAt-refl : (d : Daemon) (n : Text) → SameAt d d n
SameAt-refl d n = record { jobs = refl; states = refl; next = refl }

-- Daemons that hold the same under every name are consistent together.
pub IsConsistent-same :
    {lax : Text → Bool}
    → (w : World) (d d' : Daemon) → IsConsistent lax w d
    → IsUnique d'.sched.heap
    → ((n : Text) → SameAt d d' n)
    → IsConsistent lax w d'
IsConsistent-same w d d' h u same = record {
  unique = u;
  fits = λ n. let s = same n in rw (s.jobs, s.states, s.next) (h.fits n);
}

-- An operation on the job `old` under `k` has failed and been undone: the maps are as before, and
-- the job's next run is computed anew.
pub record RolledBack (w : World) (now : ℕ) (k : Text) (old : Job) (d d' : Daemon) : Type 0 where
  pub unique : IsUnique d'.sched.heap
  pub jobs : (n : Text) → lookup n d'.jobs ≡ lookup n d.jobs
  pub states : (n : Text) → lookup n d'.states ≡ lookup n d.states
  pub next : Scheduler.next_run_time k d'.sched ≡ due_at w now old
  pub other_next :
      (n : Text)
      → text_eq k n ≡ false
      → Scheduler.next_run_time n d'.sched ≡ Scheduler.next_run_time n d.sched

pub RolledBack-IsConsistent :
    {lax : Text → Bool}
    → (w : World) (now : ℕ) (k : Text) (old : Job) (d d' : Daemon) → IsConsistent lax w d
    → lookup k d.jobs ≡ some old
    → RolledBack w now k old d d'
    → IsConsistent lax w d'
RolledBack-IsConsistent {lax = lax} w now k old d d' h found back =
    IsConsistent-step w d d' k h back.unique
      (λ n other. record {
        jobs = back.jobs n;
        states = back.states n;
        next = back.other_next n other;
      })
      (rw (back.jobs k, back.states k, back.next, found)
        (before.0, before.1, before.2, on_time (is_some-due_at w now old)))
  where
    before : Fits lax w k (some old) (lookup k d.states) (Scheduler.next_run_time k d.sched)
    before = rw found at (h.fits k)

-- Consistency rests on the scheduler's entries, not on its timer.
pub same_heap-IsConsistent :
    {lax : Text → Bool}
    → (w : World) (d : Daemon) (s : Scheduler) → s.heap ≡ d.sched.heap
    → IsConsistent lax w d
    → IsConsistent lax w (record d { sched = s })
unfolding Scheduler.next_run_time
same_heap-IsConsistent w d s same h =
    IsConsistent-same w d (record d { sched = s }) h (subst IsUnique (sym same) h.unique)
      (λ n. record { jobs = refl; states = refl; next = ap (Scheduler.find_next n) same })

-- What holds with fewer names excused holds with more.
pub IsConsistent-excuse :
    {lax : Text → Bool} (lax' : Text → Bool) (w : World) (d : Daemon)
    → ((n : Text) → lax' n ≡ false → lax n ≡ false)
    → IsConsistent lax w d
    → IsConsistent lax' w d
IsConsistent-excuse {lax = lax} lax' w d more h = record {
  unique = h.unique;
  fits = λ n.
      by_job n (lookup n d.jobs) (lookup n d.states) (Scheduler.next_run_time n d.sched) (h.fits n);
}
  where
    by_job :
        (n : Text) (j : Option Job) (s : Option JobState) (t : Option ℕ)
        → Fits lax w n j s t
        → Fits lax' w n j s t
    by_job n none s t f = f
    by_job n (some j) s t f =
        (f.0, f.1, f.2, record { sound = f.3.sound; complete = λ held. f.3.complete (more n held) })
