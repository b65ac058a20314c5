-- ===== src/Daemon/Create/Correct.antt =====
-- `createJob`: what it does on success, on each failure, and that it keeps the daemon consistent.
use cronbat.Prelude.{Bool, ℕ, ◌≡◌, refl, inl, inr, none, some, Option-cases}
use cronbat.Text.{Text}
use cronbat.Dict.{lookup}
use cronbat.Errors.{Error, Result, ok, err}
use cronbat.Config.Job.{Job}
use cronbat.World.{World}
use cronbat.Scheduler
use cronbat.Scheduler.{Scheduler}
use cronbat.Daemon.State.{Daemon, already_exists, validate_job, apply_schedule, default_path}
use cronbat.Daemon.Validate.{IsNormal, validate_job-IsNormal}
use cronbat.Daemon.Invariant.{
  on_time, IsConsistent, FitsAt, SameAt, state_fits-state_of, SameAt-refl, IsConsistent-same,
  IsConsistent-step, is_some-due_at, apply_schedule-IsUnique, next-apply_schedule,
}
use cronbat.Daemon.Create.{store_job, add_candidate, create_job}
use cronbat.Daemon.Create.Laws.{Added, Outcome, store_job-Outcome}

-- Where a consistent daemon has no job, it has no state and no next run.
next-fresh :
    {lax : Text → Bool}
    → (w : World) (d : Daemon) (n : Text) → IsConsistent lax w d
    → lookup n d.jobs ≡ none
    → Scheduler.next_run_time n d.sched ≡ none
next-fresh w d n h absent = (rw absent at (h.fits n)).1

-- The job that is stored: the valid one with its path.
abbrev pub with_path : World → Text → Job → Job
with_path w jobs_dir v = record v { file_path = default_path w jobs_dir v.name }

module _ {lax : Text → Bool} (w : World) (jobs_dir : Text) (now : ℕ) (new_job : Job) (d : Daemon)
    (h : IsConsistent lax w d) where
  -- How a call ends.
  data Ends : Result (Unit {0}) × Daemon → Type 0 where
    invalid : (e : Error) → validate_job w new_job ≡ err e → Ends (err e, d)
    taken :
        (v old : Job)
        → validate_job w new_job ≡ ok v
        → lookup v.name d.jobs ≡ some old
        → Ends (err (already_exists v.name), d)
    tried :
        (v : Job) (r : Result (Unit {0}) × Daemon)
        → validate_job w new_job ≡ ok v
        → lookup v.name d.jobs ≡ none
        → Outcome w jobs_dir now (with_path w jobs_dir v) d r
        → Ends r

  tried-Outcome :
      (v : Job)
      → lookup v.name d.jobs ≡ none
      → Outcome w jobs_dir now (with_path w jobs_dir v) d (
          store_job w jobs_dir now
            (with_path w jobs_dir v)
            d
            (apply_schedule w now (with_path w jobs_dir v) d.sched))
  tried-Outcome v absent =
      store_job-Outcome w jobs_dir now c d (apply_schedule w now c d.sched).1
        (apply_schedule-IsUnique w now c d.sched h.unique)
        (next-apply_schedule w now c d.sched h.unique) (next-fresh w d v.name h absent)
        (apply_schedule w now c d.sched).0
    where
      c : Job
      c = with_path w jobs_dir v

  add_candidate-Ends :
      (r : Result Job) → validate_job w new_job ≡ r → Ends (add_candidate w jobs_dir now d r)
  unfolding add_candidate
  add_candidate-Ends (err e) checked = Ends.invalid e checked
  add_candidate-Ends (ok v) checked = elim (Option-cases (lookup v.name d.jobs)) [
    | inl absent ↦ rw absent (Ends.tried v _ checked absent (tried-Outcome v absent))
    | inr (old, present) ↦ rw present (Ends.taken v old checked present)
  ]

  create_job-Ends : Ends (create_job w jobs_dir now new_job d)
  unfolding create_job
  create_job-Ends = add_candidate-Ends (validate_job w new_job) refl

  Outcome-refused :
      (c : Job) (r : Result (Unit {0}) × Daemon) (e : Error)
      → Outcome w jobs_dir now c d r
      → r.0 ≡ err e
      → (n : Text) → SameAt d r.1 n
  Outcome-refused c _ e (Outcome.refused e' d' u same files) failed n = same n
  Outcome-refused c _ e (Outcome.added d' new) failed n = absurd (cc)

  Ends-refused :
      (r : Result (Unit {0}) × Daemon) (e : Error)
      → Ends r
      → r.0 ≡ err e
      → (n : Text) → SameAt d r.1 n
  Ends-refused _ e (Ends.invalid e' checked) failed n = SameAt-refl d n
  Ends-refused _ e (Ends.taken v old checked present) failed n = SameAt-refl d n
  Ends-refused _ e (Ends.tried v r checked absent out) failed n =
      Outcome-refused (with_path w jobs_dir v) r e out failed n

  -- A `createJob` on a consistent daemon that fails leaves every job, every state and every next run
  -- as it was.
  pub create_job_refused :
      (e : Error)
      → (create_job w jobs_dir now new_job d).0 ≡ err e
      → (n : Text) → SameAt d (create_job w jobs_dir now new_job d).1 n
  create_job_refused e = Ends-refused (create_job w jobs_dir now new_job d) e create_job-Ends

  -- The valid form of the job was new and has been added.
  pub record Created (d' : Daemon) : Type 0 where
    pub valid : Job
    pub checked : validate_job w new_job ≡ ok valid
    pub fresh : lookup valid.name d.jobs ≡ none
    pub new : Added w jobs_dir now (with_path w jobs_dir valid) d d'

  Outcome-ok :
      (v : Job) (r : Result (Unit {0}) × Daemon)
      → validate_job w new_job ≡ ok v
      → lookup v.name d.jobs ≡ none
      → Outcome w jobs_dir now (with_path w jobs_dir v) d r
      → r.0 ≡ ok tt
      → Created r.1
  Outcome-ok v _ checked absent (Outcome.refused e' d' u same files) done = absurd (cc)
  Outcome-ok v _ checked absent (Outcome.added d' new) done = record {
    valid = v;
    checked = checked;
    fresh = absent;
    new = new;
  }

  Ends-ok : (r : Result (Unit {0}) × Daemon) → Ends r → r.0 ≡ ok tt → Created r.1
  Ends-ok _ (Ends.invalid e checked) done = absurd (cc)
  Ends-ok _ (Ends.taken v old checked present) done = absurd (cc)
  Ends-ok _ (Ends.tried v r checked absent out) done = Outcome-ok v r checked absent out done

  -- A `createJob` on a consistent daemon that succeeds was given a job with a valid form and a name
  -- not in use, and stores that form, its state, its schedule and its file, and changes nothing
  -- under another name or path.
  pub create_job_done :
      (create_job w jobs_dir now new_job d).0 ≡ ok tt
      → Created (create_job w jobs_dir now new_job d).1
  create_job_done = Ends-ok (create_job w jobs_dir now new_job d) create_job-Ends

  -- ---------------------------------------------------------------- the invariant

  fits_new :
      (v : Job) (d' : Daemon)
      → IsNormal w new_job v
      → Added w jobs_dir now (with_path w jobs_dir v) d d'
      → FitsAt lax w d' v.name
  fits_new v d' normal new =
      rw (new.job, new.state, new.next)
        (
          refl,
          normal.valid.clean,
          state_fits-state_of (with_path w jobs_dir v),
          on_time (is_some-due_at w now (with_path w jobs_dir v)),
        )

  Outcome-keeps :
      (v : Job) (r : Result (Unit {0}) × Daemon)
      → validate_job w new_job ≡ ok v
      → Outcome w jobs_dir now (with_path w jobs_dir v) d r
      → IsConsistent lax w r.1
  Outcome-keeps v _ checked (Outcome.refused e d' u same files) = IsConsistent-same w d d' h u same
  Outcome-keeps v _ checked (Outcome.added d' new) =
      IsConsistent-step w d d' v.name h new.unique new.others
        (fits_new v d' (validate_job-IsNormal w new_job v checked) new)

  Ends-keeps : (r : Result (Unit {0}) × Daemon) → Ends r → IsConsistent lax w r.1
  Ends-keeps _ (Ends.invalid e checked) = h
  Ends-keeps _ (Ends.taken v old checked present) = h
  Ends-keeps _ (Ends.tried v r checked absent out) = Outcome-keeps v r checked out

  -- `createJob` keeps a consistent daemon consistent, whether it succeeds or fails.
  pub create_job-IsConsistent : IsConsistent lax w (create_job w jobs_dir now new_job d).1
  create_job-IsConsistent = Ends-keeps (create_job w jobs_dir now new_job d) create_job-Ends

  -- A `createJob` on a consistent daemon with a valid job whose name is in use fails with "job already exists", and changes
  -- nothing at all.
  pub create_job_duplicate :
      (v old : Job)
      → validate_job w new_job ≡ ok v
      → lookup v.name d.jobs ≡ some old
      → create_job w jobs_dir now new_job d ≡ (err (already_exists v.name), d)
  unfolding create_job
  create_job_duplicate v old checked present = rw (checked, present)
