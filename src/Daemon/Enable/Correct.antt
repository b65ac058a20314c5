-- ===== src/Daemon/Enable/Correct.antt =====
-- `setJobEnabled`, `startJob`, `stopJob` and `pauseJob`: what they do, and that they keep the daemon
-- consistent.
use cronbat.Prelude.{ℕ, ◌≡◌, refl, sym, ◌∙◌, Bool, true, false, none, some, arith}
use cronbat.Text.{Text, text_eq}
use cronbat.Dict.{lookup, insert, lookup-insert, lookup-insert_self}
use cronbat.Errors.{Error, Result, ok, err}
use cronbat.Config.Job.{Job, is_enabled}
use cronbat.Config.Saving.{OnlyAt}
use cronbat.World.{World}
use cronbat.Scheduler
use cronbat.Daemon.State.{Daemon, JobState, job_file_path}
use cronbat.Daemon.Invariant.{
  IsConsistent, Fits, SameAt, due_at, runs, state_fits, is_some-due_at, IsConsistent-step, on_time,
  RolledBack-IsConsistent,
}
use cronbat.Daemon.Enable.{set_job_enabled, with_state, start_job, stop_job, pause_job}
use cronbat.Daemon.Enable.Laws.{switched, switched_state, Switched, Ends, set_job_enabled-Ends}

-- A state that fits a job which is switched on, or off.
abbrev fits_switch : Bool → JobState → Bool
fits_switch true JobState.started = true
fits_switch true _ = false
fits_switch false JobState.started = false
fits_switch false _ = true

state_fits-switched :
    (w : World) (jobs_dir : Text) (on : Bool) (old : Job) (s : JobState)
    → fits_switch on s ≡ true
    → state_fits (switched w jobs_dir on old) (some s) ≡ true
unfolding is_enabled
state_fits-switched w jobs_dir true old JobState.started h = refl
state_fits-switched w jobs_dir true old JobState.stopped h = absurd (cc)
state_fits-switched w jobs_dir true old JobState.paused h = absurd (cc)
state_fits-switched w jobs_dir false old JobState.started h = absurd (cc)
state_fits-switched w jobs_dir false old JobState.stopped h = refl
state_fits-switched w jobs_dir false old JobState.paused h = refl

-- Whether a job runs depends on its schedule and whether it is enabled, not on its file.
runs-switched :
    (w : World) (jobs_dir : Text) (on : Bool) (old : Job)
    → runs w (switched w jobs_dir on old) ≡ runs w (record old { enabled = some on })
unfolding runs due_at is_enabled
runs-switched w jobs_dir on old = refl

fits_switched_state : (on : Bool) → fits_switch on (switched_state on) ≡ true
fits_switched_state true = refl
fits_switched_state false = refl

module _ {lax : Text → Bool} (w : World) (jobs_dir : Text) (now : ℕ) (name : Text) (on : Bool)
    (d : Daemon) (h : IsConsistent lax w d) where
  -- A switched job under any state that fits the switch is consistent.
  Fits-with_state :
      (old : Job) (d' : Daemon) (s : JobState)
      → lookup name d.jobs ≡ some old
      → Switched w jobs_dir now name on d h old d'
      → fits_switch on s ≡ true
      → Fits lax w name (lookup name d'.jobs) (some s) (Scheduler.next_run_time name d'.sched)
  Fits-with_state old d' s found new fit =
      rw (new.job, new.next)
        (
          before.0,
          before.1,
          state_fits-switched w jobs_dir on old s fit,
          on_time (
              is_some-due_at w now (record old { enabled = some on })
              ∙ sym (runs-switched w jobs_dir on old)),
        )
    where
      before :
          Fits lax w name (some old) (lookup name d.states) (Scheduler.next_run_time name d.sched)
      before = rw found at (h.fits name)

  keeps_with_state :
      (r : Result (Unit {0}) × Daemon) (s : JobState)
      → fits_switch on s ≡ true
      → Ends w jobs_dir now name on d h r
      → IsConsistent lax w (with_state w jobs_dir now name s r).1
  unfolding with_state
  keeps_with_state _ s fit (Ends.absent none_found) = h
  keeps_with_state _ s fit (Ends.failed old e d' found back) =
      RolledBack-IsConsistent w now name old d d' h found back
  keeps_with_state _ s fit (Ends.done old d' found new) =
      IsConsistent-step w d (record d' { states = insert name s d'.states }) name h new.unique
        (λ n other. record {
          jobs = (new.others n other).jobs;
          states = ground (arith, lookup-insert name n s d'.states, (new.others n other).states);
          next = (new.others n other).next;
        })
        (rw (lookup-insert_self name s d'.states) (Fits-with_state old d' s found new fit))

  Ends-keeps :
      (r : Result (Unit {0}) × Daemon) → Ends w jobs_dir now name on d h r → IsConsistent lax w r.1
  Ends-keeps _ (Ends.absent none_found) = h
  Ends-keeps _ (Ends.failed old e d' found back) =
      RolledBack-IsConsistent w now name old d d' h found back
  Ends-keeps _ (Ends.done old d' found new) =
      IsConsistent-step w d d' name h new.unique new.others (
        rw new.state
          (Fits-with_state old d' (switched_state on) found new (fits_switched_state on)))

  Ends-failed :
      (r : Result (Unit {0}) × Daemon) (e : Error)
      → Ends w jobs_dir now name on d h r
      → r.0 ≡ err e
      → (n : Text)
      → (lookup n r.1.jobs ≡ lookup n d.jobs) × (lookup n r.1.states ≡ lookup n d.states)
  Ends-failed _ e (Ends.absent none_found) failed n = (refl, refl)
  Ends-failed _ e (Ends.failed old e' d' found back) failed n = (back.jobs n, back.states n)
  Ends-failed _ e (Ends.done old d' found new) failed n = absurd (cc)

  -- The job on record, and what has become of it.
  pub record Done (s : JobState) (d' : Daemon) : Type 0 where
    pub old : Job
    pub found : lookup name d.jobs ≡ some old
    pub job : lookup name d'.jobs ≡ some (switched w jobs_dir on old)
    pub state : lookup name d'.states ≡ some s
    pub next :
        Scheduler.next_run_time name d'.sched ≡ due_at w now (record old { enabled = some on })
    pub others : (n : Text) → text_eq name n ≡ false → SameAt d d' n
    pub file :
        (content : Text) × (w.marshal (record old { enabled = some on }) ≡ ok content)
        × (lookup (job_file_path w jobs_dir old) d'.disk ≡ some content)
    pub other_files : OnlyAt (job_file_path w jobs_dir old) d.disk d'.disk

  with_state-Done :
      (r : Result (Unit {0}) × Daemon) (s : JobState)
      → Ends w jobs_dir now name on d h r
      → (with_state w jobs_dir now name s r).0 ≡ ok tt
      → Done s (with_state w jobs_dir now name s r).1
  unfolding with_state
  with_state-Done _ s (Ends.absent none_found) done = absurd (cc)
  with_state-Done _ s (Ends.failed old e d' found back) done = absurd (cc)
  with_state-Done _ s (Ends.done old d' found new) done = record {
    old = old;
    found = found;
    job = new.job;
    state = lookup-insert_self name s d'.states;
    next = new.next;
    others = λ n other. record {
      jobs = (new.others n other).jobs;
      states = ground (arith, lookup-insert name n s d'.states, (new.others n other).states);
      next = (new.others n other).next;
    };
    file = new.file;
    other_files = new.other_files;
  }

module _ {lax : Text → Bool} (w : World) (jobs_dir : Text) (now : ℕ) (name : Text) (d : Daemon)
    (h : IsConsistent lax w d) where
  -- `setJobEnabled` keeps a consistent daemon consistent, whether it succeeds or fails.
  pub set_job_enabled-IsConsistent :
      (on : Bool) → IsConsistent lax w (set_job_enabled w jobs_dir now name on d).1
  set_job_enabled-IsConsistent on =
      Ends-keeps w jobs_dir now name on d h (set_job_enabled w jobs_dir now name on d)
        (set_job_enabled-Ends w jobs_dir now name on d h)

  -- A `setJobEnabled` on a consistent daemon that fails leaves every job and every state as it was.
  pub set_job_enabled_failed :
      (on : Bool) (e : Error)
      → (set_job_enabled w jobs_dir now name on d).0 ≡ err e
      → (n : Text)
      → (lookup n (set_job_enabled w jobs_dir now name on d).1.jobs ≡ lookup n d.jobs)
        × (lookup n (set_job_enabled w jobs_dir now name on d).1.states ≡ lookup n d.states)
  set_job_enabled_failed on e =
      Ends-failed w jobs_dir now name on d h (set_job_enabled w jobs_dir now name on d) e
        (set_job_enabled-Ends w jobs_dir now name on d h)

  -- `startJob`, `stopJob` and `pauseJob` keep a consistent daemon consistent, whether they succeed
  -- or fail.
  pub lifecycle-IsConsistent :
      IsConsistent lax w (start_job w jobs_dir now name d).1
      × IsConsistent lax w (stop_job w jobs_dir now name d).1
      × IsConsistent lax w (pause_job w jobs_dir now name d).1
  unfolding start_job stop_job pause_job
  lifecycle-IsConsistent = (
    keeps_with_state w jobs_dir now name true d h (set_job_enabled w jobs_dir now name true d)
        JobState.started refl (set_job_enabled-Ends w jobs_dir now name true d h),
    keeps_with_state w jobs_dir now name false d h (set_job_enabled w jobs_dir now name false d)
        JobState.stopped refl (set_job_enabled-Ends w jobs_dir now name false d h),
    keeps_with_state w jobs_dir now name false d h (set_job_enabled w jobs_dir now name false d)
        JobState.paused refl (set_job_enabled-Ends w jobs_dir now name false d h),
  )

  -- After a `pauseJob` on a consistent daemon that succeeds, the job is disabled, on record as paused
  -- and in its file, and has no next run. Nothing has changed under another name in the two maps and
  -- the scheduler, and no other file. Another call between its two critical sections is left out.
  pub pause_job-Done :
      (pause_job w jobs_dir now name d).0 ≡ ok tt
      → Done w jobs_dir now name false d h JobState.paused (pause_job w jobs_dir now name d).1
        × (Scheduler.next_run_time name (pause_job w jobs_dir now name d).1.sched ≡ none)
  unfolding pause_job due_at is_enabled
  pause_job-Done done =
      let p =
        with_state-Done w jobs_dir now name false d h (set_job_enabled w jobs_dir now name false d)
          JobState.paused (set_job_enabled-Ends w jobs_dir now name false d h) done in
      (p, p.next)

  -- After a `startJob` on a consistent daemon that succeeds, the job is enabled, on record as started
  -- and in its file, and runs next when its schedule says. Nothing has changed under another name,
  -- and no other file.
  pub start_job-Done :
      (start_job w jobs_dir now name d).0 ≡ ok tt
      → Done w jobs_dir now name true d h JobState.started (start_job w jobs_dir now name d).1
  unfolding start_job
  start_job-Done =
      with_state-Done w jobs_dir now name true d h (set_job_enabled w jobs_dir now name true d)
        JobState.started (set_job_enabled-Ends w jobs_dir now name true d h)
