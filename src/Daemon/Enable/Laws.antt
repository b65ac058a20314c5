-- ===== src/Daemon/Enable/Laws.antt =====
-- The ways a call of `setJobEnabled` ends.
use cronbat.Prelude.{ℕ, ◌≡◌, refl, Bool, false, Option, none, some, arith, if◌then◌else◌}
use cronbat.Text.{Text, text_eq}
use cronbat.Text.Laws.{text_eq_refl}
use cronbat.Dict.{lookup, insert, lookup-insert, lookup-insert_self, insert_back}
use cronbat.Errors.{Error, Result, ok, err}
use cronbat.Config.Job.{Job}
use cronbat.Config.Saving.{Saving, OnlyAt, OnlyAt-insert, save_job-Saving}
use cronbat.World.{World, Disk}
use cronbat.Scheduler
use cronbat.Scheduler.{Scheduler}
use cronbat.Scheduler.Laws.{IsUnique}
use cronbat.Daemon.State.{
  Daemon, JobState, not_found, apply_schedule, job_file_path, save_job_locked,
}
use cronbat.Daemon.Invariant.{
  IsConsistent, SameAt, RolledBack, due_at, apply_schedule-IsUnique, next-apply_schedule,
}
use cronbat.Daemon.Enable.{put_back, saved_enabled, scheduled_enabled, switch_job, set_job_enabled}

-- The job that `setJobEnabled` leaves on record: switched, and with the path of its file.
abbrev pub switched : World → Text → Bool → Job → Job
switched w jobs_dir on old = record old {
  enabled = some on;
  file_path = job_file_path w jobs_dir old;
}

abbrev pub switched_state : Bool → JobState
switched_state on = if on then JobState.started else JobState.stopped

module _ {lax : Text → Bool} (w : World) (jobs_dir : Text) (now : ℕ) (name : Text) (on : Bool)
    (d : Daemon) (h : IsConsistent lax w d) where
  -- The job has been switched and saved, and nothing else has changed.
  pub record Switched (old : Job) (d' : Daemon) : Type 0 where
    pub unique : IsUnique d'.sched.heap
    pub others : (n : Text) → text_eq name n ≡ false → SameAt d d' n
    pub job : lookup name d'.jobs ≡ some (switched w jobs_dir on old)
    pub state : lookup name d'.states ≡ some (switched_state on)
    pub next :
        Scheduler.next_run_time name d'.sched ≡ due_at w now (record old { enabled = some on })
    pub file :
        (content : Text) × (w.marshal (record old { enabled = some on }) ≡ ok content)
        × (lookup (job_file_path w jobs_dir old) d'.disk ≡ some content)
    pub other_files : OnlyAt (job_file_path w jobs_dir old) d.disk d'.disk

  pub data Ends : Result (Unit {0}) × Daemon → Type 0 where
    absent : lookup name d.jobs ≡ none → Ends (err (not_found name), d)
    failed :
        (old : Job) (e : Error) (d' : Daemon)
        → lookup name d.jobs ≡ some old
        → RolledBack w now name old d d'
        → Ends (err e, d')
    done :
        (old : Job) (d' : Daemon)
        → lookup name d.jobs ≡ some old
        → Switched old d'
        → Ends (ok tt, d')

  module _ (old : Job) (found : lookup name d.jobs ≡ some old) where
    abbrev j : Job
    j = record old { enabled = some on }

    abbrev d₁ : Daemon
    d₁ = record d { jobs = insert name j d.jobs }

    key : old.name ≡ name
    key = (rw found at (h.fits name)).0

    -- After the new schedule was applied.
    module _ (s : Scheduler) (u : IsUnique s.heap)
        (at : (n : Text)
          → Scheduler.next_run_time n s ≡ (
              if text_eq old.name n
              then due_at w now j
              else Scheduler.next_run_time n d.sched)) where
      put_back-RolledBack :
          (disk : Disk)
          → RolledBack w now name old d
              (put_back w jobs_dir now name old (record d₁ { sched = s; disk = disk }))
      unfolding put_back
      put_back-RolledBack disk = record {
        unique = apply_schedule-IsUnique w now old s u;
        jobs = insert_back name old j d.jobs found;
        states = λ n. refl;
        next = ground (arith, next-apply_schedule w now old s u name, key, text_eq_refl name);
        other_next = λ n other. ground (arith, next-apply_schedule w now old s u n, at n, key);
      }

      saved_enabled-Ends :
          {r : Result Job × Disk}
          → Saving w (job_file_path w jobs_dir old) j d.disk r
          → Ends (saved_enabled w jobs_dir now name on old (record d₁ { sched = s }) r)
      unfolding saved_enabled
      saved_enabled-Ends (Saving.failed e disk files) =
          Ends.failed old e _ found (put_back-RolledBack disk)
      saved_enabled-Ends (Saving.saved content m) = Ends.done old _ found (record {
        unique = u;
        others = λ n other. record {
          jobs = ground (
            arith,
            lookup-insert name n (switched w jobs_dir on old) (insert name j d.jobs),
            lookup-insert name n j d.jobs,
          );
          states = ground (arith, lookup-insert name n (switched_state on) d.states);
          next = ground (arith, at n, key);
        };
        job = lookup-insert_self name (switched w jobs_dir on old) (insert name j d.jobs);
        state = lookup-insert_self name (switched_state on) d.states;
        next = ground (arith, at name, key, text_eq_refl name);
        file = (content, m, lookup-insert_self (job_file_path w jobs_dir old) content d.disk);
        other_files = OnlyAt-insert (job_file_path w jobs_dir old) content d.disk;
      })

      scheduled_enabled-Ends :
          (r : Result (Unit {0})) → Ends (scheduled_enabled w jobs_dir now name on j old d₁ (r, s))
      unfolding scheduled_enabled save_job_locked job_file_path
      scheduled_enabled-Ends (err e) = Ends.failed old e _ found (put_back-RolledBack d.disk)
      scheduled_enabled-Ends (ok _) =
          saved_enabled-Ends (save_job-Saving w (job_file_path w jobs_dir old) j d.disk)

  switch_job-Ends :
      (found : Option Job)
      → lookup name d.jobs ≡ found
      → Ends (switch_job w jobs_dir now name on d found)
  unfolding switch_job
  switch_job-Ends none none_found = Ends.absent none_found
  switch_job-Ends (some old) found =
      scheduled_enabled-Ends old found
        (apply_schedule w now (record old { enabled = some on }) d.sched).1
        (apply_schedule-IsUnique w now (record old { enabled = some on }) d.sched h.unique)
        (next-apply_schedule w now (record old { enabled = some on }) d.sched h.unique)
        (apply_schedule w now (record old { enabled = some on }) d.sched).0

  pub set_job_enabled-Ends : Ends (set_job_enabled w jobs_dir now name on d)
  unfolding set_job_enabled
  set_job_enabled-Ends = switch_job-Ends (lookup name d.jobs) refl
