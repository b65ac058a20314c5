-- ===== src/Daemon/Settings/Correct.antt =====
-- `updateJobSettings`: what it does on success and on failure.
use cronbat.Prelude.{Bool, ℕ, ◌≡◌, refl, true, some}
use cronbat.Text.{Text, trim_space}
use cronbat.Dict.{lookup}
use cronbat.Errors.{Error, Result, ok, err}
use cronbat.Config.Job.{Job, is_enabled}
use cronbat.World.{World}
use cronbat.Daemon.State.{Daemon, JobState}
use cronbat.Daemon.Invariant.{
  IsConsistent, Fits, due_at, runs, state_fits, is_some-due_at, IsConsistent-step, on_time,
  RolledBack-IsConsistent,
}
use cronbat.Daemon.Settings.{update_job_settings}
use cronbat.Daemon.Settings.Laws.{Edited, Ends, state_fits-next_state, update_job_settings-Ends}

state_fits-path :
    (path : Text) (j : Job) (s : JobState)
    → state_fits j (some s) ≡ true
    → state_fits (record j { file_path = path }) (some s) ≡ true
unfolding is_enabled
state_fits-path path j JobState.started fit = fit
state_fits-path path j JobState.stopped fit = fit
state_fits-path path j JobState.paused fit = fit

-- A job fits what it fitted, wherever its file is.
pub Fits-path :
    (lax : Text → Bool) (w : World) (now : ℕ) (n path : Text) (j : Job) (s : JobState)
    → j.name ≡ n
    → trim_space n ≡ n
    → state_fits j (some s) ≡ true
    → Fits lax w n (some (record j { file_path = path })) (some s) (due_at w now j)
unfolding runs due_at is_enabled
Fits-path lax w now n path j s key clean fit =
    (key, clean, state_fits-path path j s fit, on_time (is_some-due_at w now j))

module _ {lax : Text → Bool} (w : World) (jobs_dir : Text) (now : ℕ) (name : Text) (updated : Job)
    (d : Daemon) (h : IsConsistent lax w d) where
  Ends-keeps :
      (r : Result (Unit {0}) × Daemon)
      → Ends w jobs_dir now name updated d h r
      → IsConsistent lax w r.1
  Ends-keeps _ (Ends.absent none_found) = h
  Ends-keeps _ (Ends.invalid current e found checked) = h
  Ends-keeps _ (Ends.failed current e d' found back) =
      RolledBack-IsConsistent w now name current d d' h found back
  Ends-keeps _ (Ends.done current d' found new) =
      IsConsistent-step w d d' name h new.unique new.others (
        rw (new.job, new.state, new.next)
          (Fits-path lax w now name _ new.valid _ new.key (rw found at (h.fits name)).1
            (state_fits-next_state new.valid (lookup name d.states))))

  -- `updateJobSettings` keeps a consistent daemon consistent, whether it succeeds or fails.
  pub update_job_settings-IsConsistent :
      IsConsistent lax w (update_job_settings w jobs_dir now name updated d).1
  update_job_settings-IsConsistent =
      Ends-keeps (update_job_settings w jobs_dir now name updated d)
        (update_job_settings-Ends w jobs_dir now name updated d h)

  Ends-failed :
      (r : Result (Unit {0}) × Daemon) (e : Error)
      → Ends w jobs_dir now name updated d h r
      → r.0 ≡ err e
      → (n : Text)
      → (lookup n r.1.jobs ≡ lookup n d.jobs) × (lookup n r.1.states ≡ lookup n d.states)
  Ends-failed _ e (Ends.absent none_found) failed n = (refl, refl)
  Ends-failed _ e (Ends.invalid current e' found checked) failed n = (refl, refl)
  Ends-failed _ e (Ends.failed current e' d' found back) failed n = (back.jobs n, back.states n)
  Ends-failed _ e (Ends.done current d' found new) failed n = absurd (cc)

  -- An `updateJobSettings` on a consistent daemon that fails leaves every job and every state as it
  -- was.
  pub update_job_settings_failed :
      (e : Error)
      → (update_job_settings w jobs_dir now name updated d).0 ≡ err e
      → (n : Text)
      → (lookup n (update_job_settings w jobs_dir now name updated d).1.jobs ≡ lookup n d.jobs)
        × (lookup n (update_job_settings w jobs_dir now name updated d).1.states
            ≡ lookup n d.states)
  update_job_settings_failed e =
      Ends-failed (update_job_settings w jobs_dir now name updated d) e
        (update_job_settings-Ends w jobs_dir now name updated d h)

  Ends-ok :
      (r : Result (Unit {0}) × Daemon)
      → Ends w jobs_dir now name updated d h r
      → r.0 ≡ ok tt
      → (current : Job) × (lookup name d.jobs ≡ some current)
        × Edited w jobs_dir now name updated d h current r.1
  Ends-ok _ (Ends.absent none_found) done = absurd (cc)
  Ends-ok _ (Ends.invalid current e found checked) done = absurd (cc)
  Ends-ok _ (Ends.failed current e d' found back) done = absurd (cc)
  Ends-ok _ (Ends.done current d' found new) done = (current, found, new)

  -- An `updateJobSettings` on a consistent daemon that succeeds leaves the valid form of the edited
  -- job on record, in its file and on the schedule, under the old name: every setting is the one
  -- given, trimmed where it is a text, and the job is enabled as given, or as before where nothing
  -- is given. An enabled job is on record as started, a disabled one as stopped or, if it was,
  -- paused. Nothing changes under another name in the two maps and the scheduler, and no other file.
  pub update_job_settings_done :
      (update_job_settings w jobs_dir now name updated d).0 ≡ ok tt
      → (current : Job) × (lookup name d.jobs ≡ some current)
        × Edited w jobs_dir now name updated d h current
            (update_job_settings w jobs_dir now name updated d).1
  update_job_settings_done =
      Ends-ok (update_job_settings w jobs_dir now name updated d)
        (update_job_settings-Ends w jobs_dir now name updated d h)
