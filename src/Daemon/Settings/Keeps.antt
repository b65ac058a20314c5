-- ===== src/Daemon/Settings/Keeps.antt =====
-- `updateJobSettings` only adds jobs to the scheduler and removes some.
use cronbat.Prelude.{ℕ, Option, none, some}
use cronbat.Text.{Text}
use cronbat.Dict.{lookup, insert}
use cronbat.Errors.{Result, ok, err}
use cronbat.Config.Job.{Job}
use cronbat.World.{World, Disk}
use cronbat.Scheduler.{Scheduler}
use cronbat.Daemon.State.{
  Daemon, JobState, validate_job, apply_schedule, save_job_locked, job_file_path,
}
use cronbat.Daemon.Closed.{IsClosed, apply_schedule-keeps}
use cronbat.Daemon.Settings.{
  edited, roll_back, settings_saved, settings_scheduled, settings_valid, settings_found,
  update_job_settings,
}

module _ (P : Scheduler → Type 0) (closed : IsClosed P) (w : World) (jobs_dir : Text) (now : ℕ)
    (name : Text) where
  roll_back-keeps :
      (old : Job) (o : Option JobState) (d : Daemon)
      → P d.sched
      → P (roll_back w jobs_dir now name old o d).sched
  unfolding roll_back
  roll_back-keeps old o d h = apply_schedule-keeps P closed w now old d.sched h

  settings_saved-keeps :
      (old : Job) (o : Option JobState) (d : Daemon) (r : Result Job × Disk)
      → P d.sched
      → P (settings_saved w jobs_dir now name old o d r).1.sched
  unfolding settings_saved
  settings_saved-keeps old o d (err e, disk) h = roll_back-keeps old o (record d { disk = disk }) h
  settings_saved-keeps old o d (ok saved, disk) h = h

  settings_scheduled-keeps :
      (j old : Job) (o : Option JobState) (d : Daemon) (r : Result (Unit {0}) × Scheduler)
      → P r.1
      → P (settings_scheduled w jobs_dir now name j old o d r).1.sched
  unfolding settings_scheduled
  settings_scheduled-keeps j old o d (err e, sched) h =
      roll_back-keeps old o (record d { sched = sched }) h
  settings_scheduled-keeps j old o d (ok u, sched) h =
      settings_saved-keeps old o (record d { sched = sched }) (save_job_locked w jobs_dir j d.disk)
        h

  settings_valid-keeps :
      (current : Job) (d : Daemon) (r : Result Job)
      → P d.sched
      → P (settings_valid w jobs_dir now name current d r).1.sched
  unfolding settings_valid
  settings_valid-keeps current d (err e) h = h
  settings_valid-keeps current d (ok valid) h =
      let j : Job = record valid { file_path = job_file_path w jobs_dir current } in
      settings_scheduled-keeps j current (lookup name d.states)
        (record d { jobs = insert name j d.jobs }) (apply_schedule w now j d.sched)
        (apply_schedule-keeps P closed w now j d.sched h)

  settings_found-keeps :
      (updated : Job) (d : Daemon) (o : Option Job)
      → P d.sched
      → P (settings_found w jobs_dir now name updated d o).1.sched
  unfolding settings_found
  settings_found-keeps updated d none h = h
  settings_found-keeps updated d (some current) h =
      settings_valid-keeps current d (validate_job w (edited name current updated)) h

  pub update_job_settings-keeps :
      (updated : Job) (d : Daemon)
      → P d.sched
      → P (update_job_settings w jobs_dir now name updated d).1.sched
  unfolding update_job_settings
  update_job_settings-keeps updated d h = settings_found-keeps updated d (lookup name d.jobs) h
