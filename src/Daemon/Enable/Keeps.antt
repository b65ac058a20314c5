-- ===== src/Daemon/Enable/Keeps.antt =====
-- `setJobEnabled` and its callers only add jobs to the scheduler and remove some.
use cronbat.Prelude.{ℕ, Bool, true, false, Option, none, some}
use cronbat.Text.{Text}
use cronbat.Dict.{lookup, insert}
use cronbat.Errors.{Result, ok, err}
use cronbat.Config.Job.{Job}
use cronbat.World.{World, Disk}
use cronbat.Scheduler.{Scheduler}
use cronbat.Daemon.State.{Daemon, JobState, apply_schedule, save_job_locked}
use cronbat.Daemon.Closed.{IsClosed, apply_schedule-keeps}
use cronbat.Daemon.Enable.{
  put_back, saved_enabled, scheduled_enabled, switch_job, set_job_enabled, with_state, start_job,
  stop_job, pause_job,
}

module _ (P : Scheduler → Type 0) (closed : IsClosed P) (w : World) (jobs_dir : Text) (now : ℕ)
    (name : Text) where
  put_back-keeps :
      (old : Job) (d : Daemon) → P d.sched → P (put_back w jobs_dir now name old d).sched
  unfolding put_back
  put_back-keeps old d h = apply_schedule-keeps P closed w now old d.sched h

  saved_enabled-keeps :
      (on : Bool) (old : Job) (d : Daemon) (r : Result Job × Disk)
      → P d.sched
      → P (saved_enabled w jobs_dir now name on old d r).1.sched
  unfolding saved_enabled
  saved_enabled-keeps on old d (err e, disk) h = put_back-keeps old (record d { disk = disk }) h
  saved_enabled-keeps on old d (ok saved, disk) h = h

  scheduled_enabled-keeps :
      (on : Bool) (j old : Job) (d : Daemon) (r : Result (Unit {0}) × Scheduler)
      → P r.1
      → P (scheduled_enabled w jobs_dir now name on j old d r).1.sched
  unfolding scheduled_enabled
  scheduled_enabled-keeps on j old d (err e, sched) h =
      put_back-keeps old (record d { sched = sched }) h
  scheduled_enabled-keeps on j old d (ok u, sched) h =
      saved_enabled-keeps on old (record d { sched = sched }) (save_job_locked w jobs_dir j d.disk)
        h

  switch_job-keeps :
      (on : Bool) (d : Daemon) (o : Option Job)
      → P d.sched
      → P (switch_job w jobs_dir now name on d o).1.sched
  unfolding switch_job
  switch_job-keeps on d none h = h
  switch_job-keeps on d (some old) h =
      let j : Job = record old { enabled = some on } in
      scheduled_enabled-keeps on j old (record d { jobs = insert name j d.jobs })
        (apply_schedule w now j d.sched) (apply_schedule-keeps P closed w now j d.sched h)

  pub set_job_enabled-keeps :
      (on : Bool) (d : Daemon) → P d.sched → P (set_job_enabled w jobs_dir now name on d).1.sched
  unfolding set_job_enabled
  set_job_enabled-keeps on d h = switch_job-keeps on d (lookup name d.jobs) h

  with_state-keeps :
      (s : JobState) (r : Result (Unit {0}) × Daemon)
      → P r.1.sched
      → P (with_state w jobs_dir now name s r).1.sched
  unfolding with_state
  with_state-keeps s (err e, d) h = h
  with_state-keeps s (ok u, d) h = h

  pub start_job-keeps : (d : Daemon) → P d.sched → P (start_job w jobs_dir now name d).1.sched
  unfolding start_job
  start_job-keeps d h = with_state-keeps JobState.started _ (set_job_enabled-keeps true d h)

  pub stop_job-keeps : (d : Daemon) → P d.sched → P (stop_job w jobs_dir now name d).1.sched
  unfolding stop_job
  stop_job-keeps d h = with_state-keeps JobState.stopped _ (set_job_enabled-keeps false d h)

  pub pause_job-keeps : (d : Daemon) → P d.sched → P (pause_job w jobs_dir now name d).1.sched
  unfolding pause_job
  pause_job-keeps d h = with_state-keeps JobState.paused _ (set_job_enabled-keeps false d h)
