-- ===== src/Daemon/Settings.antt =====
-- `updateJobSettings` of cmd/cronbat/main.go
pub mod Laws
pub mod Correct
pub mod Keeps
use cronbat.Prelude.{ℕ, Option, none, some, if◌then◌else◌}
use cronbat.Text.{Text, trim_space}
use cronbat.Dict.{Dict, lookup, insert, remove}
use cronbat.Errors.{Result, ok, err}
use cronbat.Config.Job.{Job, is_enabled}
use cronbat.World.{World, Disk}
use cronbat.Scheduler.{Scheduler}
use cronbat.Daemon.State.{
  Daemon, JobState, not_found, not_started, default_executor, validate_job, apply_schedule,
  job_file_path, save_job_locked,
}

-- The edited copy of the job on record; `validateJob` checks it next.
unfoldable pub edited : Text → Job → Job → Job
edited name current updated =
    record (default_executor (record current {
      name = name;
      schedule = trim_space updated.schedule;
      command = trim_space updated.command;
      working_dir = trim_space updated.working_dir;
      executor = trim_space updated.executor;
      timeout = trim_space updated.timeout;
      env = updated.env;
      on_success = updated.on_success;
      on_failure = updated.on_failure;
      metadata = updated.metadata;
      analyze = updated.analyze;
    })) { enabled = elim updated.enabled [ none ↦ current.enabled | some b ↦ some b ] }

-- `if hadOldState { m[name] = oldState } else { delete(m, name) }`
abbrev pub restore_state : Text → Option JobState → Dict JobState → Dict JobState
restore_state name none states = remove name states
restore_state name (some s) states = insert name s states

-- An enabled job is started; another keeps "stopped" or "paused".
abbrev pub next_state : Job → Option JobState → JobState
next_state j old = if is_enabled j then JobState.started else not_started old

module _ (w : World) (jobs_dir : Text) (now : ℕ) (name : Text) where
  roll_back : Job → Option JobState → Daemon → Daemon
  roll_back old old_state d = record d {
    jobs = insert name old d.jobs;
    states = restore_state name old_state d.states;
    sched = (apply_schedule w now old d.sched).1;
  }

  settings_saved : Job → Option JobState → Daemon → Result Job × Disk → Result (Unit {0}) × Daemon
  settings_saved old old_state d (err e, disk) =
      (err e, roll_back old old_state (record d { disk = disk }))
  settings_saved old old_state d (ok saved, disk) = (
    ok tt,
    record d {
      jobs = insert name saved d.jobs;
      states = insert name (next_state saved (lookup name d.states)) d.states;
      disk = disk;
    },
  )

  settings_scheduled :
      Job
      → Job
      → Option JobState
      → Daemon
      → Result (Unit {0}) × Scheduler
      → Result (Unit {0}) × Daemon
  settings_scheduled j old old_state d (err e, sched) =
      (err e, roll_back old old_state (record d { sched = sched }))
  settings_scheduled j old old_state d (ok _, sched) =
      settings_saved old old_state (record d { sched = sched })
        (save_job_locked w jobs_dir j d.disk)

  settings_valid : Job → Daemon → Result Job → Result (Unit {0}) × Daemon
  settings_valid current d (err e) = (err e, d)
  settings_valid current d (ok valid) =
      let j = record valid { file_path = job_file_path w jobs_dir current } in
      settings_scheduled j current (lookup name d.states) (record d { jobs = insert name j d.jobs })
        (apply_schedule w now j d.sched)

  settings_found : Job → Daemon → Option Job → Result (Unit {0}) × Daemon
  settings_found updated d none = (err (not_found name), d)
  settings_found updated d (some current) =
      settings_valid current d (validate_job w (edited name current updated))

  unfoldable pub update_job_settings : Job → Daemon → Result (Unit {0}) × Daemon
  unfolding roll_back settings_saved settings_scheduled settings_valid settings_found
  update_job_settings updated d = settings_found updated d (lookup name d.jobs)
