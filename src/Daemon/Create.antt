-- ===== src/Daemon/Create.antt =====
-- `createJob` of cmd/cronbat/main.go
pub mod Laws
pub mod Correct
pub mod Keeps
use cronbat.Prelude.{ℕ, if◌then◌else◌}
use cronbat.Text.{Text}
use cronbat.Dict.{lookup, insert, is_some}
use cronbat.Errors.{Result, ok, err}
use cronbat.Config.Job.{Job}
use cronbat.Config.Files.{save_job}
use cronbat.World.{World, Disk}
use cronbat.Scheduler
use cronbat.Scheduler.{Scheduler}
use cronbat.Daemon.State.{
  Daemon, state_of, already_exists, validate_job, apply_schedule, default_path,
}

module _ (w : World) (jobs_dir : Text) (now : ℕ) where
  -- The candidate is saved, or not.
  record_job : Job → Daemon → Result Job × Disk → Result (Unit {0}) × Daemon
  record_job c d (err e, disk) =
      (err e, record d { sched = Scheduler.remove_job now c.name d.sched; disk = disk })
  record_job c d (ok saved, disk) = (
    ok tt,
    record d {
      jobs = insert c.name saved d.jobs;
      states = insert c.name (state_of saved) d.states;
      disk = disk;
    },
  )

  -- The candidate is scheduled, or not.
  pub store_job : Job → Daemon → Result (Unit {0}) × Scheduler → Result (Unit {0}) × Daemon
  store_job c d (err e, sched) = (err e, record d { sched = Scheduler.remove_job now c.name sched })
  store_job c d (ok _, sched) =
      record_job c (record d { sched = sched }) (save_job w c.file_path c d.disk)

  -- The candidate is valid, or not.
  add_candidate : Daemon → Result Job → Result (Unit {0}) × Daemon
  add_candidate d (err e) = (err e, d)
  add_candidate d (ok valid) =
      let c = record valid { file_path = default_path w jobs_dir valid.name } in
      if is_some (lookup valid.name d.jobs)
      then (err (already_exists valid.name), d)
      else store_job c d (apply_schedule w now c d.sched)

  unfoldable pub create_job : Job → Daemon → Result (Unit {0}) × Daemon
  unfolding record_job store_job add_candidate
  create_job new_job d = add_candidate d (validate_job w new_job)
