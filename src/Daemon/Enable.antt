-- ===== src/Daemon/Enable.antt =====
-- `setJobEnabled` of cmd/cronbat/main.go, and the operations made from it
pub mod Laws
pub mod Correct
pub mod Keeps
use cronbat.Prelude.{ℕ, Bool, true, false, Option, none, some, if◌then◌else◌}
use cronbat.Text.{Text}
use cronbat.Dict.{lookup, insert}
use cronbat.Errors.{Result, ok, err}
use cronbat.Config.Job.{Job}
use cronbat.World.{World, Disk}
use cronbat.Scheduler.{Scheduler}
use cronbat.Daemon.State.{Daemon, JobState, not_found, apply_schedule, save_job_locked}

module _ (w : World) (jobs_dir : Text) (now : ℕ) (name : Text) where
  -- `*j = *old`, and the old schedule again
  put_back : Job → Daemon → Daemon
  put_back old d = record d {
    jobs = insert name old d.jobs;
    sched = (apply_schedule w now old d.sched).1;
  }

  saved_enabled : Bool → Job → Daemon → Result Job × Disk → Result (Unit {0}) × Daemon
  saved_enabled on old d (err e, disk) = (err e, put_back old (record d { disk = disk }))
  saved_enabled on old d (ok saved, disk) = (
    ok tt,
    record d {
      jobs = insert name saved d.jobs;
      states = insert name (if on then JobState.started else JobState.stopped) d.states;
      disk = disk;
    },
  )

  scheduled_enabled :
      Bool → Job → Job → Daemon → Result (Unit {0}) × Scheduler → Result (Unit {0}) × Daemon
  scheduled_enabled on j old d (err e, sched) = (err e, put_back old (record d { sched = sched }))
  scheduled_enabled on j old d (ok _, sched) =
      saved_enabled on old (record d { sched = sched }) (save_job_locked w jobs_dir j d.disk)

  switch_job : Bool → Daemon → Option Job → Result (Unit {0}) × Daemon
  switch_job on d none = (err (not_found name), d)
  switch_job on d (some old) =
      let j = record old { enabled = some on } in
      scheduled_enabled on j old (record d { jobs = insert name j d.jobs })
        (apply_schedule w now j d.sched)

  unfoldable pub set_job_enabled : Bool → Daemon → Result (Unit {0}) × Daemon
  unfolding put_back saved_enabled scheduled_enabled switch_job
  set_job_enabled on d = switch_job on d (lookup name d.jobs)

  -- What follows a successful `setJobEnabled` in `startJob`, `stopJob` and `pauseJob`
  with_state : JobState → Result (Unit {0}) × Daemon → Result (Unit {0}) × Daemon
  with_state s (err e, d) = (err e, d)
  with_state s (ok _, d) = (ok tt, record d { states = insert name s d.states })

  unfoldable pub enable_job : Daemon → Result (Unit {0}) × Daemon
  enable_job d = set_job_enabled true d

  unfoldable pub disable_job : Daemon → Result (Unit {0}) × Daemon
  disable_job d = set_job_enabled false d

  unfoldable pub start_job : Daemon → Result (Unit {0}) × Daemon
  unfolding with_state
  start_job d = with_state JobState.started (set_job_enabled true d)

  unfoldable pub stop_job : Daemon → Result (Unit {0}) × Daemon
  unfolding with_state
  stop_job d = with_state JobState.stopped (set_job_enabled false d)

  unfoldable pub pause_job : Daemon → Result (Unit {0}) × Daemon
  unfolding with_state
  pause_job d = with_state JobState.paused (set_job_enabled false d)
