-- ===== src/Daemon/Boot.antt =====
-- The start of `main` in cmd/cronbat/main.go: the jobs that were loaded go into the maps and onto
-- the schedule, and the scheduler is started.
pub mod Laws
use cronbat.Prelude.{ℕ, suc, List, [], ◌∷◌}
use cronbat.Dict.{Dict, insert}
use cronbat.Config.Job.{Job}
use cronbat.World.{World, Disk}
use cronbat.Scheduler
use cronbat.Scheduler.{Scheduler, new_scheduler}
use cronbat.Daemon.State.{Daemon, JobState, state_of, apply_schedule}

abbrev pub Maps : Type 0
Maps = Dict Job × Dict JobState

-- A job file read later replaces one with the same name.
unfoldable pub register : List Job → Maps → Maps
register [] m = m
register (j ∷ js) m = register js (insert j.name j m.0, insert j.name (state_of j) m.1)

-- `clock i` is the time at which the i-th job is scheduled. A schedule that does not parse is logged
-- and skipped.
module _ (w : World) (clock : ℕ → ℕ) where
  unfoldable pub schedule_all : ℕ → List Job → Scheduler → Scheduler
  schedule_all i [] s = s
  schedule_all i (j ∷ js) s = schedule_all (suc i) js (apply_schedule w (clock i) j s).1

  unfoldable pub boot : ℕ → List Job → Disk → Daemon
  unfolding register schedule_all
  boot now jobs disk =
      let m = register jobs ([], []) in
      record {
        jobs = m.0;
        states = m.1;
        sched = Scheduler.start now (schedule_all 0 jobs new_scheduler);
        disk = disk;
      }
