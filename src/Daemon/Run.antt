-- ===== src/Daemon/Run.antt =====
-- The calls that change the daemon while it runs, and the daemons that they lead to. A call is
-- atomic here: `startJob`, `stopJob` and `pauseJob` take the mutex twice, and what another call does
-- in between is left out.
pub mod Laws
pub mod Timely
use cronbat.Prelude.{◌||◌, ℕ, Bool, true, false, Option, List, ◌≡◌}
use cronbat.Text.{Text, text_eq}
use cronbat.Errors.{Result, ok, err}
use cronbat.Config.Job.{Job}
use cronbat.World.{World, Disk}
use cronbat.Scheduler
use cronbat.Scheduler.{Scheduler}
use cronbat.Daemon.State.{Daemon}
use cronbat.Daemon.Invariant.{nowhere}
use cronbat.Daemon.Create.{create_job}
use cronbat.Daemon.Enable.{enable_job, disable_job, start_job, stop_job, pause_job}
use cronbat.Daemon.Remove.{archive_job, delete_job}
use cronbat.Daemon.Settings.{update_job_settings}
use cronbat.Daemon.Yaml.{update_job_yaml}
use cronbat.Daemon.Boot.{boot}
use cronbat.Daemon.Boot.Laws.{AllClean}

-- A call of one of the closures, or the scheduler's timer
pub data Call : Type 0 where
  create : Job → Call
  enable disable start stop pause delete : Text → Call
  archive : Text → Text → Call
  update_settings : Text → Job → Call
  update_yaml : Text → Text → Call
  timer : Call

-- The name that the timer fires, and what is left of the daemon. The run of that job
-- (`Execution.execute_job`), which the scheduler's loop waits for, changes none of this state.
unfoldable pub fire : ℕ → Daemon → Option Text × Daemon
fire now d = let (fired, s) = Scheduler.timer_fires now d.sched in (fired, record d { sched = s })

abbrev pub is_ok {ℓ} : {A : Type ℓ} → Result A → Bool
is_ok (err e) = false
is_ok (ok a) = true

-- Whether the call went well, and the daemon after it
abbrev pub outcome {ℓ} : {A : Type ℓ} → Result A × Daemon → Bool × Daemon
outcome (r, d) = (is_ok r, d)

unfoldable pub perform : World → Text → ℕ → Call → Daemon → Bool × Daemon
unfolding fire
perform w jobs_dir now (Call.create j) d = outcome (create_job w jobs_dir now j d)
perform w jobs_dir now (Call.enable name) d = outcome (enable_job w jobs_dir now name d)
perform w jobs_dir now (Call.disable name) d = outcome (disable_job w jobs_dir now name d)
perform w jobs_dir now (Call.start name) d = outcome (start_job w jobs_dir now name d)
perform w jobs_dir now (Call.stop name) d = outcome (stop_job w jobs_dir now name d)
perform w jobs_dir now (Call.pause name) d = outcome (pause_job w jobs_dir now name d)
perform w jobs_dir now (Call.delete name) d = outcome (delete_job w jobs_dir now name d)
perform w jobs_dir now (Call.archive name stamp) d =
    outcome (archive_job w jobs_dir now name stamp d)
perform w jobs_dir now (Call.update_settings name j) d =
    outcome (update_job_settings w jobs_dir now name j d)
perform w jobs_dir now (Call.update_yaml name content) d =
    outcome (update_job_yaml w jobs_dir now name content d)
perform w jobs_dir now Call.timer d = (true, (fire now d).1)

-- The name whose job an archiving that fails takes off the schedule is excused from then on.
abbrev pub excused_after : Call → Bool → (Text → Bool) → Text → Bool
excused_after (Call.archive name stamp) false lax n = text_eq name n || lax n
excused_after c went_well lax n = lax n

-- The daemons that are met while the program runs, by calls one after the other, whether they go
-- well or fail. The clock may read anything. The names for which an archiving has failed are
-- excused.
pub data Reached (w : World) (jobs_dir : Text) : (Text → Bool) → Daemon → Type 0 where
  booted :
      (clock : ℕ → ℕ) (now : ℕ) (jobs : List Job) (disk : Disk)
      → AllClean jobs
      → Reached w jobs_dir nowhere (boot w clock now jobs disk)
  called :
      (lax : Text → Bool) (now : ℕ) (c : Call) (d : Daemon)
      → Reached w jobs_dir lax d
      → Reached w jobs_dir
          (excused_after c (perform w jobs_dir now c d).0 lax)
          (perform w jobs_dir now c d).1
