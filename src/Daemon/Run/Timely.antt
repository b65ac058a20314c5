-- ===== src/Daemon/Run/Timely.antt =====
-- Every daemon that is met runs its jobs: its scheduler is one that `Scheduler.Order` speaks of.
use cronbat.Prelude.{Bool, ℕ, suc, ◌≤◌, ◌≡◌, true, false, some, List, [], ◌∷◌}
use cronbat.Text.{Text}
use cronbat.Dict.{lookup}
use cronbat.Config.Job.{Job}
use cronbat.World.{World}
use cronbat.Scheduler
use cronbat.Scheduler.{Scheduler, Timer, new_scheduler, not_before, timer_fires}
use cronbat.Scheduler.Order
use cronbat.Daemon.State.{Daemon}
use cronbat.Daemon.Closed.{IsClosed, apply_schedule-keeps}
use cronbat.Daemon.Invariant.{runs}
use cronbat.Daemon.Create.Keeps.{create_job-keeps}
use cronbat.Daemon.Enable.{enable_job, disable_job}
use cronbat.Daemon.Enable.Keeps.{
  set_job_enabled-keeps, start_job-keeps, stop_job-keeps, pause_job-keeps,
}
use cronbat.Daemon.Remove.Keeps.{archive_job-keeps, delete_job-keeps}
use cronbat.Daemon.Settings.Keeps.{update_job_settings-keeps}
use cronbat.Daemon.Yaml.Keeps.{update_job_yaml-keeps}
use cronbat.Daemon.Boot.{schedule_all, boot}
use cronbat.Daemon.Run.{Call, fire, perform, Reached}
use cronbat.Daemon.Run.Laws.{Reached-runs}

-- Met by some calls of a scheduler
abbrev Met : Scheduler → Type 0
Met s = (last : ℕ) × Scheduler.Order.Reached last s

Met-IsClosed : IsClosed Met
Met-IsClosed = record {
  removed = λ now n s m. (now, Scheduler.Order.Reached.removed m.0 now n s m.1);
  added = λ now n schedule s m. (now, Scheduler.Order.Reached.added m.0 now n schedule s m.1);
}

schedule_all-Met :
    (w : World) (clock : ℕ → ℕ) (i : ℕ) (js : List Job) (s : Scheduler)
    → Met s
    → Met (schedule_all w clock i js s)
unfolding schedule_all
schedule_all-Met w clock i [] s m = m
schedule_all-Met w clock i (j ∷ js) s m =
    schedule_all-Met w clock (suc i) js _ (apply_schedule-keeps Met Met-IsClosed w (clock i) j s m)

module _ (w : World) (jobs_dir : Text) (now : ℕ) (d : Daemon) (m : Met d.sched) where
  perform-Met : (c : Call) → Met (perform w jobs_dir now c d).1.sched
  unfolding perform fire enable_job disable_job
  perform-Met (Call.create j) = create_job-keeps Met Met-IsClosed w jobs_dir now j d m
  perform-Met (Call.enable name) =
      set_job_enabled-keeps Met Met-IsClosed w jobs_dir now name true d m
  perform-Met (Call.disable name) =
      set_job_enabled-keeps Met Met-IsClosed w jobs_dir now name false d m
  perform-Met (Call.start name) = start_job-keeps Met Met-IsClosed w jobs_dir now name d m
  perform-Met (Call.stop name) = stop_job-keeps Met Met-IsClosed w jobs_dir now name d m
  perform-Met (Call.pause name) = pause_job-keeps Met Met-IsClosed w jobs_dir now name d m
  perform-Met (Call.delete name) = delete_job-keeps Met Met-IsClosed w jobs_dir now name d m
  perform-Met (Call.archive name stamp) =
      archive_job-keeps Met Met-IsClosed w jobs_dir now name stamp d m
  perform-Met (Call.update_settings name j) =
      update_job_settings-keeps Met Met-IsClosed w jobs_dir now name j d m
  perform-Met (Call.update_yaml name content) =
      update_job_yaml-keeps Met Met-IsClosed w jobs_dir now name content d m
  perform-Met Call.timer = (now, Scheduler.Order.Reached.woken m.0 now d.sched m.1)

pub Reached-Met :
    (w : World) (jobs_dir : Text) (lax : Text → Bool) (d : Daemon)
    → Reached w jobs_dir lax d
    → Met d.sched
unfolding boot
Reached-Met w jobs_dir _ _ (Reached.booted clock now jobs disk clean) =
    let m = schedule_all-Met w clock 0 jobs new_scheduler (0, Scheduler.Order.Reached.fresh 0) in
    (now, Scheduler.Order.Reached.started m.0 now _ m.1)
Reached-Met w jobs_dir _ _ (Reached.called lax now c d r) =
    perform-Met w jobs_dir now d (Reached-Met w jobs_dir lax d r) c

-- In every daemon that is met, where some job is due at `now`, the timer that goes off then fires a
-- job; and that job is on record, enabled, with a schedule that parses, and was due no later.
pub Reached-job_fires :
    (w : World) (jobs_dir : Text) (lax : Text → Bool) (d : Daemon) (now : ℕ) (n : Text) (t : ℕ)
    → Reached w jobs_dir lax d
    → Scheduler.next_run_time n d.sched ≡ some t
    → t ≤ now
    → (k : Text) × (j : Job) × (u : ℕ) × ((fire now d).0 ≡ some k)
      × (lookup k d.jobs ≡ some j)
      × (runs w j ≡ true)
      × (Scheduler.next_run_time k d.sched ≡ some u)
      × (u ≤ t)
unfolding fire
Reached-job_fires w jobs_dir lax d now n t r found due =
    let m = Reached-Met w jobs_dir lax d r in
    let (k, fires) = Scheduler.Order.Reached-some_fires m.0 now d.sched n t m.1 found due in
    let (u, next, past, first) =
      Scheduler.Order.Reached-fires_first m.0 now d.sched k n t m.1 fires found in
    let (j, there, ready) = Reached-runs w jobs_dir lax d k u r next in
    (k, j, u, fires, there, ready, next, first)
