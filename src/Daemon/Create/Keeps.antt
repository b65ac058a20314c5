-- ===== src/Daemon/Create/Keeps.antt =====
-- `createJob` only adds jobs to the scheduler and removes some.
use cronbat.Prelude.{ℕ, inl, inr, Bool-cases}
use cronbat.Text.{Text}
use cronbat.Dict.{lookup, is_some}
use cronbat.Errors.{Result, ok, err}
use cronbat.Config.Job.{Job}
use cronbat.Config.Files.{save_job}
use cronbat.World.{World, Disk}
use cronbat.Scheduler.{Scheduler}
use cronbat.Daemon.State.{Daemon, validate_job, apply_schedule, default_path}
use cronbat.Daemon.Closed.{IsClosed, apply_schedule-keeps}
use cronbat.Daemon.Create.{record_job, store_job, add_candidate, create_job}

module _ (P : Scheduler → Type 0) (closed : IsClosed P) (w : World) (jobs_dir : Text)
    (now : ℕ) where
  record_job-keeps :
      (c : Job) (d : Daemon) (r : Result Job × Disk)
      → P d.sched
      → P (record_job w jobs_dir now c d r).1.sched
  unfolding record_job
  record_job-keeps c d (err e, disk) h = closed.removed now c.name d.sched h
  record_job-keeps c d (ok saved, disk) h = h

  store_job-keeps :
      (c : Job) (d : Daemon) (r : Result (Unit {0}) × Scheduler)
      → P r.1
      → P (store_job w jobs_dir now c d r).1.sched
  unfolding store_job
  store_job-keeps c d (err e, sched) h = closed.removed now c.name sched h
  store_job-keeps c d (ok u, sched) h =
      record_job-keeps c (record d { sched = sched }) (save_job w c.file_path c d.disk) h

  add_candidate-keeps :
      (d : Daemon) (r : Result Job) → P d.sched → P (add_candidate w jobs_dir now d r).1.sched
  unfolding add_candidate
  add_candidate-keeps d (err e) h = h
  add_candidate-keeps d (ok valid) h =
      let c : Job = record valid { file_path = default_path w jobs_dir valid.name } in
      elim (Bool-cases (is_some (lookup valid.name d.jobs))) [
        | inl there ↦ rw there h
        | inr free ↦ rw free (
            store_job-keeps c d (apply_schedule w now c d.sched)
              (apply_schedule-keeps P closed w now c d.sched h))
      ]

  pub create_job-keeps :
      (j : Job) (d : Daemon) → P d.sched → P (create_job w jobs_dir now j d).1.sched
  unfolding create_job
  create_job-keeps j d h = add_candidate-keeps d (validate_job w j) h
