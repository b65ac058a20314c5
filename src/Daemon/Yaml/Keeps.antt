-- ===== src/Daemon/Yaml/Keeps.antt =====
-- `updateJobYAML` only adds jobs to the scheduler and removes some.
use cronbat.Prelude.{ℕ, inl, inr, Bool-cases, Option, none, some, not, ◌&&◌}
use cronbat.Text.{Text, text_eq}
use cronbat.Dict.{lookup, is_some, insert}
use cronbat.Errors.{Result, ok, err}
use cronbat.Config.Job.{Job}
use cronbat.Config.Files.{save_job}
use cronbat.World.{World, Disk, remove_file}
use cronbat.Scheduler
use cronbat.Scheduler.{Scheduler}
use cronbat.Daemon.State.{Daemon, JobState, apply_schedule, default_path, job_file_path}
use cronbat.Daemon.Settings.{next_state}
use cronbat.Daemon.Closed.{IsClosed, apply_schedule-keeps}
use cronbat.Daemon.Yaml.{
  renamed, undo_update, restore, old_removed, yaml_saved, yaml_scheduled, yaml_applied,
  yaml_current, yaml_parsed, parse_update, update_job_yaml,
}

module _ (P : Scheduler → Type 0) (closed : IsClosed P) (w : World) (jobs_dir : Text) (now : ℕ)
    (name : Text) where
  undo_update-keeps :
      (n : Text) (old : Job) (o : Option JobState) (d : Daemon)
      → P d.sched
      → P (undo_update w jobs_dir now name n old o d).sched
  unfolding undo_update
  undo_update-keeps n old o d h = apply_schedule-keeps P closed w now old d.sched h

  restore-keeps :
      (n : Text) (old : Job) (o : Option JobState) (d : Daemon)
      → P d.sched
      → P (restore w jobs_dir now name n old o d).sched
  unfolding restore
  restore-keeps n old o d h =
      undo_update-keeps n old o
        (record d { sched = Scheduler.remove_job now n (Scheduler.remove_job now name d.sched) })
        (closed.removed now n _ (closed.removed now name d.sched h))

  old_removed-keeps :
      (n path : Text) (old : Job) (o : Option JobState) (d : Daemon) (r : Result (Unit {0}) × Disk)
      → P d.sched
      → P (old_removed w jobs_dir now name n path old o d r).1.sched
  unfolding old_removed
  old_removed-keeps n path old o d (ok u, disk) h = h
  old_removed-keeps n path old o d (err e, disk) h = elim (Bool-cases e.is_not_exist) [
    | inl absent ↦ rw absent h
    | inr bad ↦ rw bad (restore-keeps n old o (record d { disk = (remove_file w path disk).1 }) h)
  ]

  yaml_saved-keeps :
      (n path : Text) (old : Job) (o : Option JobState) (d : Daemon) (r : Result Job × Disk)
      → P d.sched
      → P (yaml_saved w jobs_dir now name n path old o d r).1.sched
  unfolding yaml_saved
  yaml_saved-keeps n path old o d (err e, disk) h =
      restore-keeps n old o (record d { disk = disk }) h
  yaml_saved-keeps n path old o d (ok saved, disk) h =
      elim (Bool-cases (text_eq path (job_file_path w jobs_dir old))) [
        | inl same ↦ rw same h
        | inr moved ↦ rw moved (
            old_removed-keeps n path old o (record d { jobs = insert n saved d.jobs; disk = disk })
              (remove_file w (job_file_path w jobs_dir old) disk) h)
      ]

  yaml_scheduled-keeps :
      (j old : Job) (o : Option JobState) (d : Daemon) (r : Result (Unit {0}) × Scheduler)
      → P r.1
      → P (yaml_scheduled w jobs_dir now name j old o d r).1.sched
  unfolding yaml_scheduled
  yaml_scheduled-keeps j old o d (err e, sched) h =
      undo_update-keeps j.name old o (record d { sched = sched }) h
  yaml_scheduled-keeps j old o d (ok u, sched) h =
      yaml_saved-keeps j.name j.file_path old o (record d { sched = sched })
        (save_job w j.file_path j d.disk) h

  yaml_applied-keeps :
      (parsed old : Job) (d : Daemon)
      → P d.sched
      → P (yaml_applied w jobs_dir now name parsed old d).1.sched
  unfolding yaml_applied
  yaml_applied-keeps parsed old d h =
      let j : Job = record parsed { file_path = default_path w jobs_dir parsed.name } in
      let o : Option JobState = lookup name d.states in
      let s : Scheduler = Scheduler.remove_job now name d.sched in
      yaml_scheduled-keeps j old o
        (record d {
          jobs = renamed w jobs_dir now name j.name j d.jobs;
          states = renamed w jobs_dir now name j.name (next_state j o) d.states;
        })
        (apply_schedule w now j s)
        (apply_schedule-keeps P closed w now j s (closed.removed now name d.sched h))

  yaml_current-keeps :
      (parsed : Job) (d : Daemon) (o : Option Job)
      → P d.sched
      → P (yaml_current w jobs_dir now name parsed d o).1.sched
  unfolding yaml_current
  yaml_current-keeps parsed d none h = h
  yaml_current-keeps parsed d (some old) h =
      elim (Bool-cases (not (text_eq parsed.name name) && is_some (lookup parsed.name d.jobs))) [
        | inl taken ↦ rw taken h
        | inr free ↦ rw free (yaml_applied-keeps parsed old d h)
      ]

  yaml_parsed-keeps :
      (d : Daemon) (r : Result Job) → P d.sched → P (yaml_parsed w jobs_dir now name d r).1.sched
  unfolding yaml_parsed
  yaml_parsed-keeps d (err e) h = h
  yaml_parsed-keeps d (ok parsed) h = yaml_current-keeps parsed d (lookup name d.jobs) h

  pub update_job_yaml-keeps :
      (content : Text) (d : Daemon)
      → P d.sched
      → P (update_job_yaml w jobs_dir now name content d).1.sched
  unfolding update_job_yaml
  update_job_yaml-keeps content d h = yaml_parsed-keeps d (parse_update w content) h
