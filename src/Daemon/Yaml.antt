-- ===== src/Daemon/Yaml.antt =====
-- `getJobYAML` and `updateJobYAML` of cmd/cronbat/main.go
pub mod Undo
pub mod Laws
pub mod Ends
pub mod Correct
pub mod Keeps
use cronbat.Prelude.{ℕ, not, ◌&&◌, Option, none, some, if◌then◌else◌}
use cronbat.Text.{Text, codes, is_empty, text_eq, trim_space}
use cronbat.Dict.{Dict, lookup, insert, remove, is_some}
use cronbat.Errors.{Result, ok, err, ◌>>=◌, ◌>>◌, require}
use cronbat.Config.Job.{Job}
use cronbat.Config.Files.{parse_job_yaml, save_job}
use cronbat.World.{World, Disk, read_file, remove_file}
use cronbat.Scheduler
use cronbat.Scheduler.{Scheduler}
use cronbat.Daemon.State.{
  Daemon, JobState, not_found, already_exists, validate_job, apply_schedule, default_path,
  job_file_path,
}
use cronbat.Daemon.Settings.{restore_state, next_state}

-- The file's text, or the job in memory where it has no file.
from_memory : World → Job → Result Text → Result Text
from_memory w j (ok content) = ok content
from_memory w j (err e) = if e.is_not_exist then w.marshal j else err e

yaml_found : World → Text → Text → Disk → Option Job → Result Text
unfolding from_memory
yaml_found w jobs_dir name disk none = err (not_found name)
yaml_found w jobs_dir name disk (some j) =
    from_memory w j (read_file w (job_file_path w jobs_dir j) disk)

unfoldable pub get_job_yaml : World → Text → Text → Daemon → Result Text
unfolding yaml_found
get_job_yaml w jobs_dir name d = yaml_found w jobs_dir name d.disk (lookup name d.jobs)

-- The parsed and checked job, before the lock is taken. The newline that `updateJobYAML` adds to
-- its argument then is never used.
unfoldable pub parse_update : World → Text → Result Job
parse_update w content = do
  parsed ← parse_job_yaml w content
  let j = record parsed { name = trim_space parsed.name }
  require (not (is_empty j.name)) (codes "job name is required in YAML")
  validate_job w j

module _ (w : World) (jobs_dir : Text) (now : ℕ) (name : Text) where
  -- The entry under `name` moves to `new_name`, unless they are one; then it holds `j`.
  abbrev renamed {ℓ} : {V : Type ℓ} → Text → V → Dict V → Dict V
  renamed new_name v m = insert new_name v (if text_eq new_name name then m else remove name m)

  -- What `restore` and the failure of `applyScheduleLocked` do to the maps and the schedule.
  pub undo_update : Text → Job → Option JobState → Daemon → Daemon
  undo_update new_name old old_state d = record d {
    jobs = insert name old (if text_eq new_name name then d.jobs else remove new_name d.jobs);
    states =
        restore_state name old_state
          (if text_eq new_name name then d.states else remove new_name d.states);
    sched = (apply_schedule w now old d.sched).1;
  }

  pub restore : Text → Job → Option JobState → Daemon → Daemon
  unfolding undo_update
  restore new_name old old_state d = undo_update new_name old old_state (record d {
    sched = Scheduler.remove_job now new_name (Scheduler.remove_job now name d.sched);
  })

  -- The old file is removed, or not; then the new one is removed again.
  old_removed :
      Text → Text → Job → Option JobState → Daemon → Result (Unit {0}) × Disk → Result Text × Daemon
  unfolding restore
  old_removed new_name new_path old old_state d (ok _, disk) =
      (ok new_name, record d { disk = disk })
  old_removed new_name new_path old old_state d (err e, disk) =
      if e.is_not_exist then (ok new_name, record d { disk = disk }) else (
        err e,
        restore new_name old old_state (record d { disk = (remove_file w new_path disk).1 }),
      )

  yaml_saved :
      Text → Text → Job → Option JobState → Daemon → Result Job × Disk → Result Text × Daemon
  unfolding old_removed
  yaml_saved new_name new_path old old_state d (err e, disk) =
      (err e, restore new_name old old_state (record d { disk = disk }))
  yaml_saved new_name new_path old old_state d (ok saved, disk) =
      let d' = record d { jobs = insert new_name saved d.jobs; disk = disk } in
      let old_path = job_file_path w jobs_dir old in
      if text_eq new_path old_path
      then (ok new_name, d')
      else old_removed new_name new_path old old_state d' (remove_file w old_path disk)

  yaml_scheduled :
      Job → Job → Option JobState → Daemon → Result (Unit {0}) × Scheduler → Result Text × Daemon
  unfolding yaml_saved
  yaml_scheduled j old old_state d (err e, sched) =
      (err e, undo_update j.name old old_state (record d { sched = sched }))
  yaml_scheduled j old old_state d (ok _, sched) =
      yaml_saved j.name j.file_path old old_state (record d { sched = sched })
        (save_job w j.file_path j d.disk)

  yaml_applied : Job → Job → Daemon → Result Text × Daemon
  unfolding yaml_scheduled
  yaml_applied parsed old d =
      let j = record parsed { file_path = default_path w jobs_dir parsed.name } in
      let old_state = lookup name d.states in
      yaml_scheduled j old old_state
        (record d {
          jobs = renamed j.name j d.jobs;
          states = renamed j.name (next_state j old_state) d.states;
        })
        (apply_schedule w now j (Scheduler.remove_job now name d.sched))

  yaml_current : Job → Daemon → Option Job → Result Text × Daemon
  unfolding yaml_applied
  yaml_current parsed d none = (err (not_found name), d)
  yaml_current parsed d (some old) =
      if not (text_eq parsed.name name) && is_some (lookup parsed.name d.jobs)
      then (err (already_exists parsed.name), d)
      else yaml_applied parsed old d

  yaml_parsed : Daemon → Result Job → Result Text × Daemon
  unfolding yaml_current
  yaml_parsed d (err e) = (err e, d)
  yaml_parsed d (ok parsed) = yaml_current parsed d (lookup name d.jobs)

  unfoldable pub update_job_yaml : Text → Daemon → Result Text × Daemon
  unfolding yaml_parsed
  update_job_yaml content d = yaml_parsed d (parse_update w content)
