-- ===== src/Daemon/Remove.antt =====
-- `archiveJob` and `deleteJob` of cmd/cronbat/main.go
pub mod Laws
pub mod Correct
pub mod Keeps
use cronbat.Prelude.{ℕ, Option, none, some, ◌++◌, if◌then◌else◌}
use cronbat.Text.{Text, codes}
use cronbat.Dict.{lookup, remove}
use cronbat.Errors.{Result, ok, err}
use cronbat.Config.Job.{Job}
use cronbat.Config.Files.{save_job}
use cronbat.World.{World, Disk, mkdir_all, rename_file, remove_file}
use cronbat.Scheduler
use cronbat.Daemon.State.{Daemon, not_found, job_file_path}

module _ (w : World) (jobs_dir : Text) (now : ℕ) (name : Text) where
  -- `delete(jobMap, name); delete(jobStateMap, name)`
  forget : Daemon → Disk → Result (Unit {0}) × Daemon
  forget d disk =
      (ok tt, record d { jobs = remove name d.jobs; states = remove name d.states; disk = disk })

  copy_saved : Daemon → Result Job × Disk → Result (Unit {0}) × Daemon
  copy_saved d (err e, disk) = (err e, record d { disk = disk })
  copy_saved d (ok _, disk) = forget d disk

  -- The file is moved; where there is none, the job in memory is written to the archive.
  moved_to : Job → Text → Daemon → Result (Unit {0}) × Disk → Result (Unit {0}) × Daemon
  moved_to j dst d (ok _, disk) = forget d disk
  moved_to j dst d (err e, disk) =
      if e.is_not_exist
      then copy_saved d (save_job w dst (record j { file_path = dst }) disk)
      else (err e, record d { disk = disk })

  into_archive : Text → Job → Daemon → Result (Unit {0}) → Result (Unit {0}) × Daemon
  into_archive stamp j d (err e) = (err e, d)
  into_archive stamp j d (ok _) =
      let dst =
        w.join_path (w.join_path jobs_dir (codes "archive"))
          (j.name ++ (codes "-" ++ (stamp ++ codes ".yaml"))) in
      moved_to j dst d (rename_file w (job_file_path w jobs_dir j) dst d.disk)

  archive_found : Text → Daemon → Option Job → Result (Unit {0}) × Daemon
  archive_found stamp d none = (err (not_found name), d)
  archive_found stamp d (some j) =
      into_archive stamp j (record d { sched = Scheduler.remove_job now name d.sched })
        (mkdir_all w (w.join_path jobs_dir (codes "archive")))

  -- `stamp` is the time of the call, as it stands in the file's name.
  unfoldable pub archive_job : Text → Daemon → Result (Unit {0}) × Daemon
  unfolding forget copy_saved moved_to into_archive archive_found
  archive_job stamp d = archive_found stamp d (lookup name d.jobs)

  forget_deleted : Daemon → Disk → Result (Unit {0}) × Daemon
  unfolding forget
  forget_deleted d disk = forget (record d { sched = Scheduler.remove_job now name d.sched }) disk

  file_deleted : Daemon → Result (Unit {0}) × Disk → Result (Unit {0}) × Daemon
  file_deleted d (ok _, disk) = forget_deleted d disk
  file_deleted d (err e, disk) =
      if e.is_not_exist then forget_deleted d disk else (err e, record d { disk = disk })

  delete_found : Daemon → Option Job → Result (Unit {0}) × Daemon
  delete_found d none = (err (not_found name), d)
  delete_found d (some j) = file_deleted d (remove_file w (job_file_path w jobs_dir j) d.disk)

  unfoldable pub delete_job : Daemon → Result (Unit {0}) × Daemon
  unfolding forget_deleted file_deleted delete_found
  delete_job d = delete_found d (lookup name d.jobs)
