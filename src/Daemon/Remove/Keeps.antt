-- ===== src/Daemon/Remove/Keeps.antt =====
-- `deleteJob` and `archiveJob` only remove a job from the scheduler.
use cronbat.Prelude.{ℕ, inl, inr, Bool-cases, Option, none, some}
use cronbat.Text.{Text}
use cronbat.Dict.{lookup}
use cronbat.Errors.{Result, ok, err}
use cronbat.Config.Job.{Job}
use cronbat.Config.Files.{save_job}
use cronbat.World.{World, Disk, remove_file}
use cronbat.Scheduler
use cronbat.Scheduler.{Scheduler}
use cronbat.Daemon.State.{Daemon, job_file_path}
use cronbat.Daemon.Closed.{IsClosed}
use cronbat.Daemon.Remove.{
  forget, copy_saved, moved_to, into_archive, archive_found, archive_job, forget_deleted,
  file_deleted, delete_found, delete_job,
}

module _ (P : Scheduler → Type 0) (closed : IsClosed P) (w : World) (jobs_dir : Text) (now : ℕ)
    (name : Text) where
  copy_saved-keeps :
      (d : Daemon) (r : Result Job × Disk)
      → P d.sched
      → P (copy_saved w jobs_dir now name d r).1.sched
  unfolding copy_saved forget
  copy_saved-keeps d (err e, disk) h = h
  copy_saved-keeps d (ok saved, disk) h = h

  moved_to-keeps :
      (j : Job) (dst : Text) (d : Daemon) (r : Result (Unit {0}) × Disk)
      → P d.sched
      → P (moved_to w jobs_dir now name j dst d r).1.sched
  unfolding moved_to forget
  moved_to-keeps j dst d (ok u, disk) h = h
  moved_to-keeps j dst d (err e, disk) h = elim (Bool-cases e.is_not_exist) [
    | inl absent ↦
        rw absent (copy_saved-keeps d (save_job w dst (record j { file_path = dst }) disk) h)
    | inr bad ↦ rw bad h
  ]

  into_archive-keeps :
      (stamp : Text) (j : Job) (d : Daemon) (r : Result (Unit {0}))
      → P d.sched
      → P (into_archive w jobs_dir now name stamp j d r).1.sched
  unfolding into_archive
  into_archive-keeps stamp j d (err e) h = h
  into_archive-keeps stamp j d (ok u) h = moved_to-keeps j _ d _ h

  archive_found-keeps :
      (stamp : Text) (d : Daemon) (o : Option Job)
      → P d.sched
      → P (archive_found w jobs_dir now name stamp d o).1.sched
  unfolding archive_found
  archive_found-keeps stamp d none h = h
  archive_found-keeps stamp d (some j) h =
      into_archive-keeps stamp j (record d { sched = Scheduler.remove_job now name d.sched }) _
        (closed.removed now name d.sched h)

  pub archive_job-keeps :
      (stamp : Text) (d : Daemon) → P d.sched → P (archive_job w jobs_dir now name stamp d).1.sched
  unfolding archive_job
  archive_job-keeps stamp d h = archive_found-keeps stamp d (lookup name d.jobs) h

  file_deleted-keeps :
      (d : Daemon) (r : Result (Unit {0}) × Disk)
      → P d.sched
      → P (file_deleted w jobs_dir now name d r).1.sched
  unfolding file_deleted forget_deleted forget
  file_deleted-keeps d (ok u, disk) h = closed.removed now name d.sched h
  file_deleted-keeps d (err e, disk) h = elim (Bool-cases e.is_not_exist) [
    | inl absent ↦ rw absent (closed.removed now name d.sched h)
    | inr bad ↦ rw bad h
  ]

  delete_found-keeps :
      (d : Daemon) (o : Option Job) → P d.sched → P (delete_found w jobs_dir now name d o).1.sched
  unfolding delete_found
  delete_found-keeps d none h = h
  delete_found-keeps d (some j) h =
      file_deleted-keeps d (remove_file w (job_file_path w jobs_dir j) d.disk) h

  pub delete_job-keeps : (d : Daemon) → P d.sched → P (delete_job w jobs_dir now name d).1.sched
  unfolding delete_job
  delete_job-keeps d h = delete_found-keeps d (lookup name d.jobs) h
