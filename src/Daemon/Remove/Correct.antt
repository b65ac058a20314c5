-- ===== src/Daemon/Remove/Correct.antt =====
-- `deleteJob` and `archiveJob`: what they do on success and on failure.
use cronbat.Prelude.{Bool, ℕ, ◌≡◌, refl, ◌∙◌, none, some}
use cronbat.Text.{Text}
use cronbat.Dict.{lookup}
use cronbat.Errors.{Error, Result, ok, err}
use cronbat.Config.Job.{Job}
use cronbat.World.{World}
use cronbat.Scheduler
use cronbat.Daemon.State.{Daemon}
use cronbat.Daemon.Invariant.{IsConsistent, SameAt, SameAt-refl, IsConsistent-step}
use cronbat.Daemon.Remove.{archive_job, delete_job}
use cronbat.Daemon.Remove.Laws.{
  Forgotten, Deleting, Archived, archive_path, Archiving, delete_job-Deleting,
  archive_job-Archiving,
}

module _ {lax : Text → Bool} (w : World) (jobs_dir : Text) (now : ℕ) (name : Text) (d : Daemon)
    (h : IsConsistent lax w d) where
  pub Forgotten-IsConsistent :
      (d' : Daemon) → Forgotten w jobs_dir now name d h d' → IsConsistent lax w d'
  Forgotten-IsConsistent d' f =
      IsConsistent-step w d d' name h f.unique f.others (rw (f.job, f.state, f.next) (refl, refl))

  Deleting-keeps :
      (r : Result (Unit {0}) × Daemon) → Deleting w jobs_dir now name d h r → IsConsistent lax w r.1
  Deleting-keeps _ (Deleting.absent none_found) = h
  Deleting-keeps _ (Deleting.kept e disk) = record { unique = h.unique; fits = h.fits }
  Deleting-keeps _ (Deleting.deleted d' f) = Forgotten-IsConsistent d' f

  -- `deleteJob` keeps a consistent daemon consistent, whether it succeeds or fails.
  pub delete_job-IsConsistent : IsConsistent lax w (delete_job w jobs_dir now name d).1
  delete_job-IsConsistent =
      Deleting-keeps (delete_job w jobs_dir now name d)
        (delete_job-Deleting w jobs_dir now name d h)

  Deleting-ends :
      (r : Result (Unit {0}) × Daemon)
      → Deleting w jobs_dir now name d h r
      → (r.0 ≡ ok tt → Forgotten w jobs_dir now name d h r.1)
        × ((e : Error) → r.0 ≡ err e → (n : Text) → SameAt d r.1 n)
  Deleting-ends _ (Deleting.absent none_found) =
      (λ done. absurd (cc), λ e failed n. SameAt-refl d n)
  Deleting-ends _ (Deleting.kept e disk) =
      (λ done. absurd (cc), λ e failed n. record { jobs = refl; states = refl; next = refl })
  Deleting-ends _ (Deleting.deleted d' f) = (λ done. f, λ e failed n. absurd (cc))

  -- A `deleteJob` on a consistent daemon that succeeds takes the job out of both maps and the scheduler, and changes
  -- nothing else there.
  pub delete_job_done :
      (delete_job w jobs_dir now name d).0 ≡ ok tt
      → Forgotten w jobs_dir now name d h (delete_job w jobs_dir now name d).1
  delete_job_done =
      (Deleting-ends (delete_job w jobs_dir now name d)
        (delete_job-Deleting w jobs_dir now name d h)).0

  -- A `deleteJob` on a consistent daemon that fails changes no job, no state and no next run.
  pub delete_job_failed :
      (e : Error)
      → (delete_job w jobs_dir now name d).0 ≡ err e
      → (n : Text) → SameAt d (delete_job w jobs_dir now name d).1 n
  delete_job_failed =
      (Deleting-ends (delete_job w jobs_dir now name d)
        (delete_job-Deleting w jobs_dir now name d h)).1

  Archiving-done :
      (stamp : Text) (r : Result (Unit {0}) × Daemon)
      → Archiving w jobs_dir now name d h stamp r
      → r.0 ≡ ok tt
      → Forgotten w jobs_dir now name d h r.1
        × (j : Job) × (lookup name d.jobs ≡ some j)
        × Archived w jobs_dir now name d h j (archive_path w jobs_dir now name d h stamp j) r.1.disk
  Archiving-done stamp _ (Archiving.absent none_found) done = absurd (cc)
  Archiving-done stamp _ (Archiving.left e d' u) done = absurd (cc)
  Archiving-done stamp _ (Archiving.archived j d' found file f) done = (f, j, found, file)

  -- An `archiveJob` on a consistent daemon that succeeds takes the job out of both maps and the
  -- scheduler and changes nothing else there, keeps the daemon consistent, and brings the job's file
  -- to its path in the archive: the file is moved, so that it is gone from its former path, or,
  -- where the file system reports that there is none, the job in memory is written there. No other
  -- file changes.
  pub archive_job_done :
      (stamp : Text)
      → (archive_job w jobs_dir now name stamp d).0 ≡ ok tt
      → Forgotten w jobs_dir now name d h (archive_job w jobs_dir now name stamp d).1
        × IsConsistent lax w (archive_job w jobs_dir now name stamp d).1
        × (j : Job) × (lookup name d.jobs ≡ some j)
        × Archived w jobs_dir now name d h j
            (archive_path w jobs_dir now name d h stamp j)
            (archive_job w jobs_dir now name stamp d).1.disk
  archive_job_done stamp done =
      let (f, j, found, file) =
        Archiving-done stamp (archive_job w jobs_dir now name stamp d)
          (archive_job-Archiving w jobs_dir now name d h stamp) done in
      (f, Forgotten-IsConsistent (archive_job w jobs_dir now name stamp d).1 f, j, found, file)

  Archiving-failed :
      (stamp : Text) (r : Result (Unit {0}) × Daemon) (j : Job) (e : Error)
      → Archiving w jobs_dir now name d h stamp r
      → lookup name d.jobs ≡ some j
      → r.0 ≡ err e
      → (lookup name r.1.jobs ≡ some j)
        × (lookup name r.1.states ≡ lookup name d.states)
        × (Scheduler.next_run_time name r.1.sched ≡ none)
  Archiving-failed stamp _ j e (Archiving.absent none_found) found failed = absurd (cc)
  Archiving-failed stamp _ j e (Archiving.left e' d' u) found failed =
      (u.jobs name ∙ found, u.states name, u.next)
  Archiving-failed stamp _ j e (Archiving.archived j' d' there file f) found failed = absurd (cc)

  -- An `archiveJob` on a consistent daemon of a known job that fails leaves the job and its state on record but takes the
  -- job off the schedule: it does not run again, even if it is enabled and on record as started.
  pub archive_job_failed :
      (stamp : Text) (j : Job) (e : Error)
      → lookup name d.jobs ≡ some j
      → (archive_job w jobs_dir now name stamp d).0 ≡ err e
      → (lookup name (archive_job w jobs_dir now name stamp d).1.jobs ≡ some j)
        × (lookup name (archive_job w jobs_dir now name stamp d).1.states ≡ lookup name d.states)
        × (Scheduler.next_run_time name (archive_job w jobs_dir now name stamp d).1.sched ≡ none)
  archive_job_failed stamp j e =
      Archiving-failed stamp (archive_job w jobs_dir now name stamp d) j e
        (archive_job-Archiving w jobs_dir now name d h stamp)
