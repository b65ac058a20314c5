-- ===== src/Daemon/Remove/Laws.antt =====
-- The ways the calls of `archiveJob` and `deleteJob` end.
use cronbat.Prelude.{
  ◌++◌, ◌⊎◌, inl, inr, sym, subst, Option-cases, ℕ, ◌≡◌, refl, Bool, true, false, Option, none,
  some, arith, if◌then◌else◌,
}
use cronbat.Text.{Text, text_eq, codes}
use cronbat.Text.Laws.{text_eq_refl}
use cronbat.Dict.{
  lookup, insert, remove, lookup-insert, lookup-insert_self, lookup-remove, lookup-remove_self,
}
use cronbat.Errors.{Error, Result, ok, err}
use cronbat.Config.Job.{Job}
use cronbat.Config.Files.{save_job}
use cronbat.Config.Saving.{Saving, OnlyAt, OnlyAt-insert, save_job-Saving}
use cronbat.World.{World, Disk, missing, mkdir_all, rename_file, remove_file}
use cronbat.Scheduler
use cronbat.Scheduler.{Scheduler}
use cronbat.Scheduler.Laws.{IsUnique, remove_job-IsUnique, next_run_time-remove_job}
use cronbat.Daemon.State.{Daemon, not_found, job_file_path}
use cronbat.Daemon.Invariant.{IsConsistent, SameAt}
use cronbat.Daemon.Remove.{
  forget, copy_saved, moved_to, into_archive, archive_found, archive_job, forget_deleted,
  file_deleted, delete_found, delete_job,
}

-- The ways a call of os.Rename ends.
rename_file-cases :
    (w : World) (src dst : Text) (disk : Disk)
    → ((e : Error) × (rename_file w src dst disk ≡ (err e, disk)))
      ⊎ ((content : Text) × (lookup src disk ≡ some content)
          × (rename_file w src dst disk ≡ (ok tt, insert dst content (remove src disk))))
unfolding rename_file
rename_file-cases w src dst disk = elim (Option-cases (w.rename_fault src dst)) [
  | inr (e, fault) ↦ inl (e, rw (fault, rename_file) refl)
  | inl sound ↦ elim (Option-cases (lookup src disk)) [
    | inl absent ↦ inl (missing, rw (sound, rename_file) (rw (absent, rename_file) refl))
    | inr (content, there) ↦
        inr (content, there, rw (sound, rename_file) (rw (there, rename_file) refl))
  ]
]

module _ {lax : Text → Bool} (w : World) (jobs_dir : Text) (now : ℕ) (name : Text) (d : Daemon)
    (h : IsConsistent lax w d) where
  -- The name is gone from both maps and from the scheduler, and nothing else has changed there.
  pub record Forgotten (d' : Daemon) : Type 0 where
    pub unique : IsUnique d'.sched.heap
    pub job : lookup name d'.jobs ≡ none
    pub state : lookup name d'.states ≡ none
    pub next : Scheduler.next_run_time name d'.sched ≡ none
    pub others : (n : Text) → text_eq name n ≡ false → SameAt d d' n

  -- The job's file has come to the path `dst`: it was moved there, or, where the file system reports
  -- that there is none, the job in memory was written there. No other file has changed.
  pub data Archived (j : Job) (dst : Text) : Disk → Type 0 where
    moved :
        (content : Text) (disk : Disk)
        → lookup (job_file_path w jobs_dir j) d.disk ≡ some content
        → lookup dst disk ≡ some content
        → ((p : Text)
            → text_eq dst p ≡ false
            → lookup p disk
              ≡ (if text_eq (job_file_path w jobs_dir j) p then none else lookup p d.disk))
        → Archived j dst disk
    copied :
        (content : Text) (e : Error) (disk : Disk)
        → rename_file w (job_file_path w jobs_dir j) dst d.disk ≡ (err e, d.disk)
        → e.is_not_exist ≡ true
        → w.marshal (record j { file_path = dst }) ≡ ok content
        → lookup dst disk ≡ some content
        → OnlyAt dst d.disk disk
        → Archived j dst disk

  -- The job and its state are still on record, but the job is off the schedule.
  pub record Unscheduled (d' : Daemon) : Type 0 where
    pub unique : IsUnique d'.sched.heap
    pub jobs : (n : Text) → lookup n d'.jobs ≡ lookup n d.jobs
    pub states : (n : Text) → lookup n d'.states ≡ lookup n d.states
    pub next : Scheduler.next_run_time name d'.sched ≡ none
    pub others : (n : Text) → text_eq name n ≡ false → SameAt d d' n

  abbrev off : Scheduler
  off = Scheduler.remove_job now name d.sched

  off-IsUnique : IsUnique off.heap
  off-IsUnique = remove_job-IsUnique now name d.sched h.unique

  next-off :
      (n : Text)
      → Scheduler.next_run_time n off
        ≡ (if text_eq name n then none else Scheduler.next_run_time n d.sched)
  next-off = next_run_time-remove_job now name d.sched h.unique

  next-off_self : Scheduler.next_run_time name off ≡ none
  next-off_self = ground (arith, next-off name, text_eq_refl name)

  off-Unscheduled : (disk : Disk) → Unscheduled (record d { sched = off; disk = disk })
  off-Unscheduled disk = record {
    unique = off-IsUnique;
    jobs = λ n. refl;
    states = λ n. refl;
    next = next-off_self;
    others = λ n other. record { jobs = refl; states = refl; next = ground (arith, next-off n) };
  }

  forget-Forgotten :
      (disk : Disk) → Forgotten (forget w jobs_dir now name (record d { sched = off }) disk).1
  unfolding forget
  forget-Forgotten disk = record {
    unique = off-IsUnique;
    job = lookup-remove_self name d.jobs;
    state = lookup-remove_self name d.states;
    next = next-off_self;
    others = λ n other. record {
      jobs = ground (arith, lookup-remove name n d.jobs);
      states = ground (arith, lookup-remove name n d.states);
      next = ground (arith, next-off n);
    };
  }

  -- ---------------------------------------------------------------- deleteJob

  pub data Deleting : Result (Unit {0}) × Daemon → Type 0 where
    absent : lookup name d.jobs ≡ none → Deleting (err (not_found name), d)
    kept : (e : Error) (disk : Disk) → Deleting (err e, record d { disk = disk })
    deleted : (d' : Daemon) → Forgotten d' → Deleting (ok tt, d')

  by_kind-Deleting :
      (gone : Bool) (e : Error) (disk : Disk)
      → Deleting (
          if gone
          then forget_deleted w jobs_dir now name d disk
          else (err e, record d { disk = disk }))
  unfolding forget_deleted forget
  by_kind-Deleting true e disk = Deleting.deleted _ (forget-Forgotten disk)
  by_kind-Deleting false e disk = Deleting.kept e disk

  file_deleted-Deleting :
      (r : Result (Unit {0}) × Disk) → Deleting (file_deleted w jobs_dir now name d r)
  unfolding file_deleted forget_deleted forget
  file_deleted-Deleting (ok _, disk) = Deleting.deleted _ (forget-Forgotten disk)
  file_deleted-Deleting (err e, disk) = by_kind-Deleting e.is_not_exist e disk

  delete_found-Deleting :
      (found : Option Job)
      → lookup name d.jobs ≡ found
      → Deleting (delete_found w jobs_dir now name d found)
  unfolding delete_found
  delete_found-Deleting none none_found = Deleting.absent none_found
  delete_found-Deleting (some j) found =
      file_deleted-Deleting (remove_file w (job_file_path w jobs_dir j) d.disk)

  pub delete_job-Deleting : Deleting (delete_job w jobs_dir now name d)
  unfolding delete_job
  delete_job-Deleting = delete_found-Deleting (lookup name d.jobs) refl

  -- ---------------------------------------------------------------- archiveJob

  -- The name of a job's file in the archive has the time of the call.
  abbrev pub archive_path : Text → Job → Text
  archive_path stamp j =
      w.join_path (w.join_path jobs_dir (codes "archive"))
        (j.name ++ (codes "-" ++ (stamp ++ codes ".yaml")))

  pub data Archiving (stamp : Text) : Result (Unit {0}) × Daemon → Type 0 where
    absent : lookup name d.jobs ≡ none → Archiving stamp (err (not_found name), d)
    left : (e : Error) (d' : Daemon) → Unscheduled d' → Archiving stamp (err e, d')
    archived :
        (j : Job) (d' : Daemon)
        → lookup name d.jobs ≡ some j
        → Archived j (archive_path stamp j) d'.disk
        → Forgotten d'
        → Archiving stamp (ok tt, d')

  abbrev d₁ : Daemon
  d₁ = record d { sched = off }

  renamed-Archived :
      (src dst content : Text)
      → lookup dst (insert dst content (remove src d.disk)) ≡ some content
        × ((p : Text)
            → text_eq dst p ≡ false
            → lookup p (insert dst content (remove src d.disk))
              ≡ (if text_eq src p then none else lookup p d.disk))
  renamed-Archived src dst content = (
    lookup-insert_self dst content (remove src d.disk),
    λ p other.
        ground (arith, lookup-insert dst p content (remove src d.disk), lookup-remove src p d.disk),
  )

  module _ (stamp : Text) (j : Job) (found : lookup name d.jobs ≡ some j) where
    abbrev src : Text
    src = job_file_path w jobs_dir j

    abbrev dst : Text
    dst = archive_path stamp j

    copy_saved-Archiving :
        {r : Result Job × Disk} (e : Error)
        → rename_file w src dst d.disk ≡ (err e, d.disk)
        → e.is_not_exist ≡ true
        → Saving w dst (record j { file_path = dst }) d.disk r
        → Archiving stamp (copy_saved w jobs_dir now name d₁ r)
    unfolding copy_saved forget
    copy_saved-Archiving e not_moved gone (Saving.failed e' disk files) =
        Archiving.left e' _ (off-Unscheduled disk)
    copy_saved-Archiving e not_moved gone (Saving.saved content m) =
        Archiving.archived j _ found
          (Archived.copied content e _ not_moved gone m (lookup-insert_self dst content d.disk)
            (OnlyAt-insert dst content d.disk))
          (forget-Forgotten (insert dst content d.disk))

    not_moved-Archiving :
        (e : Error)
        → rename_file w src dst d.disk ≡ (err e, d.disk)
        → Archiving stamp (moved_to w jobs_dir now name j dst d₁ (err e, d.disk))
    unfolding moved_to
    not_moved-Archiving e not_moved = by_kind e.is_not_exist refl
      where
        by_kind :
            (gone : Bool)
            → e.is_not_exist ≡ gone
            → Archiving stamp (
                if gone
                then copy_saved w jobs_dir now name d₁
                    (save_job w dst (record j { file_path = dst }) d.disk)
                else (err e, d₁))
        by_kind true gone =
            copy_saved-Archiving e not_moved gone
              (save_job-Saving w dst (record j { file_path = dst }) d.disk)
        by_kind false bad = Archiving.left e _ (off-Unscheduled d.disk)

    moved_to-Archiving :
        Archiving stamp (moved_to w jobs_dir now name j dst d₁ (rename_file w src dst d.disk))
    unfolding moved_to forget
    moved_to-Archiving = elim (rename_file-cases w src dst d.disk) [
      | inl (e, not_moved) ↦
          subst (λ r. Archiving stamp (moved_to w jobs_dir now name j dst d₁ r)) (sym not_moved)
            (not_moved-Archiving e not_moved)
      | inr (content, there, moves) ↦
          subst (λ r. Archiving stamp (moved_to w jobs_dir now name j dst d₁ r)) (sym moves)
            (let (held, others) = renamed-Archived src dst content in
              Archiving.archived j _ found (Archived.moved content _ there held others)
                (forget-Forgotten (insert dst content (remove src d.disk))))
    ]

    into_archive-Archiving :
        (r : Result (Unit {0})) → Archiving stamp (into_archive w jobs_dir now name stamp j d₁ r)
    unfolding into_archive
    into_archive-Archiving (err e) = Archiving.left e _ (off-Unscheduled d.disk)
    into_archive-Archiving (ok _) = moved_to-Archiving

  archive_found-Archiving :
      (stamp : Text) (found : Option Job)
      → lookup name d.jobs ≡ found
      → Archiving stamp (archive_found w jobs_dir now name stamp d found)
  unfolding archive_found
  archive_found-Archiving stamp none none_found = Archiving.absent none_found
  archive_found-Archiving stamp (some j) found =
      into_archive-Archiving stamp j found (mkdir_all w (w.join_path jobs_dir (codes "archive")))

  pub archive_job-Archiving :
      (stamp : Text) → Archiving stamp (archive_job w jobs_dir now name stamp d)
  unfolding archive_job
  archive_job-Archiving stamp = archive_found-Archiving stamp (lookup name d.jobs) refl
