-- ===== src/Daemon/Tests.antt =====
-- The theorems about the daemon at concrete inputs: a daemon with one job in a world where the
-- calls of the system succeed, or where one of them fails.
mod Runs
use cronbat.Prelude.{◌≡◌, refl, none, some, true, false}
use cronbat.Text.{codes, text_eq, trim_space, trim_left, trim_right, is_space, is_safe_char}
use cronbat.Text.Laws.{every}
use cronbat.Dict.{lookup, insert, remove}
use cronbat.Errors.{ok, err, new_error}
use cronbat.Config.Job.{Job, zero_job, is_enabled}
use cronbat.Config.Files.{save_job, parse_timeout}
use cronbat.World.{World, mkdir_all, write_file, remove_file, rename_file}
use cronbat.Scheduler
use cronbat.Scheduler.{Scheduler, new_scheduler}
use cronbat.Daemon.State.{
  Daemon, JobState, validate_job, apply_schedule, trim_fields, is_safe_job_name, already_exists,
  not_found, save_job_locked, job_file_path,
}
use cronbat.Daemon.Validate.{IsNormal, validate_job-IsNormal}
use cronbat.Daemon.Invariant.{nowhere, IsConsistent, SameAt}
use cronbat.Daemon.Create.{create_job}
use cronbat.Daemon.Samples.{good, denied, folder, nightly, empty, empty-IsConsistent}
use cronbat.Daemon.Create.Correct.{
  Created, create_job_done, create_job_refused, create_job-IsConsistent, create_job_duplicate,
}
use cronbat.Daemon.Enable.{set_job_enabled, start_job, stop_job, pause_job}
use cronbat.Daemon.Enable.Correct.{
  Done, set_job_enabled-IsConsistent, set_job_enabled_failed, lifecycle-IsConsistent,
  pause_job-Done, start_job-Done,
}
use cronbat.Daemon.Settings.{update_job_settings, edited}
use cronbat.Daemon.Settings.Laws.{Edited}
use cronbat.Daemon.Settings.Correct.{
  update_job_settings-IsConsistent, update_job_settings_failed, update_job_settings_done,
}
use cronbat.Daemon.Remove.{archive_job, delete_job}
use cronbat.Daemon.Remove.Laws.{Forgotten, Archived, archive_path}
use cronbat.Daemon.Remove.Correct.{
  delete_job-IsConsistent, delete_job_done, delete_job_failed, archive_job_done, archive_job_failed,
}

-- The daemon after `nightly` has been created in it.
abbrev one_job : Daemon
one_job = (create_job good folder 5 nightly empty).1

one_job-IsConsistent : IsConsistent nowhere good one_job
one_job-IsConsistent = create_job-IsConsistent good folder 5 nightly empty (empty-IsConsistent good)

abbrev one_job_denied : Daemon
one_job_denied = (create_job denied folder 5 nightly empty).1

one_job_denied-IsConsistent : IsConsistent nowhere denied one_job_denied
one_job_denied-IsConsistent =
    create_job-IsConsistent denied folder 5 nightly empty (empty-IsConsistent denied)

abbrev stored : Job
stored = record zero_job {
  name = codes "a";
  schedule = codes "0 2 * * *";
  command = codes "run";
  executor = codes "shell";
}

valid : (w : World) → validate_job w nightly ≡ ok stored
unfolding validate_job trim_fields trim_space trim_left trim_right is_space is_safe_job_name every
    is_safe_char parse_timeout
valid w = refl

-- `nightly` as `one_job` holds it
abbrev on_record : Job
on_record = record stored { file_path = codes "jobs/a.yaml" }

created : (create_job good folder 5 nightly empty).0 ≡ ok tt
unfolding validate_job trim_fields trim_space trim_left trim_right is_space is_safe_job_name every
    is_safe_char parse_timeout create_job lookup insert apply_schedule is_enabled save_job mkdir_all
    write_file text_eq
created = refl

found : lookup (codes "a") one_job.jobs ≡ some on_record
unfolding validate_job trim_fields trim_space trim_left trim_right is_space is_safe_job_name every
    is_safe_char parse_timeout create_job lookup insert apply_schedule is_enabled save_job mkdir_all
    write_file text_eq
found = refl

found_denied : lookup (codes "a") one_job_denied.jobs ≡ some on_record
unfolding validate_job trim_fields trim_space trim_left trim_right is_space is_safe_job_name every
    is_safe_char parse_timeout create_job lookup insert apply_schedule is_enabled save_job mkdir_all
    write_file text_eq
found_denied = refl

refused : (create_job good folder 9 nightly one_job).0 ≡ err (already_exists (codes "a"))
unfolding validate_job trim_fields trim_space trim_left trim_right is_space is_safe_job_name every
    is_safe_char parse_timeout create_job lookup insert apply_schedule is_enabled save_job mkdir_all
    write_file text_eq
refused = refl

paused : (pause_job good folder 9 (codes "a") one_job).0 ≡ ok tt
unfolding validate_job trim_fields trim_space trim_left trim_right is_space is_safe_job_name every
    is_safe_char parse_timeout create_job lookup insert apply_schedule is_enabled save_job mkdir_all
    write_file text_eq set_job_enabled start_job pause_job delete_job archive_job
    Scheduler.remove_job Scheduler.remove_by_name Scheduler.index_of remove remove_file rename_file
    save_job_locked job_file_path
paused = refl

started : (start_job good folder 9 (codes "a") one_job).0 ≡ ok tt
unfolding validate_job trim_fields trim_space trim_left trim_right is_space is_safe_job_name every
    is_safe_char parse_timeout create_job lookup insert apply_schedule is_enabled save_job mkdir_all
    write_file text_eq set_job_enabled start_job pause_job delete_job archive_job
    Scheduler.remove_job Scheduler.remove_by_name Scheduler.index_of remove remove_file rename_file
    save_job_locked job_file_path
started = refl

not_switched :
    (set_job_enabled good folder 9 (codes "x") true one_job).0 ≡ err (not_found (codes "x"))
unfolding validate_job trim_fields trim_space trim_left trim_right is_space is_safe_job_name every
    is_safe_char parse_timeout create_job lookup insert apply_schedule is_enabled save_job mkdir_all
    write_file text_eq set_job_enabled start_job pause_job delete_job archive_job
    Scheduler.remove_job Scheduler.remove_by_name Scheduler.index_of remove remove_file rename_file
    save_job_locked job_file_path
not_switched = refl

deleted : (delete_job good folder 9 (codes "a") one_job).0 ≡ ok tt
unfolding validate_job trim_fields trim_space trim_left trim_right is_space is_safe_job_name every
    is_safe_char parse_timeout create_job lookup insert apply_schedule is_enabled save_job mkdir_all
    write_file text_eq set_job_enabled start_job pause_job delete_job archive_job
    Scheduler.remove_job Scheduler.remove_by_name Scheduler.index_of remove remove_file rename_file
    save_job_locked job_file_path
deleted = refl

not_deleted :
    (delete_job denied folder 9 (codes "a") one_job_denied).0 ≡ err (new_error (codes "denied"))
unfolding validate_job trim_fields trim_space trim_left trim_right is_space is_safe_job_name every
    is_safe_char parse_timeout create_job lookup insert apply_schedule is_enabled save_job mkdir_all
    write_file text_eq set_job_enabled start_job pause_job delete_job archive_job
    Scheduler.remove_job Scheduler.remove_by_name Scheduler.index_of remove remove_file rename_file
    save_job_locked job_file_path
not_deleted = refl

archived : (archive_job good folder 9 (codes "a") (codes "t") one_job).0 ≡ ok tt
unfolding validate_job trim_fields trim_space trim_left trim_right is_space is_safe_job_name every
    is_safe_char parse_timeout create_job lookup insert apply_schedule is_enabled save_job mkdir_all
    write_file text_eq set_job_enabled start_job pause_job delete_job archive_job
    Scheduler.remove_job Scheduler.remove_by_name Scheduler.index_of remove remove_file rename_file
    save_job_locked job_file_path
archived = refl

not_archived :
    (archive_job denied folder 9 (codes "a") (codes "t") one_job_denied).0
    ≡ err (new_error (codes "denied"))
unfolding validate_job trim_fields trim_space trim_left trim_right is_space is_safe_job_name every
    is_safe_char parse_timeout create_job lookup insert apply_schedule is_enabled save_job mkdir_all
    write_file text_eq set_job_enabled start_job pause_job delete_job archive_job
    Scheduler.remove_job Scheduler.remove_by_name Scheduler.index_of remove remove_file rename_file
    save_job_locked job_file_path
not_archived = refl

settings_updated : (update_job_settings good folder 9 (codes "a") nightly one_job).0 ≡ ok tt
unfolding validate_job trim_fields trim_space trim_left trim_right is_space is_safe_job_name every
    is_safe_char parse_timeout create_job lookup insert apply_schedule is_enabled save_job mkdir_all
    write_file text_eq set_job_enabled start_job pause_job delete_job archive_job
    Scheduler.remove_job Scheduler.remove_by_name Scheduler.index_of remove remove_file rename_file
    save_job_locked job_file_path update_job_settings edited
settings_updated = refl

settings_refused :
    (update_job_settings good folder 9 (codes "a") zero_job one_job).0
    ≡ err (new_error (codes "job schedule is required"))
unfolding validate_job trim_fields trim_space trim_left trim_right is_space is_safe_job_name every
    is_safe_char parse_timeout create_job lookup insert apply_schedule is_enabled save_job mkdir_all
    write_file text_eq set_job_enabled start_job pause_job delete_job archive_job
    Scheduler.remove_job Scheduler.remove_by_name Scheduler.index_of remove remove_file rename_file
    save_job_locked job_file_path update_job_settings edited
settings_refused = refl

-- ---------------------------------------------------------------- the theorems, applied

validate_job-IsNormal_example : IsNormal good nightly stored
validate_job-IsNormal_example = validate_job-IsNormal good nightly stored (valid good)

create_job_done_example : Created good folder 5 nightly empty (empty-IsConsistent good) one_job
create_job_done_example =
    create_job_done good folder 5 nightly empty (empty-IsConsistent good) created

create_job_refused_example : SameAt one_job (create_job good folder 9 nightly one_job).1 (codes "a")
create_job_refused_example =
    create_job_refused good folder 9 nightly one_job one_job-IsConsistent
      (already_exists (codes "a")) refused (codes "a")

pause_job-Done_example :
    Done good folder 9
      (codes "a")
      false
      one_job
      one_job-IsConsistent
      JobState.paused
      (pause_job good folder 9 (codes "a") one_job).1
    × (Scheduler.next_run_time (codes "a") (pause_job good folder 9 (codes "a") one_job).1.sched
        ≡ none)
pause_job-Done_example =
    pause_job-Done good folder 9 (codes "a") one_job one_job-IsConsistent paused

delete_job_done_example :
    Forgotten good folder 9
      (codes "a")
      one_job
      one_job-IsConsistent
      (delete_job good folder 9 (codes "a") one_job).1
delete_job_done_example =
    delete_job_done good folder 9 (codes "a") one_job one_job-IsConsistent deleted

delete_job_failed_example :
    SameAt one_job_denied (delete_job denied folder 9 (codes "a") one_job_denied).1 (codes "a")
delete_job_failed_example =
    delete_job_failed denied folder 9 (codes "a") one_job_denied one_job_denied-IsConsistent
      (new_error (codes "denied")) not_deleted (codes "a")

archive_job_done_example :
    Forgotten good folder 9
      (codes "a")
      one_job
      one_job-IsConsistent
      (archive_job good folder 9 (codes "a") (codes "t") one_job).1
    × IsConsistent nowhere good (archive_job good folder 9 (codes "a") (codes "t") one_job).1
    × (j : Job) × (lookup (codes "a") one_job.jobs ≡ some j)
    × Archived good folder 9
        (codes "a")
        one_job
        one_job-IsConsistent
        j
        (archive_path good folder 9 (codes "a") one_job one_job-IsConsistent (codes "t") j)
        (archive_job good folder 9 (codes "a") (codes "t") one_job).1.disk
archive_job_done_example =
    archive_job_done good folder 9 (codes "a") one_job one_job-IsConsistent (codes "t") archived

archive_job_failed_example :
    (lookup (codes "a") (archive_job denied folder 9 (codes "a") (codes "t") one_job_denied).1.jobs
      ≡ some on_record)
    × (lookup
          (codes "a")
          (archive_job denied folder 9 (codes "a") (codes "t") one_job_denied).1.states
        ≡ lookup (codes "a") one_job_denied.states)
    × (Scheduler.next_run_time
          (codes "a")
          (archive_job denied folder 9 (codes "a") (codes "t") one_job_denied).1.sched
        ≡ none)
archive_job_failed_example =
    archive_job_failed denied folder 9 (codes "a") one_job_denied one_job_denied-IsConsistent
      (codes "t") on_record (new_error (codes "denied")) found_denied not_archived

update_job_settings_failed_example :
    (lookup (codes "a") (update_job_settings good folder 9 (codes "a") zero_job one_job).1.jobs
      ≡ lookup (codes "a") one_job.jobs)
    × (lookup (codes "a") (update_job_settings good folder 9 (codes "a") zero_job one_job).1.states
        ≡ lookup (codes "a") one_job.states)
update_job_settings_failed_example =
    update_job_settings_failed good folder 9 (codes "a") zero_job one_job one_job-IsConsistent
      (new_error (codes "job schedule is required")) settings_refused (codes "a")

update_job_settings_done_example :
    (current : Job) × (lookup (codes "a") one_job.jobs ≡ some current)
    × Edited good folder 9
        (codes "a")
        nightly
        one_job
        one_job-IsConsistent
        current
        (update_job_settings good folder 9 (codes "a") nightly one_job).1
update_job_settings_done_example =
    update_job_settings_done good folder 9 (codes "a") nightly one_job one_job-IsConsistent
      settings_updated
