-- ===== src/Daemon/Tests/Runs.antt =====
-- The theorems about `updateJobYAML` and about whole runs of the daemon, at concrete inputs.
use cronbat.Prelude.{some, ℕ, ◌≤◌, arith, ◌≡◌, refl, true, [], ◌∷◌}
use cronbat.Text.{Text, codes, text_eq, trim_space, trim_left, trim_right, is_space, is_safe_char}
use cronbat.Text.Laws.{every}
use cronbat.Dict.{lookup, insert, remove}
use cronbat.Errors.{ok, err}
use cronbat.Config.Job.{Job, is_enabled, apply_job_defaults}
use cronbat.Config.Files.{save_job, parse_timeout, parse_job_yaml}
use cronbat.World.{mkdir_all, write_file, remove_file}
use cronbat.Scheduler
use cronbat.Daemon.State.{
  Daemon, validate_job, apply_schedule, trim_fields, is_safe_job_name, not_found, job_file_path,
}
use cronbat.Daemon.Invariant.{nowhere, IsConsistent, runs}
use cronbat.Daemon.Create.{create_job}
use cronbat.Daemon.Yaml.{update_job_yaml, parse_update}
use cronbat.Daemon.Yaml.Correct.{Replaced, update_job_yaml_done, update_job_yaml_failed}
use cronbat.Scheduler.Heap
use cronbat.Daemon.Boot.{boot, register, schedule_all}
use cronbat.Daemon.Run.Timely.{Reached-job_fires}
use cronbat.Daemon.Run.{Call, Reached, perform, fire}
use cronbat.Daemon.Run.Laws.{Reached-IsConsistent}
use cronbat.Daemon.Samples.{good, folder, nightly}
use cronbat.Daemon.Tests.{one_job, one_job-IsConsistent}

renamed_to_b : (update_job_yaml good folder 9 (codes "a") (codes "run") one_job).0 ≡ ok (codes "b")
unfolding validate_job trim_fields trim_space trim_left trim_right is_space is_safe_job_name every
    is_safe_char parse_timeout create_job lookup insert apply_schedule is_enabled save_job mkdir_all
    write_file text_eq update_job_yaml parse_update parse_job_yaml apply_job_defaults remove_file
    Scheduler.remove_job Scheduler.remove_by_name Scheduler.index_of remove job_file_path
renamed_to_b = refl

not_on_record :
    (update_job_yaml good folder 9 (codes "x") (codes "run") one_job).0
    ≡ err (not_found (codes "x"))
unfolding validate_job trim_fields trim_space trim_left trim_right is_space is_safe_job_name every
    is_safe_char parse_timeout create_job lookup insert apply_schedule is_enabled save_job mkdir_all
    write_file text_eq update_job_yaml parse_update parse_job_yaml apply_job_defaults
not_on_record = refl

update_job_yaml_done_example :
    Replaced good folder 9
      (codes "a")
      (codes "run")
      one_job
      one_job-IsConsistent
      (codes "b")
      (update_job_yaml good folder 9 (codes "a") (codes "run") one_job).1
update_job_yaml_done_example =
    update_job_yaml_done good folder 9 (codes "a") (codes "run") one_job one_job-IsConsistent
      (codes "b") renamed_to_b

update_job_yaml_failed_example :
    (lookup (codes "a") (update_job_yaml good folder 9 (codes "x") (codes "run") one_job).1.jobs
      ≡ lookup (codes "a") one_job.jobs)
    × (lookup (codes "a") (update_job_yaml good folder 9 (codes "x") (codes "run") one_job).1.states
        ≡ lookup (codes "a") one_job.states)
update_job_yaml_failed_example =
    update_job_yaml_failed good folder 9 (codes "x") (codes "run") one_job one_job-IsConsistent
      (not_found (codes "x")) not_on_record (codes "a")

-- Started with one job, then another is created and the first is due.
abbrev one_loaded : Daemon
one_loaded = boot good (λ i. 5) 6 (nightly ∷ []) []

abbrev two_jobs : Daemon
two_jobs = (perform good folder 7 (Call.create (record nightly { name = codes "c" })) one_loaded).1

abbrev after_firing : Daemon
after_firing = (perform good folder 99 Call.timer two_jobs).1

after_firing-Reached : Reached good folder nowhere after_firing
unfolding trim_space trim_left trim_right is_space
after_firing-Reached = Reached.called nowhere 99 Call.timer two_jobs (
    Reached.called nowhere 7 (Call.create (record nightly { name = codes "c" })) one_loaded
      (Reached.booted (λ i. 5) 6 (nightly ∷ []) [] (refl, tt)))

Reached-IsConsistent_example : IsConsistent nowhere good after_firing
Reached-IsConsistent_example =
    Reached-IsConsistent good folder nowhere after_firing after_firing-Reached

due_again : Scheduler.next_run_time (codes "a") after_firing.sched ≡ some 159
unfolding perform boot register schedule_all lookup insert text_eq validate_job trim_fields
    trim_space trim_left trim_right is_space is_safe_job_name every is_safe_char parse_timeout
    create_job apply_schedule is_enabled save_job mkdir_all write_file Scheduler.next_run_time
    Scheduler.start Scheduler.add_job Scheduler.remove_job Scheduler.remove_by_name
    Scheduler.index_of Scheduler.timer_fires Heap.push Heap.pop Heap.up Heap.up_loop Heap.down
    Heap.down_loop Heap.swap Heap.less
due_again = refl

-- "c" is due at 67 and "a" at 159, after it has been fired at 99.
Reached-job_fires_example :
    (k : Text) × (j : Job) × (u : ℕ) × ((fire 200 after_firing).0 ≡ some k)
    × (lookup k after_firing.jobs ≡ some j)
    × (runs good j ≡ true)
    × (Scheduler.next_run_time k after_firing.sched ≡ some u)
    × (u ≤ 159)
Reached-job_fires_example =
    Reached-job_fires good folder nowhere after_firing 200 (codes "a") 159 after_firing-Reached
      due_again (omega arith)
