-- ===== src/Daemon/Samples.antt =====
-- Concrete worlds, jobs and daemons for the tests.
use cronbat.Prelude.{◌+◌, refl, none, some, [], ◌++◌, arith}
use cronbat.Text.{Text, codes}
use cronbat.Dict.{lookup}
use cronbat.Errors.{ok, new_error}
use cronbat.Config.Job.{Job, zero_job}
use cronbat.World.{World, Duration}
use cronbat.Scheduler
use cronbat.Scheduler.Heap
use cronbat.Scheduler.{new_scheduler}
use cronbat.Daemon.State.{Daemon}
use cronbat.Daemon.Invariant.{nowhere, IsConsistent}

abbrev pub good : World
good = record {
  parse_schedule = λ text. ok (λ now. now + 60);
  parse_duration = λ text. ok (Duration.plus 1);
  marshal = λ j. ok j.command;
  unmarshal =
      λ text. ok (record zero_job { name = codes "b"; schedule = codes "s"; command = text });
  join_path = λ a b. a ++ (codes "/" ++ b);
  dir = λ path. path;
  mkdir_fault = λ path. none;
  write_fault = λ path content. none;
  read_fault = λ path. none;
  remove_fault = λ path. none;
  rename_fault = λ src dst. none;
}

-- A world where no file can be renamed or removed.
abbrev pub denied : World
denied = record good {
  remove_fault = λ path. some (new_error (codes "denied"));
  rename_fault = λ src dst. some (new_error (codes "denied"));
}

abbrev pub folder : Text
folder = codes "jobs"

abbrev pub nightly : Job
nightly = record zero_job { name = codes "a"; schedule = codes " 0 2 * * *"; command = codes "run" }

abbrev pub empty : Daemon
empty = record { jobs = []; states = []; sched = new_scheduler; disk = [] }

pub empty-IsConsistent : (w : World) → IsConsistent nowhere w empty
unfolding lookup Scheduler.next_run_time Scheduler.find_next Heap.Counts.count
empty-IsConsistent w = record { unique = λ n. omega arith; fits = λ n. (refl, refl) }
