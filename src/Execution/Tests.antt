-- ===== src/Execution/Tests.antt =====
-- A run of a concrete job.
use cronbat.Prelude.{ℕ, pos, refl, true, none, [], ◌∷◌, arith}
use cronbat.Text.{Text, codes, text_eq}
use cronbat.Dict.{lookup}
use cronbat.Errors.{Result, ok, err, new_error}
use cronbat.Config.Job.{is_enabled}
use cronbat.Config.Files.{parse_timeout}
use cronbat.World.{Duration}
use cronbat.Store.{Engine, get_run, row_with}
use cronbat.Broker.{new_broker}
use cronbat.Daemon.State.{Daemon}
use cronbat.Daemon.Samples.{good, nightly, empty}
use cronbat.Runner.Command.{Process}
use cronbat.Execution.{History, Clock, execute_job}
use cronbat.Execution.Laws.{ending, IsRecorded, execute_job-IsRecorded}

abbrev read_time : Text → Result ℕ
read_time (t ∷ []) = ok t
read_time _ = err (new_error [])

abbrev engine : Engine
engine = record {
  format_time = λ t. t ∷ [];
  parse_time = read_time;
  newest_first = λ rows. rows;
  latest = λ texts. none;
  average = λ ns. none;
  exec_fault = none;
  query_fault = none;
}

-- Every command writes two lines and exits with 0.
abbrev talks : Process
talks command env work_dir limit = record {
  stdout = codes "one " ∷ codes "two" ∷ [];
  stderr = [];
  failure = none;
  duration_ms = pos 3;
}

abbrev clock : Clock
clock = record {
  started = 1;
  recorded = 2;
  announced = 3;
  finished = 4;
  recorded_again = 5;
  announced_again = 6;
}

abbrev daemon : Daemon
daemon = record empty { jobs = (codes "a", nightly) ∷ [] }

abbrev history : History
history = record { table = []; broker = new_broker; disk = [] }

execute_job-IsRecorded_example :
    IsRecorded good
      (codes "logs")
      10
      engine
      (λ held p. none)
      []
      talks
      true
      clock
      (codes "r")
      daemon
      (codes "a")
      (codes "manual")
      history
      (ending good
        (codes "logs")
        10
        engine
        (λ held p. none)
        []
        talks
        true
        clock
        (codes "r")
        daemon
        (codes "a")
        (codes "manual")
        history
        nightly
        (Duration.plus 0))
      (execute_job good
        (codes "logs")
        10
        engine
        (λ held p. none)
        []
        talks
        true
        clock
        (codes "r")
        daemon
        (codes "a")
        (codes "manual")
        history)
unfolding lookup text_eq is_enabled parse_timeout get_run row_with
execute_job-IsRecorded_example =
    execute_job-IsRecorded good (codes "logs") 10 engine (λ held p. none) [] talks true clock
      (codes "r") daemon (codes "a") (codes "manual") history nightly (Duration.plus 0) refl refl
      refl (λ t. refl) refl refl refl refl (omega arith, (omega arith, tt)) tt
