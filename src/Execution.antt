-- ===== src/Execution.antt =====
-- `executeJob` of cmd/cronbat/main.go: a job is run, and its run is recorded and announced.
pub mod Outcome
pub mod Laws
mod Tests
use cronbat.Prelude.{
  ℕ, ℤ, pos, is_zero, not, ◌||◌, Bool, true, false, Option, none, some, List, [], if◌then◌else◌,
}
use cronbat.Text.{Text, codes, is_empty}
use cronbat.Dict.{lookup}
use cronbat.Errors.{Error, Result, ok, err}
use cronbat.Config.Job.{Job, is_enabled}
use cronbat.Config.Files.{parse_timeout}
use cronbat.World.{World, Duration, Disk}
use cronbat.Store.{Run, Table, Engine, filled, record_run}
use cronbat.Broker.{Event, Broker, publish}
use cronbat.Runner.Command.{Process, JobContext, RunResult, run}
use cronbat.RunLog.Capped.{CappedFileWriter}
use cronbat.RunLog.Writers.{RunWriters, open_run_writers, close}
use cronbat.Daemon.State.{Daemon}

-- What a run changes: the history, the events' channels and the log files.
pub record History : Type 0 where
  pub table : Table
  pub broker : Broker
  pub disk : Disk

-- The readings of the clock, in the order in which they are made
pub record Clock : Type 0 where
  pub started : ℕ
  pub recorded : ℕ
  pub announced : ℕ
  pub finished : ℕ
  pub recorded_again : ℕ
  pub announced_again : ℕ

abbrev pub run_event : Text → Text → Text → Text → Text → Event
run_event kind job_name run_id status trigger = record {
  id = 0;
  kind = kind;
  job_name = job_name;
  run_id = run_id;
  action = [];
  status = status;
  trigger = trigger;
  at = 0;
}

abbrev pub new_run : Text → Text → ℕ → Text → Run
new_run run_id job_name started trigger = record {
  id = run_id;
  job_name = job_name;
  status = codes "running";
  exit_code = pos 0;
  started_at = started;
  finished_at = none;
  duration_ms = pos 0;
  stdout_tail = [];
  stderr_tail = [];
  error_msg = [];
  trigger = trigger;
  llm_analysis = [];
  llm_tokens_used = pos 0;
  created_at = 0;
}

abbrev pub status_of : RunResult → Text
status_of result =
    if not (is_zero result.exit_code) || not (is_empty result.error)
    then codes "failure"
    else codes "success"

abbrev pub completed : RunResult → ℕ → Run → Run
completed result finished r = record r {
  status = status_of result;
  exit_code = result.exit_code;
  finished_at = some finished;
  duration_ms = result.duration_ms;
  stdout_tail = result.stdout;
  stderr_tail = result.stderr;
  error_msg = result.error;
}

-- The writers if they are opened; otherwise the run goes on without log files.
abbrev pub opened : Bool → Result RunWriters × Disk → Disk → Option RunWriters × Disk
opened false r d = (none, d)
opened true (ok writers, d') d = (some writers, d')
opened true (err e, d') d = (none, d')

abbrev pub stdout_writer : Option RunWriters → Option CappedFileWriter
stdout_writer none = none
stdout_writer (some r) = some r.stdout

abbrev pub stderr_writer : Option RunWriters → Option CappedFileWriter
stderr_writer none = none
stderr_writer (some r) = some r.stderr

-- `fileWriters.Close()`, with the writers as the command leaves them
abbrev pub closed :
    Option RunWriters → Option CappedFileWriter × Option CappedFileWriter → Disk → Disk
closed (some r) (some out, some err_out) d = close (record r { stdout = out; stderr = err_out }) d
closed _ _ d = d

-- `keep_logs` is `cfg.RunLogs.IsEnabled()`, and `run_id` what `NewRunID` gives.
module _ (w : World) (base_dir : Text) (max_bytes : ℕ) (g : Engine)
    (fault : List ℕ → List ℕ → Option ℕ) (environ : List Text) (process : Process)
    (keep_logs : Bool) (clock : Clock) (run_id : Text) where
  unfoldable pub executed : Job → Text → Text → Duration → History → History
  executed j job_name trigger timeout h =
      let started = new_run run_id job_name clock.started trigger in
      let table = (record_run g run_id clock.recorded started h.table).1 in
      let broker =
        publish clock.announced
          (run_event (codes "run.started") job_name run_id (codes "running") trigger) h.broker in
      let (writers, disk) =
        opened keep_logs (open_run_writers w base_dir max_bytes job_name run_id h.disk) h.disk in
      let context : JobContext = record {
        job_name = j.name;
        schedule = j.schedule;
        trigger = trigger;
        env = j.env;
        metadata = j.metadata;
      } in
      let (result, out, err_out) =
        run fault environ process j.command context timeout j.working_dir (stdout_writer writers)
          (stderr_writer writers) in
      let ended = completed result clock.finished (filled run_id clock.recorded started) in
      record {
        table = (record_run g run_id clock.recorded_again ended table).1;
        broker =
            publish clock.announced_again
              (run_event (codes "run.completed") job_name run_id (status_of result) trigger) broker;
        disk = closed writers (out, err_out) disk;
      }

  timed : Job → Text → Text → History → Result Duration → History
  unfolding executed
  timed j job_name trigger h (err e) = h
  timed j job_name trigger h (ok timeout) = executed j job_name trigger timeout h

  found : Text → Text → History → Option Job → History
  unfolding timed
  found job_name trigger h none = h
  found job_name trigger h (some j) =
      if not (is_enabled j) then h else timed j job_name trigger h (parse_timeout w j)

  unfoldable pub execute_job : Daemon → Text → Text → History → History
  unfolding found
  execute_job d job_name trigger h = found job_name trigger h (lookup job_name d.jobs)
