-- ===== src/Execution/Laws.antt =====
-- What is known of a run after `executeJob`.
use cronbat.Prelude.{
  ℕ, ◌+◌, ◌≡◌, refl, sym, ap, ◌∙◌, subst, Bool, true, false, Option, none, some, List, [], arith,
  if◌then◌else◌, flatten,
}
use cronbat.Text.{Text, codes, is_empty, text_eq}
use cronbat.Text.Laws.{text_eq_refl}
use cronbat.Dict.{lookup}
use cronbat.Errors.{ok}
use cronbat.Config.Job.{Job, is_enabled}
use cronbat.Config.Files.{parse_timeout}
use cronbat.World.{World, Duration}
use cronbat.Store.{Run, Engine, filled, record_run, get_run}
use cronbat.Store.Saved.{ReadsBack, kept}
use cronbat.Broker.{publish}
use cronbat.Daemon.State.{Daemon}
use cronbat.Runner.Env.{build_env}
use cronbat.Runner.RingBuffer.Refine.{NonEmpty}
use cronbat.Runner.RingBuffer.Shows.{recent}
use cronbat.RunLog.Capped.{CappedFileWriter}
use cronbat.RunLog.Writers.{RunWriters, open_run_writers}
use cronbat.Runner.Command.{Process, Ended, JobContext, deadline, run}
use cronbat.Execution.{
  History, Clock, new_run, completed, opened, stdout_writer, stderr_writer, executed, timed,
  execute_job,
}
use cronbat.Store.Twice.{get_run-record_twice}
use cronbat.Execution.Outcome.{ended_well, status-run, stdout-run, stderr-run}

module _ (w : World) (base_dir : Text) (max_bytes : ℕ) (g : Engine)
    (fault : List ℕ → List ℕ → Option ℕ) (environ : List Text) (process : Process)
    (keep_logs : Bool) (clock : Clock) (run_id : Text) (d : Daemon) (job_name trigger : Text)
    (h : History) where
  -- The history after the call
  abbrev after : History
  after =
      execute_job w base_dir max_bytes g fault environ process keep_logs clock run_id d job_name
        trigger h

  -- What the job's command does
  abbrev pub ending : Job → Duration → Ended
  ending j timeout =
      process j.command (build_env environ [] j.env j.name trigger) j.working_dir (deadline timeout)

  pub record IsRecord (e : Ended) (r : Run) : Type 0 where
    pub of_job : r.job_name ≡ job_name
    pub by_trigger : r.trigger ≡ trigger
    pub started : r.started_at ≡ clock.started
    pub finished : r.finished_at ≡ some clock.finished
    pub status : r.status ≡ (if ended_well e.failure then codes "success" else codes "failure")
    pub stdout : r.stdout_tail ≡ recent 65536 (flatten e.stdout)
    pub stderr : r.stderr_tail ≡ recent 65536 (flatten e.stderr)

  pub record IsRecorded (e : Ended) (h' : History) : Type 0 where
    pub one_run : Run
    pub read_back : get_run g run_id h'.table ≡ ok (some one_run)
    pub is_record : IsRecord e one_run
    pub others : (n : Text) → text_eq run_id n ≡ false → get_run g n h'.table ≡ get_run g n h.table
    pub announced : h'.broker.next_id ≡ h.broker.next_id + 2

  -- Both records of the run carry its id.
  module _ (named : is_empty run_id ≡ false) where
    id-filled : (now : ℕ) (r : Run) → r.id ≡ run_id → (filled run_id now r).id ≡ run_id
    id-filled now r e = ground arith

    executed-IsRecorded :
        (j : Job) (timeout : Duration)
        → ReadsBack g
        → g.exec_fault ≡ none
        → g.query_fault ≡ none
        → get_run g run_id h.table ≡ ok none
        → NonEmpty (ending j timeout).stdout
        → NonEmpty (ending j timeout).stderr
        → IsRecorded (ending j timeout) (
            executed w base_dir max_bytes g fault environ process keep_logs clock run_id j job_name
              trigger timeout h)
    unfolding executed publish
    executed-IsRecorded j timeout reads fine works fresh out_bytes err_bytes = record {
      one_run = kept first (filled run_id clock.recorded_again last);
      read_back =
          twice run_id
          ∙ ap
              (λ b.
                if b
                then ok (some (kept first (filled run_id clock.recorded_again last)))
                else get_run g run_id h.table)
              (text_eq_refl run_id);
      is_record = record {
        of_job = refl;
        by_trigger = refl;
        started = refl;
        finished = refl;
        status =
            status-run fault environ process j.command context timeout j.working_dir out err_out;
        stdout =
            stdout-run fault environ process j.command context timeout j.working_dir out err_out
              out_bytes;
        stderr =
            stderr-run fault environ process j.command context timeout j.working_dir out err_out
              err_bytes;
      };
      others = λ n other.
          twice n
          ∙ ap
              (λ b.
                if b
                then ok (some (kept first (filled run_id clock.recorded_again last)))
                else get_run g n h.table)
              other;
      announced = omega arith;
    }
      where
        writers : Option RunWriters
        writers =
            (opened keep_logs (open_run_writers w base_dir max_bytes job_name run_id h.disk)
              h.disk).0

        out : Option CappedFileWriter
        out = stdout_writer writers

        err_out : Option CappedFileWriter
        err_out = stderr_writer writers

        context : JobContext
        context = record {
          job_name = j.name;
          schedule = j.schedule;
          trigger = trigger;
          env = j.env;
          metadata = j.metadata;
        }

        first : Run
        first = filled run_id clock.recorded (new_run run_id job_name clock.started trigger)

        last : Run
        last =
            completed
              (run fault environ process j.command context timeout j.working_dir out err_out).0
              clock.finished first

        twice :
            (n : Text)
            → get_run g n
                (record_run g run_id clock.recorded_again last
                  (record_run g run_id clock.recorded
                    (new_run run_id job_name clock.started trigger)
                    h.table).1).1
              ≡ (if text_eq run_id n
                  then ok (some (kept first (filled run_id clock.recorded_again last)))
                  else get_run g n h.table)
        twice =
            get_run-record_twice g reads fine works run_id clock.recorded clock.recorded_again
              (new_run run_id job_name clock.started trigger) last h.table
              (id-filled clock.recorded (new_run run_id job_name clock.started trigger) refl)
              (id-filled clock.recorded_again last
                (id-filled clock.recorded (new_run run_id job_name clock.started trigger) refl))
              fresh

  module _ (j : Job) (timeout : Duration) (on_record : lookup job_name d.jobs ≡ some j)
      (enabled : is_enabled j ≡ true) (in_time : parse_timeout w j ≡ ok timeout) where
    after-executed :
        after
        ≡ executed w base_dir max_bytes g fault environ process keep_logs clock run_id j job_name
            trigger timeout h
    unfolding execute_job timed
    after-executed = rw (on_record, enabled, in_time) refl

    -- When `executeJob` is called for an enabled job whose timeout parses, with an id that is new,
    -- and no statement of the store fails, `GetRun` then gives a run with the job, the trigger, the
    -- times, the last 64 KiB of either stream (its writes are not empty) and a status that is
    -- "success" just when the command exits with 0 and without an error. All other runs are as they
    -- were, and two events are announced.
    pub execute_job-IsRecorded :
        ReadsBack g
        → g.exec_fault ≡ none
        → g.query_fault ≡ none
        → is_empty run_id ≡ false
        → get_run g run_id h.table ≡ ok none
        → NonEmpty (ending j timeout).stdout
        → NonEmpty (ending j timeout).stderr
        → IsRecorded (ending j timeout) after
    execute_job-IsRecorded reads fine works named fresh out_bytes err_bytes =
        subst (IsRecorded (ending j timeout)) (sym after-executed)
          (executed-IsRecorded named j timeout reads fine works fresh out_bytes err_bytes)
