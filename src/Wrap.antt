-- ===== src/Wrap.antt =====
-- cmd/cronbat/wrap.go: a command that cron runs is run, and its run is recorded, in the store or over
-- the web API.
pub mod Laws
mod Tests
use cronbat.Prelude.{
  ℕ, ◌-◌, ◌==◌, ℤ, pos, negsuc, is_zero, not, ◌||◌, Bool, true, false, Option, none, some, List, [],
  ◌∷◌, ◌++◌, if◌then◌else◌, ltb, length, drop, flatten,
}
use cronbat.Text.{Text, codes, is_empty, text_eq, join, trim_right}
use cronbat.Errors.{Error, Result, ok, err}
use cronbat.World.{World, Duration, Disk, mkdir_all}
use cronbat.Store.{Run, Table, Engine, filled, record_run}
use cronbat.Runner.Command.{Process, Ended, Failure, JobContext, RunResult, deadline, run}
use cronbat.RunLog.Writers.{RunWriters, open_run_writers}
use cronbat.Execution.{new_run, completed, opened, stdout_writer, stderr_writer, closed}

-- The arguments before "--", and those after it if it is there
unfoldable pub split_args : List Text → List Text × Option (List Text)
split_args [] = ([], none)
split_args (a ∷ args) =
    let rest = split_args args in
    if text_eq a (codes "--") then ([], some args) else (a ∷ rest.0, rest.1)

-- What `runWrap` goes on with: the command, or the complaint that it prints. `name` is what the
-- flags before "--" give.
unfoldable pub wrap_command : Text → List Text → Result Text
unfolding split_args join
wrap_command name args =
    if is_empty name
    then err (record { message = codes "error: --name is required"; is_not_exist = false })
    else (elim (split_args args).1 [
      | some (a ∷ rest) ↦ ok (join b' ' (a ∷ rest))
      | _ ↦
          err (record {
            message = codes "error: no command specified after --";
            is_not_exist = false;
          })
    ])

-- What `wrapDirect` leaves: its exit code, what it prints, the table and the files
pub record Wrapped : Type 0 where
  pub exit_code : ℤ
  pub out : Text
  pub err_out : Text
  pub table : Table
  pub disk : Disk

module _ (w : World) (base_dir : Text) (max_bytes : ℕ) (g : Engine)
    (fault : List ℕ → List ℕ → Option ℕ) (environ : List Text) (process : Process)
    (keep_logs : Bool) (started recorded finished recorded_again : ℕ) (run_id : Text) where
  -- The log files are opened only if their folder can be made.
  open_logs : Text → Disk → Option RunWriters × Disk
  open_logs job_name d = elim (mkdir_all w base_dir) [
    | err e ↦ (none, d)
    | ok _ ↦ opened keep_logs (open_run_writers w base_dir max_bytes job_name run_id d) d
  ]

  unfoldable pub wrap_recorded : Text → Text → Duration → Table → Disk → Wrapped
  unfolding open_logs
  wrap_recorded job_name command timeout t d =
      let begun = new_run run_id job_name started (codes "cron") in
      let t' = (record_run g run_id recorded begun t).1 in
      let (writers, d') = open_logs job_name d in
      let context : JobContext = record {
        job_name = job_name;
        schedule = [];
        trigger = codes "cron";
        env = [];
        metadata = [];
      } in
      let (result, out, err_out) =
        run fault environ process command context timeout [] (stdout_writer writers)
          (stderr_writer writers) in
      record {
        exit_code = result.exit_code;
        out = result.stdout;
        err_out = result.stderr;
        table =
            (record_run g run_id recorded_again
              (completed result finished (filled run_id recorded begun)) t').1;
        disk = closed writers (out, err_out) d';
      }

  -- `setup` tells whether the configuration, the data folder and the store were there.
  unfoldable pub wrap_direct : Result (Unit {0}) → Text → Text → Duration → Table → Disk → Wrapped
  unfolding wrap_recorded
  wrap_direct (err e) job_name command timeout t d = record {
    exit_code = pos 1;
    out = [];
    err_out = [];
    table = t;
    disk = d;
  }
  wrap_direct (ok _) job_name command timeout t d = wrap_recorded job_name command timeout t d

-- ------------------------------------------------------------------ over the API

pub record RunPayload : Type 0 where
  pub job_name : Text
  pub status : Text
  pub exit_code : ℤ
  pub duration_ms : ℤ
  pub stdout_tail : Text
  pub stderr_tail : Text
  pub error_msg : Text
  pub trigger : Text

abbrev pub max_tail : ℕ
max_tail = 65536

abbrev pub tail_of : Text → Text
tail_of s = if ltb max_tail (length s) then drop (length s - max_tail) s else s

abbrev pub error_of : Option Failure → Text
error_of none = []
error_of (some f) = if f.deadline_exceeded then codes "timeout" else f.message

abbrev pub exit_code_of : Option Failure → ℤ
exit_code_of none = pos 0
exit_code_of (some f) = elim f.exit_code [ some code ↦ code | none ↦ negsuc 0 ]

unfoldable pub payload_of : Text → Ended → RunPayload
payload_of job_name e = record {
  job_name = job_name;
  status =
      if not (is_zero (exit_code_of e.failure)) || not (is_empty (error_of e.failure))
      then codes "failure"
      else codes "success";
  exit_code = exit_code_of e.failure;
  duration_ms = e.duration_ms;
  stdout_tail = tail_of (flatten e.stdout);
  stderr_tail = tail_of (flatten e.stderr);
  error_msg = error_of e.failure;
  trigger = codes "cron";
}

abbrev is_slash : ℕ → Bool
is_slash c = c == b'/'

-- The exit code, the text that http.Post takes for a URL, and what is posted there. The command has the environment of the process.
unfoldable pub wrap_via_api :
    List Text → Process → Text → Text → Text → Duration → ℤ × Text × RunPayload
unfolding payload_of trim_right
wrap_via_api environ process api_url job_name command timeout =
    let ended = process command environ [] (deadline timeout) in
    (
      exit_code_of ended.failure,
      trim_right is_slash api_url ++ (codes "/api/v1/jobs/" ++ (job_name ++ codes "/run")),
      payload_of job_name ended,
    )
