-- ===== src/Web/Runs.antt =====
-- internal/web/api/runs.go, and `routeRuns` of handler.go. These requests only read.
pub mod Laws
mod Tests
use cronbat.Prelude.{
  ℕ, zero, suc, ℤ, pos, negsuc, Bool, true, false, not, Option, none, some, List, [], ◌∷◌,
  if◌then◌else◌,
}
use cronbat.Text.{Text, codes, is_empty, text_eq}
use cronbat.Errors.{Error, Result, ok, err}
use cronbat.World.{World, Disk}
use cronbat.RunLog.Files.{paths, read_run_logs}
use cronbat.Store.{Run, Table, Engine, ListOpts, list_runs, get_run}
use cronbat.Web.Routes.{trim_prefix, split_slash}

pub record RunResponse : Type 0 where
  pub id : Text
  pub job_name : Text
  pub status : Text
  pub exit_code : ℤ
  pub started_at : ℕ
  pub finished_at : Option ℕ
  pub duration_ms : ℤ
  pub stdout_tail : Text
  pub stderr_tail : Text
  pub error_msg : Text
  pub trigger : Text
  pub llm_analysis : Text
  pub llm_tokens_used : ℤ
  pub created_at : ℕ

pub record RunLogsResponse : Type 0 where
  pub run_id : Text
  pub job_name : Text
  pub source : Text
  pub stdout : Text
  pub stderr : Text
  pub stdout_path : Text
  pub stderr_path : Text
  pub stdout_tail : Text
  pub stderr_tail : Text
  pub storage_error : Text

pub data RunsBody : Type 0 where
  error : Text → RunsBody
  run_list : List RunResponse → RunsBody
  one_run : RunResponse → RunsBody
  run_logs : RunLogsResponse → RunsBody

abbrev pub RunsReply : Type 0
RunsReply = ℕ × RunsBody

-- The parameters "job", "limit" and "offset" of the query, "" where they are missing
pub record RunsRequest : Type 0 where
  pub method : Text
  pub path : Text
  pub job : Text
  pub limit : Text
  pub offset : Text

abbrev pub run_to_response : Run → RunResponse
run_to_response r = record {
  id = r.id;
  job_name = r.job_name;
  status = r.status;
  exit_code = r.exit_code;
  started_at = r.started_at;
  finished_at = r.finished_at;
  duration_ms = r.duration_ms;
  stdout_tail = r.stdout_tail;
  stderr_tail = r.stderr_tail;
  error_msg = r.error_msg;
  trigger = r.trigger;
  llm_analysis = r.llm_analysis;
  llm_tokens_used = r.llm_tokens_used;
  created_at = r.created_at;
}

unfoldable pub responses : List Run → List RunResponse
responses [] = []
responses (r ∷ rs) = run_to_response r ∷ responses rs

-- `n > 0` and `n >= 0`, where the number was read
abbrev pub positive_or : ℕ → Option ℤ → ℕ
positive_or default (some (pos (suc n))) = suc n
positive_or default _ = default

abbrev pub nonnegative_or : ℕ → Option ℤ → ℕ
nonnegative_or default (some (pos n)) = n
nonnegative_or default _ = default

abbrev not_allowed : RunsReply
not_allowed = (405, RunsBody.error (codes "method not allowed"))

-- `atoi` is strconv.Atoi, which refuses ""; `base_dir` is the folder of the log files.
module _ (w : World) (base_dir : Text) (g : Engine) (atoi : Text → Option ℤ) where
  unfoldable pub list_opts : RunsRequest → ListOpts
  list_opts r = record {
    job_name = r.job;
    limit = if is_empty r.limit then 50 else positive_or 50 (atoi r.limit);
    offset = if is_empty r.offset then 0 else nonnegative_or 0 (atoi r.offset);
  }

  runs_listed : Result (List Run) → RunsReply
  unfolding responses
  runs_listed (err e) = (500, RunsBody.error (codes "failed to list runs"))
  runs_listed (ok runs) = (200, RunsBody.run_list (responses runs))

  unfoldable pub handle_list_runs : RunsRequest → Table → RunsReply
  unfolding runs_listed list_opts
  handle_list_runs r t =
      if not (text_eq r.method (codes "GET"))
      then not_allowed
      else runs_listed (list_runs g (list_opts r) t)

  run_got : Result (Option Run) → RunsReply
  run_got (err e) = (500, RunsBody.error (codes "failed to get run"))
  run_got (ok none) = (404, RunsBody.error (codes "run not found"))
  run_got (ok (some run)) = (200, RunsBody.one_run (run_to_response run))

  unfoldable pub handle_get_run : Text → Table → RunsReply
  unfolding run_got
  handle_get_run id t = run_got (get_run g id t)

  -- The tails of the run, and the texts of the files if they are read
  abbrev pub tail_logs : Run → RunLogsResponse
  tail_logs run = record {
    run_id = run.id;
    job_name = run.job_name;
    source = codes "tail";
    stdout = run.stdout_tail;
    stderr = run.stderr_tail;
    stdout_path = [];
    stderr_path = [];
    stdout_tail = run.stdout_tail;
    stderr_tail = run.stderr_tail;
    storage_error = [];
  }

  unfoldable pub with_files : Run → Result (Text × Text) → RunLogsResponse
  unfolding paths
  with_files run (ok (out, err')) =
      let (out_path, err_path) = paths w base_dir run.job_name run.id in
      record (tail_logs run) {
        source = codes "file";
        stdout = out;
        stderr = err';
        stdout_path = out_path;
        stderr_path = err_path;
      }
  with_files run (err e) =
      if e.is_not_exist then tail_logs run else record (tail_logs run) { storage_error = e.message }

  logs_got : Disk → Result (Option Run) → RunsReply
  unfolding with_files
  logs_got d (err e) = (500, RunsBody.error (codes "failed to get run"))
  logs_got d (ok none) = (404, RunsBody.error (codes "run not found"))
  logs_got d (ok (some run)) =
      (200, RunsBody.run_logs (with_files run (read_run_logs w base_dir run.job_name run.id d)))

  unfoldable pub handle_get_run_logs : Text → Table → Disk → RunsReply
  unfolding logs_got
  handle_get_run_logs id t d = logs_got d (get_run g id t)

  unfoldable pub route_runs : RunsRequest → Table → Disk → RunsReply
  unfolding handle_list_runs handle_get_run handle_get_run_logs trim_prefix split_slash
  route_runs r t d =
      let (id, action) = split_slash (trim_prefix (codes "/api/v1/runs/") r.path) in
      if is_empty id
      then handle_list_runs r t
      else if not (text_eq r.method (codes "GET"))
      then not_allowed
      else if is_empty action
      then handle_get_run id t
      else if text_eq action (codes "logs")
      then handle_get_run_logs id t d
      else (404, RunsBody.error (codes "not found"))
