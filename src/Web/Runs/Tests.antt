-- ===== src/Web/Runs/Tests.antt =====
-- A listing of runs at a concrete table.
use cronbat.Prelude.{pos, ◌≤◌, ◌≡◌, refl, none, some, [], ◌∷◌, length}
use cronbat.Text.{codes, text_eq}
use cronbat.Errors.{ok}
use cronbat.Store.{Row, Engine, list_runs, selected, scan_all, scan_run}
use cronbat.Daemon.Samples.{good}
use cronbat.Web.Runs.{RunResponse, RunsBody, RunsRequest, handle_list_runs, list_opts, responses}
use cronbat.Web.Runs.Laws.{handle_list_runs-le}

abbrev row : Row
row = record {
  id = codes "1";
  job_name = codes "a";
  status = codes "success";
  exit_code = some (pos 0);
  started_at = codes "s";
  finished_at = none;
  duration_ms = none;
  stdout_tail = none;
  stderr_tail = none;
  error_msg = none;
  trigger_type = codes "manual";
  llm_analysis = none;
  llm_tokens_used = none;
  created_at = codes "c";
}

-- Every time is read as 7.
abbrev engine : Engine
engine = record {
  format_time = λ t. [];
  parse_time = λ s. ok 7;
  newest_first = λ rows. rows;
  latest = λ texts. none;
  average = λ ns. none;
  exec_fault = none;
  query_fault = none;
}

abbrev one_of_two : RunsRequest
one_of_two = record { method = codes "GET"; path = []; job = []; limit = codes "1"; offset = [] }

abbrev shown : RunResponse
shown = record {
  id = codes "1";
  job_name = codes "a";
  status = codes "success";
  exit_code = pos 0;
  started_at = 7;
  finished_at = none;
  duration_ms = pos 0;
  stdout_tail = [];
  stderr_tail = [];
  error_msg = [];
  trigger = codes "manual";
  llm_analysis = [];
  llm_tokens_used = pos 0;
  created_at = 7;
}

listed :
    handle_list_runs good [] engine (λ s. some (pos 1)) one_of_two (row ∷ row ∷ [])
    ≡ (200, RunsBody.run_list (shown ∷ []))
unfolding handle_list_runs list_opts responses list_runs selected scan_all scan_run text_eq
listed = refl

handle_list_runs-le_example : length (shown ∷ []) ≤ 1
handle_list_runs-le_example =
    handle_list_runs-le good [] engine (λ s. some (pos 1)) one_of_two (row ∷ row ∷ []) (shown ∷ [])
      refl listed
