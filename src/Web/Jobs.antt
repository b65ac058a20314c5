-- ===== src/Web/Jobs.antt =====
-- internal/web/api/jobs.go: the handlers of the jobs. The operations that `API` holds are those of
-- cmd/cronbat/main.go, which sets them all; the tests for operations that are nil are left out.
pub mod Answers
pub mod Reads
use cronbat.Prelude.{
  ℕ, ◌*◌, Bool, true, false, not, ◌&&◌, Option, none, some, List, [], ◌∷◌, take, if◌then◌else◌,
}
use cronbat.Text.{Text, codes, is_empty, text_eq, trim_space, to_lower, contains, take_bytes}
use cronbat.Dict.{Dict}
use cronbat.Errors.{Error, Result, ok, err, ◌>>=◌}
use cronbat.Config.Job.{Job, is_enabled}
use cronbat.World.{World}
use cronbat.Scheduler
use cronbat.Store.{Run, JobStats, Engine, list_runs, get_job_stats}
use cronbat.Daemon.State.{Daemon, JobState, get_job_state}
use cronbat.Daemon.Create.{create_job}
use cronbat.Daemon.Enable.{enable_job, disable_job, start_job, stop_job, pause_job}
use cronbat.Daemon.Remove.{archive_job, delete_job}
use cronbat.Daemon.Settings.{update_job_settings}
use cronbat.Daemon.Yaml.{get_job_yaml, update_job_yaml}
use cronbat.Web.Status.{status_from_error}
use cronbat.Web.Api.{JobSummary, JobDetail, Body, Reply, Server, emit_event, not_allowed, changed}

-- What the handlers read of a request. The body is its bytes.
pub record Request : Type 0 where
  pub method : Text
  pub path : Text
  pub content_type : Text
  pub body : Result Text

-- http.MethodGet and the others
abbrev pub is_method : Text → Request → Bool
is_method method r = text_eq r.method method

-- `getJobs`
unfoldable pub get_jobs : Dict Job → List Job
get_jobs [] = []
get_jobs ((k, j) ∷ m) = j ∷ get_jobs m

unfoldable pub first_named : Text → List Job → Option Job
first_named name [] = none
first_named name (j ∷ js) = if text_eq j.name name then some j else first_named name js

abbrev state_text : JobState → Text
state_text JobState.started = codes "started"
state_text JobState.stopped = codes "stopped"
state_text JobState.paused = codes "paused"

unfoldable pub shown_state : Job → Option JobState → Text
shown_state j (some s) = state_text s
shown_state j none = if is_enabled j then codes "started" else codes "stopped"

-- The latest run, if the store gives one
abbrev pub latest_run : Result (List Run) → Option Run
latest_run (err e) = none
latest_run (ok []) = none
latest_run (ok (run ∷ runs)) = some run

abbrev pub with_latest : Option Run → JobSummary → JobSummary
with_latest none j = j
with_latest (some run) j = record j { last_run = some run.started_at; last_run_status = run.status }

abbrev pub stats_or_none : Result JobStats → Option JobStats
stats_or_none (err e) = none
stats_or_none (ok stats) = some stats

-- io.LimitReader counts bytes. A character that the limit cuts is left out here, where Go keeps its
-- first bytes.
abbrev pub limited_body : Request → Result Text
limited_body r = do body ← r.body; ok (take_bytes (2 * 1024 * 1024) body)

-- `w`, `jobs_dir` and `now` are as for the operations, `g` is the store's; `decode_job` and
-- `decode_payload` are encoding/json's decoders of a job and of a `yamlPayload`.
module _ (w : World) (jobs_dir : Text) (g : Engine) (decode_job : Text → Result Job)
    (decode_payload : Text → Result Text) (now : ℕ) where
  unfoldable pub job_summary : Server → Job → JobSummary
  unfolding shown_state
  job_summary s j =
      with_latest
        (latest_run (list_runs g (record { job_name = j.name; limit = 1; offset = 0 }) s.table))
        (record {
          name = j.name;
          schedule = j.schedule;
          command = j.command;
          working_dir = j.working_dir;
          executor = j.executor;
          enabled = is_enabled j;
          state = shown_state j (get_job_state j.name s.daemon);
          metadata = j.metadata;
          next_run = Scheduler.next_run_time j.name s.daemon.sched;
          last_run = none;
          last_run_status = [];
        })

  unfoldable pub job_summaries : Server → List Job → List JobSummary
  unfolding job_summary
  job_summaries s [] = []
  job_summaries s (j ∷ js) = job_summary s j ∷ job_summaries s js

  job_created : Job → Server → Result (Unit {0}) × Daemon → Reply × Server
  job_created j s r =
      changed now (trim_space j.name) (codes "create")
        (201, Body.done_name (codes "created") (trim_space j.name)) s r

  create_decoded : Server → Result Job → Reply × Server
  unfolding job_created
  create_decoded s (err e) = ((400, Body.error (codes "invalid JSON body")), s)
  create_decoded s (ok j) = job_created j s (create_job w jobs_dir now j s.daemon)

  unfoldable pub handle_create_job : Request → Server → Reply × Server
  unfolding create_decoded
  handle_create_job r s = create_decoded s (limited_body r >>= decode_job)

  unfoldable pub handle_list_jobs : Request → Server → Reply × Server
  unfolding handle_create_job job_summaries get_jobs
  handle_list_jobs r s =
      if is_method (codes "GET") r
      then ((200, Body.job_list (job_summaries s (get_jobs s.daemon.jobs))), s)
      else if is_method (codes "POST") r
      then handle_create_job r s
      else not_allowed s

  job_found : Text → Server → Option Job → Reply × Server
  unfolding job_summary
  job_found name s none = ((404, Body.error (codes "job not found")), s)
  job_found name s (some j) = (
    (
      200,
      Body.job (record {
        summary = job_summary s j;
        timeout = j.timeout;
        env = j.env;
        on_success = j.on_success;
        on_failure = j.on_failure;
        stats = stats_or_none (get_job_stats g name s.table);
      }),
    ),
    s,
  )

  unfoldable pub handle_get_job : Text → Server → Reply × Server
  unfolding job_found first_named get_jobs
  handle_get_job name s = job_found name s (first_named name (get_jobs s.daemon.jobs))

  run_triggered : Text → Server → Option Job → Reply × Server
  run_triggered name s none = ((404, Body.error (codes "job not found")), s)
  run_triggered name s (some j) = (
    (202, Body.done (codes "triggered")),
    emit_event now name (codes "run") (record s { triggered = name ∷ s.triggered }),
  )

  -- `executeJob` is started and not waited for (Execution): it is noted that it was called. Whether
  -- the job is enabled is looked at there.
  unfoldable pub handle_trigger_run : Text → Server → Reply × Server
  unfolding run_triggered first_named get_jobs
  handle_trigger_run name s = run_triggered name s (first_named name (get_jobs s.daemon.jobs))

  unfoldable pub handle_enable_job : Text → Server → Reply × Server
  handle_enable_job name s =
      changed now name (codes "enable") (200, Body.done (codes "enabled")) s
        (enable_job w jobs_dir now name s.daemon)

  unfoldable pub handle_disable_job : Text → Server → Reply × Server
  handle_disable_job name s =
      changed now name (codes "disable") (200, Body.done (codes "disabled")) s
        (disable_job w jobs_dir now name s.daemon)

  unfoldable pub handle_start_job : Text → Server → Reply × Server
  handle_start_job name s =
      changed now name (codes "start") (200, Body.done (codes "started")) s
        (start_job w jobs_dir now name s.daemon)

  unfoldable pub handle_stop_job : Text → Server → Reply × Server
  handle_stop_job name s =
      changed now name (codes "stop") (200, Body.done (codes "stopped")) s
        (stop_job w jobs_dir now name s.daemon)

  unfoldable pub handle_pause_job : Text → Server → Reply × Server
  handle_pause_job name s =
      changed now name (codes "pause") (200, Body.done (codes "paused")) s
        (pause_job w jobs_dir now name s.daemon)

  unfoldable pub handle_delete_job : Text → Server → Reply × Server
  handle_delete_job name s =
      changed now name (codes "delete") (200, Body.done (codes "deleted")) s
        (delete_job w jobs_dir now name s.daemon)

  -- `stamp` is the time in the name of the archived file.
  unfoldable pub handle_archive_job : Text → Text → Server → Reply × Server
  handle_archive_job stamp name s =
      changed now name (codes "archive") (200, Body.done (codes "archived")) s
        (archive_job w jobs_dir now name stamp s.daemon)

  yaml_read : Text → Server → Result Text → Reply × Server
  yaml_read name s (err e) = ((status_from_error e, Body.error e.message), s)
  yaml_read name s (ok data_text) = ((200, Body.job_yaml name data_text), s)

  unfoldable pub handle_get_job_yaml : Text → Server → Reply × Server
  unfolding yaml_read
  handle_get_job_yaml name s = yaml_read name s (get_job_yaml w jobs_dir name s.daemon)

  yaml_updated : Text → Server → Result Text × Daemon → Reply × Server
  yaml_updated name s (err e, d) =
      ((status_from_error e, Body.error e.message), record s { daemon = d })
  yaml_updated name s (ok updated_name, d) =
      let shown = if is_empty updated_name then name else updated_name in
      (
        (200, Body.done_name (codes "updated") shown),
        emit_event now shown (codes "update_yaml") (record s { daemon = d }),
      )

  yaml_payload : Text → Server → Result Text → Reply × Server
  unfolding yaml_updated
  yaml_payload name s (err e) = ((400, Body.error (codes "invalid JSON body")), s)
  yaml_payload name s (ok payload) =
      if is_empty (trim_space payload)
      then ((400, Body.error (codes "yaml payload is empty")), s)
      else yaml_updated name s (update_job_yaml w jobs_dir now name payload s.daemon)

  yaml_body : Text → Request → Server → Result Text → Reply × Server
  unfolding yaml_payload
  yaml_body name r s (err e) = ((400, Body.error (codes "failed to read request body")), s)
  yaml_body name r s (ok body) = yaml_payload name s (
      if contains (to_lower r.content_type) (codes "application/json")
      then decode_payload body
      else ok body)

  unfoldable pub handle_update_job_yaml : Text → Request → Server → Reply × Server
  unfolding yaml_body
  handle_update_job_yaml name r s = yaml_body name r s (limited_body r)

  settings_decoded : Text → Server → Result Job → Reply × Server
  settings_decoded name s (err e) = ((400, Body.error (codes "invalid JSON body")), s)
  settings_decoded name s (ok updated) =
      if not (is_empty updated.name) && not (text_eq updated.name name)
      then ((400, Body.error (codes "changing job name is not supported in settings editor")), s)
      else changed now name (codes "update_settings") (200, Body.done (codes "updated")) s
          (update_job_settings w jobs_dir now name
            (record updated { name = if is_empty updated.name then name else updated.name })
            s.daemon)

  unfoldable pub handle_update_job_settings : Text → Request → Server → Reply × Server
  unfolding settings_decoded
  handle_update_job_settings name r s = settings_decoded name s (limited_body r >>= decode_job)
