-- ===== src/Config/Tests.antt =====
-- The defaults of a configuration that sets nothing but the state of the run logs.
use cronbat.Prelude.{◌++◌, false, none, some, []}
use cronbat.Text.{codes}
use cronbat.Errors.{ok, err, new_error}
use cronbat.Config.Job.{zero_job}
use cronbat.World.{World, Duration}
use cronbat.Config.Defaults.{Config}

abbrev world : World
world = record {
  parse_schedule = λ text. err (new_error []);
  parse_duration = λ text. ok (Duration.plus 1);
  marshal = λ j. ok j.command;
  unmarshal = λ text. ok zero_job;
  join_path = λ a b. a ++ (codes "/" ++ b);
  dir = λ path. path;
  mkdir_fault = λ path. none;
  write_fault = λ path content. none;
  read_fault = λ path. none;
  remove_fault = λ path. none;
  rename_fault = λ src dst. none;
}

abbrev logs_off : Config
logs_off = record {
  listen = [];
  data_dir = [];
  jobs_dir = [];
  log_level = [];
  plugins = [];
  run_logs = record {
    enabled = some false;
    dir = [];
    max_bytes_per_stream = 0;
    retention_days = 0;
    max_total_mb = 0;
    cleanup_interval = [];
  };
}
