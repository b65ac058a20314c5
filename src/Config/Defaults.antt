-- ===== src/Config/Defaults.antt =====
-- The daemon's configuration in internal/config/config.go, and its defaults. A number 0 stands for
-- Go's numbers up to 0, which the code does not tell apart.
pub mod Laws
use cronbat.Prelude.{
  ℕ, Bool, true, ◌||◌, Option, none, some, List, [], ◌∷◌, ◌++◌, ◌==◌, if◌then◌else◌, drop,
}
use cronbat.Text.{Text, codes, is_empty, text_eq, trim_space, has_prefix}
use cronbat.Errors.{Result, ok, err}
use cronbat.World.{World}

-- The values of `config` are only stored: each is the text of its YAML.
pub record PluginConfig : Type 0 where
  pub name : Text
  pub kind : Text
  pub config : List (Text × Text)

pub record RunLogConfig : Type 0 where
  pub enabled : Option Bool
  pub dir : Text
  pub max_bytes_per_stream : ℕ
  pub retention_days : ℕ
  pub max_total_mb : ℕ
  pub cleanup_interval : Text

unfoldable pub run_logs_enabled : RunLogConfig → Bool
run_logs_enabled c = elim c.enabled [ none ↦ true | some b ↦ b ]

pub record Config : Type 0 where
  pub listen : Text
  pub data_dir : Text
  pub jobs_dir : Text
  pub log_level : Text
  pub plugins : List PluginConfig
  pub run_logs : RunLogConfig

abbrev pub or_default : Text → Text → Text
or_default given value = if is_empty given then value else given

abbrev pub or_number : ℕ → ℕ → ℕ
or_number given value = if given == 0 then value else given

-- `home` is what os.UserHomeDir returns, `expand_env` is os.ExpandEnv.
module _ (w : World) (home : Result Text) (expand_env : Text → Text) where
  known_home : Result Text → Option Text
  known_home (err e) = none
  known_home (ok h) = if is_empty (trim_space h) then none else some h

  unfoldable pub default_jobs_dir : Text
  unfolding known_home trim_space
  default_jobs_dir = elim (known_home home) [
    | none ↦ codes "./jobs"
    | some h ↦
        w.join_path (w.join_path (w.join_path h (codes ".config")) (codes "cronbat")) (codes "jobs")
  ]

  in_home : Text → Text → Text
  in_home v h =
      if text_eq v (codes "~")
      then h
      else if has_prefix v (codes "~/") || has_prefix v (codes "~\\")
      then w.join_path h (drop 2 v)
      else v

  unfoldable pub expand_path : Text → Text
  unfolding known_home in_home trim_space
  expand_path value = if is_empty (trim_space value) then value else (elim (known_home home) [
    | none ↦ expand_env (trim_space value)
    | some h ↦ in_home (expand_env (trim_space value)) h
  ])

  abbrev run_log_defaults : Text → RunLogConfig → RunLogConfig
  run_log_defaults data_dir c = record {
    enabled = some (run_logs_enabled c);
    dir = if is_empty c.dir then w.join_path data_dir (codes "logs") else expand_path c.dir;
    max_bytes_per_stream = or_number c.max_bytes_per_stream 262144;
    retention_days = or_number c.retention_days 7;
    max_total_mb = or_number c.max_total_mb 128;
    cleanup_interval = or_default c.cleanup_interval (codes "1h");
  }

  unfoldable pub apply_defaults : Config → Config
  unfolding expand_path default_jobs_dir run_logs_enabled
  apply_defaults c =
      let data_dir = expand_path (or_default c.data_dir (codes "./data")) in
      record {
        listen = or_default c.listen (codes ":8080");
        data_dir = data_dir;
        jobs_dir = expand_path (or_default c.jobs_dir default_jobs_dir);
        log_level = or_default c.log_level (codes "info");
        plugins = c.plugins;
        run_logs = run_log_defaults data_dir c.run_logs;
      }
