-- ===== src/Config/Defaults/Laws.antt =====
-- What a configuration is like after its defaults are applied.
use cronbat.Prelude.{ℕ, ◌<◌, ◌≡◌, refl, Bool, false, some, [], ◌∷◌, arith}
use cronbat.Text.{Text, codes, is_empty}
use cronbat.Errors.{Result}
use cronbat.World.{World}
use cronbat.Config.Defaults.{Config, run_logs_enabled, or_default, or_number, apply_defaults}

is_empty-or_default :
    (given value : Text) → is_empty value ≡ false → is_empty (or_default given value) ≡ false
is_empty-or_default [] value h = h
is_empty-or_default (x ∷ xs) value h = refl

or_number-positive : (given value : ℕ) → 0 < value → 0 < or_number given value
or_number-positive given value h = ground arith

-- Every setting that has a fixed default is there: the sizes and days are positive, the texts are
-- not empty, and whether the logs are on is decided.
pub record Complete (c : Config) : Type 0 where
  pub listen : is_empty c.listen ≡ false
  pub log_level : is_empty c.log_level ≡ false
  pub max_bytes : 0 < c.run_logs.max_bytes_per_stream
  pub retention : 0 < c.run_logs.retention_days
  pub max_total : 0 < c.run_logs.max_total_mb
  pub interval : is_empty c.run_logs.cleanup_interval ≡ false
  pub decided : (on : Bool) × (c.run_logs.enabled ≡ some on)

-- After `applyDefaults` every setting with a fixed default is there, and the run logs are on just
-- when they were.
pub apply_defaults-Complete :
    (w : World) (home : Result Text) (expand_env : Text → Text) (c : Config)
    → Complete (apply_defaults w home expand_env c)
      × (run_logs_enabled (apply_defaults w home expand_env c).run_logs
          ≡ run_logs_enabled c.run_logs)
unfolding apply_defaults run_logs_enabled
apply_defaults-Complete w home expand_env c = (
  record {
    listen = is_empty-or_default c.listen (codes ":8080") refl;
    log_level = is_empty-or_default c.log_level (codes "info") refl;
    max_bytes = or_number-positive c.run_logs.max_bytes_per_stream 262144 (omega arith);
    retention = or_number-positive c.run_logs.retention_days 7 (omega arith);
    max_total = or_number-positive c.run_logs.max_total_mb 128 (omega arith);
    interval = is_empty-or_default c.run_logs.cleanup_interval (codes "1h") refl;
    decided = (run_logs_enabled c.run_logs, refl);
  },
  refl,
)
