-- ===== src/Config/Job.antt =====
-- The job of internal/config/job.go.
use cronbat.Prelude.{Bool, true, Option, none, some, List, [], if◌then◌else◌}
use cronbat.Text.{Text, codes, is_empty}
use cronbat.Dict.{Dict}

pub record AnalyzeConfig : Type 0 where
  pub provider : Text
  pub prompt : Text
  pub model : Text
  pub on_result : List Text

-- A value of `metadata` is only stored and written out again: it is the text of its YAML.
pub record Job : Type 0 where
  pub name : Text
  pub schedule : Text
  pub command : Text
  pub working_dir : Text
  pub executor : Text
  pub timeout : Text
  pub env : Dict Text
  pub enabled : Option Bool
  pub on_success : List Text
  pub on_failure : List Text
  pub analyze : Option AnalyzeConfig
  pub metadata : Dict Text
  pub file_path : Text

-- Go's zero value of `Job`
abbrev pub zero_job : Job
zero_job = record {
  name = [];
  schedule = [];
  command = [];
  working_dir = [];
  executor = [];
  timeout = [];
  env = [];
  enabled = none;
  on_success = [];
  on_failure = [];
  analyze = none;
  metadata = [];
  file_path = [];
}

unfoldable pub is_enabled : Job → Bool
is_enabled j = elim j.enabled [ none ↦ true | some b ↦ b ]

unfoldable pub apply_job_defaults : Job → Job
apply_job_defaults j = record j {
  executor = if is_empty j.executor then codes "shell" else j.executor;
}
