-- ===== src/Daemon/State.antt =====
-- The state that the closures of cmd/cronbat/main.go share, and the steps that several of them take.
use cronbat.Prelude.{ℕ, Bool, false, not, Option, none, some, ◌++◌, if◌then◌else◌}
use cronbat.Text.{Text, codes, is_empty, trim_space, is_safe_char}
use cronbat.Text.Laws.{every}
use cronbat.Dict.{Dict, lookup}
use cronbat.Errors.{Error, Result, ok, err, ◌>>=◌, ◌>>◌, new_error, require, wrap}
use cronbat.Config.Job.{Job, is_enabled}
use cronbat.Config.Files.{parse_timeout, save_job}
use cronbat.World.{World, Disk}
use cronbat.Scheduler
use cronbat.Scheduler.{Scheduler}

-- the values of `jobStateMap`; a missing key is Go's ""
pub data JobState : Type 0 where
  started stopped paused : JobState

pub record Daemon : Type 0 where
  pub jobs : Dict Job
  pub states : Dict JobState
  pub sched : Scheduler
  pub disk : Disk

abbrev pub state_of : Job → JobState
state_of j = if is_enabled j then JobState.started else JobState.stopped

-- "" and "started" become "stopped"; "stopped" and "paused" stay
abbrev pub not_started : Option JobState → JobState
not_started none = JobState.stopped
not_started (some JobState.started) = JobState.stopped
not_started (some s) = s

abbrev pub not_found : Text → Error
not_found name = new_error (codes "job not found: " ++ name)

abbrev pub already_exists : Text → Error
already_exists name = new_error (codes "job already exists: " ++ name)

unfoldable pub is_safe_job_name : Text → Bool
unfolding every is_safe_char
is_safe_job_name name = if is_empty name then false else every is_safe_char name

unfoldable pub trim_fields : Job → Job
trim_fields j = record j {
  name = trim_space j.name;
  schedule = trim_space j.schedule;
  command = trim_space j.command;
  working_dir = trim_space j.working_dir;
  executor = trim_space j.executor;
  timeout = trim_space j.timeout;
}

abbrev pub default_executor : Job → Job
default_executor j = record j {
  executor = if is_empty j.executor then codes "shell" else j.executor;
}

-- `validateJob`: the job as it is afterwards, where Go changes the one that it is given.
unfoldable pub validate_job : World → Job → Result Job
unfolding trim_fields parse_timeout
validate_job w given = do
  let j = trim_fields given
  require (not (is_empty j.name)) (codes "job name is required")
  require (is_safe_job_name j.name)
      (codes "invalid job name: use only letters, numbers, '.', '-', '_'")
  require (not (is_empty j.schedule)) (codes "job schedule is required")
  require (not (is_empty j.command)) (codes "job command is required")
  let j' = default_executor j
  timeout ← wrap (codes "invalid timeout: ") (parse_timeout w j')
  ok j'

-- Adding the job, once its schedule is parsed
unfoldable pub schedule_parsed :
    ℕ → Text → Scheduler → Result (ℕ → ℕ) → Result (Unit {0}) × Scheduler
schedule_parsed now name s (err e) = (err e, s)
schedule_parsed now name s (ok schedule) = (ok tt, Scheduler.add_job now name schedule s)

-- `applyScheduleLocked`
unfoldable pub apply_schedule : World → ℕ → Job → Scheduler → Result (Unit {0}) × Scheduler
unfolding schedule_parsed
apply_schedule w now j s =
    let s' = Scheduler.remove_job now j.name s in
    if is_enabled j
    then schedule_parsed now j.name s' (w.parse_schedule j.schedule)
    else (ok tt, s')

module _ (w : World) (jobs_dir : Text) where
  abbrev pub default_path : Text → Text
  default_path name = w.join_path jobs_dir (name ++ codes ".yaml")

  unfoldable pub job_file_path : Job → Text
  job_file_path j = if is_empty j.file_path then default_path j.name else j.file_path

  -- `saveJobLocked`
  unfoldable pub save_job_locked : Job → Disk → Result Job × Disk
  unfolding job_file_path
  save_job_locked j d = save_job w (job_file_path j) j d

-- `getJobState`: the state on record, or what the job says
unfoldable pub get_job_state : Text → Daemon → Option JobState
get_job_state name d = elim (lookup name d.states) [
  | some s ↦ some s
  | none ↦ elim (lookup name d.jobs) [ none ↦ none | some j ↦ some (state_of j) ]
]
