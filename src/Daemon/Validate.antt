-- ===== src/Daemon/Validate.antt =====
-- What a job that `validateJob` lets through is like.
use cronbat.Prelude.{
  ◌≡◌, refl, sym, subst, inl, inr, Bool, true, false, not, Bool-cases, if◌then◌else◌,
}
use cronbat.Text.{Text, codes, is_empty, is_space, trim_space}
use cronbat.Text.Laws.{trim_idem}
use cronbat.Errors.{Result, ok, wrap, require-ok, bind-ok, wrap-ok}
use cronbat.Config.Job.{Job}
use cronbat.Config.Files.{parse_timeout}
use cronbat.World.{World, Duration}
use cronbat.Daemon.State.{default_executor, is_safe_job_name, trim_fields, validate_job}

pub trim_space_idem : (s : Text) → trim_space (trim_space s) ≡ trim_space s
unfolding trim_space
trim_space_idem s = trim_idem is_space s

-- The checks of `validateJob`, of a job that has been trimmed and given its executor.
pub record IsValid (w : World) (j : Job) : Type 0 where
  pub safe : is_safe_job_name j.name ≡ true
  pub clean : trim_space j.name ≡ j.name
  pub has_schedule : is_empty j.schedule ≡ false
  pub has_command : is_empty j.command ≡ false
  pub has_executor : is_empty j.executor ≡ false
  pub timeout_parses : (t : Duration) × (parse_timeout w j ≡ ok t)

-- What `validateJob` returns is valid, and is the job it was given but for the blanks around six of
-- the fields and the executor where none was given.
pub record IsNormal (w : World) (given j : Job) : Type 0 where
  pub valid : IsValid w j
  pub name : j.name ≡ trim_space given.name
  pub schedule : j.schedule ≡ trim_space given.schedule
  pub command : j.command ≡ trim_space given.command
  pub working_dir : j.working_dir ≡ trim_space given.working_dir
  pub executor :
      j.executor
      ≡ (if is_empty (trim_space given.executor) then codes "shell" else trim_space given.executor)
  pub timeout : j.timeout ≡ trim_space given.timeout
  pub enabled : j.enabled ≡ given.enabled
  pub env : j.env ≡ given.env
  pub on_success : j.on_success ≡ given.on_success
  pub on_failure : j.on_failure ≡ given.on_failure
  pub analyze : j.analyze ≡ given.analyze
  pub metadata : j.metadata ≡ given.metadata
  pub file_path : j.file_path ≡ given.file_path

pub executor-default_executor : (j : Job) → is_empty (default_executor j).executor ≡ false
executor-default_executor j = elim (Bool-cases (is_empty j.executor)) [
  | inl e ↦ rw e refl
  | inr e ↦ rw (e, e) refl
]

pub not-true : (b : Bool) → not b ≡ true → b ≡ false
not-true true h = absurd (cc)
not-true false h = refl

result_eq : {a b : Job} → ◌≡◌ {A = Result Job} (ok a) (ok b) → a ≡ b
result_eq h = cc

-- A job that `validateJob` accepts comes out with its name, schedule, command, working directory,
-- executor and timeout trimmed, the executor being "shell" where none is given, and with all its
-- other fields as given; its name is safe, it has a schedule and a command, and its timeout parses.
pub validate_job-IsNormal :
    (w : World) (given j : Job) → validate_job w given ≡ ok j → IsNormal w given j
unfolding validate_job
validate_job-IsNormal w given j h =
    let (named, h₁) = require-ok (not (is_empty t.name)) _ _ h in
    let (safe, h₂) = require-ok (is_safe_job_name t.name) _ _ h₁ in
    let (scheduled, h₃) = require-ok (not (is_empty t.schedule)) _ _ h₂ in
    let (commanded, h₄) = require-ok (not (is_empty t.command)) _ _ h₃ in
    let (timeout, parses, e) =
      bind-ok (wrap (codes "invalid timeout: ") (parse_timeout w (default_executor t)))
        (λ _. ok (default_executor t)) (sym h₄) in
    subst (IsNormal w given) (result_eq e) (record {
      valid = record {
        safe = safe;
        clean = trim_space_idem given.name;
        has_schedule = not-true (is_empty t.schedule) scheduled;
        has_command = not-true (is_empty t.command) commanded;
        has_executor = executor-default_executor t;
        timeout_parses = (
          timeout,
          wrap-ok (codes "invalid timeout: ") (parse_timeout w (default_executor t)) parses,
        );
      };
      name = refl;
      schedule = refl;
      command = refl;
      working_dir = refl;
      executor = refl;
      timeout = refl;
      enabled = refl;
      env = refl;
      on_success = refl;
      on_failure = refl;
      analyze = refl;
      metadata = refl;
      file_path = refl;
    })
  where
    t : Job
    t = trim_fields given
