-- ===== src/Wrap/Laws.antt =====
-- What `wrap` reports is what a run of the daemon gives.
use cronbat.Prelude.{
  ℕ, ◌-◌, pos, ◌≡◌, refl, sym, ap₂, ◌∙◌, is_zero, ◌||◌, inl, inr, not, Bool-cases, Option, none,
  some, List, [], arith, ltb, if◌then◌else◌, length, drop_zero, flatten,
}
use cronbat.Text.{Text, codes, is_empty}
use cronbat.World.{Duration}
use cronbat.Runner.RingBuffer.Refine.{NonEmpty}
use cronbat.Runner.RingBuffer.Shows.{recent}
use cronbat.RunLog.Capped.{CappedFileWriter}
use cronbat.Runner.Command.{Ended, Failure, JobContext, RunResult, run, with_failure}
use cronbat.Execution.{status_of}
use cronbat.Execution.Outcome.{stdout-run, stderr-run}
use cronbat.Wrap.{RunPayload, payload_of, tail_of, error_of, exit_code_of}

tail_of-eq : (s : Text) → tail_of s ≡ recent 65536 s
tail_of-eq s = elim (Bool-cases (ltb 65536 (length s))) [
  | inl long ↦ rw long refl
  | inr short ↦ rw short (sym (drop_zero (length s - 65536) s (ground arith)))
]

-- The two ways of `wrap` agree.
pub record Agree (p : RunPayload) (r : RunResult) : Type 0 where
  pub exit_code : p.exit_code ≡ r.exit_code
  pub error : p.error_msg ≡ r.error
  pub status : p.status ≡ status_of r
  pub duration : p.duration_ms ≡ r.duration_ms
  pub stdout : p.stdout_tail ≡ r.stdout
  pub stderr : p.stderr_tail ≡ r.stderr

module _ (fault : List ℕ → List ℕ → Option ℕ) where
  code-with_failure :
      (f : Option Failure) (r : RunResult)
      → r.exit_code ≡ pos 0
      → r.error ≡ []
      → (exit_code_of f ≡ (with_failure fault f r).exit_code)
        × (error_of f ≡ (with_failure fault f r).error)
        × (r.duration_ms ≡ (with_failure fault f r).duration_ms)
  unfolding with_failure
  code-with_failure none r code clean = (sym code, sym clean, refl)
  code-with_failure (some f) r code clean = (refl, refl, refl)

  -- The report that `wrapViaAPI` makes of a command is, for the same writes (none of them empty) and
  -- the same end of the command, what `Runner.Run` gives, whatever log files it writes beside it:
  -- the exit code, the error, the status, the duration and the last 64 KiB of either stream.
  pub payload_of-run :
      (environ : List Text) (e : Ended) (job_name command work_dir : Text) (job : JobContext)
      (timeout : Duration) (out err_out : Option CappedFileWriter)
      → NonEmpty e.stdout
      → NonEmpty e.stderr
      → Agree
          (payload_of job_name e)
          (run fault environ (λ c env dir limit. e) command job timeout work_dir out err_out).0
  unfolding payload_of run
  payload_of-run environ e job_name command work_dir job timeout out err_out out_bytes err_bytes =
      let (code, msg, took) = code-with_failure e.failure _ refl refl in
      record {
        exit_code = code;
        error = msg;
        status =
            ap₂
              (λ c m.
                if not (is_zero c) || not (is_empty m) then codes "failure" else codes "success")
              code msg;
        duration = took;
        stdout =
            tail_of-eq (flatten e.stdout)
            ∙ sym (
                stdout-run fault environ (λ c env dir limit. e) command job timeout work_dir out
                  err_out out_bytes);
        stderr =
            tail_of-eq (flatten e.stderr)
            ∙ sym (
                stderr-run fault environ (λ c env dir limit. e) command job timeout work_dir out
                  err_out err_bytes);
      }
