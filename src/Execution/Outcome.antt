-- ===== src/Execution/Outcome.antt =====
-- What `Run` reports of a command, as `executeJob` judges it.
use cronbat.Prelude.{
  ℕ, pos, negsuc, ◌&&◌, is_zero, ◌≡◌, refl, ap, ◌∙◌, not, ◌||◌, Bool, true, false, Option, none,
  some, List, [], ◌∷◌, arith, if◌then◌else◌, flatten,
}
use cronbat.Text.{Text, codes, is_empty}
use cronbat.World.{Duration}
use cronbat.Runner.Env.{build_env}
use cronbat.Runner.RingBuffer.{new_ring_buffer, contents}
use cronbat.Runner.RingBuffer.Refine.{NonEmpty, write_all, contents-write_all}
use cronbat.Runner.RingBuffer.Shows.{recent}
use cronbat.RunLog.Capped.{CappedFileWriter}
use cronbat.Runner.Command.{
  Process, Ended, Failure, JobContext, RunResult, deadline, Tee, tee_write, tee_all, with_failure,
  run,
}
use cronbat.Execution.{status_of}

tee_all-primary :
    (fault : List ℕ → List ℕ → Option ℕ) (ps : List Text) (t : Tee)
    → (tee_all fault t ps).0 ≡ write_all t.0 ps
unfolding tee_all write_all
tee_all-primary fault [] t = refl
tee_all-primary fault (p ∷ ps) (rb, none) = tee_all-primary fault ps (tee_write fault (rb, none) p)
tee_all-primary fault (p ∷ ps) (rb, some file) =
    tee_all-primary fault ps (tee_write fault (rb, some file) p)

-- The command exited with 0, and `cmd.Run` has no other complaint.
abbrev pub ended_well : Option Failure → Bool
ended_well none = true
ended_well (some f) =
    is_zero (elim f.exit_code [ some code ↦ code | none ↦ negsuc 0 ])
    && is_empty (if f.deadline_exceeded then codes "timeout" else f.message)

status_of-with_failure :
    (fault : List ℕ → List ℕ → Option ℕ) (f : Option Failure) (r : RunResult)
    → r.exit_code ≡ pos 0
    → r.error ≡ []
    → status_of (with_failure fault f r)
      ≡ (if ended_well f then codes "success" else codes "failure")
unfolding with_failure
status_of-with_failure fault none r code clean = rw (code, clean) refl
status_of-with_failure fault (some f) r code clean =
    by_tests (is_zero (elim f.exit_code [ some code ↦ code | none ↦ negsuc 0 ]))
      (is_empty (if f.deadline_exceeded then codes "timeout" else f.message))
  where
    by_tests :
        (zero_code no_error : Bool)
        → (if not zero_code || not no_error then codes "failure" else codes "success")
          ≡ (if zero_code && no_error then codes "success" else codes "failure")
    by_tests true true = refl
    by_tests true false = refl
    by_tests false no_error = refl

tails-with_failure :
    (fault : List ℕ → List ℕ → Option ℕ) (f : Option Failure) (r : RunResult)
    → ((with_failure fault f r).stdout ≡ r.stdout) × ((with_failure fault f r).stderr ≡ r.stderr)
unfolding with_failure
tails-with_failure fault none r = (refl, refl)
tails-with_failure fault (some f) r = (refl, refl)

module _ (fault : List ℕ → List ℕ → Option ℕ) (environ : List Text) (process : Process)
    (command : Text) (job : JobContext) (timeout : Duration) (work_dir : Text)
    (out err_out : Option CappedFileWriter) where
  abbrev pub ended : Ended
  ended =
      process command (build_env environ [] job.env job.job_name job.trigger) work_dir
        (deadline timeout)

  abbrev pub result : RunResult
  result = (run fault environ process command job timeout work_dir out err_out).0

  pub tail-tee_all :
      (file : Option CappedFileWriter) (ps : List Text)
      → NonEmpty ps
      → contents (tee_all fault (new_ring_buffer 65536, file) ps).0 ≡ recent 65536 (flatten ps)
  tail-tee_all file ps some_bytes =
      ap contents (tee_all-primary fault ps (new_ring_buffer 65536, file))
      ∙ contents-write_all 65536 ps (omega arith) some_bytes

  pub status-run :
      status_of result ≡ (if ended_well ended.failure then codes "success" else codes "failure")
  unfolding run
  status-run = status_of-with_failure fault ended.failure _ refl refl

  pub stdout-run : NonEmpty ended.stdout → result.stdout ≡ recent 65536 (flatten ended.stdout)
  unfolding run
  stdout-run some_bytes =
      (tails-with_failure fault ended.failure _).0 ∙ tail-tee_all out ended.stdout some_bytes

  pub stderr-run : NonEmpty ended.stderr → result.stderr ≡ recent 65536 (flatten ended.stderr)
  unfolding run
  stderr-run some_bytes =
      (tails-with_failure fault ended.failure _).1 ∙ tail-tee_all err_out ended.stderr some_bytes
