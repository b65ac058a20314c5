-- ===== src/Runner/Command.antt =====
-- `Runner.Run` and `teeWriter` of internal/runner/runner.go. What a process writes and how it ends
-- is the parameter `process`.
use cronbat.Prelude.{
  ℕ, ℤ, pos, negsuc, zero, suc, Bool, Option, none, some, List, [], ◌∷◌, if◌then◌else◌,
}
use cronbat.Text.{Text, codes}
use cronbat.Dict.{Dict}
use cronbat.World.{Duration}
use cronbat.Runner.RingBuffer
use cronbat.Runner.RingBuffer.{RingBuffer, new_ring_buffer, contents}
use cronbat.Runner.Env.{build_env}
use cronbat.RunLog.Capped
use cronbat.RunLog.Capped.{CappedFileWriter}

pub record JobContext : Type 0 where
  pub job_name : Text
  pub schedule : Text
  pub trigger : Text
  pub env : Dict Text
  pub metadata : Dict Text

-- The error of `cmd.Run`: the exit code if it is an ExitError, and whether the deadline had passed
pub record Failure : Type 0 where
  pub message : Text
  pub exit_code : Option ℤ
  pub deadline_exceeded : Bool

-- What a command did: the writes to its two streams, its error, and the milliseconds it took
pub record Ended : Type 0 where
  pub stdout : List Text
  pub stderr : List Text
  pub failure : Option Failure
  pub duration_ms : ℤ

-- A command with its environment, its directory ("" for the daemon's own) and its deadline
abbrev pub Process : Type 0
Process = Text → List Text → Text → Option ℕ → Ended

pub record RunResult : Type 0 where
  pub exit_code : ℤ
  pub stdout : Text
  pub stderr : Text
  pub duration_ms : ℤ
  pub error : Text

-- `if timeout > 0`
abbrev pub deadline : Duration → Option ℕ
deadline (Duration.plus zero) = none
deadline (Duration.plus (suc n)) = some (suc n)
deadline (Duration.minus n) = none

abbrev pub Tee : Type 0
Tee = RingBuffer × Option CappedFileWriter

-- `fault` is as for the capped writer.
module _ (fault : List ℕ → List ℕ → Option ℕ) where
  unfoldable pub tee_write : Tee → Text → Tee
  tee_write (rb, none) p = ((RingBuffer.write rb p).1, none)
  tee_write (rb, some file) p = ((RingBuffer.write rb p).1, some (Capped.write fault p file).1)

  unfoldable pub tee_all : Tee → List Text → Tee
  unfolding tee_write
  tee_all t [] = t
  tee_all t (p ∷ ps) = tee_all (tee_write t p) ps

  abbrev pub ring_buf_size : ℕ
  ring_buf_size = 65536

  unfoldable pub with_failure : Option Failure → RunResult → RunResult
  with_failure none r = r
  with_failure (some f) r = record r {
    error = if f.deadline_exceeded then codes "timeout" else f.message;
    exit_code = elim f.exit_code [ some code ↦ code | none ↦ negsuc 0 ];
  }

  -- The result, and the two files as they are then
  unfoldable pub run :
      List Text
      → Process
      → Text
      → JobContext
      → Duration
      → Text
      → Option CappedFileWriter
      → Option CappedFileWriter
      → RunResult × Option CappedFileWriter × Option CappedFileWriter
  unfolding tee_all with_failure
  run environ process command job timeout work_dir extra_stdout extra_stderr =
      let ended =
        process command (build_env environ [] job.env job.job_name job.trigger) work_dir
          (deadline timeout) in
      let out = tee_all (new_ring_buffer ring_buf_size, extra_stdout) ended.stdout in
      let err_out = tee_all (new_ring_buffer ring_buf_size, extra_stderr) ended.stderr in
      (
        with_failure ended.failure (record {
          exit_code = pos 0;
          stdout = contents out.0;
          stderr = contents err_out.0;
          duration_ms = ended.duration_ms;
          error = [];
        }),
        out.1,
        err_out.1,
      )
