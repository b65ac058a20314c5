-- ===== src/Wrap/Tests.antt =====
-- A wrapped command, and its report.
use cronbat.Prelude.{pos, none, some, true, [], ◌∷◌, arith}
use cronbat.Text.{codes}
use cronbat.World.{Duration}
use cronbat.Runner.Command.{Ended, JobContext, run}
use cronbat.Wrap.{payload_of}
use cronbat.Wrap.Laws.{Agree, payload_of-run}

-- A command that says something and is stopped by its deadline
abbrev late : Ended
late = record {
  stdout = codes "so far" ∷ [];
  stderr = [];
  failure = some (record { message = codes "killed"; exit_code = none; deadline_exceeded = true });
  duration_ms = pos 9;
}

abbrev context : JobContext
context = record {
  job_name = codes "a";
  schedule = [];
  trigger = codes "cron";
  env = [];
  metadata = [];
}

payload_of-run_example :
    Agree
      (payload_of (codes "a") late)
      (run
        (λ held p. none)
        []
        (λ c env dir limit. late)
        (codes "x")
        context
        (Duration.plus 1)
        []
        none
        none).0
payload_of-run_example =
    payload_of-run (λ held p. none) [] late (codes "a") (codes "x") [] context (Duration.plus 1)
      none none (omega arith, tt) tt
