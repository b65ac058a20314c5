-- ===== src/Daemon/Create/Laws.antt =====
-- The two ways a call of `createJob` ends.
use cronbat.Prelude.{ℕ, ◌≡◌, refl, ap, false, none, some, arith, if◌then◌else◌}
use cronbat.Text.{Text, text_eq}
use cronbat.Text.Laws.{text_eq_iff, text_eq_refl}
use cronbat.Dict.{lookup, lookup-insert, lookup-insert_self}
use cronbat.Errors.{Error, Result, ok, err}
use cronbat.Config.Job.{Job}
use cronbat.Config.Saving.{Saving, OnlyAt, save_job-Saving}
use cronbat.World.{World, Disk}
use cronbat.Scheduler
use cronbat.Scheduler.{Scheduler}
use cronbat.Scheduler.Laws.{IsUnique, remove_job-IsUnique, next_run_time-remove_job}
use cronbat.Daemon.State.{Daemon, state_of}
use cronbat.Daemon.Invariant.{SameAt, due_at}
use cronbat.Daemon.Create.{record_job, store_job}

module _ (w : World) (jobs_dir : Text) (now : ℕ) (c : Job) (d : Daemon) where
  -- The candidate has been added to the daemon, and nothing else has changed.
  pub record Added (d' : Daemon) : Type 0 where
    pub unique : IsUnique d'.sched.heap
    pub others : (n : Text) → text_eq c.name n ≡ false → SameAt d d' n
    pub job : lookup c.name d'.jobs ≡ some c
    pub state : lookup c.name d'.states ≡ some (state_of c)
    pub next : Scheduler.next_run_time c.name d'.sched ≡ due_at w now c
    pub file :
        (content : Text) × (w.marshal c ≡ ok content) × (lookup c.file_path d'.disk ≡ some content)
    pub other_files : OnlyAt c.file_path d.disk d'.disk

  pub data Outcome : Result (Unit {0}) × Daemon → Type 0 where
    refused :
        (e : Error) (d' : Daemon)
        → IsUnique d'.sched.heap
        → ((n : Text) → SameAt d d' n)
        → OnlyAt c.file_path d.disk d'.disk
        → Outcome (err e, d')
    added : (d' : Daemon) → Added d' → Outcome (ok tt, d')

  -- The scheduler after the candidate's schedule was applied.
  module _ (s : Scheduler) (u : IsUnique s.heap)
      (at : (n : Text)
        → Scheduler.next_run_time n s
          ≡ (if text_eq c.name n then due_at w now c else Scheduler.next_run_time n d.sched))
      (fresh : Scheduler.next_run_time c.name d.sched ≡ none) where
    -- Removing the candidate from the scheduler leaves it as it was before.
    removed :
        (n : Text)
        → Scheduler.next_run_time n (Scheduler.remove_job now c.name s)
          ≡ Scheduler.next_run_time n d.sched
    removed n = ground (
      arith,
      next_run_time-remove_job now c.name s u n,
      at n,
      fresh,
      text_eq_iff c.name n,
      ap (λ m. Scheduler.next_run_time m d.sched) {x = c.name} {y = n},
    )

    taken_back :
        (e : Error) (disk : Disk)
        → OnlyAt c.file_path d.disk disk
        → Outcome (err e, record d { sched = Scheduler.remove_job now c.name s; disk = disk })
    taken_back e disk files =
        Outcome.refused e _ (remove_job-IsUnique now c.name s u)
          (λ n. record { jobs = refl; states = refl; next = removed n }) files

    record_job-Outcome :
        {r : Result Job × Disk}
        → Saving w c.file_path c d.disk r
        → Outcome (record_job w jobs_dir now c (record d { sched = s }) r)
    unfolding record_job
    record_job-Outcome (Saving.failed e disk files) = taken_back e disk files
    record_job-Outcome (Saving.saved content m) = Outcome.added _ (record {
      unique = u;
      others = λ n other. record {
        jobs = ground (arith, lookup-insert c.name n c d.jobs);
        states = ground (arith, lookup-insert c.name n (state_of c) d.states);
        next = ground (arith, at n);
      };
      job = lookup-insert_self c.name c d.jobs;
      state = lookup-insert_self c.name (state_of c) d.states;
      next = ground (arith, at c.name, text_eq_refl c.name);
      file = (content, m, lookup-insert_self c.file_path content d.disk);
      other_files = λ p other. ground (arith, lookup-insert c.file_path p content d.disk);
    })

    pub store_job-Outcome : (r : Result (Unit {0})) → Outcome (store_job w jobs_dir now c d (r, s))
    unfolding store_job
    store_job-Outcome (err e) = taken_back e d.disk (λ p other. refl)
    store_job-Outcome (ok _) = record_job-Outcome (save_job-Saving w c.file_path c d.disk)
