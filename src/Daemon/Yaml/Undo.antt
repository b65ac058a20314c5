-- ===== src/Daemon/Yaml/Undo.antt =====
-- What `updateJobYAML` undoes when a step fails.
use cronbat.Prelude.{Bool, ℕ, ◌≡◌, refl, ap, false, Option, none, some, arith, if◌then◌else◌}
use cronbat.Text.{Text, text_eq}
use cronbat.Text.Laws.{text_eq_refl, text_eq_iff}
use cronbat.Dict.{Dict, lookup, insert, remove, lookup-insert, lookup-remove}
use cronbat.Config.Job.{Job}
use cronbat.World.{World}
use cronbat.Scheduler
use cronbat.Scheduler.{Scheduler}
use cronbat.Scheduler.Laws.{IsUnique, remove_job-IsUnique, next_run_time-remove_job}
use cronbat.Daemon.State.{Daemon, JobState}
use cronbat.Daemon.Invariant.{
  IsConsistent, RolledBack, apply_schedule-IsUnique, next-apply_schedule,
}
use cronbat.Daemon.Settings.{restore_state}
use cronbat.Daemon.Yaml.{undo_update, restore}

-- A map that has changed under two names at most is put back by writing the old entry under the
-- first and taking away the second.
put_back_entry {ℓ} :
    {V : Type ℓ} (name new n : Text) (old : V) (m m' : Dict V)
    → lookup name m ≡ some old
    → (text_eq new name ≡ false → lookup new m ≡ none)
    → (text_eq new n ≡ false → text_eq name n ≡ false → lookup n m' ≡ lookup n m)
    → lookup n (insert name old (if text_eq new name then m' else remove new m')) ≡ lookup n m
put_back_entry name new n old m m' found fresh others = ground (
  arith,
  lookup-insert name n old (if text_eq new name then m' else remove new m'),
  lookup-remove new n m',
  text_eq_iff name n,
  text_eq_iff new n,
  text_eq_iff new name,
  ap (λ i. lookup i m) {x = name} {y = n},
  ap (λ i. lookup i m) {x = new} {y = n},
)

put_back_nothing {ℓ} :
    {V : Type ℓ} (name new n : Text) (m m' : Dict V)
    → lookup name m ≡ none
    → (text_eq new name ≡ false → lookup new m ≡ none)
    → (text_eq new n ≡ false → text_eq name n ≡ false → lookup n m' ≡ lookup n m)
    → lookup n (remove name (if text_eq new name then m' else remove new m')) ≡ lookup n m
put_back_nothing name new n m m' found fresh others = ground (
  arith,
  lookup-remove name n (if text_eq new name then m' else remove new m'),
  lookup-remove new n m',
  text_eq_iff name n,
  text_eq_iff new n,
  text_eq_iff new name,
  ap (λ i. lookup i m) {x = name} {y = n},
  ap (λ i. lookup i m) {x = new} {y = n},
)

module _ {lax : Text → Bool} (w : World) (jobs_dir : Text) (now : ℕ) (name : Text) (d : Daemon)
    (h : IsConsistent lax w d) (old : Job) (found : lookup name d.jobs ≡ some old) (new : Text)
    (fresh : text_eq new name ≡ false → lookup new d.jobs ≡ none) where
  old_key : old.name ≡ name
  old_key = (rw found at (h.fits name)).0

  fresh_state : text_eq new name ≡ false → lookup new d.states ≡ none
  fresh_state other = (rw (fresh other) at (h.fits new)).0

  fresh_next : text_eq new name ≡ false → Scheduler.next_run_time new d.sched ≡ none
  fresh_next other = (rw (fresh other) at (h.fits new)).1

  -- A daemon in the middle of the update differs from `d` under the two names only.
  pub record Shifted (d' : Daemon) : Type 0 where
    pub unique : IsUnique d'.sched.heap
    pub jobs :
        (n : Text)
        → text_eq new n ≡ false
        → text_eq name n ≡ false
        → lookup n d'.jobs ≡ lookup n d.jobs
    pub states :
        (n : Text)
        → text_eq new n ≡ false
        → text_eq name n ≡ false
        → lookup n d'.states ≡ lookup n d.states
    pub next :
        (n : Text)
        → text_eq new n ≡ false
        → text_eq name n ≡ false
        → Scheduler.next_run_time n d'.sched ≡ Scheduler.next_run_time n d.sched

  states_back :
      (d' : Daemon) (s : Shifted d') (n : Text) (r : Option JobState)
      → lookup name d.states ≡ r
      → lookup n
          (restore_state name r (if text_eq new name then d'.states else remove new d'.states))
        ≡ lookup n d.states
  states_back d' s n none e =
      put_back_nothing name new n d.states d'.states e fresh_state (s.states n)
  states_back d' s n (some old_state) e =
      put_back_entry name new n old_state d.states d'.states e fresh_state (s.states n)

  pub undo_update-RolledBack :
      (d' : Daemon)
      → Shifted d'
      → (text_eq new name ≡ false → Scheduler.next_run_time new d'.sched ≡ none)
      → RolledBack w now name old d
          (undo_update w jobs_dir now name new old (lookup name d.states) d')
  unfolding undo_update
  undo_update-RolledBack d' s off = record {
    unique = apply_schedule-IsUnique w now old d'.sched s.unique;
    jobs = λ n. put_back_entry name new n old d.jobs d'.jobs found fresh (s.jobs n);
    states = λ n. states_back d' s n (lookup name d.states) refl;
    next =
        ground
          (arith, next-apply_schedule w now old d'.sched s.unique name, old_key, text_eq_refl name);
    other_next = λ n other. ground (
      arith,
      next-apply_schedule w now old d'.sched s.unique n,
      old_key,
      s.next n,
      off,
      fresh_next,
      text_eq_iff new n,
      text_eq_iff new name,
      text_eq_iff name n,
      ap (λ i. Scheduler.next_run_time i d.sched) {x = new} {y = n},
      ap (λ i. Scheduler.next_run_time i d'.sched) {x = new} {y = n},
    );
  }

  pub restore-RolledBack :
      (d' : Daemon)
      → Shifted d'
      → RolledBack w now name old d (restore w jobs_dir now name new old (lookup name d.states) d')
  unfolding restore
  restore-RolledBack d' s =
      undo_update-RolledBack _
        (record {
          unique = u';
          jobs = s.jobs;
          states = s.states;
          next = λ n o o'. ground (arith, next' n, next₁ n, s.next n);
        })
        (λ other. ground (arith, next' new, text_eq_refl new))
    where
      s₁ : Scheduler
      s₁ = Scheduler.remove_job now name d'.sched

      u₁ : IsUnique s₁.heap
      u₁ = remove_job-IsUnique now name d'.sched s.unique

      u' : IsUnique (Scheduler.remove_job now new s₁).heap
      u' = remove_job-IsUnique now new s₁ u₁

      next₁ :
          (n : Text)
          → Scheduler.next_run_time n s₁
            ≡ (if text_eq name n then none else Scheduler.next_run_time n d'.sched)
      next₁ = next_run_time-remove_job now name d'.sched s.unique

      next' :
          (n : Text)
          → Scheduler.next_run_time n (Scheduler.remove_job now new s₁)
            ≡ (if text_eq new n then none else Scheduler.next_run_time n s₁)
      next' = next_run_time-remove_job now new s₁ u₁
