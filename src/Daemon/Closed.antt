-- ===== src/Daemon/Closed.antt =====
-- What holds of a scheduler whatever jobs are added to it and removed from it.
use cronbat.Prelude.{ℕ, inl, inr, Bool-cases}
use cronbat.Text.{Text}
use cronbat.Errors.{Result, ok, err}
use cronbat.Config.Job.{Job, is_enabled}
use cronbat.World.{World}
use cronbat.Scheduler
use cronbat.Scheduler.{Scheduler}
use cronbat.Daemon.State.{schedule_parsed, apply_schedule}

pub record IsClosed (P : Scheduler → Type 0) : Type 0 where
  pub removed : (now : ℕ) (n : Text) (s : Scheduler) → P s → P (Scheduler.remove_job now n s)
  pub added :
      (now : ℕ) (n : Text) (schedule : ℕ → ℕ) (s : Scheduler)
      → P s
      → P (Scheduler.add_job now n schedule s)

module _ (P : Scheduler → Type 0) (closed : IsClosed P) where
  parsed-keeps :
      (now : ℕ) (n : Text) (s : Scheduler) (r : Result (ℕ → ℕ))
      → P s
      → P (schedule_parsed now n s r).1
  unfolding schedule_parsed
  parsed-keeps now n s (err e) h = h
  parsed-keeps now n s (ok schedule) h = closed.added now n schedule s h

  pub apply_schedule-keeps :
      (w : World) (now : ℕ) (j : Job) (s : Scheduler) → P s → P (apply_schedule w now j s).1
  unfolding apply_schedule
  apply_schedule-keeps w now j s h = elim (Bool-cases (is_enabled j)) [
    | inl on ↦
        rw on
          (parsed-keeps now j.name _ (w.parse_schedule j.schedule) (closed.removed now j.name s h))
    | inr off ↦ rw off (closed.removed now j.name s h)
  ]
