-- ===== src/Daemon/Boot/Laws.antt =====
-- A daemon that starts from job files with trimmed names is consistent.
use cronbat.Prelude.{ℕ, suc, ◌≡◌, refl, subst, List, [], ◌∷◌, arith}
use cronbat.Text.{trim_space}
use cronbat.Text.Laws.{text_eq_refl}
use cronbat.Dict.{lookup, insert, lookup-insert, lookup-insert_self}
use cronbat.Config.Job.{Job}
use cronbat.World.{World, Disk}
use cronbat.Scheduler
use cronbat.Scheduler.{Scheduler, Timer, new_scheduler}
use cronbat.Scheduler.Laws.{heap-reset_timer}
use cronbat.Scheduler.Heap.Counts.{count}
use cronbat.Daemon.State.{Daemon, state_of, apply_schedule}
use cronbat.Daemon.Invariant.{
  nowhere, on_time, IsConsistent, IsConsistent-step, same_heap-IsConsistent, is_some-due_at,
  state_fits-state_of, due_at, apply_schedule-IsUnique, next-apply_schedule,
}
use cronbat.Daemon.Boot.{register, schedule_all, boot}

-- Every name is trimmed.
abbrev pub AllClean : List Job → Type 0
AllClean [] = Unit
AllClean (j ∷ js) = (trim_space j.name ≡ j.name) × AllClean js

module _ (w : World) (clock : ℕ → ℕ) where
  -- One job goes into the maps and onto the schedule.
  enter : ℕ → Job → Daemon → Daemon
  enter i j d = record d {
    jobs = insert j.name j d.jobs;
    states = insert j.name (state_of j) d.states;
    sched = (apply_schedule w (clock i) j d.sched).1;
  }

  enter_all : ℕ → List Job → Daemon → Daemon
  enter_all i [] d = d
  enter_all i (j ∷ js) d = enter_all (suc i) js (enter i j d)

  -- The two loops of `main` do what one loop over the jobs would do.
  enter_all-eq :
      (i : ℕ) (js : List Job) (d : Daemon)
      → enter_all i js d ≡ record d {
        jobs = (register js (d.jobs, d.states)).0;
        states = (register js (d.jobs, d.states)).1;
        sched = schedule_all w clock i js d.sched;
      }
  unfolding enter_all enter register schedule_all
  enter_all-eq i [] d = refl
  enter_all-eq i (j ∷ js) d = enter_all-eq (suc i) js (enter i j d)

  enter-IsConsistent :
      (i : ℕ) (j : Job) (d : Daemon)
      → trim_space j.name ≡ j.name
      → IsConsistent nowhere w d
      → IsConsistent nowhere w (enter i j d)
  unfolding enter
  enter-IsConsistent i j d clean h =
      IsConsistent-step w d (enter i j d) j.name h
        (apply_schedule-IsUnique w (clock i) j d.sched h.unique)
        (λ n other. record {
          jobs = ground (arith, lookup-insert j.name n j d.jobs);
          states = ground (arith, lookup-insert j.name n (state_of j) d.states);
          next = ground (arith, next-apply_schedule w (clock i) j d.sched h.unique n);
        })
        (rw
          (lookup-insert_self j.name j d.jobs, lookup-insert_self j.name (state_of j) d.states, at)
          (refl, clean, state_fits-state_of j, on_time (is_some-due_at w (clock i) j)))
    where
      at :
          Scheduler.next_run_time j.name (apply_schedule w (clock i) j d.sched).1
          ≡ due_at w (clock i) j
      at =
          ground
            (arith, next-apply_schedule w (clock i) j d.sched h.unique j.name, text_eq_refl j.name)

  enter_all-IsConsistent :
      (i : ℕ) (js : List Job) (d : Daemon)
      → AllClean js
      → IsConsistent nowhere w d
      → IsConsistent nowhere w (enter_all i js d)
  unfolding enter_all
  enter_all-IsConsistent i [] d clean h = h
  enter_all-IsConsistent i (j ∷ js) d clean h =
      enter_all-IsConsistent (suc i) js (enter i j d) clean.1 (enter-IsConsistent i j d clean.0 h)

  nothing : Disk → Daemon
  nothing disk = record { jobs = []; states = []; sched = new_scheduler; disk = disk }

  nothing-IsConsistent : (disk : Disk) → IsConsistent nowhere w (nothing disk)
  unfolding nothing lookup Scheduler.next_run_time Scheduler.find_next count
  nothing-IsConsistent disk = record { unique = λ n. omega arith; fits = λ n. (refl, refl) }

  -- The daemon that `main` starts is consistent, where the names in the job files have no space
  -- around them. Two files may have one name, and a schedule need not parse.
  pub boot-IsConsistent :
      (now : ℕ) (jobs : List Job) (disk : Disk)
      → AllClean jobs
      → IsConsistent nowhere w (boot w clock now jobs disk)
  unfolding boot nothing Scheduler.start
  boot-IsConsistent now jobs disk clean =
      same_heap-IsConsistent w _ _
        (heap-reset_timer now
          (record (schedule_all w clock 0 jobs new_scheduler) { timer = Timer.stopped }))
        (subst (IsConsistent nowhere w) (enter_all-eq 0 jobs (nothing disk))
          (enter_all-IsConsistent 0 jobs (nothing disk) clean (nothing-IsConsistent disk)))
