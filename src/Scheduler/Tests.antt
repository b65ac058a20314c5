-- ===== src/Scheduler/Tests.antt =====
-- The scheduler's theorems at a concrete scheduler.
use cronbat.Prelude.{ℕ, ◌+◌, ◌≤◌, ◌≡◌, refl, some, arith, [], ◌∷◌}
use cronbat.Text.{codes, text_eq}
use cronbat.Scheduler.{Scheduler, Timer, start, new_scheduler, add_job, next_run_time, timer_fires}
use cronbat.Scheduler.Heap.Counts
use cronbat.Scheduler.Heap
use cronbat.Scheduler.Fires.{timer_fires_due}
use cronbat.Scheduler.Order.{Reached, Reached-Wakes, Reached-fires_first}
use cronbat.Scheduler.Laws.{IsUnique, add_job-IsUnique}

new_scheduler-IsUnique : IsUnique new_scheduler.heap
unfolding Heap.Counts.count
new_scheduler-IsUnique n = omega arith

abbrev one_job : Scheduler
one_job = add_job 5 (codes "a") (λ t. t + 60) new_scheduler

one_job-IsUnique : IsUnique one_job.heap
one_job-IsUnique = add_job-IsUnique 5 (codes "a") new_scheduler new_scheduler-IsUnique (λ t. t + 60)

abbrev entry : Heap.Entry
entry = record { job_name = codes "a"; schedule = λ t. t + 60; next_run = 65 }

one_entry : one_job.heap ≡ entry ∷ []
unfolding add_job Heap.push Heap.up Heap.up_loop
one_entry = refl

timer_fires_due_example :
    ((timer_fires 70 one_job).0 ≡ some (codes "a"))
    × (next_run_time (codes "a") (timer_fires 70 one_job).1 ≡ some 130)
unfolding text_eq
timer_fires_due_example =
    timer_fires_due 70 one_job entry [] (codes "a") one_entry (ground arith) one_job-IsUnique

-- Started, with a job due each minute and one due every ten seconds
abbrev running : Scheduler
running = start 6 (add_job 5 (codes "b") (λ t. t + 10) one_job)

running-Reached : Reached 6 running
running-Reached = Reached.started 5 6 _ (
    Reached.added 5 5 (codes "b") (λ t. t + 10) one_job
      (Reached.added 0 5 (codes "a") (λ t. t + 60) new_scheduler (Reached.fresh 0)))

Reached-Wakes_example : (u : ℕ) × (running.timer ≡ Timer.armed u) × (u ≤ 65)
unfolding start add_job Heap.push Heap.up Heap.up_loop Heap.swap Heap.less next_run_time text_eq
Reached-Wakes_example = Reached-Wakes 6 running (codes "a") 65 running-Reached (λ e. cc) refl

Reached-fires_first_example :
    (u : ℕ) × (next_run_time (codes "b") running ≡ some u) × (u ≤ 70) × (u ≤ 65)
unfolding start add_job Heap.push Heap.up Heap.up_loop Heap.swap Heap.less next_run_time text_eq
    timer_fires
Reached-fires_first_example =
    Reached-fires_first 6 70 running (codes "b") (codes "a") 65 running-Reached refl refl
