-- ===== src/Scheduler.antt =====
-- internal/scheduler/scheduler.go: jobs in a min-heap by their next run, and one timer. Times are
-- numbers; a cron schedule is its `Next`. The lock makes every function atomic, so each is a
-- function from state to state, with the reading of the clock that it makes.
pub mod Heap
mod Names
pub mod Laws
pub mod Fires
pub mod Order
mod Tests
use cronbat.Prelude.{
  ℕ, suc, Bool, true, false, Option, none, some, List, [], ◌∷◌, ltb, if◌then◌else◌,
}
use cronbat.Text.{Text, text_eq}
use cronbat.Scheduler.Heap.{Entry}
use cronbat.Scheduler.Heap

-- `s.timer`: nil before `Start`, else stopped or set to go off at some time
pub data Timer : Type 0 where
  unset : Timer
  stopped : Timer
  armed : ℕ → Timer

pub record Scheduler : Type 0 where
  pub heap : List Entry
  pub timer : Timer
  -- a value waits in the channel `s.reset`
  pub reset : Bool

abbrev pub new_scheduler : Scheduler
new_scheduler = record { heap = []; timer = Timer.unset; reset = false }

-- the earliest time not before `now`: `d < 0` becomes `d = 0`
abbrev pub not_before : ℕ → ℕ → ℕ
not_before now t = if ltb t now then now else t

-- `resetTimerLocked`, once the timer is there
arm : ℕ → List Entry → Scheduler → Scheduler
arm now [] s = record s { timer = Timer.stopped }
arm now (e ∷ es) s = record s { timer = Timer.armed (not_before now e.next_run); reset = true }

unfoldable pub reset_timer : ℕ → Scheduler → Scheduler
unfolding arm
reset_timer now s = elim s.timer [ Timer.unset ↦ s | _ ↦ arm now s.heap s ]

-- the first index with that name
unfoldable pub index_of : Text → List Entry → Option ℕ
index_of name [] = none
index_of name (e ∷ es) =
    let rest = index_of name es in
    if text_eq e.job_name name then some 0 else elim rest [ none ↦ none | some i ↦ some (suc i) ]

unfoldable pub remove_by_name : Text → List Entry → List Entry
unfolding index_of
remove_by_name name h = elim (index_of name h) [ none ↦ h | some i ↦ Heap.remove i h ]

unfoldable pub add_job : ℕ → Text → (ℕ → ℕ) → Scheduler → Scheduler
unfolding remove_by_name reset_timer
add_job now name schedule s =
    let e : Entry = record { job_name = name; schedule = schedule; next_run = schedule now } in
    reset_timer now (record s { heap = Heap.push e (remove_by_name name s.heap) })

unfoldable pub remove_job : ℕ → Text → Scheduler → Scheduler
unfolding remove_by_name reset_timer
remove_job now name s = reset_timer now (record s { heap = remove_by_name name s.heap })

unfoldable pub find_next : Text → List Entry → Option ℕ
find_next name [] = none
find_next name (e ∷ es) = if text_eq e.job_name name then some e.next_run else find_next name es

unfoldable pub next_run_time : Text → Scheduler → Option ℕ
unfolding find_next
next_run_time name s = find_next name s.heap

unfoldable pub start : ℕ → Scheduler → Scheduler
unfolding reset_timer
start now s = reset_timer now (record s { timer = Timer.stopped })

-- The root of the heap when the timer goes off: too early, or due.
on_root : ℕ → Entry → Scheduler → Option Text × Scheduler
on_root now e s = if ltb now e.next_run then (none, reset_timer now s) else (
  some e.job_name,
  reset_timer now
      (record s { heap = Heap.push (record e { next_run = e.schedule now }) (Heap.pop s.heap) }),
)

-- The case of `run` where the timer's channel is ready: the timer has gone off, and is not set
-- any more. The result is the job that is fired, if any.
on_heap : ℕ → List Entry → Scheduler → Option Text × Scheduler
on_heap now [] s = (none, s)
on_heap now (e ∷ es) s = on_root now e s

unfoldable pub timer_fires : ℕ → Scheduler → Option Text × Scheduler
unfolding on_heap on_root reset_timer
timer_fires now s = on_heap now s.heap (record s { timer = Timer.stopped })
