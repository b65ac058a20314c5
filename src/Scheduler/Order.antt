-- ===== src/Scheduler/Order.antt =====
-- A scheduler through any calls: the heap stays in order, so the timer wakes `run` for the earliest
-- job, and jobs are fired by the order of their next runs.
use cronbat.Prelude.{
  ℕ, suc, ◌≤◌, ◌<◌, ◌≡◌, ◌≢◌, refl, sym, subst, inl, inr, some, Option-cases, Bool-cases, List, [],
  ◌∷◌, arith, ltb, length, lt_of_get_elem?,
}
use cronbat.Text.{Text, text_eq}
use cronbat.Text.Laws.{text_eq_iff}
use cronbat.Scheduler.{
  Scheduler, Timer, new_scheduler, not_before, reset_timer, arm, index_of, remove_by_name, add_job,
  remove_job, start, timer_fires, on_heap, on_root, next_run_time, find_next,
}
use cronbat.Scheduler.Heap.{Entry}
use cronbat.Scheduler.Heap
use cronbat.Scheduler.Heap.Order.{key, IsHeap}
use cronbat.Scheduler.Heap.Laws.{push-IsHeap, pop-IsHeap, remove-IsHeap, root_least}
use cronbat.Scheduler.Names.{index_of-some}

-- What can be reached by the scheduler's calls and its timer, with the clock at the last of them.
pub data Reached : ℕ → Scheduler → Type 0 where
  fresh : (now : ℕ) → Reached now new_scheduler
  added :
      (last now : ℕ) (name : Text) (schedule : ℕ → ℕ) (s : Scheduler)
      → Reached last s
      → Reached now (add_job now name schedule s)
  removed :
      (last now : ℕ) (name : Text) (s : Scheduler)
      → Reached last s
      → Reached now (remove_job now name s)
  started : (last now : ℕ) (s : Scheduler) → Reached last s → Reached now (start now s)
  woken : (last now : ℕ) (s : Scheduler) → Reached last s → Reached now (timer_fires now s).1

-- How the timer stands to the heap.
data Timed (now : ℕ) : Timer → List Entry → Type 0 where
  unset : (h : List Entry) → Timed now Timer.unset h
  idle : Timed now Timer.stopped []
  set : (e : Entry) (es : List Entry) → Timed now (Timer.armed (not_before now e.next_run)) (e ∷ es)

record IsTimely (now : ℕ) (s : Scheduler) : Type 0 where
  ordered : IsHeap s.heap
  timed : Timed now s.timer s.heap

-- Whatever the timer was, `resetTimerLocked` sets it for the first entry.
reset_timer-IsTimely : (now : ℕ) (s : Scheduler) → IsHeap s.heap → IsTimely now (reset_timer now s)
unfolding reset_timer
reset_timer-IsTimely now s ordered = by_timer s.timer refl s.heap refl
  where
    arm-IsTimely : (h : List Entry) → s.heap ≡ h → IsTimely now (arm now h s)
    arm-IsTimely [] e = record {
      ordered = ordered;
      timed = subst (Timed now Timer.stopped) (sym e) Timed.idle;
    }
    arm-IsTimely (x ∷ xs) e = record {
      ordered = ordered;
      timed = subst (Timed now (Timer.armed (not_before now x.next_run))) (sym e) (Timed.set x xs);
    }

    by_timer :
        (t : Timer)
        → s.timer ≡ t
        → (h : List Entry) → s.heap ≡ h
        → IsTimely now (elim t as (λ x. Scheduler) [ Timer.unset ↦ s | _ ↦ arm now h s ])
    by_timer Timer.unset te h e = record {
      ordered = ordered;
      timed = subst (λ t. Timed now t s.heap) (sym te) (Timed.unset s.heap);
    }
    by_timer Timer.stopped te h e = arm-IsTimely h e
    by_timer (Timer.armed t) te h e = arm-IsTimely h e

remove_by_name-IsHeap : (name : Text) (h : List Entry) → IsHeap h → IsHeap (remove_by_name name h)
unfolding remove_by_name
remove_by_name-IsHeap name h ordered = elim (Option-cases (index_of name h)) [
  | inl absent ↦ rw (absent, remove_by_name) ordered
  | inr (i, present) ↦
      let (x, at, is) = index_of-some name h i present in
      rw (present, remove_by_name) (remove-IsHeap i h (lt_of_get_elem? h i x at) ordered)
]

timer_fires-IsTimely :
    (now : ℕ) (s : Scheduler) → IsHeap s.heap → IsTimely now (timer_fires now s).1
unfolding timer_fires on_heap on_root
timer_fires-IsTimely now s = by_heap s.heap
  where
    by_heap :
        (h : List Entry)
        → IsHeap h
        → IsTimely now (on_heap now h (record s { heap = h; timer = Timer.stopped })).1
    by_heap [] ordered = record { ordered = ordered; timed = Timed.idle }
    by_heap (e ∷ es) ordered = elim (Bool-cases (ltb now e.next_run)) [
      | inl early ↦ rw early (
          reset_timer-IsTimely now
            (record { heap = e ∷ es; timer = Timer.stopped; reset = s.reset }) ordered)
      | inr due ↦ rw due (
          reset_timer-IsTimely now
            (record {
              heap = Heap.push (record e { next_run = e.schedule now }) (Heap.pop (e ∷ es));
              timer = Timer.stopped;
              reset = s.reset;
            })
            (push-IsHeap _ (Heap.pop (e ∷ es)) (pop-IsHeap (e ∷ es) (omega arith) ordered)))
    ]

Reached-IsTimely : (now : ℕ) (s : Scheduler) → Reached now s → IsTimely now s
unfolding add_job remove_job start
Reached-IsTimely _ _ (Reached.fresh now) = record {
  ordered = λ c pos lt. absurd (omega arith);
  timed = Timed.unset [];
}
Reached-IsTimely _ _ (Reached.added last now name schedule s r) =
    reset_timer-IsTimely now _
      (push-IsHeap _ _ (remove_by_name-IsHeap name s.heap (Reached-IsTimely last s r).ordered))
Reached-IsTimely _ _ (Reached.removed last now name s r) =
    reset_timer-IsTimely now _
      (remove_by_name-IsHeap name s.heap (Reached-IsTimely last s r).ordered)
Reached-IsTimely _ _ (Reached.started last now s r) =
    reset_timer-IsTimely now (record s { timer = Timer.stopped })
      (Reached-IsTimely last s r).ordered
Reached-IsTimely _ _ (Reached.woken last now s r) =
    timer_fires-IsTimely now s (Reached-IsTimely last s r).ordered

-- ------------------------------------------------------------------ what follows for the jobs

find_next_key :
    (n : Text) (t : ℕ) (h : List Entry)
    → find_next n h ≡ some t
    → (i : ℕ) × (i < length h) × (key h i ≡ t)
unfolding find_next
find_next_key n t [] e = absurd (cc)
find_next_key n t (x ∷ xs) e = elim (Bool-cases (text_eq x.job_name n)) [
  | inl same ↦ (0, omega arith, ground arith)
  | inr other ↦ let (i, lt, at) = find_next_key n t xs (ground arith) in (suc i, omega arith, at)
]

-- A job that has a next run has it no earlier than the first entry.
first_least :
    (n : Text) (t : ℕ) (e : Entry) (es : List Entry)
    → IsHeap (e ∷ es)
    → find_next n (e ∷ es) ≡ some t
    → e.next_run ≤ t
first_least n t e es ordered found =
    let (i, lt, at) = find_next_key n t (e ∷ es) found in
    omega (arith, root_least (e ∷ es) ordered i lt)

-- In a scheduler that any calls have led to and that is started, for each job with a next run the
-- timer is set, and for a time no later than that run, or than the clock at the last call if the
-- run was then past.
pub Reached-Wakes :
    (now : ℕ) (s : Scheduler) (n : Text) (t : ℕ)
    → Reached now s
    → s.timer ≢ Timer.unset
    → next_run_time n s ≡ some t
    → (u : ℕ) × (s.timer ≡ Timer.armed u) × (u ≤ not_before now t)
unfolding next_run_time find_next
Reached-Wakes now s n t r is_set found =
    by_timed s.timer s.heap timely.ordered is_set found timely.timed
  where
    timely : IsTimely now s
    timely = Reached-IsTimely now s r

    by_timed :
        (timer : Timer) (h : List Entry)
        → IsHeap h
        → timer ≢ Timer.unset
        → find_next n h ≡ some t
        → Timed now timer h
        → (u : ℕ) × (timer ≡ Timer.armed u) × (u ≤ not_before now t)
    by_timed _ _ ordered is_set found (Timed.unset h) = absurd (is_set refl)
    by_timed _ _ ordered is_set found Timed.idle = absurd (cc)
    by_timed _ _ ordered is_set found (Timed.set e es) =
        (not_before now e.next_run, refl, ground (arith, first_least n t e es ordered found))

-- When the timer of a scheduler that any calls have led to goes off and fires a job, that job was
-- due, and no job had an earlier next run.
pub Reached-fires_first :
    (last now : ℕ) (s : Scheduler) (j n : Text) (t : ℕ)
    → Reached last s
    → (timer_fires now s).0 ≡ some j
    → next_run_time n s ≡ some t
    → (u : ℕ) × (next_run_time j s ≡ some u) × (u ≤ now) × (u ≤ t)
unfolding next_run_time timer_fires on_heap on_root find_next
Reached-fires_first last now s j n t r fires found =
    by_heap s.heap (Reached-IsTimely last s r).ordered fires found
  where
    by_heap :
        (h : List Entry)
        → IsHeap h
        → (on_heap now h (record s { heap = h; timer = Timer.stopped })).0 ≡ some j
        → find_next n h ≡ some t
        → (u : ℕ) × (find_next j h ≡ some u) × (u ≤ now) × (u ≤ t)
    by_heap [] ordered fires found = absurd (cc)
    by_heap (e ∷ es) ordered fires found = (
      e.next_run,
      ground (arith, text_eq_iff e.job_name j),
      ground arith,
      first_least n t e es ordered found,
    )

-- When the timer of a scheduler that any calls have led to goes off and some job is due, a job is
-- fired.
pub Reached-some_fires :
    (last now : ℕ) (s : Scheduler) (n : Text) (t : ℕ)
    → Reached last s
    → next_run_time n s ≡ some t
    → t ≤ now
    → (j : Text) × ((timer_fires now s).0 ≡ some j)
unfolding next_run_time timer_fires on_heap on_root find_next
Reached-some_fires last now s n t r found due =
    by_heap s.heap (Reached-IsTimely last s r).ordered found
  where
    by_heap :
        (h : List Entry)
        → IsHeap h
        → find_next n h ≡ some t
        → (j : Text) × ((on_heap now h (record s { heap = h; timer = Timer.stopped })).0 ≡ some j)
    by_heap [] ordered found = absurd (cc)
    by_heap (e ∷ es) ordered found =
        (e.job_name, ground (arith, first_least n t e es ordered found))
