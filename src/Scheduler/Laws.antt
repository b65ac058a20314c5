-- ===== src/Scheduler/Laws.antt =====
-- What the scheduler's functions do to the next run of every job.
use cronbat.Prelude.{
  ℕ, ◌≤◌, ◌≡◌, refl, subst, inl, inr, Bool, true, false, none, some, List, [], ◌∷◌, arith,
  if◌then◌else◌, Bool-cases, Option-cases,
}
use cronbat.Text.{Text, text_eq}
use cronbat.Text.Laws.{text_eq_iff, text_eq→eq}
use cronbat.Scheduler.{
  Scheduler, Timer, reset_timer, arm, index_of, remove_by_name, add_job, remove_job, find_next,
  next_run_time,
}
use cronbat.Scheduler.Names.{
  named, named_at, find_next-eq, find_next-push, find_next_of_count_zero, index_of-some,
  index_of-none,
}
pub use cronbat.Scheduler.Names.{IsUnique}
use cronbat.Scheduler.Heap
use cronbat.Scheduler.Heap.{Entry}
use cronbat.Scheduler.Heap.Counts.{count}
use cronbat.Scheduler.Heap.Contents.{count-push, count-remove}

-- ------------------------------------------------------------------ removal by name

remove_by_name-absent :
    (name : Text) (h : List Entry) → index_of name h ≡ none → remove_by_name name h ≡ h
unfolding remove_by_name
remove_by_name-absent name h e = rw (e, remove_by_name)

remove_by_name-present :
    (name : Text) (h : List Entry) (i : ℕ)
    → index_of name h ≡ some i
    → remove_by_name name h ≡ Heap.remove i h
unfolding remove_by_name
remove_by_name-present name h i e = rw (e, remove_by_name)

-- A test that no entry of the removed name passes counts as before.
count-remove_by_name_other :
    (name : Text) (h : List Entry) (p : Entry → Bool)
    → ((x : Entry) → text_eq x.job_name name ≡ true → p x ≡ false)
    → count p (remove_by_name name h) ≡ count p h
count-remove_by_name_other name h p apart = elim (Option-cases (index_of name h)) [
  | inl absent ↦ rw (remove_by_name-absent name h absent)
  | inr (i, present) ↦
      let (x, at, is) = index_of-some name h i present in
      rw (remove_by_name-present name h i present)
        (ground (arith, count-remove h i x at p, apart x is))
]

-- The removed name is gone.
count-remove_by_name_self :
    (name : Text) (h : List Entry)
    → count (named name) h ≤ 1
    → count (named name) (remove_by_name name h) ≡ 0
count-remove_by_name_self name h u = elim (Option-cases (index_of name h)) [
  | inl absent ↦ rw (remove_by_name-absent name h absent) (index_of-none name h absent)
  | inr (i, present) ↦
      let (x, at, is) = index_of-some name h i present in
      rw (remove_by_name-present name h i present)
        (ground (arith, count-remove h i x at (named name), is))
]

pub find_next-remove_by_name :
    (name n : Text) (h : List Entry)
    → IsUnique h
    → find_next n (remove_by_name name h) ≡ (if text_eq name n then none else find_next n h)
find_next-remove_by_name name n h u = elim (Bool-cases (text_eq name n)) [
  | inl same ↦
      let e : name ≡ n = text_eq→eq name n same in
      rw same (
        find_next_of_count_zero n (remove_by_name name h) (
          subst (λ m. count (named m) (remove_by_name name h) ≡ 0) e
            (count-remove_by_name_self name h (u name))))
  | inr other ↦ rw other (
      find_next-eq n (remove_by_name name h) h
        (omega (arith, others (named n) (λ x is. apart x is other), u n))
        (others (named n) (λ x is. apart x is other))
        (λ t. others (named_at n t) (λ x is. ground (arith, apart x is other))))
]
  where
    apart :
        (x : Entry) → text_eq x.job_name name ≡ true → text_eq name n ≡ false → named n x ≡ false
    apart x is other = ground (arith, text_eq_iff x.job_name name)

    others :
        (p : Entry → Bool)
        → ((x : Entry) → text_eq x.job_name name ≡ true → p x ≡ false)
        → count p (remove_by_name name h) ≡ count p h
    others = count-remove_by_name_other name h

count-remove_by_name-le :
    (name : Text) (h : List Entry) (p : Entry → Bool) → count p (remove_by_name name h) ≤ count p h
count-remove_by_name-le name h p = elim (Option-cases (index_of name h)) [
  | inl absent ↦ rw (remove_by_name-absent name h absent) (omega arith)
  | inr (i, present) ↦
      let (x, at, is) = index_of-some name h i present in
      rw (remove_by_name-present name h i present) (omega (arith, count-remove h i x at p))
]

IsUnique-remove_by_name :
    (name : Text) (h : List Entry) → IsUnique h → IsUnique (remove_by_name name h)
IsUnique-remove_by_name name h u n = omega (arith, count-remove_by_name-le name h (named n), u n)

-- A push of a name that the heap does not have keeps the names apart.
IsUnique-push :
    (e : Entry) (h : List Entry)
    → IsUnique h
    → count (named e.job_name) h ≡ 0
    → IsUnique (Heap.push e h)
IsUnique-push e h u fresh n = elim (Bool-cases (named n e)) [
  | inl same ↦
      let absent : count (named n) h ≡ 0 =
        subst (λ m. count (named m) h ≡ 0) (text_eq→eq e.job_name n same) fresh in
      ground (arith, count-push (named n) e h, same, absent)
  | inr other ↦ ground (arith, count-push (named n) e h, other, u n)
]

pub heap-reset_timer : (now : ℕ) (s : Scheduler) → (reset_timer now s).heap ≡ s.heap
unfolding reset_timer
heap-reset_timer now s = by_timer s.timer s.heap
  where
    armed_heap : (h : List Entry) → (arm now h s).heap ≡ s.heap
    armed_heap [] = refl
    armed_heap (e ∷ es) = refl

    by_timer :
        (t : Timer) (h : List Entry)
        → (elim t as (λ x. Scheduler) [ Timer.unset ↦ s | _ ↦ arm now h s ]).heap ≡ s.heap
    by_timer Timer.unset h = refl
    by_timer Timer.stopped h = armed_heap h
    by_timer (Timer.armed t) h = armed_heap h

-- A push after the removal of its name keeps the names apart and sets that name's next run.
module _ (e : Entry) (h : List Entry) (u : IsUnique h) where
  pub replace-IsUnique : IsUnique (Heap.push e (remove_by_name e.job_name h))
  replace-IsUnique =
      IsUnique-push e (remove_by_name e.job_name h) (IsUnique-remove_by_name e.job_name h u)
        (count-remove_by_name_self e.job_name h (u e.job_name))

  pub find_next-replace :
      (n : Text)
      → find_next n (Heap.push e (remove_by_name e.job_name h))
        ≡ (if text_eq e.job_name n then some e.next_run else find_next n h)
  find_next-replace n = ground (
    arith,
    find_next-push n e (remove_by_name e.job_name h) (replace-IsUnique n),
    find_next-remove_by_name e.job_name n h u,
  )

module _ (now : ℕ) (name : Text) (s : Scheduler) (u : IsUnique s.heap) where
  module _ (schedule : ℕ → ℕ) where
    abbrev e : Entry
    e = record { job_name = name; schedule = schedule; next_run = schedule now }

    abbrev s' : Scheduler
    s' = record s { heap = Heap.push e (remove_by_name name s.heap) }

    pub add_job-IsUnique : IsUnique (add_job now name schedule s).heap
    unfolding add_job
    add_job-IsUnique n = rw (heap-reset_timer now s') (replace-IsUnique e s.heap u n)

    -- After `AddJob`, where no two entries have one name, the job's next run is the schedule's, and
    -- every other job's is what it was.
    pub next_run_time-add_job :
        (n : Text)
        → next_run_time n (add_job now name schedule s)
          ≡ (if text_eq name n then some (schedule now) else next_run_time n s)
    unfolding add_job next_run_time
    next_run_time-add_job n = rw (heap-reset_timer now s') (find_next-replace e s.heap u n)

  pub remove_job-IsUnique : IsUnique (remove_job now name s).heap
  unfolding remove_job
  remove_job-IsUnique n =
      rw (heap-reset_timer now (record s { heap = remove_by_name name s.heap }))
        (IsUnique-remove_by_name name s.heap u n)

  -- After `RemoveJob`, where no two entries have one name, the job has no next run, and every other
  -- job has the one that it had.
  pub next_run_time-remove_job :
      (n : Text)
      → next_run_time n (remove_job now name s)
        ≡ (if text_eq name n then none else next_run_time n s)
  unfolding remove_job next_run_time
  next_run_time-remove_job n =
      rw (heap-reset_timer now (record s { heap = remove_by_name name s.heap }))
        (find_next-remove_by_name name n s.heap u)
