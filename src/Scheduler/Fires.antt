-- ===== src/Scheduler/Fires.antt =====
-- What `run` does when its timer goes off.
use cronbat.Prelude.{
  ℕ, ◌≤◌, ◌≡◌, refl, sym, ap, subst, ◌∙◌, Bool, true, false, Option, none, some, List, [], ◌∷◌,
  arith, ltb, if◌then◌else◌,
}
use cronbat.Text.{Text, text_eq}
use cronbat.Scheduler.{
  Timer, Scheduler, reset_timer, next_run_time, find_next, timer_fires, on_heap, on_root,
}
use cronbat.Scheduler.Heap.{Entry}
use cronbat.Scheduler.Heap
use cronbat.Scheduler.Heap.Counts.{count}
use cronbat.Scheduler.Heap.Contents.{count-push, count-pop}
use cronbat.Scheduler.Names.{named, named_at, IsUnique, find_next-eq}
use cronbat.Scheduler.Laws.{heap-reset_timer}

module _ (e e' : Entry) (es : List Entry) (same : e'.job_name ≡ e.job_name)
    (u : IsUnique (e ∷ es)) where
  -- The heap then holds the first entry's successor in its place.
  counts : (p : Entry → Bool) → count p (Heap.push e' (Heap.pop (e ∷ es))) ≡ count p (e' ∷ es)
  unfolding count
  counts p = omega (arith, count-push p e' (Heap.pop (e ∷ es)), count-pop p e es)

  counts_le : (n : Text) → count (named n) (e' ∷ es) ≤ 1
  unfolding count
  counts_le n = ground (arith, u n, same)

  find_next-again :
      (n : Text)
      → find_next n (Heap.push e' (Heap.pop (e ∷ es)))
        ≡ (if text_eq e.job_name n then some e'.next_run else find_next n (e ∷ es))
  unfolding find_next
  find_next-again n =
      find_next-eq n (Heap.push e' (Heap.pop (e ∷ es))) (e' ∷ es)
        (omega (arith, counts (named n), counts_le n)) (counts (named n))
        (λ t. counts (named_at n t))
      ∙ ground (arith, same)

-- When the timer goes off and the first job of the heap is due, that job is fired; its next run is
-- then the one that its schedule gives after now, and every other job's is what it was. No two
-- entries have one name.
pub timer_fires_due :
    (now : ℕ) (s : Scheduler) (e : Entry) (es : List Entry) (n : Text)
    → s.heap ≡ e ∷ es
    → ltb now e.next_run ≡ false
    → IsUnique s.heap
    → ((timer_fires now s).0 ≡ some e.job_name)
      × (next_run_time n (timer_fires now s).1
          ≡ (if text_eq e.job_name n then some (e.schedule now) else next_run_time n s))
unfolding timer_fires on_heap on_root next_run_time
timer_fires_due now s e es n heap due u =
    let u' : IsUnique (e ∷ es) = rw heap at u in
    let e' : Entry = record e { next_run = e.schedule now } in
    rw (heap, due)
      (
        refl,
        ap (find_next n) (
              heap-reset_timer now
                (record s { heap = Heap.push e' (Heap.pop (e ∷ es)); timer = Timer.stopped }))
            ∙ find_next-again e e' es refl u' n,
      )

-- The ways the timer's case of `run` ends.
module _ (now : ℕ) (s : Scheduler) (u : IsUnique s.heap) where
  pub data Firing : Option Text × Scheduler → Type 0 where
    idle : (s' : Scheduler) → s'.heap ≡ s.heap → Firing (none, s')
    fired :
        (e : Entry) (es : List Entry) (s' : Scheduler)
        → s.heap ≡ e ∷ es
        → ltb now e.next_run ≡ false
        → IsUnique s'.heap
        → ((n : Text)
            → next_run_time n s'
              ≡ (if text_eq e.job_name n then some (e.schedule now) else next_run_time n s))
        → Firing (some e.job_name, s')

  module _ (e : Entry) (es : List Entry) (heap : s.heap ≡ e ∷ es) where
    abbrev again : Entry
    again = record e { next_run = e.schedule now }

    abbrev s₁ : Scheduler
    s₁ = record s { heap = Heap.push again (Heap.pop (e ∷ es)); timer = Timer.stopped }

    abbrev idle_scheduler : Scheduler
    idle_scheduler = record { heap = e ∷ es; timer = Timer.stopped; reset = s.reset }

    by_time-Firing :
        (early : Bool)
        → ltb now e.next_run ≡ early
        → Firing (
            if early
            then (none, reset_timer now idle_scheduler)
            else (some e.job_name, reset_timer now s₁))
    unfolding next_run_time
    by_time-Firing true early = Firing.idle _ (heap-reset_timer now idle_scheduler ∙ sym heap)
    by_time-Firing false due =
        Firing.fired e es _ heap due
          (subst IsUnique (sym (heap-reset_timer now s₁)) (λ n.
            omega (arith, counts e again es refl u' (named n), counts_le e again es refl u' n)))
          (λ n.
            ap (find_next n) (heap-reset_timer now s₁)
            ∙ find_next-again e again es refl u' n
            ∙ ap (λ h. if text_eq e.job_name n then some (e.schedule now) else find_next n h)
                (sym heap))
      where
        u' : IsUnique (e ∷ es)
        u' = subst IsUnique heap u

  on_heap-Firing :
      (h : List Entry)
      → s.heap ≡ h
      → Firing (on_heap now h (record s { heap = h; timer = Timer.stopped }))
  unfolding on_heap on_root
  on_heap-Firing [] heap = Firing.idle _ (sym heap)
  on_heap-Firing (e ∷ es) heap = by_time-Firing e es heap (ltb now e.next_run) refl

  pub timer_fires-Firing : Firing (timer_fires now s)
  unfolding timer_fires
  timer_fires-Firing = on_heap-Firing s.heap refl
