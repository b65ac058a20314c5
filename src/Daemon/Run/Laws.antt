-- ===== src/Daemon/Run/Laws.antt =====
-- Every daemon that is met is consistent.
use cronbat.Prelude.{
  inl, inr, Option-cases, ◌||◌, subst, sym, Bool, ℕ, ◌≡◌, refl, ap, ◌∙◌, true, false, Option, none,
  some, List, ◌∷◌, arith, if◌then◌else◌,
}
use cronbat.Text.{Text, text_eq}
use cronbat.Text.Laws.{text_eq_refl}
use cronbat.Dict.{lookup, is_some}
use cronbat.Errors.{Result}
use cronbat.Config.Job.{Job}
use cronbat.World.{World}
use cronbat.Scheduler
use cronbat.Scheduler.{Scheduler, Timer, timer_fires, find_next}
use cronbat.Scheduler.Heap.{Entry}
use cronbat.Scheduler.Fires.{timer_fires-Firing, Firing}
use cronbat.Daemon.State.{Daemon, JobState}
use cronbat.Daemon.Invariant.{
  IsConsistent, IsConsistent-step, IsConsistent-excuse, same_heap-IsConsistent, Fits, OnSchedule,
  runs,
}
use cronbat.Daemon.Create.Correct.{create_job-IsConsistent}
use cronbat.Daemon.Enable.{enable_job, disable_job}
use cronbat.Daemon.Enable.Correct.{set_job_enabled-IsConsistent, lifecycle-IsConsistent}
use cronbat.Daemon.Remove.{archive_job}
use cronbat.Daemon.Remove.Correct.{delete_job-IsConsistent, Forgotten-IsConsistent}
use cronbat.Daemon.Remove.Laws.{Unscheduled, Archiving, archive_job-Archiving}
use cronbat.Daemon.Settings.Correct.{update_job_settings-IsConsistent}
use cronbat.Daemon.Yaml.Correct.{update_job_yaml-IsConsistent}
use cronbat.Daemon.Boot.Laws.{boot-IsConsistent}
use cronbat.Daemon.Run.{Call, fire, perform, outcome, excused_after, Reached}

-- Whether a job is on the schedule matters, not when it is due.
Fits-some :
    (lax : Text → Bool) (w : World) (n : Text) (j : Option Job) (s : Option JobState)
    (t t' : Option ℕ)
    → Fits lax w n j s t
    → is_some t' ≡ is_some t
    → Fits lax w n j s t'
Fits-some lax w n none s t t' h e = (h.0, none_of t' (e ∙ ap is_some h.1))
  where
    none_of : (t : Option ℕ) → is_some t ≡ false → t ≡ none
    none_of none g = refl
    none_of (some x) g = absurd (cc)
Fits-some lax w n (some j) s t t' h e =
    (h.0, h.1, h.2, subst (λ b. OnSchedule (lax n) b (runs w j)) (sym e) h.3)

is_some-first :
    (n : Text) (e : Entry) (es h : List Entry)
    → h ≡ e ∷ es
    → text_eq e.job_name n ≡ true
    → is_some (find_next n h) ≡ true
unfolding find_next
is_some-first n e es h heap same = rw heap (rw same refl)

module _ {lax : Text → Bool} (w : World) (d : Daemon) (h : IsConsistent lax w d) where
  -- A job that is put back at its new time is still on the schedule.
  Firing-IsConsistent :
      (now : ℕ) (r : Option Text × Scheduler)
      → Firing now d.sched h.unique r
      → IsConsistent lax w (record d { sched = r.1 })
  unfolding Scheduler.next_run_time
  Firing-IsConsistent now _ (Firing.idle s' same) = same_heap-IsConsistent w d s' same h
  Firing-IsConsistent now _ (Firing.fired e es s' heap due u next) = record {
    unique = u;
    fits = λ n.
        Fits-some lax w n (lookup n d.jobs) (lookup n d.states) (Scheduler.next_run_time n d.sched)
          (Scheduler.next_run_time n s') (h.fits n) (is_some-next e es s' heap next n);
  }
    where
      is_some-next :
          (e : Entry) (es : List Entry) (s' : Scheduler)
          → d.sched.heap ≡ e ∷ es
          → ((n : Text)
              → Scheduler.next_run_time n s' ≡ (
                  if text_eq e.job_name n
                  then some (e.schedule now)
                  else Scheduler.next_run_time n d.sched))
          → (n : Text)
          → is_some (Scheduler.next_run_time n s') ≡ is_some (Scheduler.next_run_time n d.sched)
      is_some-next e es s' heap next n =
          ground (arith, next n, is_some-first n e es d.sched.heap heap)

module _ {lax : Text → Bool} (w : World) (jobs_dir : Text) (now : ℕ) (d : Daemon)
    (h : IsConsistent lax w d) where
  -- An archiving that fails takes its job off the schedule, and changes nothing else.
  left-IsConsistent :
      (name : Text) (d' : Daemon)
      → Unscheduled w jobs_dir now name d h d'
      → IsConsistent (λ n. text_eq name n || lax n) w d'
  left-IsConsistent name d' u =
      IsConsistent-step w d d' name (IsConsistent-excuse _ w d (λ n held. ground arith) h) u.unique
        u.others
        (rw (u.jobs name, u.states name, u.next)
          (by_job (lookup name d.jobs) (lookup name d.states) (Scheduler.next_run_time name d.sched)
            (h.fits name)))
    where
      by_job :
          (j : Option Job) (s : Option JobState) (t : Option ℕ)
          → Fits lax w name j s t
          → Fits (λ n. text_eq name n || lax n) w name j s none
      by_job none s t f = (f.0, refl)
      by_job (some j) s t f = (
        f.0,
        f.1,
        f.2,
        record {
          sound = λ on. absurd (cc);
          complete = λ held. absurd (ground (arith, text_eq_refl name));
        },
      )

  Archiving-keeps :
      (name stamp : Text) (r : Result (Unit {0}) × Daemon)
      → Archiving w jobs_dir now name d h stamp r
      → IsConsistent (excused_after (Call.archive name stamp) (outcome r).0 lax) w (outcome r).1
  Archiving-keeps name stamp _ (Archiving.absent none_found) =
      IsConsistent-excuse _ w d (λ n held. ground arith) h
  Archiving-keeps name stamp _ (Archiving.left e d' u) = left-IsConsistent name d' u
  Archiving-keeps name stamp _ (Archiving.archived j d' found file f) =
      Forgotten-IsConsistent w jobs_dir now name d h d' f

  pub perform-IsConsistent :
      (c : Call)
      → IsConsistent
          (excused_after c (perform w jobs_dir now c d).0 lax)
          w
          (perform w jobs_dir now c d).1
  unfolding perform fire enable_job disable_job
  perform-IsConsistent (Call.create j) = create_job-IsConsistent w jobs_dir now j d h
  perform-IsConsistent (Call.enable name) =
      set_job_enabled-IsConsistent w jobs_dir now name d h true
  perform-IsConsistent (Call.disable name) =
      set_job_enabled-IsConsistent w jobs_dir now name d h false
  perform-IsConsistent (Call.start name) = (lifecycle-IsConsistent w jobs_dir now name d h).0
  perform-IsConsistent (Call.stop name) = (lifecycle-IsConsistent w jobs_dir now name d h).1
  perform-IsConsistent (Call.pause name) = (lifecycle-IsConsistent w jobs_dir now name d h).2
  perform-IsConsistent (Call.delete name) = delete_job-IsConsistent w jobs_dir now name d h
  perform-IsConsistent (Call.archive name stamp) =
      Archiving-keeps name stamp (archive_job w jobs_dir now name stamp d)
        (archive_job-Archiving w jobs_dir now name d h stamp)
  perform-IsConsistent (Call.update_settings name j) =
      update_job_settings-IsConsistent w jobs_dir now name j d h
  perform-IsConsistent (Call.update_yaml name content) =
      update_job_yaml-IsConsistent w jobs_dir now name content d h
  perform-IsConsistent Call.timer =
      Firing-IsConsistent w d h now (timer_fires now d.sched)
        (timer_fires-Firing now d.sched h.unique)

-- A call that goes well excuses no name.
excused_after_done : (c : Call) (lax : Text → Bool) (n : Text) → excused_after c true lax n ≡ lax n
excused_after_done (Call.create j) lax n = refl
excused_after_done (Call.enable name) lax n = refl
excused_after_done (Call.disable name) lax n = refl
excused_after_done (Call.start name) lax n = refl
excused_after_done (Call.stop name) lax n = refl
excused_after_done (Call.pause name) lax n = refl
excused_after_done (Call.delete name) lax n = refl
excused_after_done (Call.archive name stamp) lax n = refl
excused_after_done (Call.update_settings name j) lax n = refl
excused_after_done (Call.update_yaml name content) lax n = refl
excused_after_done Call.timer lax n = refl

pub perform-IsConsistent_done :
    {lax : Text → Bool} (w : World) (jobs_dir : Text) (now : ℕ) (d : Daemon)
    → IsConsistent lax w d
    → (c : Call) → (perform w jobs_dir now c d).0 ≡ true
    → IsConsistent lax w (perform w jobs_dir now c d).1
perform-IsConsistent_done {lax = lax} w jobs_dir now d h c went_well =
    IsConsistent-excuse lax w (perform w jobs_dir now c d).1
      (λ n held. ap (λ b. excused_after c b lax n) went_well ∙ excused_after_done c lax n ∙ held)
      (perform-IsConsistent w jobs_dir now d h c)

-- Every daemon that is met, from its start with trimmed names through any calls and firings of the
-- timer, failing ones included, each ended before the next begins, is consistent: under each name
-- the job map, the state map and the scheduler agree. Only where an archiving of a name has failed
-- may the job of that name be off the schedule although it is to run; what is on the schedule is
-- even then an enabled job on record whose schedule parses.
pub Reached-IsConsistent :
    (w : World) (jobs_dir : Text) (lax : Text → Bool) (d : Daemon)
    → Reached w jobs_dir lax d
    → IsConsistent lax w d
Reached-IsConsistent w jobs_dir _ _ (Reached.booted clock now jobs disk clean) =
    boot-IsConsistent w clock now jobs disk clean
Reached-IsConsistent w jobs_dir _ _ (Reached.called lax now c d r) =
    perform-IsConsistent w jobs_dir now d (Reached-IsConsistent w jobs_dir lax d r) c

-- What a daemon that is met has on the schedule is a job on record that is to run.
pub Reached-runs :
    (w : World) (jobs_dir : Text) (lax : Text → Bool) (d : Daemon) (n : Text) (u : ℕ)
    → Reached w jobs_dir lax d
    → Scheduler.next_run_time n d.sched ≡ some u
    → (j : Job) × (lookup n d.jobs ≡ some j) × (runs w j ≡ true)
Reached-runs w jobs_dir lax d n u r next = elim (Option-cases (lookup n d.jobs)) [
  | inl absent ↦ absurd (cc (sym next ∙ (rw absent at (h.fits n)).1))
  | inr (j, there) ↦
      let fits : Fits lax w n (some j) (lookup n d.states) (Scheduler.next_run_time n d.sched) =
        rw there at (h.fits n) in
      (j, there, fits.3.sound (ap is_some next))
]
  where
    h : IsConsistent lax w d
    h = Reached-IsConsistent w jobs_dir lax d r
