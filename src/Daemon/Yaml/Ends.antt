-- ===== src/Daemon/Yaml/Ends.antt =====
-- The ways a call of `updateJobYAML` ends.
use cronbat.Prelude.{
  ℕ, ◌≡◌, refl, inl, inr, Bool, true, false, not, ◌&&◌, Option, none, some, arith, if◌then◌else◌,
  Bool-cases,
}
use cronbat.Text.{Text, text_eq}
use cronbat.Text.Laws.{text_eq_refl, text_eq_iff}
use cronbat.Dict.{
  Dict, lookup, insert, remove, is_some, lookup-insert, lookup-insert_self, lookup-remove,
  lookup-remove_self,
}
use cronbat.Errors.{Error, Result, ok, err}
use cronbat.Config.Job.{Job, is_enabled}
use cronbat.Config.Saving.{Saving, OnlyAt-insert, save_job-Saving}
use cronbat.World.{World, Disk, remove_file}
use cronbat.Scheduler
use cronbat.Scheduler.{Scheduler}
use cronbat.Scheduler.Laws.{IsUnique, remove_job-IsUnique, next_run_time-remove_job}
use cronbat.Daemon.State.{
  Daemon, not_found, already_exists, apply_schedule, default_path, job_file_path,
}
use cronbat.Daemon.Invariant.{
  IsConsistent, SameAt, RolledBack, due_at, apply_schedule-IsUnique, next-apply_schedule,
}
use cronbat.Daemon.Settings.{next_state}
use cronbat.Daemon.Yaml.{
  parse_update, renamed, restore, old_removed, yaml_saved, yaml_scheduled, yaml_applied,
  yaml_current, yaml_parsed, update_job_yaml,
}
use cronbat.Daemon.Yaml.Laws.{
  apply_schedule-err, Removing, IsGone, remove_file-Removing, lookup-renamed,
}
use cronbat.Daemon.Yaml.Undo.{Shifted, undo_update-RolledBack, restore-RolledBack}

-- The job that the update puts on record, with the path that its name gives
abbrev pub placed : World → Text → Job → Job
placed w jobs_dir parsed = record parsed { file_path = default_path w jobs_dir parsed.name }

-- What is done about the old file ends well where it is removed, or is not there.
abbrev ends_well : Result (Unit {0}) → Bool
ends_well (ok u) = true
ends_well (err e) = e.is_not_exist

removed_other :
    (p q text : Text) (d : Disk)
    → text_eq p q ≡ false
    → lookup p (remove q (insert p text d)) ≡ some text
removed_other p q text d apart = ground (
  arith,
  lookup-remove q p (insert p text d),
  lookup-insert_self p text d,
  text_eq_iff p q,
  text_eq_iff q p,
)

is_some-none {ℓ} : {V : Type ℓ} (r : Option V) → is_some r ≡ false → r ≡ none
is_some-none none h = refl
is_some-none (some v) h = absurd (cc)

module _ {lax : Text → Bool} (w : World) (jobs_dir : Text) (now : ℕ) (name : Text) (content : Text)
    (d : Daemon) (h : IsConsistent lax w d) where
  -- The job `parsed` has taken the place of the one under `name`.
  pub record Rewritten (old parsed : Job) (d' : Daemon) : Type 0 where
    pub unique : IsUnique d'.sched.heap
    pub job : lookup parsed.name d'.jobs ≡ some (placed w jobs_dir parsed)
    pub state : lookup parsed.name d'.states ≡ some (next_state parsed (lookup name d.states))
    pub next : Scheduler.next_run_time parsed.name d'.sched ≡ due_at w now parsed
    pub old_job : text_eq parsed.name name ≡ false → lookup name d'.jobs ≡ none
    pub old_state : text_eq parsed.name name ≡ false → lookup name d'.states ≡ none
    pub old_next : text_eq parsed.name name ≡ false → Scheduler.next_run_time name d'.sched ≡ none
    pub others : (n : Text) → text_eq parsed.name n ≡ false → text_eq name n ≡ false → SameAt d d' n
    pub file :
        (text : Text) × (w.marshal (placed w jobs_dir parsed) ≡ ok text)
        × (lookup (default_path w jobs_dir parsed.name) d'.disk ≡ some text)
    pub other_files :
        (p : Text)
        → text_eq (default_path w jobs_dir parsed.name) p ≡ false
        → text_eq (job_file_path w jobs_dir old) p ≡ false
        → lookup p d'.disk ≡ lookup p d.disk
    pub old_file :
        text_eq (default_path w jobs_dir parsed.name) (job_file_path w jobs_dir old) ≡ false
        → IsGone w (job_file_path w jobs_dir old) d'.disk

  pub data Ends : Result Text × Daemon → Type 0 where
    invalid : (e : Error) → parse_update w content ≡ err e → Ends (err e, d)
    absent : lookup name d.jobs ≡ none → Ends (err (not_found name), d)
    taken :
        (parsed : Job)
        → text_eq parsed.name name ≡ false
        → is_some (lookup parsed.name d.jobs) ≡ true
        → Ends (err (already_exists parsed.name), d)
    failed :
        (old : Job) (e : Error) (d' : Daemon)
        → lookup name d.jobs ≡ some old
        → RolledBack w now name old d d'
        → Ends (err e, d')
    done :
        (old parsed : Job) (d' : Daemon)
        → lookup name d.jobs ≡ some old
        → parse_update w content ≡ ok parsed
        → (text_eq parsed.name name ≡ false → lookup parsed.name d.jobs ≡ none)
        → Rewritten old parsed d'
        → Ends (ok parsed.name, d')

  -- The files after an update of the job `old` to `parsed`, whose text is `text`.
  record FilesOf (old parsed : Job) (text : Text) (disk : Disk) : Type 0 where
    held : lookup (default_path w jobs_dir parsed.name) disk ≡ some text
    others :
        (p : Text)
        → text_eq (default_path w jobs_dir parsed.name) p ≡ false
        → text_eq (job_file_path w jobs_dir old) p ≡ false
        → lookup p disk ≡ lookup p d.disk
    gone :
        text_eq (default_path w jobs_dir parsed.name) (job_file_path w jobs_dir old) ≡ false
        → IsGone w (job_file_path w jobs_dir old) disk

  -- The new file is written, and what is done about the old one ends well.
  written-FilesOf :
      (old parsed : Job) (text : Text)
      → text_eq (default_path w jobs_dir parsed.name) (job_file_path w jobs_dir old) ≡ false
      → {r : Result (Unit {0}) × Disk}
      → Removing w
          (job_file_path w jobs_dir old)
          (insert (default_path w jobs_dir parsed.name) text d.disk)
          r
      → ends_well r.0 ≡ true
      → FilesOf old parsed text r.1
  written-FilesOf old parsed text apart (Removing.removed fine) well = record {
    held =
        removed_other (default_path w jobs_dir parsed.name) (job_file_path w jobs_dir old) text
          d.disk apart;
    others = λ p o o'. ground (
      arith,
      lookup-remove (job_file_path w jobs_dir old) p
          (insert (default_path w jobs_dir parsed.name) text d.disk),
      lookup-insert (default_path w jobs_dir parsed.name) p text d.disk,
    );
    gone = λ a. (
      λ sound.
          lookup-remove_self (job_file_path w jobs_dir old)
            (insert (default_path w jobs_dir parsed.name) text d.disk),
      λ e fault. absurd (cc (fine, fault)),
    );
  }
  written-FilesOf old parsed text apart (Removing.absent fine none_there) well = record {
    held = lookup-insert_self _ text d.disk;
    others = λ p o o'. OnlyAt-insert _ text d.disk p o;
    gone = λ a. (λ sound. none_there, λ e fault. absurd (cc (fine, fault)));
  }
  written-FilesOf old parsed text apart (Removing.failed e fault) well = record {
    held = lookup-insert_self _ text d.disk;
    others = λ p o o'. OnlyAt-insert _ text d.disk p o;
    gone = λ a. (λ sound. absurd (cc (sound, fault)), λ e' fault'. cc (fault, fault', well));
  }

  module _ (old : Job) (found : lookup name d.jobs ≡ some old) (parsed : Job)
      (checked : parse_update w content ≡ ok parsed)
      (fresh : text_eq parsed.name name ≡ false → lookup parsed.name d.jobs ≡ none) where
    abbrev j : Job
    j = placed w jobs_dir parsed

    abbrev d₁ : Daemon
    d₁ = record d {
      jobs = renamed w jobs_dir now name parsed.name j d.jobs;
      states =
          renamed w jobs_dir now name parsed.name (next_state j (lookup name d.states)) d.states;
    }

    jobs₁ :
        (n : Text)
        → lookup n d₁.jobs ≡ (
            if text_eq parsed.name n
            then some j
            else if text_eq name n
            then none
            else lookup n d.jobs)
    jobs₁ n = lookup-renamed w jobs_dir now name parsed.name n j d.jobs

    states₁ :
        (n : Text)
        → lookup n d₁.states ≡ (
            if text_eq parsed.name n
            then some (next_state j (lookup name d.states))
            else if text_eq name n
            then none
            else lookup n d.states)
    states₁ n =
        lookup-renamed w jobs_dir now name parsed.name n (next_state j (lookup name d.states))
          d.states

    -- After the new schedule was applied.
    module _ (s : Scheduler) (u : IsUnique s.heap)
        (at : (n : Text)
          → Scheduler.next_run_time n s ≡ (
              if text_eq parsed.name n
              then due_at w now j
              else if text_eq name n
              then none
              else Scheduler.next_run_time n d.sched)) where
      -- The daemon once the new schedule is applied, whatever the maps of jobs and files hold
      abbrev with_jobs : Dict Job → Disk → Daemon
      with_jobs m disk = record d₁ { jobs = m; sched = s; disk = disk }

      abbrev saved_jobs : Dict Job
      saved_jobs = insert parsed.name j d₁.jobs

      shifted :
          (m : Dict Job) (disk : Disk)
          → ((n : Text)
              → text_eq parsed.name n ≡ false
              → text_eq name n ≡ false
              → lookup n m ≡ lookup n d.jobs)
          → Shifted w jobs_dir now name d h old found parsed.name fresh (with_jobs m disk)
      shifted m disk same = record {
        unique = u;
        jobs = same;
        states = λ n o o'. ground (arith, states₁ n);
        next = λ n o o'. ground (arith, at n);
      }

      saved_same :
          (n : Text)
          → text_eq parsed.name n ≡ false
          → text_eq name n ≡ false
          → lookup n saved_jobs ≡ lookup n d.jobs
      saved_same n o o' = ground (arith, lookup-insert parsed.name n j d₁.jobs, jobs₁ n)

      with_jobs-Rewritten :
          (disk : Disk) (text : Text)
          → w.marshal j ≡ ok text
          → FilesOf old parsed text disk
          → Rewritten old parsed (with_jobs saved_jobs disk)
      unfolding due_at is_enabled
      with_jobs-Rewritten disk text m files = record {
        unique = u;
        job = lookup-insert_self parsed.name j d₁.jobs;
        state = ground (arith, states₁ parsed.name, text_eq_refl parsed.name);
        next = ground (arith, at parsed.name, text_eq_refl parsed.name);
        old_job = λ o.
            ground (arith, lookup-insert parsed.name name j d₁.jobs, jobs₁ name, text_eq_refl name);
        old_state = λ o. ground (arith, states₁ name, text_eq_refl name);
        old_next = λ o. ground (arith, at name, text_eq_refl name);
        others = λ n o o'. record {
          jobs = saved_same n o o';
          states = ground (arith, states₁ n);
          next = ground (arith, at n);
        };
        file = (text, m, files.held);
        other_files = files.others;
        old_file = files.gone;
      }

      module _ (disk : Disk) (text : Text) (m : w.marshal j ≡ ok text) where
        by_kind-Ends :
            (gone : Bool) (e : Error) (disk' : Disk)
            → (gone ≡ true → FilesOf old parsed text disk')
            → Ends (
                if gone then (ok parsed.name, with_jobs saved_jobs disk') else (
                  err e,
                  restore w jobs_dir now name parsed.name old
                      (lookup name d.states)
                      (with_jobs saved_jobs (remove_file w j.file_path disk').1),
                ))
        by_kind-Ends true e disk' files =
            Ends.done old parsed _ found checked fresh
              (with_jobs-Rewritten disk' text m (files refl))
        by_kind-Ends false e disk' files = Ends.failed old e _ found (
            restore-RolledBack w jobs_dir now name d h old found parsed.name fresh _
              (shifted saved_jobs (remove_file w j.file_path disk').1 saved_same))

        old_removed-Ends :
            (r : Result (Unit {0}) × Disk)
            → (ends_well r.0 ≡ true → FilesOf old parsed text r.1)
            → Ends (
                old_removed w jobs_dir now name parsed.name j.file_path old
                  (lookup name d.states)
                  (with_jobs saved_jobs disk)
                  r)
        unfolding old_removed
        old_removed-Ends (ok _, disk') files =
            Ends.done old parsed _ found checked fresh
              (with_jobs-Rewritten disk' text m (files refl))
        old_removed-Ends (err e, disk') files = by_kind-Ends e.is_not_exist e disk' files

      yaml_saved-Ends :
          {r : Result Job × Disk}
          → Saving w j.file_path j d.disk r
          → Ends (
              yaml_saved w jobs_dir now name parsed.name j.file_path old
                (lookup name d.states)
                (record d₁ { sched = s })
                r)
      unfolding yaml_saved
      yaml_saved-Ends (Saving.failed e disk files) = Ends.failed old e _ found (
          restore-RolledBack w jobs_dir now name d h old found parsed.name fresh _
            (shifted d₁.jobs disk (λ n o o'. ground (arith, jobs₁ n))))
      yaml_saved-Ends (Saving.saved text m) =
          elim (Bool-cases (text_eq j.file_path (job_file_path w jobs_dir old))) [
            | inl same ↦ rw same (
                Ends.done old parsed _ found checked fresh (
                  with_jobs-Rewritten written text m (record {
                    held = lookup-insert_self j.file_path text d.disk;
                    others = λ p o o'. OnlyAt-insert j.file_path text d.disk p o;
                    gone = λ apart. absurd (cc (same, apart));
                  })))
            | inr apart ↦ rw apart (
                old_removed-Ends written text m
                  (remove_file w (job_file_path w jobs_dir old) written)
                  (written-FilesOf old parsed text apart
                    (remove_file-Removing w (job_file_path w jobs_dir old) written)))
          ]
        where
          written : Disk
          written = insert j.file_path text d.disk

      yaml_scheduled-Ends :
          (r : Result (Unit {0}))
          → ((e : Error) → r ≡ err e → due_at w now j ≡ none)
          → Ends (yaml_scheduled w jobs_dir now name j old (lookup name d.states) d₁ (r, s))
      unfolding yaml_scheduled
      yaml_scheduled-Ends (err e) never = Ends.failed old e _ found (
          undo_update-RolledBack w jobs_dir now name d h old found parsed.name fresh _
            (shifted d₁.jobs d.disk (λ n o o'. ground (arith, jobs₁ n)))
            (λ o. ground (arith, at parsed.name, text_eq_refl parsed.name, never e refl)))
      yaml_scheduled-Ends (ok _) never = yaml_saved-Ends (save_job-Saving w j.file_path j d.disk)

    yaml_applied-Ends : Ends (yaml_applied w jobs_dir now name parsed old d)
    unfolding yaml_applied
    yaml_applied-Ends =
        yaml_scheduled-Ends (apply_schedule w now j s₀).1 (apply_schedule-IsUnique w now j s₀ u₀)
          (λ n. ground (
            arith,
            next-apply_schedule w now j s₀ u₀ n,
            next_run_time-remove_job now name d.sched h.unique n,
          ))
          (apply_schedule w now j s₀).0 (apply_schedule-err w now j s₀)
      where
        s₀ : Scheduler
        s₀ = Scheduler.remove_job now name d.sched

        u₀ : IsUnique s₀.heap
        u₀ = remove_job-IsUnique now name d.sched h.unique

  by_name-Ends :
      (parsed old : Job)
      → parse_update w content ≡ ok parsed
      → lookup name d.jobs ≡ some old
      → (same busy : Bool) → text_eq parsed.name name ≡ same
      → is_some (lookup parsed.name d.jobs) ≡ busy
      → Ends (
          if not same && busy
          then (err (already_exists parsed.name), d)
          else yaml_applied w jobs_dir now name parsed old d)
  by_name-Ends parsed old checked found true busy e e' =
      yaml_applied-Ends old found parsed checked (λ o. absurd (cc (e, o)))
  by_name-Ends parsed old checked found false true e e' = Ends.taken parsed e e'
  by_name-Ends parsed old checked found false false e e' =
      yaml_applied-Ends old found parsed checked (λ o. is_some-none _ e')

  yaml_current-Ends :
      (parsed : Job) (found : Option Job)
      → parse_update w content ≡ ok parsed
      → lookup name d.jobs ≡ found
      → Ends (yaml_current w jobs_dir now name parsed d found)
  unfolding yaml_current
  yaml_current-Ends parsed none checked none_found = Ends.absent none_found
  yaml_current-Ends parsed (some old) checked found =
      by_name-Ends parsed old checked found (text_eq parsed.name name)
        (is_some (lookup parsed.name d.jobs)) refl refl

  yaml_parsed-Ends :
      (r : Result Job) → parse_update w content ≡ r → Ends (yaml_parsed w jobs_dir now name d r)
  unfolding yaml_parsed
  yaml_parsed-Ends (err e) checked = Ends.invalid e checked
  yaml_parsed-Ends (ok parsed) checked = yaml_current-Ends parsed (lookup name d.jobs) checked refl

  pub update_job_yaml-Ends : Ends (update_job_yaml w jobs_dir now name content d)
  unfolding update_job_yaml
  update_job_yaml-Ends = yaml_parsed-Ends (parse_update w content) refl
