-- ===== src/Daemon/Settings/Laws.antt =====
-- The ways a call of `updateJobSettings` ends.
use cronbat.Prelude.{
  ℕ, ◌≡◌, refl, ◌∙◌, ap, Bool, true, false, inl, inr, Option, none, some, arith, if◌then◌else◌,
  Bool-cases, Option-cases,
}
use cronbat.Text.{Text, text_eq, codes, is_empty, trim_space, trim_left, trim_right}
use cronbat.Text.Laws.{text_eq_refl, text_eq→eq}
use cronbat.Dict.{
  Dict, lookup, insert, remove, lookup-insert, lookup-insert_self, lookup-remove, insert_back,
}
use cronbat.Errors.{Error, Result, ok, err}
use cronbat.Config.Job.{Job, is_enabled}
use cronbat.Config.Saving.{Saving, OnlyAt, OnlyAt-insert, save_job-Saving}
use cronbat.World.{World, Disk}
use cronbat.Scheduler
use cronbat.Scheduler.{Scheduler}
use cronbat.Scheduler.Laws.{IsUnique}
use cronbat.Daemon.State.{
  Daemon, JobState, not_found, not_started, validate_job, apply_schedule, job_file_path,
  save_job_locked,
}
use cronbat.Daemon.Validate.{validate_job-IsNormal, trim_space_idem}
use cronbat.Daemon.Invariant.{
  IsConsistent, SameAt, RolledBack, due_at, due_at_path, state_fits, apply_schedule-IsUnique,
  next-apply_schedule,
}
use cronbat.Daemon.Settings.{
  edited, restore_state, next_state, roll_back, settings_saved, settings_scheduled, settings_valid,
  settings_found, update_job_settings,
}

-- Writing back what was on record leaves the map as it was.
pub lookup-restore_state :
    (k n : Text) (states : Dict JobState)
    → lookup n (restore_state k (lookup k states) states) ≡ lookup n states
lookup-restore_state k n states = elim (Option-cases (lookup k states)) [
  | inl e ↦ rw e (without e)
  | inr (s, e) ↦ rw e (with_it s e)
]
  where
    without : lookup k states ≡ none → lookup n (remove k states) ≡ lookup n states
    without e = ground (arith, e, lookup-remove k n states, text_eq→eq k n)

    with_it :
        (s : JobState) → lookup k states ≡ some s → lookup n (insert k s states) ≡ lookup n states
    with_it s e = ground (arith, e, lookup-insert k n s states, text_eq→eq k n)

state_fits-not_started :
    (j : Job)
    → is_enabled j ≡ false
    → (old : Option JobState) → state_fits j (some (not_started old)) ≡ true
state_fits-not_started j e none = rw e refl
state_fits-not_started j e (some JobState.started) = rw e refl
state_fits-not_started j e (some JobState.stopped) = rw e refl
state_fits-not_started j e (some JobState.paused) = rw e refl

-- The state that an update records fits the job.
pub state_fits-next_state :
    (j : Job) (old : Option JobState) → state_fits j (some (next_state j old)) ≡ true
state_fits-next_state j old = elim (Bool-cases (is_enabled j)) [
  | inl e ↦ rw (e, e) refl
  | inr e ↦ rw e (state_fits-not_started j e old)
]

-- The path of the file that an update writes.
abbrev pub edited_path : World → Text → Job → Job → Text
edited_path w jobs_dir current valid =
    job_file_path w jobs_dir (record valid { file_path = job_file_path w jobs_dir current })

-- `j` is the job `current` under the name `key`, with every setting of `updated` in place of its own.
pub record EditOf (current updated : Job) (key : Text) (j : Job) : Type 0 where
  pub name : j.name ≡ key
  pub schedule : j.schedule ≡ trim_space updated.schedule
  pub command : j.command ≡ trim_space updated.command
  pub working_dir : j.working_dir ≡ trim_space updated.working_dir
  pub executor : j.executor ≡ (
      if is_empty (trim_space updated.executor) then codes "shell" else trim_space updated.executor)
  pub timeout : j.timeout ≡ trim_space updated.timeout
  pub env : j.env ≡ updated.env
  pub on_success : j.on_success ≡ updated.on_success
  pub on_failure : j.on_failure ≡ updated.on_failure
  pub metadata : j.metadata ≡ updated.metadata
  pub analyze : j.analyze ≡ updated.analyze
  pub kept_enabled : updated.enabled ≡ none → j.enabled ≡ current.enabled
  pub new_enabled : (b : Bool) → updated.enabled ≡ some b → j.enabled ≡ some b

abbrev shell_or : Text → Text
shell_or s = if is_empty s then codes "shell" else s

trim_shell : trim_space (codes "shell") ≡ codes "shell"
unfolding trim_space trim_left trim_right
trim_shell = refl

-- The executor is trimmed and defaulted by the edit and by `validateJob`.
shell_or_again :
    (s : Text) → shell_or (trim_space (shell_or (trim_space s))) ≡ shell_or (trim_space s)
shell_or_again s = elim (Bool-cases (is_empty (trim_space s))) [
  | inl e ↦ rw e (ap shell_or trim_shell)
  | inr e ↦ rw e (rw (trim_space_idem s) (rw e refl))
]

valid-EditOf :
    (w : World) (name : Text) (current updated valid : Job)
    → validate_job w (edited name current updated) ≡ ok valid
    → trim_space name ≡ name
    → EditOf current updated name valid
unfolding edited
valid-EditOf w name current updated valid checked clean =
    let n = validate_job-IsNormal w (edited name current updated) valid checked in
    record {
      name = n.name ∙ clean;
      schedule = n.schedule ∙ trim_space_idem updated.schedule;
      command = n.command ∙ trim_space_idem updated.command;
      working_dir = n.working_dir ∙ trim_space_idem updated.working_dir;
      executor = n.executor ∙ shell_or_again updated.executor;
      timeout = n.timeout ∙ trim_space_idem updated.timeout;
      env = n.env;
      on_success = n.on_success;
      on_failure = n.on_failure;
      metadata = n.metadata;
      analyze = n.analyze;
      kept_enabled = λ e. n.enabled ∙ rw e refl;
      new_enabled = λ b e. n.enabled ∙ rw e refl;
    }

module _ {lax : Text → Bool} (w : World) (jobs_dir : Text) (now : ℕ) (name : Text) (updated : Job)
    (d : Daemon) (h : IsConsistent lax w d) where
  -- The valid form of the edited job is on record, in its file and on the schedule.
  pub record Edited (current : Job) (d' : Daemon) : Type 0 where
    pub valid : Job
    pub checked : validate_job w (edited name current updated) ≡ ok valid
    pub edit : EditOf current updated name valid
    pub key : valid.name ≡ name
    pub unique : IsUnique d'.sched.heap
    pub others : (n : Text) → text_eq name n ≡ false → SameAt d d' n
    pub job :
        lookup name d'.jobs
        ≡ some (record valid { file_path = edited_path w jobs_dir current valid })
    pub state : lookup name d'.states ≡ some (next_state valid (lookup name d.states))
    pub next : Scheduler.next_run_time name d'.sched ≡ due_at w now valid
    pub file :
        (content : Text) × (w.marshal
            (record valid { file_path = job_file_path w jobs_dir current })
          ≡ ok content)
        × (lookup (edited_path w jobs_dir current valid) d'.disk ≡ some content)
    pub other_files : OnlyAt (edited_path w jobs_dir current valid) d.disk d'.disk

  pub data Ends : Result (Unit {0}) × Daemon → Type 0 where
    absent : lookup name d.jobs ≡ none → Ends (err (not_found name), d)
    invalid :
        (current : Job) (e : Error)
        → lookup name d.jobs ≡ some current
        → validate_job w (edited name current updated) ≡ err e
        → Ends (err e, d)
    failed :
        (current : Job) (e : Error) (d' : Daemon)
        → lookup name d.jobs ≡ some current
        → RolledBack w now name current d d'
        → Ends (err e, d')
    done :
        (current : Job) (d' : Daemon)
        → lookup name d.jobs ≡ some current
        → Edited current d'
        → Ends (ok tt, d')

  module _ (current : Job) (found : lookup name d.jobs ≡ some current) where
    old_key : current.name ≡ name
    old_key = (rw found at (h.fits name)).0

    module _ (valid : Job) (checked : validate_job w (edited name current updated) ≡ ok valid) where
      new_key : valid.name ≡ name
      unfolding edited
      new_key =
          (validate_job-IsNormal w (edited name current updated) valid checked).name
          ∙ (rw found at (h.fits name)).1

      abbrev j : Job
      j = record valid { file_path = job_file_path w jobs_dir current }

      abbrev d₁ : Daemon
      d₁ = record d { jobs = insert name j d.jobs }

      -- After the new schedule was applied.
      module _ (s : Scheduler) (u : IsUnique s.heap)
          (at : (n : Text)
            → Scheduler.next_run_time n s ≡ (
                if text_eq valid.name n
                then due_at w now j
                else Scheduler.next_run_time n d.sched)) where
        roll_back-RolledBack :
            (disk : Disk)
            → RolledBack w now name current d (
                roll_back w jobs_dir now name current
                  (lookup name d.states)
                  (record d₁ { sched = s; disk = disk }))
        unfolding roll_back
        roll_back-RolledBack disk = record {
          unique = apply_schedule-IsUnique w now current s u;
          jobs = insert_back name current j d.jobs found;
          states = λ n. lookup-restore_state name n d.states;
          next =
              ground
                (arith, next-apply_schedule w now current s u name, old_key, text_eq_refl name);
          other_next = λ n other.
              ground (arith, next-apply_schedule w now current s u n, at n, old_key, new_key);
        }

        settings_saved-Ends :
            {r : Result Job × Disk}
            → Saving w (job_file_path w jobs_dir j) j d.disk r
            → Ends (
                settings_saved w jobs_dir now name current
                  (lookup name d.states)
                  (record d₁ { sched = s })
                  r)
        unfolding settings_saved is_enabled
        settings_saved-Ends (Saving.failed e disk files) =
            Ends.failed current e _ found (roll_back-RolledBack disk)
        settings_saved-Ends (Saving.saved content m) = Ends.done current _ found (record {
          valid = valid;
          checked = checked;
          edit = valid-EditOf w name current updated valid checked (rw found at (h.fits name)).1;
          key = new_key;
          unique = u;
          others = λ n other. record {
            jobs = ground (
              arith,
              lookup-insert name n
                  (record valid { file_path = edited_path w jobs_dir current valid })
                  (insert name j d.jobs),
              lookup-insert name n j d.jobs,
            );
            states =
                ground
                  (arith, lookup-insert name n (next_state valid (lookup name d.states)) d.states);
            next = ground (arith, at n, new_key);
          };
          job =
              lookup-insert_self name
                (record valid { file_path = edited_path w jobs_dir current valid })
                (insert name j d.jobs);
          state = lookup-insert_self name (next_state valid (lookup name d.states)) d.states;
          next = ground (
            arith,
            at name,
            new_key,
            text_eq_refl name,
            due_at_path w now valid (job_file_path w jobs_dir current),
          );
          file = (content, m, lookup-insert_self (job_file_path w jobs_dir j) content d.disk);
          other_files = OnlyAt-insert (job_file_path w jobs_dir j) content d.disk;
        })

        settings_scheduled-Ends :
            (r : Result (Unit {0}))
            → Ends
                (settings_scheduled w jobs_dir now name j current (lookup name d.states) d₁ (r, s))
        unfolding settings_scheduled save_job_locked
        settings_scheduled-Ends (err e) =
            Ends.failed current e _ found (roll_back-RolledBack d.disk)
        settings_scheduled-Ends (ok _) =
            settings_saved-Ends (save_job-Saving w (job_file_path w jobs_dir j) j d.disk)

    settings_valid-Ends :
        (r : Result Job)
        → validate_job w (edited name current updated) ≡ r
        → Ends (settings_valid w jobs_dir now name current d r)
    unfolding settings_valid
    settings_valid-Ends (err e) checked = Ends.invalid current e found checked
    settings_valid-Ends (ok valid) checked =
        settings_scheduled-Ends valid checked (apply_schedule w now (j valid checked) d.sched).1
          (apply_schedule-IsUnique w now (j valid checked) d.sched h.unique)
          (next-apply_schedule w now (j valid checked) d.sched h.unique)
          (apply_schedule w now (j valid checked) d.sched).0

  settings_found-Ends :
      (found : Option Job)
      → lookup name d.jobs ≡ found
      → Ends (settings_found w jobs_dir now name updated d found)
  unfolding settings_found
  settings_found-Ends none none_found = Ends.absent none_found
  settings_found-Ends (some current) found =
      settings_valid-Ends current found (validate_job w (edited name current updated)) refl

  pub update_job_settings-Ends : Ends (update_job_settings w jobs_dir now name updated d)
  unfolding update_job_settings
  update_job_settings-Ends = settings_found-Ends (lookup name d.jobs) refl
