-- ===== src/Daemon/Yaml/Correct.antt =====
-- `updateJobYAML`: what it does on success and on failure, and that it keeps the daemon consistent.
use cronbat.Prelude.{Bool, ℕ, ◌≡◌, refl, sym, inl, inr, false, none, some, subst, Bool-cases}
use cronbat.Text.{Text, text_eq}
use cronbat.Text.Laws.{text_eq→eq}
use cronbat.Dict.{lookup}
use cronbat.Errors.{Error, Result, ok, err}
use cronbat.Config.Job.{Job}
use cronbat.World.{World}
use cronbat.Daemon.State.{Daemon}
use cronbat.Daemon.Invariant.{IsConsistent, FitsAt, RolledBack-IsConsistent}
use cronbat.Daemon.Settings.Laws.{state_fits-next_state}
use cronbat.Daemon.Settings.Correct.{Fits-path}
use cronbat.Daemon.Yaml.{parse_update, update_job_yaml}
use cronbat.Daemon.Yaml.Laws.{parse_update-IsValid}
use cronbat.Daemon.Yaml.Ends.{Ends, Rewritten, update_job_yaml-Ends}

module _ {lax : Text → Bool} (w : World) (jobs_dir : Text) (now : ℕ) (name : Text) (content : Text)
    (d : Daemon) (h : IsConsistent lax w d) where
  Rewritten-IsConsistent :
      (old parsed : Job) (d' : Daemon)
      → parse_update w content ≡ ok parsed
      → Rewritten w jobs_dir now name content d h old parsed d'
      → IsConsistent lax w d'
  Rewritten-IsConsistent old parsed d' checked new = record { unique = new.unique; fits = at }
    where
      at_new : FitsAt lax w d' parsed.name
      at_new =
          rw (new.job, new.state, new.next)
            (Fits-path lax w now parsed.name _ parsed _ refl
              (parse_update-IsValid w content parsed checked).clean
              (state_fits-next_state parsed (lookup name d.states)))

      at_old : text_eq parsed.name name ≡ false → FitsAt lax w d' name
      at_old other = rw (new.old_job other, new.old_state other, new.old_next other) (refl, refl)

      at : (n : Text) → FitsAt lax w d' n
      at n = elim (Bool-cases (text_eq parsed.name n)) [
        | inl e ↦ subst (FitsAt lax w d') (text_eq→eq parsed.name n e) at_new
        | inr e ↦ elim (Bool-cases (text_eq name n)) [
          | inl e' ↦
              let same : name ≡ n = text_eq→eq name n e' in
              subst (FitsAt lax w d') same
                (at_old (subst (λ m. text_eq parsed.name m ≡ false) (sym same) e))
          | inr e' ↦ let o = new.others n e e' in rw (o.jobs, o.states, o.next) (h.fits n)
        ]
      ]

  Ends-keeps :
      (r : Result Text × Daemon) → Ends w jobs_dir now name content d h r → IsConsistent lax w r.1
  Ends-keeps _ (Ends.invalid e checked) = h
  Ends-keeps _ (Ends.absent none_found) = h
  Ends-keeps _ (Ends.taken parsed other found) = h
  Ends-keeps _ (Ends.failed old e d' found back) =
      RolledBack-IsConsistent w now name old d d' h found back
  Ends-keeps _ (Ends.done old parsed d' found checked fresh new) =
      Rewritten-IsConsistent old parsed d' checked new

  -- `updateJobYAML` keeps a consistent daemon consistent, whether it succeeds or fails.
  pub update_job_yaml-IsConsistent :
      IsConsistent lax w (update_job_yaml w jobs_dir now name content d).1
  update_job_yaml-IsConsistent =
      Ends-keeps (update_job_yaml w jobs_dir now name content d)
        (update_job_yaml-Ends w jobs_dir now name content d h)

  Ends-failed :
      (r : Result Text × Daemon) (e : Error)
      → Ends w jobs_dir now name content d h r
      → r.0 ≡ err e
      → (n : Text)
      → (lookup n r.1.jobs ≡ lookup n d.jobs) × (lookup n r.1.states ≡ lookup n d.states)
  Ends-failed _ e (Ends.invalid e' checked) failed n = (refl, refl)
  Ends-failed _ e (Ends.absent none_found) failed n = (refl, refl)
  Ends-failed _ e (Ends.taken parsed other found) failed n = (refl, refl)
  Ends-failed _ e (Ends.failed old e' d' found back) failed n = (back.jobs n, back.states n)
  Ends-failed _ e (Ends.done old parsed d' found checked fresh new) failed n = absurd (cc)

  -- An `updateJobYAML` on a consistent daemon that fails, at whichever step, leaves every job and
  -- every state as it was, also where the new text renames the job.
  pub update_job_yaml_failed :
      (e : Error)
      → (update_job_yaml w jobs_dir now name content d).0 ≡ err e
      → (n : Text)
      → (lookup n (update_job_yaml w jobs_dir now name content d).1.jobs ≡ lookup n d.jobs)
        × (lookup n (update_job_yaml w jobs_dir now name content d).1.states ≡ lookup n d.states)
  update_job_yaml_failed e =
      Ends-failed (update_job_yaml w jobs_dir now name content d) e
        (update_job_yaml-Ends w jobs_dir now name content d h)

  -- The job that the text describes has taken the place of the old one.
  pub record Replaced (new_name : Text) (d' : Daemon) : Type 0 where
    pub old : Job
    pub found : lookup name d.jobs ≡ some old
    pub parsed : Job
    pub checked : parse_update w content ≡ ok parsed
    pub named : parsed.name ≡ new_name
    pub free : text_eq parsed.name name ≡ false → lookup parsed.name d.jobs ≡ none
    pub rewritten : Rewritten w jobs_dir now name content d h old parsed d'

  Ends-ok :
      (r : Result Text × Daemon) (new_name : Text)
      → Ends w jobs_dir now name content d h r
      → r.0 ≡ ok new_name
      → Replaced new_name r.1
  Ends-ok _ n (Ends.invalid e checked) done = absurd (cc)
  Ends-ok _ n (Ends.absent none_found) done = absurd (cc)
  Ends-ok _ n (Ends.taken parsed other found) done = absurd (cc)
  Ends-ok _ n (Ends.failed old e d' found back) done = absurd (cc)
  Ends-ok _ n (Ends.done old parsed d' found checked fresh new) done = record {
    old = old;
    found = found;
    parsed = parsed;
    checked = checked;
    named = cc;
    free = fresh;
    rewritten = new;
  }

  -- An `updateJobYAML` on a consistent daemon that succeeds leaves the job that the text describes
  -- on record under its own name, on the schedule and in the file of that name. Where the name is
  -- new it was free, and nothing is left under the old one in the two maps and the scheduler. An old
  -- file at another path is gone, or os.Remove reports that there is none. Nothing changes under a
  -- third name, nor in a third file.
  pub update_job_yaml_done :
      (new_name : Text)
      → (update_job_yaml w jobs_dir now name content d).0 ≡ ok new_name
      → Replaced new_name (update_job_yaml w jobs_dir now name content d).1
  update_job_yaml_done n =
      Ends-ok (update_job_yaml w jobs_dir now name content d) n
        (update_job_yaml-Ends w jobs_dir now name content d h)
