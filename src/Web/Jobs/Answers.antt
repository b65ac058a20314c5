-- ===== src/Web/Jobs/Answers.antt =====
-- The ways a request on jobs is answered.
use cronbat.Prelude.{
  ℕ, ◌≤◌, ◌<◌, ◌≡◌, refl, subst, ap, inl, inr, true, false, not, ◌&&◌, Bool-cases, Option, none,
  some, ◌∷◌, arith, if◌then◌else◌,
}
use cronbat.Text.{Text, codes, is_empty, text_eq, trim_space}
use cronbat.Errors.{Error, Result, ok, err, ◌>>=◌}
use cronbat.Config.Job.{Job}
use cronbat.World.{World}
use cronbat.Store.{Engine}
use cronbat.Daemon.State.{Daemon}
use cronbat.Daemon.Create.{create_job}
use cronbat.Daemon.Enable.{enable_job, disable_job, start_job, stop_job, pause_job}
use cronbat.Daemon.Remove.{archive_job, delete_job}
use cronbat.Daemon.Settings.{update_job_settings}
use cronbat.Daemon.Yaml.{get_job_yaml, update_job_yaml}
use cronbat.Daemon.Run.{Call, perform, outcome}
use cronbat.Web.Status.{status_from_error}
use cronbat.Web.Api.{Body, Reply, Server, emit_event, changed}
use cronbat.Web.Jobs.{
  Request, is_method, limited_body, first_named, get_jobs, create_decoded, job_created,
  handle_create_job, handle_list_jobs, job_found, handle_get_job, run_triggered, handle_trigger_run,
  handle_enable_job, handle_disable_job, handle_start_job, handle_stop_job, handle_pause_job,
  handle_delete_job, handle_archive_job, yaml_read, handle_get_job_yaml, yaml_updated, yaml_payload,
  yaml_body, handle_update_job_yaml, settings_decoded, handle_update_job_settings,
}

pub status_from_error-le : (e : Error) → 400 ≤ status_from_error e
unfolding status_from_error
status_from_error-le e = ground arith

module _ (w : World) (jobs_dir : Text) (now : ℕ) (s : Server) where
  -- A request reads only; or it makes one call of the daemon, which fails and is reported, or goes
  -- well and is announced by one event; or it has a job run.
  pub data Answer : Reply × Server → Type 0 where
    reads : (reply : Reply) → Answer (reply, s)
    fails :
        (c : Call) (code : ℕ) (body : Body)
        → 400 ≤ code
        → (perform w jobs_dir now c s.daemon).0 ≡ false
        → Answer ((code, body), record s { daemon = (perform w jobs_dir now c s.daemon).1 })
    changes :
        (c : Call) (name action : Text) (code : ℕ) (body : Body)
        → code < 300
        → (perform w jobs_dir now c s.daemon).0 ≡ true
        → Answer (
          (code, body),
          emit_event now name action (record s { daemon = (perform w jobs_dir now c s.daemon).1 }),
        )
    triggers :
        (name : Text) (body : Body)
        → Answer (
          (202, body),
          emit_event now name (codes "run") (record s { triggered = name ∷ s.triggered }),
        )

  changed-Answer :
      (c : Call) (name action : Text) (code : ℕ) (body : Body) (r : Result (Unit {0}) × Daemon)
      → perform w jobs_dir now c s.daemon ≡ outcome r
      → code < 300
      → Answer (changed now name action (code, body) s r)
  unfolding changed
  changed-Answer c name action code body (err e, d) is lt =
      subst (λ d'. Answer ((status_from_error e, Body.error e.message), record s { daemon = d' }))
        (ap (λ p. p.1) is)
        (Answer.fails c (status_from_error e) (Body.error e.message) (status_from_error-le e)
          (ap (λ p. p.0) is))
  changed-Answer c name action code body (ok u, d) is lt =
      subst (λ d'. Answer ((code, body), emit_event now name action (record s { daemon = d' })))
        (ap (λ p. p.1) is) (Answer.changes c name action code body lt (ap (λ p. p.0) is))

  module _ (g : Engine) (decode_job : Text → Result Job) (decode_payload : Text → Result Text) where
    create_decoded-Answer :
        (j : Result Job) → Answer (create_decoded w jobs_dir g decode_job decode_payload now s j)
    unfolding create_decoded job_created perform
    create_decoded-Answer (err e) = Answer.reads (400, Body.error (codes "invalid JSON body"))
    create_decoded-Answer (ok j) =
        changed-Answer (Call.create j) (trim_space j.name) (codes "create") 201
          (Body.done_name (codes "created") (trim_space j.name))
          (create_job w jobs_dir now j s.daemon) refl (omega arith)

    pub handle_list_jobs-Answer :
        (r : Request) → Answer (handle_list_jobs w jobs_dir g decode_job decode_payload now r s)
    unfolding handle_list_jobs handle_create_job
    handle_list_jobs-Answer r = elim (Bool-cases (is_method (codes "GET") r)) [
      | inl get ↦ rw get (Answer.reads _)
      | inr other ↦ elim (Bool-cases (is_method (codes "POST") r)) [
        | inl post ↦ rw (other, post) (create_decoded-Answer (limited_body r >>= decode_job))
        | inr neither ↦ rw (other, neither) (Answer.reads _)
      ]
    ]

    job_found-Answer :
        (name : Text) (j : Option Job)
        → Answer (job_found w jobs_dir g decode_job decode_payload now name s j)
    unfolding job_found
    job_found-Answer name none = Answer.reads _
    job_found-Answer name (some j) = Answer.reads _

    pub handle_get_job-Answer :
        (name : Text) → Answer (handle_get_job w jobs_dir g decode_job decode_payload now name s)
    unfolding handle_get_job
    handle_get_job-Answer name = job_found-Answer name (first_named name (get_jobs s.daemon.jobs))

    run_triggered-Answer :
        (name : Text) (j : Option Job)
        → Answer (run_triggered w jobs_dir g decode_job decode_payload now name s j)
    unfolding run_triggered
    run_triggered-Answer name none = Answer.reads _
    run_triggered-Answer name (some j) = Answer.triggers name (Body.done (codes "triggered"))

    pub handle_trigger_run-Answer :
        (name : Text)
        → Answer (handle_trigger_run w jobs_dir g decode_job decode_payload now name s)
    unfolding handle_trigger_run
    handle_trigger_run-Answer name =
        run_triggered-Answer name (first_named name (get_jobs s.daemon.jobs))

    -- A handler that makes the call `c` and announces it by `action`
    module _ (name : Text) where
      pub handle_enable_job-Answer :
          Answer (handle_enable_job w jobs_dir g decode_job decode_payload now name s)
      unfolding handle_enable_job perform
      handle_enable_job-Answer =
          changed-Answer (Call.enable name) name (codes "enable") 200 (Body.done (codes "enabled"))
            (enable_job w jobs_dir now name s.daemon) refl (omega arith)

      pub handle_disable_job-Answer :
          Answer (handle_disable_job w jobs_dir g decode_job decode_payload now name s)
      unfolding handle_disable_job perform
      handle_disable_job-Answer =
          changed-Answer (Call.disable name) name (codes "disable") 200
            (Body.done (codes "disabled")) (disable_job w jobs_dir now name s.daemon) refl
            (omega arith)

      pub handle_start_job-Answer :
          Answer (handle_start_job w jobs_dir g decode_job decode_payload now name s)
      unfolding handle_start_job perform
      handle_start_job-Answer =
          changed-Answer (Call.start name) name (codes "start") 200 (Body.done (codes "started"))
            (start_job w jobs_dir now name s.daemon) refl (omega arith)

      pub handle_stop_job-Answer :
          Answer (handle_stop_job w jobs_dir g decode_job decode_payload now name s)
      unfolding handle_stop_job perform
      handle_stop_job-Answer =
          changed-Answer (Call.stop name) name (codes "stop") 200 (Body.done (codes "stopped"))
            (stop_job w jobs_dir now name s.daemon) refl (omega arith)

      pub handle_pause_job-Answer :
          Answer (handle_pause_job w jobs_dir g decode_job decode_payload now name s)
      unfolding handle_pause_job perform
      handle_pause_job-Answer =
          changed-Answer (Call.pause name) name (codes "pause") 200 (Body.done (codes "paused"))
            (pause_job w jobs_dir now name s.daemon) refl (omega arith)

      pub handle_delete_job-Answer :
          Answer (handle_delete_job w jobs_dir g decode_job decode_payload now name s)
      unfolding handle_delete_job perform
      handle_delete_job-Answer =
          changed-Answer (Call.delete name) name (codes "delete") 200 (Body.done (codes "deleted"))
            (delete_job w jobs_dir now name s.daemon) refl (omega arith)

      pub handle_archive_job-Answer :
          (stamp : Text)
          → Answer (handle_archive_job w jobs_dir g decode_job decode_payload now stamp name s)
      unfolding handle_archive_job perform
      handle_archive_job-Answer stamp =
          changed-Answer (Call.archive name stamp) name (codes "archive") 200
            (Body.done (codes "archived")) (archive_job w jobs_dir now name stamp s.daemon) refl
            (omega arith)

      yaml_read-Answer :
          (r : Result Text) → Answer (yaml_read w jobs_dir g decode_job decode_payload now name s r)
      unfolding yaml_read
      yaml_read-Answer (err e) = Answer.reads _
      yaml_read-Answer (ok t) = Answer.reads _

      pub handle_get_job_yaml-Answer :
          Answer (handle_get_job_yaml w jobs_dir g decode_job decode_payload now name s)
      unfolding handle_get_job_yaml
      handle_get_job_yaml-Answer = yaml_read-Answer (get_job_yaml w jobs_dir name s.daemon)

      yaml_updated-Answer :
          (payload : Text) (r : Result Text × Daemon)
          → perform w jobs_dir now (Call.update_yaml name payload) s.daemon ≡ outcome r
          → Answer (yaml_updated w jobs_dir g decode_job decode_payload now name s r)
      unfolding yaml_updated
      yaml_updated-Answer payload (err e, d) is =
          subst
            (λ d'. Answer ((status_from_error e, Body.error e.message), record s { daemon = d' }))
            (ap (λ p. p.1) is)
            (Answer.fails (Call.update_yaml name payload) (status_from_error e)
              (Body.error e.message) (status_from_error-le e) (ap (λ p. p.0) is))
      yaml_updated-Answer payload (ok n, d) is =
          let shown : Text = if is_empty n then name else n in
          subst
            (λ d'. Answer (
              (200, Body.done_name (codes "updated") shown),
              emit_event now shown (codes "update_yaml") (record s { daemon = d' }),
            ))
            (ap (λ p. p.1) is)
            (Answer.changes (Call.update_yaml name payload) shown (codes "update_yaml") 200
              (Body.done_name (codes "updated") shown) (omega arith) (ap (λ p. p.0) is))

      yaml_payload-Answer :
          (r : Result Text)
          → Answer (yaml_payload w jobs_dir g decode_job decode_payload now name s r)
      unfolding yaml_payload perform
      yaml_payload-Answer (err e) = Answer.reads _
      yaml_payload-Answer (ok payload) = elim (Bool-cases (is_empty (trim_space payload))) [
        | inl blank ↦ rw blank (Answer.reads _)
        | inr text ↦ rw text (
            yaml_updated-Answer payload (update_job_yaml w jobs_dir now name payload s.daemon) refl)
      ]

      yaml_body-Answer :
          (q : Request) (r : Result Text)
          → Answer (yaml_body w jobs_dir g decode_job decode_payload now name q s r)
      unfolding yaml_body
      yaml_body-Answer q (err e) = Answer.reads _
      yaml_body-Answer q (ok body) = yaml_payload-Answer _

      pub handle_update_job_yaml-Answer :
          (q : Request)
          → Answer (handle_update_job_yaml w jobs_dir g decode_job decode_payload now name q s)
      unfolding handle_update_job_yaml
      handle_update_job_yaml-Answer q = yaml_body-Answer q (limited_body q)

      settings_decoded-Answer :
          (r : Result Job)
          → Answer (settings_decoded w jobs_dir g decode_job decode_payload now name s r)
      unfolding settings_decoded perform
      settings_decoded-Answer (err e) = Answer.reads _
      settings_decoded-Answer (ok j) =
          elim (Bool-cases (not (is_empty j.name) && not (text_eq j.name name))) [
            | inl other ↦ rw other (Answer.reads _)
            | inr same ↦
                let j' : Job = record j { name = if is_empty j.name then name else j.name } in
                rw same (
                  changed-Answer (Call.update_settings name j') name (codes "update_settings") 200
                    (Body.done (codes "updated"))
                    (update_job_settings w jobs_dir now name j' s.daemon) refl (omega arith))
          ]

      pub handle_update_job_settings-Answer :
          (q : Request)
          → Answer (handle_update_job_settings w jobs_dir g decode_job decode_payload now name q s)
      unfolding handle_update_job_settings
      handle_update_job_settings-Answer q = settings_decoded-Answer (limited_body q >>= decode_job)
