-- ===== src/Web/Import/Run/Laws.antt =====
-- An import keeps the daemon consistent, and reports what it has done.
use cronbat.Prelude.{ℕ, ◌≡◌, refl, inl, inr, Bool, true, false, List, [], ◌∷◌, Bool-cases, ltb}
use cronbat.Text.{byte_length, Text, codes, is_empty, trim_space}
use cronbat.Errors.{Result, ok, err}
use cronbat.Config.Job.{Job}
use cronbat.World.{World}
use cronbat.Daemon.State.{Daemon}
use cronbat.Daemon.Invariant.{IsConsistent}
use cronbat.Daemon.Create.{create_job}
use cronbat.Daemon.Create.Correct.{create_job-IsConsistent}
use cronbat.Daemon.Settings.{update_job_settings}
use cronbat.Daemon.Settings.Correct.{update_job_settings-IsConsistent}
use cronbat.Daemon.Remove.{delete_job}
use cronbat.Daemon.Remove.Correct.{delete_job-IsConsistent}
use cronbat.Web.Import.Parse.{parse_bool_query, parse_imported_jobs}
use cronbat.Web.Import.Run.{
  JobsImportResult, Progress, each, noted, import_create, import_update, import_delete, run_import,
  finish, import_jobs, import_parsed, import_body, import_flags, handle_import_jobs,
}

module _ (P : Daemon → Type 0) where
  each-keeps :
      {A : Type 0} (act : A → JobsImportResult → Daemon → Progress × Daemon)
      → ((x : A) (r : JobsImportResult) (d : Daemon) → P d → P (act x r d).1)
      → (xs : List A) (s : Progress × Daemon) → P s.1
      → P (each act xs s).1
  unfolding each
  each-keeps act keeps [] s h = h
  each-keeps act keeps (x ∷ xs) (Progress.stopped e r, d) h = h
  each-keeps act keeps (x ∷ xs) (Progress.going r, d) h =
      each-keeps act keeps xs (act x r d) (keeps x r d h)

  pub noted-keeps :
      (r done : JobsImportResult) (s : Result (Unit {0}) × Daemon) → P s.1 → P (noted r done s).1
  unfolding noted
  noted-keeps r done (err e, d) h = h
  noted-keeps r done (ok _, d) h = h

  pub finish-keeps :
      (w : World) (jobs_dir : Text) (clock : Text → ℕ) (s : Progress × Daemon)
      → P s.1
      → P (finish w jobs_dir clock s).1
  unfolding finish
  finish-keeps w jobs_dir clock (Progress.going r, d) h = h
  finish-keeps w jobs_dir clock (Progress.stopped e r, d) h = h

module _ (w : World) (jobs_dir : Text) (clock : Text → ℕ) where
  run_import-IsConsistent :
      {lax : Text → Bool} (r : JobsImportResult) (to_create to_update : List Job)
      (to_delete : List Text) (d : Daemon)
      → IsConsistent lax w d
      → IsConsistent lax w (run_import w jobs_dir clock r to_create to_update to_delete d).1
  unfolding run_import import_create import_update import_delete
  run_import-IsConsistent {lax = lax} r to_create to_update to_delete d h =
      each-keeps (IsConsistent lax w) (import_delete w jobs_dir clock)
        (λ n r d h.
          noted-keeps (IsConsistent lax w) r _ (delete_job w jobs_dir (clock n) n d)
            (delete_job-IsConsistent w jobs_dir (clock n) n d h))
        to_delete _
        (each-keeps (IsConsistent lax w) (import_update w jobs_dir clock)
          (λ j r d h.
            noted-keeps (IsConsistent lax w) r _
              (update_job_settings w jobs_dir (clock j.name) j.name j d)
              (update_job_settings-IsConsistent w jobs_dir (clock j.name) j.name j d h))
          to_update _
          (each-keeps (IsConsistent lax w) (import_create w jobs_dir clock)
            (λ j r d h.
              noted-keeps (IsConsistent lax w) r _ (create_job w jobs_dir (clock j.name) j d)
                (create_job-IsConsistent w jobs_dir (clock j.name) j d h))
            to_create (Progress.going r, d) h))

  module _ (sort_strings : List Text → List Text) (show : ℕ → Text)
      (documents : Text → List (Result Job)) (d : Daemon) where
    -- What holds before a request and after the import of any jobs holds after the request.
    module _ (P : Daemon → Type 0) (before : P d) (replace dry_run : Bool)
        (after : (imported : List Job)
          → P
              (import_jobs w jobs_dir clock sort_strings show documents replace dry_run imported
                d).1) where
      import_parsed-keeps :
          (r : Result (List Job))
          → P (import_parsed w jobs_dir clock sort_strings show documents replace dry_run d r).1
      unfolding import_parsed
      import_parsed-keeps (err e) = before
      import_parsed-keeps (ok imported) = after imported

      import_body-keeps :
          (body : Result Text)
          → P (import_body w jobs_dir clock sort_strings show documents replace dry_run d body).1
      unfolding import_body
      import_body-keeps (err e) = before
      import_body-keeps (ok body) = elim (Bool-cases (ltb 8388608 (byte_length body))) [
        | inl e ↦ rw e before
        | inr e ↦ elim (Bool-cases (is_empty (trim_space body))) [
          | inl e' ↦ rw (e, e') before
          | inr e' ↦ rw (e, e') (import_parsed-keeps (parse_imported_jobs w show (documents body)))
        ]
      ]

    import_jobs-IsConsistent :
        {lax : Text → Bool}
        → IsConsistent lax w d
        → (replace dry_run : Bool) (imported : List Job)
        → IsConsistent lax w
            (import_jobs w jobs_dir clock sort_strings show documents replace dry_run imported d).1
    unfolding import_jobs
    import_jobs-IsConsistent {lax = lax} h replace true imported = h
    import_jobs-IsConsistent {lax = lax} h replace false imported =
        finish-keeps (IsConsistent lax w) w jobs_dir clock _ (run_import-IsConsistent _ _ _ _ d h)

    import_flags-IsConsistent :
        {lax : Text → Bool}
        → IsConsistent lax w d
        → (body : Result Text) (replace dry_run : Result Bool)
        → IsConsistent lax w
            (import_flags w jobs_dir clock sort_strings show documents d body replace dry_run).1
    unfolding import_flags
    import_flags-IsConsistent {lax = lax} h body (err e) dry_run = h
    import_flags-IsConsistent {lax = lax} h body (ok replace) (err e) = h
    import_flags-IsConsistent {lax = lax} h body (ok replace) (ok dry_run) =
        import_body-keeps (IsConsistent lax w) h replace dry_run
          (import_jobs-IsConsistent h replace dry_run) body

    -- `handleImportJobs` keeps a consistent daemon consistent, whatever the request is and wherever
    -- the import stops.
    handle_import_jobs-IsConsistent :
        {lax : Text → Bool}
        → IsConsistent lax w d
        → (post : Bool) (raw_replace raw_dry_run : Text) (body : Result Text)
        → IsConsistent lax w
            (handle_import_jobs w jobs_dir clock sort_strings show documents post raw_replace
              raw_dry_run body d).1
    unfolding handle_import_jobs
    handle_import_jobs-IsConsistent {lax = lax} h false raw_replace raw_dry_run body = h
    handle_import_jobs-IsConsistent {lax = lax} h true raw_replace raw_dry_run body =
        import_flags-IsConsistent h body (parse_bool_query (codes "replace") raw_replace)
          (parse_bool_query (codes "dry_run") raw_dry_run)

    import_jobs_dry :
        (replace : Bool) (imported : List Job)
        → (import_jobs w jobs_dir clock sort_strings show documents replace true imported d).1 ≡ d
    unfolding import_jobs
    import_jobs_dry replace imported = refl

    import_flags_dry :
        (body : Result Text) (replace : Result Bool)
        → (import_flags w jobs_dir clock sort_strings show documents d body replace (ok true)).1 ≡ d
    unfolding import_flags
    import_flags_dry body (err e) = refl
    import_flags_dry body (ok replace) =
        import_body-keeps (λ d'. d' ≡ d) refl replace true (import_jobs_dry replace) body

    -- An import with `dry_run` set changes nothing at all, whatever else the request holds.
    pub handle_import_jobs_dry :
        (post : Bool) (raw_replace raw_dry_run : Text) (body : Result Text)
        → parse_bool_query (codes "dry_run") raw_dry_run ≡ ok true
        → (handle_import_jobs w jobs_dir clock sort_strings show documents post raw_replace
            raw_dry_run body d).1
          ≡ d
    unfolding handle_import_jobs
    handle_import_jobs_dry false raw_replace raw_dry_run body dry = refl
    handle_import_jobs_dry true raw_replace raw_dry_run body dry =
        rw dry (import_flags_dry body (parse_bool_query (codes "replace") raw_replace))
