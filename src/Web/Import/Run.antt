-- ===== src/Web/Import/Run.antt =====
-- `handleImportJobs`: what an import is to do, and doing it job by job. The operations that the
-- handler is given are those of cmd/cronbat/main.go; the events it sends change no job.
pub mod Laws
pub mod Kept
use cronbat.Prelude.{ℕ, Bool, true, false, not, List, [], ◌∷◌, ◌++◌, if◌then◌else◌, ltb, length}
use cronbat.Text.{byte_length, Text, codes, is_empty, trim_space}
use cronbat.Dict.{Dict}
use cronbat.Errors.{Error, Result, ok, err}
use cronbat.Config.Job.{Job}
use cronbat.World.{World}
use cronbat.Daemon.State.{Daemon}
use cronbat.Daemon.Create.{create_job}
use cronbat.Daemon.Settings.{update_job_settings}
use cronbat.Daemon.Remove.{delete_job}
use cronbat.Web.Status.{status_from_error}
use cronbat.Web.Import.Parse.{mem_text, parse_bool_query, parse_imported_jobs}

pub record JobsImportResult : Type 0 where
  pub status : Text
  pub replace : Bool
  pub dry_run : Bool
  pub parsed : ℕ
  pub created : List Text
  pub updated : List Text
  pub deleted : List Text
  pub error : Text

-- Between two jobs: all went well so far, or a job failed.
pub data Progress : Type 0 where
  going : JobsImportResult → Progress
  stopped : Error → JobsImportResult → Progress

pub data Reply : Type 0 where
  refused : ℕ → Text → Reply
  report : ℕ → JobsImportResult → Reply

unfoldable pub names : List Job → List Text
names [] = []
names (j ∷ js) = j.name ∷ names js

unfoldable pub job_names : Dict Job → List Text
job_names [] = []
job_names ((k, j) ∷ m) = j.name ∷ job_names m

-- `toUpdate` and `toCreate`: the imported jobs that exist, and those that do not
unfoldable pub existing_jobs : List Text → List Job → List Job
unfolding mem_text
existing_jobs existing [] = []
existing_jobs existing (j ∷ js) =
    let rest = existing_jobs existing js in if mem_text j.name existing then j ∷ rest else rest

unfoldable pub new_jobs : List Text → List Job → List Job
unfolding mem_text
new_jobs existing [] = []
new_jobs existing (j ∷ js) =
    let rest = new_jobs existing js in if mem_text j.name existing then rest else j ∷ rest

unfoldable pub absent_names : List Text → List Text → List Text
unfolding mem_text
absent_names imported [] = []
absent_names imported (n ∷ ns) =
    let rest = absent_names imported ns in if mem_text n imported then rest else n ∷ rest

-- What one of the loops does: each job in turn, up to the first that fails.
unfoldable pub each {ℓ} :
    {A : Type ℓ}
    → (A → JobsImportResult → Daemon → Progress × Daemon)
    → List A
    → Progress × Daemon
    → Progress × Daemon
each act [] s = s
each act (x ∷ xs) (stopped e r, d) = (stopped e r, d)
each act (x ∷ xs) (going r, d) = each act xs (act x r d)

-- A job's operation has ended; `done` is the result with the job's name added.
unfoldable pub noted :
    JobsImportResult → JobsImportResult → Result (Unit {0}) × Daemon → Progress × Daemon
noted r done (err e, d) = (stopped e r, d)
noted r done (ok _, d) = (going done, d)

-- `clock` is the time at which the operation on a job reads the clock; `sort_strings` is
-- sort.Strings, `show` prints a number, and `documents` is the decoder of gopkg.in/yaml.v3.
module _ (w : World) (jobs_dir : Text) (clock : Text → ℕ) where
  unfoldable pub import_create : Job → JobsImportResult → Daemon → Progress × Daemon
  unfolding noted
  import_create j r d =
      noted r (record r { created = r.created ++ (j.name ∷ []) })
        (create_job w jobs_dir (clock j.name) j d)

  unfoldable pub import_update : Job → JobsImportResult → Daemon → Progress × Daemon
  unfolding noted
  import_update j r d =
      noted r (record r { updated = r.updated ++ (j.name ∷ []) })
        (update_job_settings w jobs_dir (clock j.name) j.name j d)

  unfoldable pub import_delete : Text → JobsImportResult → Daemon → Progress × Daemon
  unfolding noted
  import_delete name r d =
      noted r (record r { deleted = r.deleted ++ (name ∷ []) })
        (delete_job w jobs_dir (clock name) name d)

  unfoldable pub run_import :
      JobsImportResult → List Job → List Job → List Text → Daemon → Progress × Daemon
  unfolding each import_create import_update import_delete
  run_import r to_create to_update to_delete d =
      each import_delete to_delete
        (each import_update to_update (each import_create to_create (going r, d)))

  unfoldable pub finish : Progress × Daemon → Reply × Daemon
  finish (going r, d) = (report 200 r, d)
  finish (stopped e r, d) = (
    report (status_from_error e) (record r { status = codes "partial_failure"; error = e.message }),
    d,
  )

  module _ (sort_strings : List Text → List Text) (show : ℕ → Text)
      (documents : Text → List (Result Job)) where
    unfoldable pub import_jobs : Bool → Bool → List Job → Daemon → Reply × Daemon
    unfolding names job_names existing_jobs new_jobs absent_names run_import finish
    import_jobs replace dry_run imported d =
        let existing = job_names d.jobs in
        let to_create = new_jobs existing imported in
        let to_update = existing_jobs existing imported in
        let to_delete =
          if replace then sort_strings (absent_names (names imported) existing) else [] in
        let empty : JobsImportResult = record {
          status = codes "imported";
          replace = replace;
          dry_run = dry_run;
          parsed = length imported;
          created = [];
          updated = [];
          deleted = [];
          error = [];
        } in
        if dry_run
        then (
          report 200 (record empty {
            status = codes "dry_run";
            created = names to_create;
            updated = names to_update;
            deleted = to_delete;
          }),
          d,
        )
        else finish (run_import empty to_create to_update to_delete d)

    import_parsed : Bool → Bool → Daemon → Result (List Job) → Reply × Daemon
    unfolding import_jobs
    import_parsed replace dry_run d (err e) = (refused 400 e.message, d)
    import_parsed replace dry_run d (ok imported) = import_jobs replace dry_run imported d

    import_body : Bool → Bool → Daemon → Result Text → Reply × Daemon
    unfolding import_parsed
    import_body replace dry_run d (err e) = (refused 400 (codes "failed to read import payload"), d)
    import_body replace dry_run d (ok body) =
        if ltb 8388608 (byte_length body)
        then (refused 413 (codes "import payload too large"), d)
        else if is_empty (trim_space body)
        then (refused 400 (codes "import payload is empty"), d)
        else import_parsed replace dry_run d (parse_imported_jobs w show (documents body))

    import_flags : Daemon → Result Text → Result Bool → Result Bool → Reply × Daemon
    unfolding import_body
    import_flags d body (err e) dry_run = (refused 400 e.message, d)
    import_flags d body (ok replace) (err e) = (refused 400 e.message, d)
    import_flags d body (ok replace) (ok dry_run) = import_body replace dry_run d body

    -- `post` tells whether the method is POST, `body` what reading the body gave.
    unfoldable pub handle_import_jobs : Bool → Text → Text → Result Text → Daemon → Reply × Daemon
    unfolding import_flags
    handle_import_jobs post raw_replace raw_dry_run body d =
        if not post
        then (refused 405 (codes "method not allowed"), d)
        else import_flags d body (parse_bool_query (codes "replace") raw_replace)
            (parse_bool_query (codes "dry_run") raw_dry_run)
