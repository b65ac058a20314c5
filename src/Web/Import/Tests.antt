-- ===== src/Web/Import/Tests.antt =====
-- The import at concrete inputs.
use cronbat.Prelude.{ℕ, ◌≡◌, ◌≢◌, refl, true, false, some, List, [], ◌∷◌}
use cronbat.Text.{
  Text, codes, text_eq, trim_space, trim_left, trim_right, is_space, is_safe_char, to_lower,
}
use cronbat.Text.Laws.{every}
use cronbat.Errors.{Result, ok}
use cronbat.Config.Job.{Job}
use cronbat.Config.Files.{parse_timeout}
use cronbat.Daemon.State.{trim_fields, is_safe_job_name}
use cronbat.Daemon.Invariant.{nowhere, IsConsistent}
use cronbat.Daemon.Samples.{good, folder, nightly, empty, empty-IsConsistent}
use cronbat.Web.Import.Parse.{
  mem_text, parse_bool_query, apply_imported_defaults, normalize_imported_job,
  validate_imported_job, is_empty_import_doc, import_full, import_document, parse_imported_jobs,
}
use cronbat.Web.Import.Parse.Laws.{Importable, parse_imported_jobs-Importable}
use cronbat.Web.Import.Run.{names, import_jobs}
use cronbat.Web.Import.Run.Kept.{import_jobs_kept}
use cronbat.Dict.{lookup, insert, is_some}
use cronbat.Config.Files.{save_job}
use cronbat.World.{mkdir_all, write_file}
use cronbat.Config.Job.{is_enabled}
use cronbat.Daemon.State.{Daemon, validate_job, apply_schedule}
use cronbat.Daemon.Create.{create_job}
use cronbat.Daemon.Create.Correct.{create_job-IsConsistent}

abbrev show : ℕ → Text
show n = []

abbrev same_order : List Text → List Text
same_order names = names

-- Every payload is one document with the job `nightly`.
abbrev one_document : Text → List (Result Job)
one_document body = ok nightly ∷ []

abbrev full : Job
full = apply_imported_defaults (normalize_imported_job nightly)

parsed : parse_imported_jobs good show (one_document []) ≡ ok (full ∷ [])
unfolding parse_imported_jobs import_document import_full is_empty_import_doc validate_imported_job
    trim_fields trim_space trim_left trim_right is_space is_safe_job_name every is_safe_char
    parse_timeout mem_text
parsed = refl

parse_imported_jobs-Importable_example : Importable good [] (full ∷ []) × ((full ∷ []) ≢ [])
parse_imported_jobs-Importable_example =
    parse_imported_jobs-Importable good show (one_document []) (full ∷ []) parsed

-- A daemon with the job "a", and a payload with another one
abbrev known : Daemon
known = (create_job good folder 5 full empty).1

known-IsConsistent : IsConsistent nowhere good known
known-IsConsistent = create_job-IsConsistent good folder 5 full empty (empty-IsConsistent good)

abbrev on_record : Job
on_record = record full { file_path = codes "jobs/a.yaml" }

on_record_found : lookup (codes "a") known.jobs ≡ some on_record
unfolding validate_job trim_fields trim_space trim_left trim_right is_space is_safe_job_name every
    is_safe_char parse_timeout create_job lookup insert apply_schedule is_enabled save_job mkdir_all
    write_file text_eq
on_record_found = refl

abbrev payload : List Job
payload = record full { name = codes "b" } ∷ []

import_jobs_kept_example :
    (is_some (
        lookup
          (codes "a")
          (import_jobs good folder
            (λ n. 5)
            same_order
            show
            one_document
            false
            false
            payload
            known).1.jobs)
      ≡ true)
    × (mem_text (codes "a") (names payload) ≡ false
        → lookup
            (codes "a")
            (import_jobs good folder
              (λ n. 5)
              same_order
              show
              one_document
              false
              false
              payload
              known).1.jobs
          ≡ some on_record)
import_jobs_kept_example =
    import_jobs_kept good folder (λ n. 5) same_order show one_document false false payload known
      (codes "a") on_record known-IsConsistent on_record_found (λ s ms. refl) (λ e. absurd (cc))

yes : parse_bool_query (codes "dry_run") (codes " YES ") ≡ ok true
unfolding parse_bool_query trim_space trim_left trim_right is_space to_lower mem_text text_eq
yes = refl
