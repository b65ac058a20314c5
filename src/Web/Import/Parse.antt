-- ===== src/Web/Import/Parse.antt =====
-- `parseImportedJobsYAML`, and the steps it takes with each document.
pub mod Laws
use cronbat.Prelude.{
  ℕ, suc, Bool, true, false, not, ◌&&◌, ◌||◌, Option, none, some, List, [], ◌∷◌, ◌++◌,
  if◌then◌else◌,
}
use cronbat.Text.{Text, codes, is_empty, text_eq, trim_space, to_lower}
use cronbat.Dict.{is_some}
use cronbat.Errors.{Result, ok, err, ◌>>=◌, ◌>>◌, new_error, require, wrap}
use cronbat.Config.Job.{Job}
use cronbat.Config.Files.{parse_timeout}
use cronbat.World.{World}
use cronbat.Daemon.State.{trim_fields, default_executor, is_safe_job_name}

unfoldable pub mem_text : Text → List Text → Bool
unfolding text_eq
mem_text s [] = false
mem_text s (t ∷ ts) = text_eq s t || mem_text s ts

-- `raw` is the query's value, "" if it has none.
unfoldable pub parse_bool_query : Text → Text → Result Bool
unfolding mem_text trim_space to_lower
parse_bool_query key raw =
    let s = to_lower (trim_space raw) in
    if is_empty (trim_space raw)
    then ok false
    else if mem_text s (codes "1" ∷ codes "true" ∷ codes "yes" ∷ codes "y" ∷ codes "on" ∷ [])
    then ok true
    else if mem_text s (codes "0" ∷ codes "false" ∷ codes "no" ∷ codes "n" ∷ codes "off" ∷ [])
    then ok false
    else err (new_error (codes "invalid boolean query value for \"" ++ (key ++ codes "\"")))

abbrev pub normalize_imported_job : Job → Job
normalize_imported_job j = trim_fields j

abbrev pub apply_imported_defaults : Job → Job
apply_imported_defaults j = record (default_executor j) {
  enabled = elim j.enabled [ none ↦ some true | some b ↦ some b ];
}

unfoldable pub is_empty_import_doc : Job → Bool
is_empty_import_doc j =
    is_empty j.name
    && is_empty j.schedule
    && is_empty j.command
    && is_empty j.working_dir
    && is_empty j.executor
    && is_empty j.timeout
    && not (is_some j.enabled)
    && is_empty j.env
    && is_empty j.on_success
    && is_empty j.on_failure
    && not (is_some j.analyze)
    && is_empty j.metadata

-- `isSafeJobName` here lets the empty name pass; the test before it does not.
unfoldable pub validate_imported_job : World → Job → Result (Unit {0})
validate_imported_job w j = do
  require (not (is_empty j.name)) (codes "job name is required")
  require (is_safe_job_name j.name)
      (codes "invalid job name: use only letters, numbers, '.', '-', '_'")
  require (not (is_empty j.schedule)) (codes "job schedule is required")
  schedule ← wrap (codes "invalid schedule: ") (w.parse_schedule j.schedule)
  require (not (is_empty j.command)) (codes "job command is required")
  timeout ← wrap (codes "invalid timeout: ") (parse_timeout w j)
  ok tt

module _ (w : World) (show : ℕ → Text) where
  unfoldable pub import_full : ℕ → List Text → Job → Result (Option Job)
  unfolding validate_imported_job
  import_full doc_num seen full = do
    wrap (codes "invalid document " ++ (show doc_num ++ codes ": ")) (validate_imported_job w full)
    require (not (mem_text full.name seen))
        (codes "duplicate job name in import payload: " ++ full.name)
    ok (some full)

  abbrev pub import_normal : ℕ → List Text → Job → Result (Option Job)
  import_normal doc_num seen normal =
      if is_empty_import_doc normal
      then ok none
      else import_full doc_num seen (apply_imported_defaults normal)

  -- One document: the job that it adds, if it is not empty.
  unfoldable pub import_document : ℕ → List Text → Result Job → Result (Option Job)
  unfolding import_full is_empty_import_doc
  import_document doc_num seen decoded = do
    job ← wrap (codes "invalid YAML in document " ++ (show doc_num ++ codes ": ")) decoded
    import_normal doc_num seen (normalize_imported_job job)

  abbrev pub seen_next : Option Job → List Text → List Text
  seen_next none seen = seen
  seen_next (some j) seen = j.name ∷ seen

  abbrev pub add_found : Option Job → List Job → List Job
  add_found none jobs = jobs
  add_found (some j) jobs = j ∷ jobs

  -- The loop over what the decoder gives before io.EOF; the first error ends it.
  unfoldable pub import_documents : ℕ → List Text → List (Result Job) → Result (List Job)
  unfolding import_document
  import_documents n seen [] = ok []
  import_documents n seen (decoded ∷ more) = do
    found ← import_document (suc n) seen decoded
    rest ← import_documents (suc n) (seen_next found seen) more
    ok (add_found found rest)

  abbrev some_jobs : List Job → Result (List Job)
  some_jobs [] = err (new_error (codes "no jobs found in import payload"))
  some_jobs (j ∷ js) = ok (j ∷ js)

  unfoldable pub parse_imported_jobs : List (Result Job) → Result (List Job)
  unfolding import_documents
  parse_imported_jobs documents = import_documents 0 [] documents >>= some_jobs
