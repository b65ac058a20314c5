-- ===== src/Web/Import/Parse/Laws.antt =====
-- What `parseImportedJobsYAML` lets through.
use cronbat.Prelude.{
  ℕ, suc, ◌≡◌, ◌≢◌, refl, sym, subst, inl, inr, Bool, true, false, not, Option, none, some, List,
  [], ◌∷◌, ◌++◌, arith, Bool-cases,
}
use cronbat.Text.{Text, codes, is_empty}
use cronbat.Errors.{Result, ok, err, ◌>>◌, require, wrap, require-ok, bind-ok, then-ok, wrap-ok}
use cronbat.Config.Job.{Job}
use cronbat.Config.Files.{parse_timeout}
use cronbat.World.{World}
use cronbat.Daemon.State.{trim_fields, is_safe_job_name}
use cronbat.Daemon.Validate.{IsValid, trim_space_idem, executor-default_executor, not-true}
use cronbat.Web.Import.Parse.{
  mem_text, normalize_imported_job, apply_imported_defaults, is_empty_import_doc,
  validate_imported_job, import_full, import_document, seen_next, add_found, import_documents,
  some_jobs, parse_imported_jobs,
}

-- A job that an import may take over: it is valid, and its schedule parses.
pub record IsSound (w : World) (j : Job) : Type 0 where
  pub valid : IsValid w j
  pub schedule_parses : (next : ℕ → ℕ) × (w.parse_schedule j.schedule ≡ ok next)
  pub decided : (b : Bool) × (j.enabled ≡ some b)

-- Every job is sound, and no name comes twice or is among `seen`.
pub Importable : World → List Text → List Job → Type 0
Importable w seen [] = Unit
Importable w seen (j ∷ js) =
    IsSound w j × (mem_text j.name seen ≡ false) × Importable w (j.name ∷ seen) js

ok_injective : {A : Type 0} {a b : A} → ◌≡◌ {A = Result A} (ok a) (ok b) → a ≡ b
ok_injective h = cc

some_injective : {A : Type 0} {a b : A} → ◌≡◌ {A = Option A} (some a) (some b) → a ≡ b
some_injective h = cc

enabled-decided :
    (o : Option Bool)
    → (b : Bool) × (elim o as (λ x. Option Bool) [ none ↦ some true | some c ↦ some c ] ≡ some b)
enabled-decided none = (true, refl)
enabled-decided (some b) = (b, refl)

-- What `validateImportedJob` accepts is sound, as the job has been trimmed and defaulted before.
validated-IsSound :
    (w : World) (given : Job)
    → validate_imported_job w (apply_imported_defaults (normalize_imported_job given)) ≡ ok tt
    → IsSound w (apply_imported_defaults (normalize_imported_job given))
unfolding validate_imported_job trim_fields
validated-IsSound w given h =
    let (named, h₁) = require-ok (not (is_empty j.name)) _ _ h in
    let (safe, h₂) = require-ok (is_safe_job_name j.name) _ _ h₁ in
    let (scheduled, h₃) = require-ok (not (is_empty j.schedule)) _ _ h₂ in
    let (next, parses, h₄) =
      bind-ok (wrap (codes "invalid schedule: ") (w.parse_schedule j.schedule)) _ (sym h₃) in
    let (commanded, h₅) = require-ok (not (is_empty j.command)) _ _ h₄ in
    let (timeout, times, h₆) =
      bind-ok (wrap (codes "invalid timeout: ") (parse_timeout w j)) _ (sym h₅) in
    record {
      valid = record {
        safe = safe;
        clean = trim_space_idem given.name;
        has_schedule = not-true (is_empty j.schedule) scheduled;
        has_command = not-true (is_empty j.command) commanded;
        has_executor = executor-default_executor (trim_fields given);
        timeout_parses = (timeout, wrap-ok (codes "invalid timeout: ") (parse_timeout w j) times);
      };
      schedule_parses =
          (next, wrap-ok (codes "invalid schedule: ") (w.parse_schedule j.schedule) parses);
      decided = enabled-decided given.enabled;
    }
  where
    j : Job
    j = apply_imported_defaults (normalize_imported_job given)

module _ (w : World) (show : ℕ → Text) where
  abbrev Passes : List Text → Job → Type 0
  Passes seen j = IsSound w j × (mem_text j.name seen ≡ false)

  import_full-Passes :
      (n : ℕ) (seen : List Text) (full j : Job)
      → import_full w show n seen full ≡ ok (some j)
      → (validate_imported_job w full ≡ ok tt → IsSound w full)
      → Passes seen j
  unfolding import_full
  import_full-Passes n seen full j h sound =
      let message = codes "invalid document " ++ (show n ++ codes ": ") in
      let repeated = codes "duplicate job name in import payload: " ++ full.name in
      let unseen = not (mem_text full.name seen) in
      let (valid, h₁) =
        then-ok (wrap message (validate_imported_job w full))
          (require unseen repeated >> ok (some full)) h in
      let (new, h₂) = require-ok unseen repeated (ok (some full)) h₁ in
      subst (Passes seen) (some_injective (ok_injective h₂))
        (sound (wrap-ok message (validate_imported_job w full) valid), ground arith)

  import_document-Passes :
      (n : ℕ) (seen : List Text) (decoded : Result Job) (j : Job)
      → import_document w show n seen decoded ≡ ok (some j)
      → Passes seen j
  unfolding import_document
  import_document-Passes n seen (err e) j h = absurd (cc)
  import_document-Passes n seen (ok given) j h =
      elim (Bool-cases (is_empty_import_doc (normalize_imported_job given))) [
        | inl e ↦ absurd (cc (rw e at h))
        | inr e ↦
            import_full-Passes n seen (apply_imported_defaults (normalize_imported_job given)) j
              (rw e at h) (validated-IsSound w given)
      ]

  add_found-Importable :
      (n : ℕ) (seen : List Text) (decoded : Result Job) (found : Option Job) (rest : List Job)
      → import_document w show n seen decoded ≡ ok found
      → Importable w (seen_next w show found seen) rest
      → Importable w seen (add_found w show found rest)
  unfolding Importable
  add_found-Importable n seen decoded none rest h more = more
  add_found-Importable n seen decoded (some j) rest h more =
      let (valid, new) = import_document-Passes n seen decoded j h in (valid, new, more)

  import_documents-Importable :
      (n : ℕ) (seen : List Text) (documents : List (Result Job)) (js : List Job)
      → import_documents w show n seen documents ≡ ok js
      → Importable w seen js
  unfolding import_documents Importable
  import_documents-Importable n seen [] js h = subst (Importable w seen) (ok_injective h) tt
  import_documents-Importable n seen (decoded ∷ more) js h =
      let (found, e, h₁) = bind-ok (import_document w show (suc n) seen decoded) _ (sym h) in
      let (rest, e₁, h₂) =
        bind-ok (import_documents w show (suc n) (seen_next w show found seen) more) _ (sym h₁) in
      let same : add_found w show found rest ≡ js = ok_injective h₂ in
      subst (Importable w seen) same (
        add_found-Importable (suc n) seen decoded found rest e
          (import_documents-Importable (suc n) (seen_next w show found seen) more rest e₁))

  -- A payload that `parseImportedJobsYAML` accepts holds at least one job; every job has a safe and
  -- trimmed name, a schedule that parses, a command, an executor, a timeout that parses, and is
  -- enabled or disabled; and no two jobs have the same name.
  pub parse_imported_jobs-Importable :
      (documents : List (Result Job)) (js : List Job)
      → parse_imported_jobs w show documents ≡ ok js
      → Importable w [] js × (js ≢ [])
  unfolding parse_imported_jobs
  parse_imported_jobs-Importable documents js h =
      let (found, e, h₁) =
        bind-ok (import_documents w show 0 [] documents) (some_jobs w show) (sym h) in
      by_jobs found (import_documents-Importable 0 [] documents found e) h₁
    where
      by_jobs :
          (found : List Job)
          → Importable w [] found
          → some_jobs w show found ≡ ok js
          → Importable w [] js × (js ≢ [])
      by_jobs [] good e = absurd (cc)
      by_jobs (j ∷ more) good e =
          let same : (j ∷ more) ≡ js = ok_injective e in
          (subst (Importable w []) same good, λ none_left. absurd (cc))
