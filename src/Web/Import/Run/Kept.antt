-- ===== src/Web/Import/Run/Kept.antt =====
-- An import takes no job off record that it is not to delete.
use cronbat.Prelude.{
  ℕ, ◌≡◌, refl, sym, ap, ◌∙◌, inl, inr, Bool, true, false, Bool-cases, Option-cases, some, List, [],
  ◌∷◌, arith, if◌then◌else◌,
}
use cronbat.Text.{Text, text_eq}
use cronbat.Text.Laws.{text_eq_iff}
use cronbat.Dict.{lookup, is_some}
use cronbat.Errors.{Error, Result, ok, err}
use cronbat.Config.Job.{Job}
use cronbat.World.{World}
use cronbat.Daemon.State.{Daemon}
use cronbat.Daemon.Invariant.{IsConsistent}
use cronbat.Daemon.Create.{create_job}
use cronbat.Daemon.Create.Correct.{create_job_done, create_job_refused, create_job-IsConsistent}
use cronbat.Daemon.Settings.{update_job_settings}
use cronbat.Daemon.Settings.Correct.{
  update_job_settings_done, update_job_settings_failed, update_job_settings-IsConsistent,
}
use cronbat.Daemon.Remove.{delete_job}
use cronbat.Daemon.Remove.Correct.{delete_job_done, delete_job_failed, delete_job-IsConsistent}
use cronbat.Web.Import.Parse.{mem_text}
use cronbat.Web.Import.Run.{
  JobsImportResult, Progress, names, job_names, existing_jobs, absent_names, each, import_create,
  import_update, import_delete, run_import, import_jobs,
}
use cronbat.Web.Import.Run.Laws.{noted-keeps, finish-keeps}

-- How a call has ended, with the equation.
by_result {ℓ} :
    {P : Type ℓ} (r : Result (Unit {0})) → (r ≡ ok tt → P) → ((e : Error) → r ≡ err e → P) → P
by_result (ok u) done failed = done refl
by_result (err e) done failed = failed e refl

-- Every entry has a name other than `n`.
abbrev Others : Text → List Text → Type 0
Others n [] = Unit
Others n (m ∷ ms) = (text_eq m n ≡ false) × Others n ms

mem_text-Others : (n : Text) (ms : List Text) → mem_text n ms ≡ false → Others n ms
unfolding mem_text
mem_text-Others n [] h = tt
mem_text-Others n (m ∷ ms) h =
    (ground (arith, text_eq_iff n m, text_eq_iff m n), mem_text-Others n ms (ground arith))

-- A name that is imported is none of those to delete.
mem_text-absent_names :
    (n : Text) (imported ms : List Text)
    → mem_text n imported ≡ true
    → mem_text n (absent_names imported ms) ≡ false
unfolding mem_text absent_names
mem_text-absent_names n imported [] h = refl
mem_text-absent_names n imported (m ∷ ms) h = elim (Bool-cases (mem_text m imported)) [
  | inl known ↦ rw known (mem_text-absent_names n imported ms h)
  | inr absent ↦
      let ih = mem_text-absent_names n imported ms h in
      rw absent (ground (arith, ih, text_eq_iff n m, ap (λ i. mem_text i imported) {x = n} {y = m}))
]

Others-existing :
    (n : Text) (existing : List Text) (js : List Job)
    → Others n (names js)
    → Others n (names (existing_jobs existing js))
unfolding names existing_jobs
Others-existing n existing [] h = tt
Others-existing n existing (j ∷ js) h = elim (Bool-cases (mem_text j.name existing)) [
  | inl known ↦ rw known (h.0, Others-existing n existing js h.1)
  | inr new ↦ rw new (Others-existing n existing js h.1)
]

module _ {lax : Text → Bool} (w : World) (jobs_dir : Text) (now : ℕ) (n : Text) (d : Daemon)
    (h : IsConsistent lax w d) where
  create_job_kept :
      (c j : Job)
      → lookup n d.jobs ≡ some j
      → lookup n (create_job w jobs_dir now c d).1.jobs ≡ some j
  create_job_kept c j found =
      by_result (create_job w jobs_dir now c d).0
        (λ done.
          let new = create_job_done w jobs_dir now c d h done in
          elim (Bool-cases (text_eq new.valid.name n)) [
            | inl same ↦
                let eq : new.valid.name ≡ n = ground (arith, text_eq_iff new.valid.name n) in
                absurd (cc (ap (λ i. lookup i d.jobs) eq, new.fresh, found))
            | inr other ↦ (new.new.others n other).jobs ∙ found
          ])
        (λ e failed. (create_job_refused w jobs_dir now c d h e failed n).jobs ∙ found)

  delete_job_kept :
      (m : Text)
      → text_eq m n ≡ false
      → lookup n (delete_job w jobs_dir now m d).1.jobs ≡ lookup n d.jobs
  delete_job_kept m other =
      by_result (delete_job w jobs_dir now m d).0
        (λ done. ((delete_job_done w jobs_dir now m d h done).others n other).jobs)
        (λ e failed. (delete_job_failed w jobs_dir now m d h e failed n).jobs)

  update_kept_other :
      (m : Text) (c : Job)
      → text_eq m n ≡ false
      → lookup n (update_job_settings w jobs_dir now m c d).1.jobs ≡ lookup n d.jobs
  update_kept_other m c other =
      by_result (update_job_settings w jobs_dir now m c d).0
        (λ done.
          let (current, found, new) = update_job_settings_done w jobs_dir now m c d h done in
          (new.others n other).jobs)
        (λ e failed. (update_job_settings_failed w jobs_dir now m c d h e failed n).0)

  update_kept :
      (m : Text) (c : Job)
      → is_some (lookup n d.jobs) ≡ true
      → is_some (lookup n (update_job_settings w jobs_dir now m c d).1.jobs) ≡ true
  update_kept m c there =
      by_result (update_job_settings w jobs_dir now m c d).0
        (λ done.
          let (current, found, new) = update_job_settings_done w jobs_dir now m c d h done in
          elim (Bool-cases (text_eq m n)) [
            | inl same ↦
                let eq : m ≡ n = ground (arith, text_eq_iff m n) in
                ap is_some (
                  sym (ap (λ i. lookup i (update_job_settings w jobs_dir now m c d).1.jobs) eq)
                  ∙ new.job)
            | inr other ↦ ap is_some (new.others n other).jobs ∙ there
          ])
        (λ e failed.
          ap is_some (update_job_settings_failed w jobs_dir now m c d h e failed n).0 ∙ there)

  create_kept :
      (c : Job)
      → is_some (lookup n d.jobs) ≡ true
      → is_some (lookup n (create_job w jobs_dir now c d).1.jobs) ≡ true
  create_kept c there = elim (Option-cases (lookup n d.jobs)) [
    | inl absent ↦ absurd (cc (ap is_some absent, there))
    | inr (j, found) ↦ ap is_some (create_job_kept c j found)
  ]

AllOf : {A : Type 0} → (A → Type 0) → List A → Type 0
AllOf R [] = Unit
AllOf R (x ∷ xs) = R x × AllOf R xs

each-keeps_all :
    {A : Type 0} (P : Daemon → Type 0) (R : A → Type 0)
    (act : A → JobsImportResult → Daemon → Progress × Daemon)
    → ((x : A) (r : JobsImportResult) (d : Daemon) → R x → P d → P (act x r d).1)
    → (xs : List A) (s : Progress × Daemon) → AllOf R xs
    → P s.1
    → P (each act xs s).1
unfolding each AllOf
each-keeps_all P R act keeps [] s all h = h
each-keeps_all P R act keeps (x ∷ xs) (Progress.stopped e r, d) all h = h
each-keeps_all P R act keeps (x ∷ xs) (Progress.going r, d) all h =
    each-keeps_all P R act keeps xs (act x r d) all.1 (keeps x r d all.0 h)

AllOf-any : {A : Type 0} (xs : List A) → AllOf (λ x. Unit {0}) xs
unfolding AllOf
AllOf-any [] = tt
AllOf-any (x ∷ xs) = (tt, AllOf-any xs)

Others-AllOf : (n : Text) (ms : List Text) → Others n ms → AllOf (λ m. text_eq m n ≡ false) ms
unfolding AllOf
Others-AllOf n [] h = tt
Others-AllOf n (m ∷ ms) h = (h.0, Others-AllOf n ms h.1)

Others-AllOf-names :
    (n : Text) (js : List Job) → Others n (names js) → AllOf (λ j. text_eq j.name n ≡ false) js
unfolding AllOf names
Others-AllOf-names n [] h = tt
Others-AllOf-names n (j ∷ js) h = (h.0, Others-AllOf-names n js h.1)

module _ (lax : Text → Bool) (w : World) (jobs_dir : Text) (clock : Text → ℕ) (n : Text) where
  -- Some job stays on record under `n`, or just the job `j`.
  Known : Daemon → Type 0
  Known d = IsConsistent lax w d × (is_some (lookup n d.jobs) ≡ true)

  HoldsJob : Job → Daemon → Type 0
  HoldsJob j d = IsConsistent lax w d × (lookup n d.jobs ≡ some j)

  run_import-Known :
      (r : JobsImportResult) (to_create to_update : List Job) (to_delete : List Text) (d : Daemon)
      → Others n to_delete
      → Known d
      → Known (run_import w jobs_dir clock r to_create to_update to_delete d).1
  unfolding run_import import_create import_update import_delete Known
  run_import-Known r to_create to_update to_delete d others h =
      each-keeps_all Known (λ m. text_eq m n ≡ false) (import_delete w jobs_dir clock)
        (λ m r d other h. noted-keeps Known r _ (delete_job w jobs_dir (clock m) m d) (
          delete_job-IsConsistent w jobs_dir (clock m) m d h.0,
          ap is_some (delete_job_kept w jobs_dir (clock m) n d h.0 m other) ∙ h.1,
        ))
        to_delete _ (Others-AllOf n to_delete others)
        (each-keeps_all Known (λ j. Unit {0}) (import_update w jobs_dir clock)
          (λ j r d any h.
            noted-keeps Known r _ (update_job_settings w jobs_dir (clock j.name) j.name j d) (
              update_job_settings-IsConsistent w jobs_dir (clock j.name) j.name j d h.0,
              update_kept w jobs_dir (clock j.name) n d h.0 j.name j h.1,
            ))
          to_update _ (AllOf-any to_update)
          (each-keeps_all Known (λ j. Unit {0}) (import_create w jobs_dir clock)
            (λ j r d any h. noted-keeps Known r _ (create_job w jobs_dir (clock j.name) j d) (
              create_job-IsConsistent w jobs_dir (clock j.name) j d h.0,
              create_kept w jobs_dir (clock j.name) n d h.0 j h.1,
            ))
            to_create (Progress.going r, d) (AllOf-any to_create) h))

  run_import-HoldsJob :
      (j : Job) (r : JobsImportResult) (to_create to_update : List Job) (to_delete : List Text)
      (d : Daemon)
      → Others n (names to_update)
      → Others n to_delete
      → HoldsJob j d
      → HoldsJob j (run_import w jobs_dir clock r to_create to_update to_delete d).1
  unfolding run_import import_create import_update import_delete HoldsJob
  run_import-HoldsJob j r to_create to_update to_delete d others others' h =
      each-keeps_all (HoldsJob j) (λ m. text_eq m n ≡ false) (import_delete w jobs_dir clock)
        (λ m r d other h. noted-keeps (HoldsJob j) r _ (delete_job w jobs_dir (clock m) m d) (
          delete_job-IsConsistent w jobs_dir (clock m) m d h.0,
          delete_job_kept w jobs_dir (clock m) n d h.0 m other ∙ h.1,
        ))
        to_delete _ (Others-AllOf n to_delete others')
        (each-keeps_all (HoldsJob j) (λ c. text_eq c.name n ≡ false)
          (import_update w jobs_dir clock)
          (λ c r d other h.
            noted-keeps (HoldsJob j) r _ (update_job_settings w jobs_dir (clock c.name) c.name c d)
              (
                update_job_settings-IsConsistent w jobs_dir (clock c.name) c.name c d h.0,
                update_kept_other w jobs_dir (clock c.name) n d h.0 c.name c other ∙ h.1,
              ))
          to_update _ (Others-AllOf-names n to_update others)
          (each-keeps_all (HoldsJob j) (λ c. Unit {0}) (import_create w jobs_dir clock)
            (λ c r d any h.
              noted-keeps (HoldsJob j) r _ (create_job w jobs_dir (clock c.name) c d) (
                create_job-IsConsistent w jobs_dir (clock c.name) c d h.0,
                create_job_kept w jobs_dir (clock c.name) n d h.0 c j h.1,
              ))
            to_create (Progress.going r, d) (AllOf-any to_create) h))

module _ (w : World) (jobs_dir : Text) (clock : Text → ℕ) (sort_strings : List Text → List Text)
    (show : ℕ → Text) (documents : Text → List (Result Job)) where
  -- What an import deletes are other jobs than the ones it holds.
  to_delete-Others :
      (replace : Bool) (n : Text) (imported existing : List Text)
      → ((s : Text) (ms : List Text) → mem_text s (sort_strings ms) ≡ mem_text s ms)
      → (replace ≡ true → mem_text n imported ≡ true)
      → Others n (if replace then sort_strings (absent_names imported existing) else [])
  to_delete-Others false n imported existing sorts held = tt
  to_delete-Others true n imported existing sorts held =
      mem_text-Others n (sort_strings (absent_names imported existing)) (
        sorts n (absent_names imported existing)
        ∙ mem_text-absent_names n imported existing (held refl))

  -- An import of parsed jobs into a consistent daemon, wherever it stops, keeps a job on record that
  -- it is not to delete: every job without `replace`, and the ones that are imported with it. A job
  -- that is not imported is, without `replace`, just as it was. Sorting keeps the names of a list.
  pub import_jobs_kept :
      {lax : Text → Bool} (replace dry_run : Bool) (imported : List Job) (d : Daemon) (n : Text)
      (j : Job)
      → IsConsistent lax w d
      → lookup n d.jobs ≡ some j
      → ((s : Text) (ms : List Text) → mem_text s (sort_strings ms) ≡ mem_text s ms)
      → (replace ≡ true → mem_text n (names imported) ≡ true)
      → (is_some (
            lookup n
              (import_jobs w jobs_dir clock sort_strings show documents replace dry_run imported
                d).1.jobs)
          ≡ true)
        × (mem_text n (names imported) ≡ false
            → lookup n
                (import_jobs w jobs_dir clock sort_strings show documents replace dry_run imported
                  d).1.jobs
              ≡ some j)
  unfolding import_jobs Known HoldsJob
  import_jobs_kept replace true imported d n j h found sorts held =
      (ap is_some found, λ other. found)
  import_jobs_kept {lax = lax} replace false imported d n j h found sorts held =
      let others = to_delete-Others replace n (names imported) (job_names d.jobs) sorts held in
      (
        (finish-keeps (Known lax w jobs_dir clock n) w jobs_dir clock _
            (run_import-Known lax w jobs_dir clock n _ _ _ _ d others (h, ap is_some found))).1,
        λ other.
            (finish-keeps (HoldsJob lax w jobs_dir clock n j) w jobs_dir clock _ (
              run_import-HoldsJob lax w jobs_dir clock n j _ _ _ _ d
                (Others-existing n (job_names d.jobs) imported
                  (mem_text-Others n (names imported) other))
                others (h, found))).1,
      )
