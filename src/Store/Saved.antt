-- ===== src/Store/Saved.antt =====
-- A run that `RecordRun` has stored is read back by `GetRun`.
use cronbat.Prelude.{
  ℕ, zero, suc, ℤ, pos, negsuc, ◌≡◌, refl, sym, ap, ◌∙◌, subst, inl, inr, Bool-cases, Option, none,
  some, [], ◌∷◌, arith, if◌then◌else◌,
}
use cronbat.Text.{Text, text_eq}
use cronbat.Text.Laws.{text_eq_iff}
use cronbat.Errors.{Result, ok, err, ok_injective}
use cronbat.Store.{
  Run, Row, Table, Engine, null_string, null_int64, valid_or, format_time_ptr, parse_time_ptr,
  row_of, update_row, upsert, filled, record_run, scan_run, row_with, scan_found, get_run,
}

-- What package time says: a time in UTC is read back from its text.
abbrev pub ReadsBack : Engine → Type 0
ReadsBack g = (t : ℕ) → g.parse_time (g.format_time t) ≡ ok t

valid_or-null_string : (s : Text) → valid_or [] (null_string s) ≡ s
valid_or-null_string [] = refl
valid_or-null_string (x ∷ s) = refl

valid_or-null_int64 : (v : ℤ) → valid_or (pos 0) (null_int64 v) ≡ v
valid_or-null_int64 (pos zero) = refl
valid_or-null_int64 (pos (suc n)) = refl
valid_or-null_int64 (negsuc n) = refl

some_injective {ℓ} : {A : Type ℓ} {a b : A} → some a ≡ some b → a ≡ b
some_injective e = cc

row_with-upsert :
    (id : Text) (row : Row) (t : Table)
    → row_with id (upsert row t) ≡ (
        if text_eq row.id id
        then (elim (row_with row.id t) [ none ↦ some row | some old ↦ some (update_row row old) ])
        else row_with id t)
unfolding row_with upsert
row_with-upsert id row [] = refl
row_with-upsert id row (r ∷ t) = ground (
  arith,
  text_eq_iff r.id row.id,
  text_eq_iff row.id id,
  text_eq_iff r.id id,
  row_with-upsert id row t,
)

-- What an update leaves as it was
abbrev pub kept : Run → Run → Run
kept before run = record run {
  id = before.id;
  job_name = before.job_name;
  started_at = before.started_at;
  trigger = before.trigger;
  created_at = before.created_at;
}

-- What is then stored: the run as it is, or over what was there before
abbrev pub stored : Option Run → Run → Run
stored none run = run
stored (some before) run = kept before run

module _ (g : Engine) (reads : ReadsBack g) where
  parse-format_ptr : (t : Option ℕ) → parse_time_ptr g (format_time_ptr g t) ≡ ok t
  parse-format_ptr none = refl
  parse-format_ptr (some t) = rw (reads t) refl

  scan_run-row_of : (run : Run) → scan_run g (row_of g run) ≡ ok run
  unfolding scan_run row_of
  scan_run-row_of run =
      rw
        (
          reads run.started_at,
          reads run.created_at,
          parse-format_ptr run.finished_at,
          valid_or-null_string run.stdout_tail,
          valid_or-null_string run.stderr_tail,
          valid_or-null_string run.error_msg,
          valid_or-null_string run.llm_analysis,
          valid_or-null_int64 run.llm_tokens_used,
        )
        refl

  scan_run-update :
      (run before : Run) (old : Row)
      → scan_run g old ≡ ok before
      → scan_run g (update_row (row_of g run) old) ≡ ok (kept before run)
  unfolding scan_run row_of
  scan_run-update run before old scanned =
      by_parts (g.parse_time old.started_at) refl (g.parse_time old.created_at) refl
        (parse_time_ptr g old.finished_at) refl
    where
      by_parts :
          (s : Result ℕ)
          → g.parse_time old.started_at ≡ s
          → (c : Result ℕ) → g.parse_time old.created_at ≡ c
          → (f : Result (Option ℕ)) → parse_time_ptr g old.finished_at ≡ f
          → scan_run g (update_row (row_of g run) old) ≡ ok (kept before run)
      by_parts (err e) se c ce f fe = absurd (cc (rw (se, scan_run) at scanned))
      by_parts (ok s) se (err e) ce f fe = absurd (cc (rw (se, ce, scan_run) at scanned))
      by_parts (ok s) se (ok c) ce (err e) fe = absurd (cc (rw (se, ce, fe, scan_run) at scanned))
      by_parts (ok s) se (ok c) ce (ok f) fe =
          let was = ok_injective (rw (se, ce, fe, scan_run) at scanned) in
          subst (λ b. scan_run g (update_row (row_of g run) old) ≡ ok (kept b run)) was
            (rw
              (
                se,
                ce,
                parse-format_ptr run.finished_at,
                valid_or-null_string run.stdout_tail,
                valid_or-null_string run.stderr_tail,
                valid_or-null_string run.error_msg,
                valid_or-null_string run.llm_analysis,
                valid_or-null_int64 run.llm_tokens_used,
              )
              refl)

  module _ (works : g.query_fault ≡ none) where
    get_run-row_with : (n : Text) (t : Table) → get_run g n t ≡ scan_found g (row_with n t)
    unfolding get_run
    get_run-row_with n t = rw (works, get_run) refl

    scan_stored :
        (run : Run) (prior : Option Run) (old : Option Row)
        → scan_found g old ≡ ok prior
        → scan_found g
            (elim old [ none ↦ some (row_of g run) | some o ↦ some (update_row (row_of g run) o) ])
          ≡ ok (some (stored prior run))
    unfolding scan_found
    scan_stored run none none was = rw (scan_run-row_of run) refl
    scan_stored run (some before) none was = absurd (cc)
    scan_stored run prior (some o) was = by_scan (scan_run g o) refl prior was
      where
        by_scan :
            (r : Result Run)
            → scan_run g o ≡ r
            → (prior : Option Run) → scan_found g (some o) ≡ ok prior
            → scan_found g (some (update_row (row_of g run) o)) ≡ ok (some (stored prior run))
        by_scan (err e) re prior was = absurd (cc (rw (re, scan_found) at was))
        by_scan (ok b) re none was = absurd (cc (rw (re, scan_found) at was))
        by_scan (ok b) re (some before) was =
            rw
              (scan_run-update run before o
                (re ∙ ap ok (some_injective (ok_injective (rw (re, scan_found) at was)))))
              refl

    get_run-upsert :
        (run : Run) (t : Table) (prior : Option Run)
        → get_run g run.id t ≡ ok prior
        → (n : Text)
        → get_run g n (upsert (row_of g run) t)
          ≡ (if text_eq run.id n then ok (some (stored prior run)) else get_run g n t)
    unfolding row_of
    get_run-upsert run t prior was n = elim (Bool-cases (text_eq run.id n)) [
      | inl same ↦ rw same (
          get_run-row_with n (upsert (row_of g run) t)
          ∙ ap (scan_found g) (row_with-upsert n (row_of g run) t ∙ rw same refl)
          ∙ scan_stored run prior (row_with run.id t) (sym (get_run-row_with run.id t) ∙ was))
      | inr other ↦ rw other (
          get_run-row_with n (upsert (row_of g run) t)
          ∙ ap (scan_found g) (row_with-upsert n (row_of g run) t ∙ rw other refl)
          ∙ sym (get_run-row_with n t))
    ]

    record_run-eq :
        (new_id : Text) (now : ℕ) (run : Run) (t : Table)
        → g.exec_fault ≡ none
        → record_run g new_id now run t ≡ (ok tt, upsert (row_of g (filled new_id now run)) t)
    unfolding record_run
    record_run-eq new_id now run t fine =
        ap
          (λ f. elim f as (λ x. Result (Unit {0}) × Table) [
            | some e ↦ (err e, t)
            | none ↦ (ok tt, upsert (row_of g (filled new_id now run)) t)
          ])
          fine

    -- After a `RecordRun` without a fault, `GetRun` gives the run back, with the id and the creation
    -- time that it lacked; where the id had been there before, the run keeps the former job, start,
    -- trigger and creation time. Under every other id it gives what it gave. Times are read back
    -- from their texts.
    pub get_run-record_run :
        (new_id : Text) (now : ℕ) (run : Run) (t : Table) (prior : Option Run)
        → g.exec_fault ≡ none
        → get_run g (filled new_id now run).id t ≡ ok prior
        → (n : Text)
        → get_run g n (record_run g new_id now run t).1 ≡ (
            if text_eq (filled new_id now run).id n
            then ok (some (stored prior (filled new_id now run)))
            else get_run g n t)
    get_run-record_run new_id now run t prior fine was n =
        ap (λ r. get_run g n r.1) (record_run-eq new_id now run t fine)
        ∙ (get_run-upsert (filled new_id now run) t prior was n)
