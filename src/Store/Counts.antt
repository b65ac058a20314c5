-- ===== src/Store/Counts.antt =====
-- `GetJobStats` counts the runs that `ListRuns` lists.
use cronbat.Prelude.{
  ℕ, suc, ◌≡◌, refl, sym, ap, ◌∙◌, Bool, true, false, Option, none, some, List, [], ◌∷◌,
  if◌then◌else◌, length,
}
use cronbat.Text.{Text, codes, is_empty, text_eq}
use cronbat.Errors.{Error, Result, ok, err, ◌>>=◌, bind-ok, ok_injective, wrap}
use cronbat.Store.{
  Run, Row, Table, JobStats, Engine, rows_of_job, count_status, scan_run, scan_all, selected,
  parse_time_ptr, valid_or, started_texts, durations, list_runs, stats_of, get_job_stats,
}

unfoldable pub count {ℓ} : {A : Type ℓ} → (A → Bool) → List A → ℕ
count p [] = 0
count p (x ∷ xs) = let rest = count p xs in if p x then suc rest else rest

abbrev pub has_status : Text → Run → Bool
has_status status run = text_eq run.status status

abbrev row_has_status : Text → Row → Bool
row_has_status status row = text_eq row.status status

-- ORDER BY neither adds rows nor drops any.
abbrev pub Reorders : Engine → Type 0
Reorders g = (p : Row → Bool) (rows : List Row) → count p (g.newest_first rows) ≡ count p rows

count_status-eq :
    (status : Text) (rows : List Row)
    → count_status status rows ≡ count (row_has_status status) rows
unfolding count_status count
count_status-eq status [] = refl
count_status-eq status (r ∷ rows) = rw (count_status-eq status rows) refl

count_all {ℓ} : {A : Type ℓ} (xs : List A) → count (λ x. true) xs ≡ length xs
unfolding count
count_all [] = refl
count_all (x ∷ xs) = ap suc (count_all xs)

module _ (g : Engine) where
  scan_run-status : (row : Row) (run : Run) → scan_run g row ≡ ok run → run.status ≡ row.status
  unfolding scan_run
  scan_run-status row run h =
      by_parts (g.parse_time row.started_at) refl (g.parse_time row.created_at) refl
        (parse_time_ptr g row.finished_at) refl
    where
      by_parts :
          (s : Result ℕ)
          → g.parse_time row.started_at ≡ s
          → (c : Result ℕ) → g.parse_time row.created_at ≡ c
          → (f : Result (Option ℕ)) → parse_time_ptr g row.finished_at ≡ f
          → run.status ≡ row.status
      by_parts (err e) se c ce f fe = absurd (cc (rw (se, scan_run) at h))
      by_parts (ok s) se (err e) ce f fe = absurd (cc (rw (se, ce, scan_run) at h))
      by_parts (ok s) se (ok c) ce (err e) fe = absurd (cc (rw (se, ce, fe, scan_run) at h))
      by_parts (ok s) se (ok c) ce (ok f) fe =
          sym (ap (λ (r : Run). r.status) (ok_injective (rw (se, ce, fe, scan_run) at h)))

  count-scan_all :
      (p : Text → Bool) (rows : List Row) (runs : List Run)
      → scan_all g rows ≡ ok runs
      → count (λ (run : Run). p run.status) runs ≡ count (λ (row : Row). p row.status) rows
  unfolding scan_all count
  count-scan_all p [] runs h = ap (count (λ (run : Run). p run.status)) (sym (ok_injective h))
  count-scan_all p (row ∷ rows) runs h =
      let (r, er, h') =
        bind-ok (scan_run g row) (λ r. scan_all g rows >>= λ rs. ok (r ∷ rs)) (sym h) in
      let (rs, ers, h'') = bind-ok (scan_all g rows) (λ rs. ok (r ∷ rs)) (sym h') in
      ap (count (λ (run : Run). p run.status)) (sym (ok_injective h''))
      ∙ rw (scan_run-status row r er, count-scan_all p rows rs ers) refl

  module _ (job : Text) (t : Table) (reorders : Reorders g) (named : is_empty job ≡ false) where
    listed :
        (runs : List Run)
        → list_runs g (record { job_name = job; limit = 0; offset = 0 }) t ≡ ok runs
        → scan_all g (g.newest_first (rows_of_job job t)) ≡ ok runs
    unfolding list_runs selected
    listed runs h =
        sym (ap (λ b. scan_all g (g.newest_first (if b then t else rows_of_job job t))) named)
        ∙ by_fault g.query_fault h
      where
        by_fault :
            (f : Option Error)
            → (elim f as (λ x. Result (List Run)) [
              | some e ↦ err e
              | none ↦ scan_all g (g.newest_first (if is_empty job then t else rows_of_job job t))
            ])
              ≡ ok runs
            → scan_all g (g.newest_first (if is_empty job then t else rows_of_job job t)) ≡ ok runs
        by_fault none h = h
        by_fault (some e) h = absurd (cc)

    stats_of-eq :
        (s : JobStats)
        → get_job_stats g job t ≡ ok s
        → (s.total_runs ≡ length (rows_of_job job t))
          × (s.successes ≡ count_status (codes "success") (rows_of_job job t))
          × (s.failures ≡ count_status (codes "failure") (rows_of_job job t))
    unfolding get_job_stats stats_of
    stats_of-eq s h = by_fault g.query_fault h
      where
        of_job : List Row
        of_job = rows_of_job job t

        Counted : Type 0
        Counted =
            (s.total_runs ≡ length of_job)
            × (s.successes ≡ count_status (codes "success") of_job)
            × (s.failures ≡ count_status (codes "failure") of_job)

        by_last :
            (last : Result (Option ℕ))
            → (wrap (codes "parse last_run: ") last >>= λ at. ok (record {
              total_runs = length of_job;
              successes = count_status (codes "success") of_job;
              failures = count_status (codes "failure") of_job;
              last_run = at;
              avg_duration_ms = valid_or 0 (g.average (durations of_job));
            }))
              ≡ ok s
            → Counted
        by_last (err e) h = absurd (cc)
        by_last (ok at) h =
            let e = ok_injective h in
            (
              sym (ap (λ (x : JobStats). x.total_runs) e),
              sym (ap (λ (x : JobStats). x.successes) e),
              sym (ap (λ (x : JobStats). x.failures) e),
            )

        by_fault :
            (f : Option Error)
            → (elim f as (λ x. Result JobStats) [ some e ↦ err e | none ↦ stats_of g of_job ])
              ≡ ok s
            → Counted
        by_fault none h = by_last (parse_time_ptr g (g.latest (started_texts of_job))) h
        by_fault (some e) h = absurd (cc)

    -- Where both succeed, the statistics of a job count the runs that its full list gives: all of
    -- them, and those with the status "success" or "failure". ORDER BY neither adds nor drops rows.
    pub get_job_stats-list_runs :
        (runs : List Run) (s : JobStats)
        → list_runs g (record { job_name = job; limit = 0; offset = 0 }) t ≡ ok runs
        → get_job_stats g job t ≡ ok s
        → (s.total_runs ≡ length runs)
          × (s.successes ≡ count (has_status (codes "success")) runs)
          × (s.failures ≡ count (has_status (codes "failure")) runs)
    get_job_stats-list_runs runs s h hs =
        let (total, good, bad) = stats_of-eq s hs in
        (
          total ∙ sym (count_all (rows_of_job job t)) ∙ kept (λ status. true) ∙ count_all runs,
          good
              ∙ count_status-eq (codes "success") (rows_of_job job t)
              ∙ kept (λ status. text_eq status (codes "success")),
          bad
              ∙ count_status-eq (codes "failure") (rows_of_job job t)
              ∙ kept (λ status. text_eq status (codes "failure")),
        )
      where
        kept :
            (p : Text → Bool)
            → count (λ (row : Row). p row.status) (rows_of_job job t)
              ≡ count (λ (run : Run). p run.status) runs
        kept p =
            sym (reorders (λ (row : Row). p row.status) (rows_of_job job t))
            ∙ sym (count-scan_all p (g.newest_first (rows_of_job job t)) runs (listed runs h))
