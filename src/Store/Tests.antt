-- ===== src/Store/Tests.antt =====
-- The store's theorems at a concrete table.
use cronbat.Prelude.{
  ℕ, pos, negsuc, ◌≡◌, refl, ◌∙◌, Bool, false, none, some, List, [], ◌∷◌, arith, ltb, if◌then◌else◌,
  length,
}
use cronbat.Text.{Text, codes, text_eq}
use cronbat.Errors.{Result, ok, err, new_error}
use cronbat.Store.{
  Run, Row, Table, Engine, filled, upsert, row_of, record_run, scan_run, scan_all, get_run,
  list_runs, get_job_stats, row_with, rows_of_job, selected, count_status, started_texts, durations,
}
use cronbat.Store.Saved.{get_run-record_run}
use cronbat.Store.Pages.{list_runs-append}
use cronbat.Store.Counts.{count, has_status, get_job_stats-list_runs}

-- A time is written as one character.
abbrev read_time : Text → Result ℕ
read_time (t ∷ []) = ok t
read_time _ = err (new_error [])

abbrev later : Text → Text → Bool
later (a ∷ []) (b ∷ []) = ltb b a
later _ _ = false

insert_row : Row → List Row → List Row
insert_row r [] = r ∷ []
insert_row r (x ∷ xs) =
    let rest = insert_row r xs in if later r.started_at x.started_at then r ∷ x ∷ xs else x ∷ rest

sort_rows : List Row → List Row
unfolding insert_row
sort_rows [] = []
sort_rows (x ∷ xs) = insert_row x (sort_rows xs)

count-insert_row :
    (p : Row → Bool) (r : Row) (rows : List Row) → count p (insert_row r rows) ≡ count p (r ∷ rows)
unfolding count insert_row
count-insert_row p r [] = refl
count-insert_row p r (x ∷ xs) = ground (arith, count-insert_row p r xs)

count-sort_rows : (p : Row → Bool) (rows : List Row) → count p (sort_rows rows) ≡ count p rows
unfolding count sort_rows
count-sort_rows p [] = refl
count-sort_rows p (x ∷ xs) = count-insert_row p x (sort_rows xs) ∙ rw (count-sort_rows p xs) refl

abbrev engine : Engine
engine = record {
  format_time = λ t. t ∷ [];
  parse_time = read_time;
  newest_first = sort_rows;
  latest = λ texts. none;
  average = λ ns. none;
  exec_fault = none;
  query_fault = none;
}

abbrev failed_run : Run
failed_run = record {
  id = codes "1";
  job_name = codes "a";
  status = codes "failure";
  exit_code = negsuc 0;
  started_at = 7;
  finished_at = some 9;
  duration_ms = pos 2;
  stdout_tail = [];
  stderr_tail = codes "no";
  error_msg = codes "exit";
  trigger = codes "manual";
  llm_analysis = [];
  llm_tokens_used = pos 0;
  created_at = 0;
}

abbrev good_run : Run
good_run = record failed_run { id = codes "2"; status = codes "success"; started_at = 8 }

abbrev one_row : Table
one_row = (record_run engine (codes "x") 11 failed_run []).1

abbrev two_rows : Table
two_rows = (record_run engine (codes "x") 12 good_run one_row).1

not_there : get_run engine (codes "2") one_row ≡ ok none
unfolding get_run record_run row_of upsert row_with text_eq
not_there = refl

get_run-record_run_example :
    get_run engine (codes "2") two_rows ≡ ok (some (filled (codes "x") 12 good_run))
unfolding text_eq
get_run-record_run_example =
    get_run-record_run engine (λ t. refl) refl (codes "x") 12 good_run one_row none refl not_there
      (codes "2")

list_runs-append_example :
    list_runs engine (record { job_name = codes "a"; limit = 2; offset = 0 }) two_rows
    ≡ ok (filled (codes "x") 12 good_run ∷ filled (codes "x") 11 failed_run ∷ [])
unfolding list_runs record_run row_of upsert text_eq selected rows_of_job scan_all scan_run
    sort_rows
list_runs-append_example =
    list_runs-append engine (codes "a") 1 1 0 two_rows (filled (codes "x") 12 good_run ∷ [])
      (filled (codes "x") 11 failed_run ∷ []) refl (omega arith) (omega arith) refl refl

abbrev both_runs : List Run
both_runs = filled (codes "x") 12 good_run ∷ filled (codes "x") 11 failed_run ∷ []

get_job_stats-list_runs_example :
    (2 ≡ length both_runs)
    × (1 ≡ count (has_status (codes "success")) both_runs)
    × (1 ≡ count (has_status (codes "failure")) both_runs)
unfolding get_job_stats list_runs record_run row_of upsert text_eq selected rows_of_job scan_all
    scan_run sort_rows count count_status started_texts durations
get_job_stats-list_runs_example =
    get_job_stats-list_runs engine (codes "a") two_rows count-sort_rows refl both_runs
      (record { total_runs = 2; successes = 1; failures = 1; last_run = none; avg_duration_ms = 0 })
      refl refl
