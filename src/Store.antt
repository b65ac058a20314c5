-- ===== src/Store.antt =====
-- internal/store: the history of runs in a table of SQLite. The table is the list of its rows, and a
-- statement is what its SQL says of them; `Engine` holds what SQLite and package time do beyond it.
pub mod Saved
pub mod Twice
pub mod Pages
pub mod Counts
mod Tests
use cronbat.Prelude.{
  ℕ, ℤ, pos, is_zero, suc, ◌+◌, ◌==◌, ◌&&◌, Bool, Option, none, some, List, [], ◌∷◌, ltb,
  if◌then◌else◌, length, take, drop,
}
use cronbat.Text.{Text, codes, is_empty, text_eq}
use cronbat.Errors.{Error, Result, ok, err, ◌>>=◌, new_error, wrap}

-- A time is a number, 0 Go's zero time.
pub record Run : Type 0 where
  pub id : Text
  pub job_name : Text
  pub status : Text
  pub exit_code : ℤ
  pub started_at : ℕ
  pub finished_at : Option ℕ
  pub duration_ms : ℤ
  pub stdout_tail : Text
  pub stderr_tail : Text
  pub error_msg : Text
  pub trigger : Text
  pub llm_analysis : Text
  pub llm_tokens_used : ℤ
  pub created_at : ℕ

-- A negative limit or offset acts as 0.
pub record ListOpts : Type 0 where
  pub job_name : Text
  pub limit : ℕ
  pub offset : ℕ

-- The average is the bits of a float64.
pub record JobStats : Type 0 where
  pub total_runs : ℕ
  pub successes : ℕ
  pub failures : ℕ
  pub last_run : Option ℕ
  pub avg_duration_ms : ℕ

-- A row of the table `runs`; `none` is NULL.
pub record Row : Type 0 where
  pub id : Text
  pub job_name : Text
  pub status : Text
  pub exit_code : Option ℤ
  pub started_at : Text
  pub finished_at : Option Text
  pub duration_ms : Option ℤ
  pub stdout_tail : Option Text
  pub stderr_tail : Option Text
  pub error_msg : Option Text
  pub trigger_type : Text
  pub llm_analysis : Option Text
  pub llm_tokens_used : Option ℤ
  pub created_at : Text

abbrev pub Table : Type 0
Table = List Row

pub record Engine : Type 0 where
  -- `t.UTC().Format(time.RFC3339Nano)` and `time.Parse`
  pub format_time : ℕ → Text
  pub parse_time : Text → Result ℕ
  -- ORDER BY started_at DESC
  pub newest_first : List Row → List Row
  -- MAX of texts and AVG of integers, NULL for none
  pub latest : List Text → Option Text
  pub average : List (Option ℤ) → Option ℕ
  -- why a statement that writes, or one that reads, fails
  pub exec_fault : Option Error
  pub query_fault : Option Error

abbrev pub null_string : Text → Option Text
null_string s = if is_empty s then none else some s

abbrev pub null_int64 : ℤ → Option ℤ
null_int64 v = if is_zero v then none else some v

-- `if column.Valid`, with Go's zero value otherwise
abbrev pub valid_or {ℓ} : {A : Type ℓ} → A → Option A → A
valid_or zero_value none = zero_value
valid_or zero_value (some a) = a

-- The clauses of DO UPDATE SET
abbrev pub update_row : Row → Row → Row
update_row excluded old = record old {
  status = excluded.status;
  exit_code = excluded.exit_code;
  finished_at = excluded.finished_at;
  duration_ms = excluded.duration_ms;
  stdout_tail = excluded.stdout_tail;
  stderr_tail = excluded.stderr_tail;
  error_msg = excluded.error_msg;
  llm_analysis = excluded.llm_analysis;
  llm_tokens_used = excluded.llm_tokens_used;
}

-- INSERT ... ON CONFLICT(id)
unfoldable pub upsert : Row → Table → Table
upsert row [] = row ∷ []
upsert row (r ∷ t) = if text_eq r.id row.id then update_row row r ∷ t else r ∷ upsert row t

-- The run as `RecordRun` leaves it: `new_id` is what `NewRunID` would give, `now` the time.
abbrev pub filled : Text → ℕ → Run → Run
filled new_id now run = record run {
  id = if is_empty run.id then new_id else run.id;
  created_at = if run.created_at == 0 then now else run.created_at;
}

-- WHERE id = ?
unfoldable pub row_with : Text → Table → Option Row
row_with id [] = none
row_with id (r ∷ t) = if text_eq r.id id then some r else row_with id t

-- WHERE job_name = ?
unfoldable pub rows_of_job : Text → Table → List Row
rows_of_job job [] = []
rows_of_job job (r ∷ t) =
    let rest = rows_of_job job t in if text_eq r.job_name job then r ∷ rest else rest

unfoldable pub selected : ListOpts → Table → List Row
unfolding rows_of_job
selected opts t = if is_empty opts.job_name then t else rows_of_job opts.job_name t

-- LIMIT ? OFFSET ?, each only if it is positive
abbrev pub limited : ListOpts → List Row → List Row
limited opts rows =
    let rest = drop opts.offset rows in if ltb 0 opts.limit then take opts.limit rest else rest

-- SQLite's grammar has OFFSET only after LIMIT.
abbrev pub syntax_error : Error
syntax_error = new_error (codes "near OFFSET: syntax error")

-- SUM(CASE WHEN status = ? THEN 1 ELSE 0 END), with NULL as 0
unfoldable pub count_status : Text → List Row → ℕ
count_status status [] = 0
count_status status (r ∷ rows) =
    let rest = count_status status rows in if text_eq r.status status then suc rest else rest

unfoldable pub started_texts : List Row → List Text
started_texts [] = []
started_texts (r ∷ rows) = r.started_at ∷ started_texts rows

unfoldable pub durations : List Row → List (Option ℤ)
durations [] = []
durations (r ∷ rows) = r.duration_ms ∷ durations rows

module _ (g : Engine) where
  abbrev pub format_time_ptr : Option ℕ → Option Text
  format_time_ptr none = none
  format_time_ptr (some t) = some (g.format_time t)

  abbrev pub parse_time_ptr : Option Text → Result (Option ℕ)
  parse_time_ptr none = ok none
  parse_time_ptr (some s) = do t ← g.parse_time s; ok (some t)

  unfoldable pub row_of : Run → Row
  row_of run = record {
    id = run.id;
    job_name = run.job_name;
    status = run.status;
    exit_code = some run.exit_code;
    started_at = g.format_time run.started_at;
    finished_at = format_time_ptr run.finished_at;
    duration_ms = some run.duration_ms;
    stdout_tail = null_string run.stdout_tail;
    stderr_tail = null_string run.stderr_tail;
    error_msg = null_string run.error_msg;
    trigger_type = run.trigger;
    llm_analysis = null_string run.llm_analysis;
    llm_tokens_used = null_int64 run.llm_tokens_used;
    created_at = g.format_time run.created_at;
  }

  unfoldable pub record_run : Text → ℕ → Run → Table → Result (Unit {0}) × Table
  unfolding row_of upsert
  record_run new_id now run t = elim g.exec_fault [
    | some e ↦ (err e, t)
    | none ↦ (ok tt, upsert (row_of (filled new_id now run)) t)
  ]

  unfoldable pub scan_run : Row → Result Run
  scan_run row = do
    started ← wrap (codes "parse started_at: ") (g.parse_time row.started_at)
    created ← wrap (codes "parse created_at: ") (g.parse_time row.created_at)
    finished ← wrap (codes "parse finished_at: ") (parse_time_ptr row.finished_at)
    ok (record {
      id = row.id;
      job_name = row.job_name;
      status = row.status;
      exit_code = valid_or (pos 0) row.exit_code;
      started_at = started;
      finished_at = finished;
      duration_ms = valid_or (pos 0) row.duration_ms;
      stdout_tail = valid_or [] row.stdout_tail;
      stderr_tail = valid_or [] row.stderr_tail;
      error_msg = valid_or [] row.error_msg;
      trigger = row.trigger_type;
      llm_analysis = valid_or [] row.llm_analysis;
      llm_tokens_used = valid_or (pos 0) row.llm_tokens_used;
      created_at = created;
    })

  scan_found : Option Row → Result (Option Run)
  unfolding scan_run
  scan_found none = ok none
  scan_found (some row) = do run ← scan_run row; ok (some run)

  unfoldable pub get_run : Text → Table → Result (Option Run)
  unfolding scan_found
  get_run id t = elim g.query_fault [ some e ↦ err e | none ↦ scan_found (row_with id t) ]

  unfoldable pub scan_all : List Row → Result (List Run)
  scan_all [] = ok []
  scan_all (row ∷ rows) = do run ← scan_run row; runs ← scan_all rows; ok (run ∷ runs)

  unfoldable pub list_runs : ListOpts → Table → Result (List Run)
  unfolding selected
  list_runs opts t =
      if opts.limit == 0 && ltb 0 opts.offset then err syntax_error else elim g.query_fault [
        | some e ↦ err e
        | none ↦ scan_all (limited opts (g.newest_first (selected opts t)))
      ]

  stats_of : List Row → Result JobStats
  unfolding count_status started_texts durations
  stats_of rows = do
    last ← wrap (codes "parse last_run: ") (parse_time_ptr (g.latest (started_texts rows)))
    ok (record {
      total_runs = length rows;
      successes = count_status (codes "success") rows;
      failures = count_status (codes "failure") rows;
      last_run = last;
      avg_duration_ms = valid_or 0 (g.average (durations rows));
    })

  unfoldable pub get_job_stats : Text → Table → Result JobStats
  unfolding stats_of rows_of_job
  get_job_stats job t = elim g.query_fault [ some e ↦ err e | none ↦ stats_of (rows_of_job job t) ]
