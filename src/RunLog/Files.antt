-- ===== src/RunLog/Files.antt =====
-- The paths of the log files in internal/runlog/manager.go, and reading them back.
pub mod Laws
use cronbat.Prelude.{ℕ, Bool, ◌||◌, List, [], ◌∷◌, ◌++◌, ◌==◌, if◌then◌else◌}
use cronbat.Text.{Text, codes, is_empty, trim, is_safe_char}
use cronbat.Errors.{Error, Result, ok, err}
use cronbat.World.{World, Disk, missing, read_file}

abbrev pub is_edge : ℕ → Bool
is_edge c = c == b'.' || c == b'_'

-- Every character that is not safe becomes '_'.
unfoldable pub replace_unsafe : Text → Text
unfolding is_safe_char
replace_unsafe [] = []
replace_unsafe (x ∷ xs) = (if is_safe_char x then x else b'_') ∷ replace_unsafe xs

abbrev pub or_unknown : Text → Text
or_unknown s = if is_empty s then codes "unknown" else s

unfoldable pub sanitize_segment : Text → Text
unfolding replace_unsafe trim
sanitize_segment value =
    if is_empty value then codes "unknown" else or_unknown (trim is_edge (replace_unsafe value))

unfoldable pub paths : World → Text → Text → Text → Text × Text
unfolding sanitize_segment
paths w base_dir job_name run_id =
    let folder = w.join_path base_dir (sanitize_segment job_name) in
    (
      w.join_path folder (run_id ++ codes ".stdout.log"),
      w.join_path folder (run_id ++ codes ".stderr.log"),
    )

-- The `switch` over what the two reads gave
unfoldable pub both_read : Result Text → Result Text → Result (Text × Text)
both_read (ok out) (ok err') = ok (out, err')
both_read (ok out) (err e) = if e.is_not_exist then ok (out, []) else err e
both_read (err e) (ok err') = if e.is_not_exist then ok ([], err') else err e
both_read (err e) (err e') =
    if e.is_not_exist then (if e'.is_not_exist then err missing else err e) else err e

unfoldable pub read_run_logs : World → Text → Text → Text → Disk → Result (Text × Text)
unfolding paths both_read
read_run_logs w base_dir job_name run_id d =
    let (out_path, err_path) = paths w base_dir job_name run_id in
    both_read (read_file w out_path d) (read_file w err_path d)
