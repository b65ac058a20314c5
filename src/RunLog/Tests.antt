-- ===== src/RunLog/Tests.antt =====
-- The theorems about the log files at concrete inputs.
use cronbat.Prelude.{
  arith, get_elem?, ◌≡◌, ◌≤◌, ◌<◌, take, drop, ◌++◌, refl, ℕ, Option, none, some, List, [], ◌∷◌,
  true, false, flatten,
}
use cronbat.Text.{
  Text, has_suffix, codes, trim, trim_left, trim_right, is_safe_char, is_empty, text_eq,
}
use cronbat.Text.Laws.{every}
use cronbat.Dict.{lookup}
use cronbat.Errors.{ok, err, new_error}
use cronbat.Config.Job.{zero_job}
use cronbat.RunLog.Cleanup.{FileInfo, Found, sum_sizes, walk, cleanup}
use cronbat.RunLog.Cleanup.Laws.{remove_all, cleanup_oldest, cleanup_other}
use cronbat.World.{World, Disk, Duration, read_file}
use cronbat.RunLog.Capped.{new_capped_file_writer}
use cronbat.RunLog.Capped.Laws.{write_all, no_fault, file-write_all}
use cronbat.RunLog.Files.{is_edge, replace_unsafe, sanitize_segment, read_run_logs}
use cronbat.RunLog.Files.Laws.{sanitize_segment_safe}

abbrev chunks : List (List ℕ)
chunks = (1 ∷ 2 ∷ 3 ∷ []) ∷ (4 ∷ 5 ∷ []) ∷ (6 ∷ []) ∷ []

-- The second write fails after one byte.
abbrev fails_once : List ℕ → List ℕ → Option ℕ
fails_once held (x ∷ y ∷ []) = some 1
fails_once held p = none

abbrev good : World
good = record {
  parse_schedule = λ text. err (new_error []);
  parse_duration = λ text. ok (Duration.plus 1);
  marshal = λ j. ok j.command;
  unmarshal = λ text. ok zero_job;
  join_path = λ a b. a ++ (codes "/" ++ b);
  dir = λ path. path;
  mkdir_fault = λ path. none;
  write_fault = λ path content. none;
  read_fault = λ path. none;
  remove_fault = λ path. none;
  rename_fault = λ src dst. none;
}

file-write_all_example :
    ((write_all no_fault chunks (new_capped_file_writer 4)).file ≡ 1 ∷ 2 ∷ 3 ∷ 4 ∷ [])
    × ((write_all no_fault chunks (new_capped_file_writer 4)).written ≡ 4)
unfolding flatten
file-write_all_example = file-write_all 4 chunks

sanitized : sanitize_segment (codes "../a b") ≡ codes "a_b"
unfolding sanitize_segment replace_unsafe is_safe_char trim trim_left trim_right
sanitized = refl

abbrev files : List (Text × Text)
files = (codes "r/a/7.stdout.log", codes "hello") ∷ []

hello_read : read_run_logs good (codes "r") (codes "a") (codes "7") files ≡ ok (codes "hello", [])
unfolding read_run_logs sanitize_segment replace_unsafe is_safe_char trim trim_left trim_right
    read_file lookup text_eq
hello_read = refl

-- Three files, the oldest first; without the first two of them the total fits.
abbrev old_files : List FileInfo
old_files =
    record { path = codes "a.stdout.log"; size = 5; mod_time = 1 }
    ∷ record { path = codes "b.stdout.log"; size = 4; mod_time = 2 }
    ∷ record { path = codes "c.stdout.log"; size = 3; mod_time = 3 }
    ∷ []

-- The walk comes upon the youngest file first; the sort turns the list.
abbrev logs_met : List Found
logs_met =
    Found.file (codes "c.stdout.log") (ok (3, 3))
    ∷ Found.file (codes "b.stdout.log") (ok (4, 2))
    ∷ Found.file (codes "a.stdout.log") (ok (5, 1))
    ∷ []

abbrev turn : List FileInfo → List FileInfo
turn [] = []
turn (f ∷ fs) = turn fs ++ (f ∷ [])

logs_walked : walk good 0 logs_met [] [] ≡ (ok (turn old_files), [])
unfolding walk has_suffix text_eq
logs_walked = refl

same_total : sum_sizes old_files ≡ sum_sizes (turn old_files)
unfolding sum_sizes
same_total = refl

cleanup_oldest_example :
    (k : ℕ) × (cleanup good (λ less. turn) 0 3 logs_met []
      ≡ (ok tt, remove_all good (take k old_files) []))
    × (sum_sizes (drop k old_files) ≤ 3)
    × ((i : ℕ) → i < k → 3 < sum_sizes (drop i old_files))
    × ((i j : ℕ) (f g : FileInfo)
        → get_elem? (take k old_files) i ≡ some f
        → get_elem? (drop k old_files) j ≡ some g
        → f.mod_time ≤ g.mod_time)
cleanup_oldest_example =
    cleanup_oldest good (λ less. turn) 0 3 logs_met [] [] (turn old_files) logs_walked (omega arith)
      (λ path. refl) ((refl, (refl, tt)), ((refl, tt), (tt, tt))) same_total

abbrev met : List Found
met =
    Found.folder
    ∷ Found.file (codes "x.txt") (ok (9, 0))
    ∷ Found.file (codes "a.stdout.log") (ok (5, 1))
    ∷ []

abbrev held : Disk
held = (codes "x.txt", codes "x") ∷ (codes "a.stdout.log", codes "a") ∷ []

cleanup_other_example :
    lookup (codes "x.txt") (cleanup good (λ less files. files) 4 3 met held).1 ≡ some (codes "x")
unfolding lookup has_suffix text_eq
cleanup_other_example =
    cleanup_other good (codes "x.txt") refl (λ less files. files) 4 3 met held (λ files logs. logs)

sanitize_segment_safe_example :
    (every is_safe_char (sanitize_segment (codes "../a b")) ≡ true)
    × (is_empty (sanitize_segment (codes "../a b")) ≡ false)
    × (trim is_edge (sanitize_segment (codes "../a b")) ≡ sanitize_segment (codes "../a b"))
sanitize_segment_safe_example = sanitize_segment_safe (codes "../a b")
