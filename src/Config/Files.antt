-- ===== src/Config/Files.antt =====
-- The functions of internal/config/job.go that parse, write and read job files.
use cronbat.Prelude.{Bool, false, List, [], ◌∷◌, ◌++◌, if◌then◌else◌}
use cronbat.Text.{Text, codes, is_empty, has_suffix}
use cronbat.Errors.{Result, ok, err, ◌>>=◌, wrap}
use cronbat.Config.Job.{Job, apply_job_defaults}
use cronbat.World.{World, Duration, Disk, mkdir_all, write_file, read_file}

unfoldable pub parse_timeout : World → Job → Result Duration
parse_timeout w j = if is_empty j.timeout then ok (Duration.plus 0) else w.parse_duration j.timeout

unfoldable pub parse_job_yaml : World → Text → Result Job
parse_job_yaml w content = do j ← w.unmarshal content; ok (apply_job_defaults j)

-- `SaveJob` after each of its calls: the file is written, or not. The job comes back with its path,
-- which Go stores in the job that the argument points to.
unfoldable pub written : Job → Text → Result (Unit {0}) × Disk → Result Job × Disk
written j path (ok _, d) = (ok (record j { file_path = path }), d)
written j path (err e, d) = (err e, d)

unfoldable pub dir_made : World → Text → Job → Text → Disk → Result (Unit {0}) → Result Job × Disk
dir_made w path j content d (err e) = (err e, d)
dir_made w path j content d (ok _) = written j path (write_file w path content d)

unfoldable pub marshalled : World → Text → Job → Disk → Result Text → Result Job × Disk
marshalled w path j d (err e) = (err e, d)
marshalled w path j d (ok content) = dir_made w path j content d (mkdir_all w (w.dir path))

unfoldable pub save_job : World → Text → Job → Disk → Result Job × Disk
unfolding written dir_made marshalled
save_job w path j d = marshalled w path j d (w.marshal j)

-- An entry of a directory
pub record DirEntry : Type 0 where
  pub file_name : Text
  pub is_dir : Bool

load_entry : World → Text → DirEntry → Disk → Result Job
unfolding parse_job_yaml
load_entry w folder entry d = do
  let path = w.join_path folder entry.file_name
  content ← wrap (codes "reading " ++ (path ++ codes ": ")) (read_file w path d)
  job ← wrap (codes "parsing " ++ (path ++ codes ": ")) (parse_job_yaml w content)
  ok (record job { file_path = path })

is_job_file : DirEntry → Bool
is_job_file entry = if entry.is_dir then false else has_suffix entry.file_name (codes ".yaml")

-- `LoadJobs` over the entries that `os.ReadDir` lists: the first file that fails ends the loop.
unfoldable pub load_jobs : World → Text → List DirEntry → Disk → Result (List Job)
unfolding load_entry is_job_file
load_jobs w folder [] d = ok []
load_jobs w folder (entry ∷ entries) d =
    let rest = load_jobs w folder entries d in
    if is_job_file entry
    then (do job ← load_entry w folder entry d; jobs ← rest; ok (job ∷ jobs))
    else rest
