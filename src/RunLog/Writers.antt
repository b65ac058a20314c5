-- ===== src/RunLog/Writers.antt =====
-- `OpenRunWriters` of internal/runlog/manager.go, and what the files hold after `RunWriters.Close`.
use cronbat.Prelude.{ℕ, []}
use cronbat.Text.{Text}
use cronbat.Dict.{insert}
use cronbat.Errors.{Result, ok, err}
use cronbat.World.{World, Disk, mkdir_all, write_file}
use cronbat.RunLog.Capped.{CappedFileWriter, new_capped_file_writer}
use cronbat.RunLog.Files.{paths}

pub record RunWriters : Type 0 where
  pub stdout : CappedFileWriter
  pub stderr : CappedFileWriter
  pub stdout_path : Text
  pub stderr_path : Text

-- os.Create
abbrev create_file : World → Text → Disk → Result (Unit {0}) × Disk
create_file w path d = write_file w path [] d

module _ (w : World) (base_dir : Text) (max_bytes : ℕ) where
  both_created : Text → Text → Result (Unit {0}) × Disk → Result RunWriters × Disk
  both_created out_path err_path (err e, d) = (err e, d)
  both_created out_path err_path (ok _, d) = (
    ok (record {
      stdout = new_capped_file_writer max_bytes;
      stderr = new_capped_file_writer max_bytes;
      stdout_path = out_path;
      stderr_path = err_path;
    }),
    d,
  )

  stdout_created : Text → Text → Result (Unit {0}) × Disk → Result RunWriters × Disk
  unfolding both_created
  stdout_created out_path err_path (err e, d) = (err e, d)
  stdout_created out_path err_path (ok _, d) =
      both_created out_path err_path (create_file w err_path d)

  folder_made : Text → Text → Disk → Result (Unit {0}) → Result RunWriters × Disk
  unfolding stdout_created
  folder_made out_path err_path d (err e) = (err e, d)
  folder_made out_path err_path d (ok _) =
      stdout_created out_path err_path (create_file w out_path d)

  unfoldable pub open_run_writers : Text → Text → Disk → Result RunWriters × Disk
  unfolding folder_made paths
  open_run_writers job_name run_id d =
      let (out_path, err_path) = paths w base_dir job_name run_id in
      folder_made out_path err_path d (mkdir_all w (w.dir out_path))

-- The bytes that the writers took are in their files.
unfoldable pub close : RunWriters → Disk → Disk
close r d = insert r.stderr_path r.stderr.file (insert r.stdout_path r.stdout.file d)
