-- ===== src/RunLog/Capped.antt =====
-- `CappedFileWriter` of internal/runlog/manager.go. A limit of 0 stands for Go's limits up to 0,
-- which the code does not tell apart.
pub mod Laws
use cronbat.Prelude.{
  ℕ, ◌+◌, ◌-◌, Bool, true, false, ◌||◌, Option, none, some, List, [], ◌++◌, leb, ltb, ◌==◌,
  if◌then◌else◌, length, take,
}

-- `file` is what the file holds.
pub record CappedFileWriter : Type 0 where
  pub file : List ℕ
  pub max_bytes : ℕ
  pub written : ℕ
  pub truncated : Bool

abbrev pub new_capped_file_writer : ℕ → CappedFileWriter
new_capped_file_writer max_bytes = record {
  file = [];
  max_bytes = max_bytes;
  written = 0;
  truncated = false;
}

-- `w.file.Write`: all bytes are written, or it fails after some of them.
unfoldable pub stored : List ℕ → Option ℕ → CappedFileWriter → CappedFileWriter
stored p none w = record w { file = w.file ++ p; written = w.written + length p }
stored p (some n) w = record w { file = w.file ++ take n p }

-- `fault` says after how many bytes a write to the file fails, if it does. The count that Go
-- returns is always `len(p)`, and the error nil.
unfoldable pub write :
    (List ℕ → List ℕ → Option ℕ) → List ℕ → CappedFileWriter → ℕ × CappedFileWriter
unfolding stored
write fault p w =
    let n = length p in
    let remaining = w.max_bytes - w.written in
    if w.max_bytes == 0
    then (n, record w { truncated = true })
    else if leb w.max_bytes w.written
    then (n, record w { truncated = true })
    else if ltb remaining n
    then (
      n,
      stored (take remaining p) (fault w.file (take remaining p)) (record w { truncated = true }),
    )
    else (n, stored p (fault w.file p) w)
