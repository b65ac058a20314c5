-- ===== src/RunLog/Cleanup.antt =====
-- `Cleanup` of internal/runlog/manager.go. The walk of the folder is the list of what it comes upon;
-- sizes do not add up to 2^63. A total of 0 stands for Go's totals up to 0, which it does not tell
-- apart.
pub mod Laws
use cronbat.Prelude.{
  ℕ, ◌+◌, ◌-◌, Bool, true, false, not, ◌||◌, List, [], ◌∷◌, ◌++◌, ltb, leb, ◌==◌, if◌then◌else◌,
}
use cronbat.Text.{Text, codes, has_suffix}
use cronbat.Errors.{Error, Result, ok, err}
use cronbat.World.{World, Disk, remove_file}

pub record FileInfo : Type 0 where
  pub path : Text
  pub size : ℕ
  pub mod_time : ℕ

-- What the walk comes upon: an error, a folder, or a file with its size and time, if those are got
pub data Found : Type 0 where
  walk_error : Error → Found
  folder : Found
  file : Text → Result (ℕ × ℕ) → Found

abbrev pub is_log : Text → Bool
is_log path = has_suffix path (codes ".stdout.log") || has_suffix path (codes ".stderr.log")

unfoldable pub sum_sizes : List FileInfo → ℕ
sum_sizes [] = 0
sum_sizes (f ∷ fs) = f.size + sum_sizes fs

module _ (w : World) where
  -- The log files that are younger than the cutoff; the older ones are removed, and an error of
  -- that is ignored.
  unfoldable pub walk : ℕ → List Found → List FileInfo → Disk → Result (List FileInfo) × Disk
  walk cutoff [] files d = (ok files, d)
  walk cutoff (walk_error e ∷ rest) files d = (err e, d)
  walk cutoff (folder ∷ rest) files d = walk cutoff rest files d
  walk cutoff (file path (err e) ∷ rest) files d =
      let passed = walk cutoff rest files d in if not (is_log path) then passed else (err e, d)
  walk cutoff (file path (ok (size, mod_time)) ∷ rest) files d =
      let passed = walk cutoff rest files d in
      let removed = walk cutoff rest files (remove_file w path d).1 in
      let kept =
        walk cutoff rest (files ++ (record { path = path; size = size; mod_time = mod_time } ∷ []))
          d in
      if not (is_log path) then passed else if ltb mod_time cutoff then removed else kept

  -- What is left of the total once a file is gone
  abbrev pub left_over : ℕ → ℕ → Result (Unit {0}) → ℕ
  left_over total size (ok _) = total - size
  left_over total size (err e) = if e.is_not_exist then total - size else total

  unfoldable pub evict : ℕ → ℕ → List FileInfo → Disk → Disk
  evict max_total total [] d = d
  evict max_total total (f ∷ fs) d =
      let (r, d') = remove_file w f.path d in
      let rest = evict max_total (left_over total f.size r) fs d' in
      if leb total max_total then d else rest

  -- `files[i].modTime.Before(files[j].modTime)`
  abbrev pub older : FileInfo → FileInfo → Bool
  older f g = ltb f.mod_time g.mod_time

  -- `sort_slice` is sort.Slice, as a function of what stands at the two indices.
  unfoldable pub walked :
      ((FileInfo → FileInfo → Bool) → List FileInfo → List FileInfo)
      → ℕ
      → Result (List FileInfo) × Disk
      → Result (Unit {0}) × Disk
  unfolding evict sum_sizes
  walked sort_slice max_total (err e, d) = if e.is_not_exist then (ok tt, d) else (err e, d)
  walked sort_slice max_total (ok files, d) =
      if max_total == 0
      then (ok tt, d)
      else if leb (sum_sizes files) max_total
      then (ok tt, d)
      else (ok tt, evict max_total (sum_sizes files) (sort_slice older files) d)

  -- `cutoff` is the time some days ago.
  unfoldable pub cleanup :
      ((FileInfo → FileInfo → Bool) → List FileInfo → List FileInfo)
      → ℕ
      → ℕ
      → List Found
      → Disk
      → Result (Unit {0}) × Disk
  unfolding walk walked
  cleanup sort_slice cutoff max_total found d = walked sort_slice max_total (walk cutoff found [] d)
