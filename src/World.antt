-- ===== src/World.antt =====
-- What the program uses and does not implement: the cron parser, the duration parser, YAML, and
-- the file system. A function of the world says how a call of the system goes; the theorems hold
-- for every world.
use cronbat.Prelude.{ℕ, true, Option, none, some}
use cronbat.Text.{Text, codes}
use cronbat.Dict.{Dict, lookup, insert, remove}
use cronbat.Errors.{Error, Result, ok, err}
use cronbat.Config.Job.{Job}

-- A duration in nanoseconds; `minus n` is -(n + 1).
pub data Duration : Type 0 where
  plus : ℕ → Duration
  minus : ℕ → Duration

pub record World : Type 0 where
  -- github.com/robfig/cron: a schedule is its `Next`
  pub parse_schedule : Text → Result (ℕ → ℕ)
  -- time.ParseDuration
  pub parse_duration : Text → Result Duration
  -- gopkg.in/yaml.v3
  pub marshal : Job → Result Text
  pub unmarshal : Text → Result Job
  -- filepath.Join and filepath.Dir
  pub join_path : Text → Text → Text
  pub dir : Text → Text
  -- why a call of package os fails, if it does. A failed write may leave the file changed:
  -- what it then holds is the second part.
  pub mkdir_fault : Text → Option Error
  pub write_fault : Text → Text → Option (Error × Option Text)
  pub read_fault : Text → Option Error
  pub remove_fault : Text → Option Error
  pub rename_fault : Text → Text → Option Error

-- The files by their paths.
abbrev pub Disk : Type 0
Disk = Dict Text

-- os.ErrNotExist, as package os reports it
abbrev pub missing : Error
missing = record { message = codes "no such file or directory"; is_not_exist = true }

unfoldable pub mkdir_all : World → Text → Result (Unit {0})
mkdir_all w path = elim (w.mkdir_fault path) [ none ↦ ok tt | some e ↦ err e ]

unfoldable pub left_by_fault : Text → Option Text → Disk → Disk
left_by_fault path none d = remove path d
left_by_fault path (some rest) d = insert path rest d

unfoldable pub write_file : World → Text → Text → Disk → Result (Unit {0}) × Disk
unfolding left_by_fault
write_file w path content d = elim (w.write_fault path content) [
  | none ↦ (ok tt, insert path content d)
  | some (e, rest) ↦ (err e, left_by_fault path rest d)
]

unfoldable pub read_file : World → Text → Disk → Result Text
read_file w path d = elim (w.read_fault path) [
  | some e ↦ err e
  | none ↦ elim (lookup path d) [ none ↦ err missing | some content ↦ ok content ]
]

unfoldable pub remove_file : World → Text → Disk → Result (Unit {0}) × Disk
remove_file w path d = elim (w.remove_fault path) [
  | some e ↦ (err e, d)
  | none ↦ elim (lookup path d) [ none ↦ (err missing, d) | some content ↦ (ok tt, remove path d) ]
]

unfoldable pub rename_file : World → Text → Text → Disk → Result (Unit {0}) × Disk
rename_file w src dst d = elim (w.rename_fault src dst) [
  | some e ↦ (err e, d)
  | none ↦ elim (lookup src d) [
    | none ↦ (err missing, d)
    | some content ↦ (ok tt, insert dst content (remove src d))
  ]
]
