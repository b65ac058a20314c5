-- ===== src/Daemon/Yaml/Laws.antt =====
-- Facts about the steps of `updateJobYAML`.
use cronbat.Prelude.{
  ℕ, ◌≡◌, refl, sym, inl, inr, not, Option, none, some, arith, if◌then◌else◌, Bool-cases,
  Option-cases, true,
}
use cronbat.Text.{Text, text_eq, trim_space, is_empty}
use cronbat.Text.Laws.{text_eq_iff}
use cronbat.Dict.{Dict, lookup, remove, lookup-insert, lookup-remove}
use cronbat.Errors.{Error, Result, ok, err, require-ok, bind-ok}
use cronbat.Config.Job.{Job, is_enabled}
use cronbat.Config.Files.{parse_job_yaml}
use cronbat.World.{World, Disk, remove_file, missing}
use cronbat.Scheduler
use cronbat.Scheduler.{Scheduler}
use cronbat.Daemon.State.{apply_schedule, schedule_parsed}
use cronbat.Daemon.Validate.{IsValid, validate_job-IsNormal}
use cronbat.Daemon.Invariant.{due_at}
use cronbat.Daemon.Yaml.{parse_update, renamed}

-- What passes the checks on the text is a valid job.
pub parse_update-IsValid :
    (w : World) (content : Text) (j : Job) → parse_update w content ≡ ok j → IsValid w j
unfolding parse_update
parse_update-IsValid w content j h =
    let (parsed, e, h₁) = bind-ok (parse_job_yaml w content) _ (sym h) in
    let named : Job = record parsed { name = trim_space parsed.name } in
    let (some_name, h₂) = require-ok (not (is_empty named.name)) _ _ h₁ in
    (validate_job-IsNormal w named j h₂).valid

-- A schedule that cannot be applied never comes due.
pub apply_schedule-err :
    (w : World) (now : ℕ) (j : Job) (s : Scheduler) (e : Error)
    → (apply_schedule w now j s).0 ≡ err e
    → due_at w now j ≡ none
unfolding apply_schedule due_at
apply_schedule-err w now j s e h = elim (Bool-cases (is_enabled j)) [
  | inl on ↦ rw on (by_result (w.parse_schedule j.schedule) (rw on at h))
  | inr off ↦ rw off refl
]
  where
    by_result :
        (r : Result (ℕ → ℕ))
        → (schedule_parsed now j.name (Scheduler.remove_job now j.name s) r).0 ≡ err e
        → (elim r as (λ x. Option ℕ) [ err e' ↦ none | ok schedule ↦ some (schedule now) ]) ≡ none
    by_result (err e') g = refl
    by_result (ok schedule) g = absurd (cc)

-- The ways a call of os.Remove ends.
pub data Removing (w : World) (p : Text) (disk : Disk) : Result (Unit {0}) × Disk → Type 0 where
  removed : w.remove_fault p ≡ none → Removing w p disk (ok tt, remove p disk)
  absent : w.remove_fault p ≡ none → lookup p disk ≡ none → Removing w p disk (err missing, disk)
  failed : (e : Error) → w.remove_fault p ≡ some e → Removing w p disk (err e, disk)

pub remove_file-Removing :
    (w : World) (p : Text) (disk : Disk) → Removing w p disk (remove_file w p disk)
unfolding remove_file
remove_file-Removing w p disk = elim (Option-cases (w.remove_fault p)) [
  | inr (e, fault) ↦ rw (fault, remove_file) (Removing.failed e fault)
  | inl sound ↦ elim (Option-cases (lookup p disk)) [
    | inl none_there ↦
        rw (sound, remove_file) (rw (none_there, remove_file) (Removing.absent sound none_there))
    | inr (content, present) ↦
        rw (sound, remove_file) (rw (present, remove_file) (Removing.removed sound))
  ]
]

-- os.Remove has taken the file away, or has reported that there is none.
abbrev pub IsGone : World → Text → Disk → Type 0
IsGone w p disk =
    (w.remove_fault p ≡ none → lookup p disk ≡ none)
    × ((e : Error) → w.remove_fault p ≡ some e → e.is_not_exist ≡ true)

pub lookup-renamed {ℓ} :
    {V : Type ℓ} (w : World) (jobs_dir : Text) (now : ℕ) (name new n : Text) (v : V) (m : Dict V)
    → lookup n (renamed w jobs_dir now name new v m)
      ≡ (if text_eq new n then some v else if text_eq name n then none else lookup n m)
lookup-renamed w jobs_dir now name new n v m = ground (
  arith,
  lookup-insert new n v (if text_eq new name then m else remove name m),
  lookup-remove name n m,
  text_eq_iff new n,
  text_eq_iff new name,
  text_eq_iff name n,
)
