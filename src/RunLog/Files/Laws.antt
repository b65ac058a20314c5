-- ===== src/RunLog/Files/Laws.antt =====
-- A job's folder is a safe name, and what reading the logs of a run says of the two files.
use cronbat.Prelude.{ℕ, ◌≡◌, refl, inl, inr, Bool, true, false, [], ◌∷◌, arith, Bool-cases}
use cronbat.Text.{Text, is_empty, trim, trim_left, trim_right, is_safe_char}
use cronbat.Text.Laws.{every, every-trim_left, every-trim_right, trim_idem}
use cronbat.Errors.{Result, ok, err}
use cronbat.World.{World, Disk, read_file}
use cronbat.RunLog.Files.{
  is_edge, replace_unsafe, sanitize_segment, paths, both_read, read_run_logs,
}

every-replace_unsafe : (s : Text) → every is_safe_char (replace_unsafe s) ≡ true
unfolding every replace_unsafe is_safe_char
every-replace_unsafe [] = refl
every-replace_unsafe (x ∷ xs) = elim (Bool-cases (is_safe_char x)) [
  | inl e ↦ rw e (ground (arith, e, every-replace_unsafe xs))
  | inr e ↦ rw e (every-replace_unsafe xs)
]

replace_unsafe_of_safe : (s : Text) → every is_safe_char s ≡ true → replace_unsafe s ≡ s
unfolding every replace_unsafe
replace_unsafe_of_safe [] h = refl
replace_unsafe_of_safe (x ∷ xs) h =
    let first : is_safe_char x ≡ true = ground arith in
    let rest : every is_safe_char xs ≡ true = ground arith in
    rw (first, replace_unsafe_of_safe xs rest) refl

every-trim : (p q : ℕ → Bool) (s : Text) → every p s ≡ true → every p (trim q s) ≡ true
unfolding trim
every-trim p q s h = every-trim_right p q (trim_left q s) (every-trim_left p q s h)

abbrev trimmed : Text → Text
trimmed value = trim is_edge (replace_unsafe value)

-- What `sanitizeSegment` returns is a safe file name: it is not empty, each of its characters is
-- safe, and it neither starts nor ends with a dot or an underscore, so it is not "." or "..".
pub sanitize_segment_safe :
    (value : Text)
    → (every is_safe_char (sanitize_segment value) ≡ true)
      × (is_empty (sanitize_segment value) ≡ false)
      × (trim is_edge (sanitize_segment value) ≡ sanitize_segment value)
unfolding sanitize_segment every is_safe_char trim trim_left trim_right
sanitize_segment_safe [] = (refl, refl, refl)
sanitize_segment_safe (x ∷ xs) = elim (Bool-cases (is_empty (trimmed (x ∷ xs)))) [
  | inl e ↦ rw e (refl, refl, refl)
  | inr e ↦ rw e (
    every-trim is_safe_char is_edge (replace_unsafe (x ∷ xs)) (every-replace_unsafe (x ∷ xs)),
    e,
    trim_idem is_edge (replace_unsafe (x ∷ xs)),
  )
]

-- A text that is a safe file name already is kept.
kept :
    (s : Text)
    → every is_safe_char s ≡ true
    → is_empty s ≡ false
    → trim is_edge s ≡ s
    → sanitize_segment s ≡ s
unfolding sanitize_segment
kept s safe some_chars clean =
    rw (some_chars, replace_unsafe_of_safe s safe, clean, some_chars) refl

-- `sanitizeSegment` keeps what it has made, so a job's folder is the folder of its folder's name.
pub sanitize_segment_idem :
    (value : Text) → sanitize_segment (sanitize_segment value) ≡ sanitize_segment value
sanitize_segment_idem value =
    let (safe, some_chars, clean) = sanitize_segment_safe value in
    kept (sanitize_segment value) safe some_chars clean

-- What a log file contributes: its text, or nothing where it is missing.
abbrev pub Contributes : Result Text → Text → Type 0
Contributes (ok content) text = content ≡ text
Contributes (err e) text = (e.is_not_exist ≡ true) × (text ≡ [])

both_read-ok :
    (out err' : Result Text) (a b : Text)
    → both_read out err' ≡ ok (a, b)
    → Contributes out a × Contributes err' b
unfolding both_read
both_read-ok (ok x) (ok y) a b h = (cc, cc)
both_read-ok (ok x) (err e) a b h = ground arith
both_read-ok (err e) (ok y) a b h = ground arith
both_read-ok (err e) (err e') a b h = ground arith

-- A `ReadRunLogs` that succeeds returns, for each stream, the text of its file, or nothing if that
-- file is missing.
pub read_run_logs-ok :
    (w : World) (base_dir job_name run_id : Text) (d : Disk) (out err' : Text)
    → read_run_logs w base_dir job_name run_id d ≡ ok (out, err')
    → Contributes (read_file w (paths w base_dir job_name run_id).0 d) out
      × Contributes (read_file w (paths w base_dir job_name run_id).1 d) err'
unfolding read_run_logs
read_run_logs-ok w base_dir job_name run_id d =
    both_read-ok (read_file w (paths w base_dir job_name run_id).0 d)
      (read_file w (paths w base_dir job_name run_id).1 d)
