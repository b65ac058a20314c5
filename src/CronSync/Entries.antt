-- ===== src/CronSync/Entries.antt =====
-- `parseCronbatEntries` and the functions it calls.
pub mod Laws
use cronbat.Prelude.{
  ℕ, zero, suc, ◌+◌, Bool, true, false, not, ◌&&◌, ◌||◌, Option, none, some, List, [], ◌∷◌, ◌++◌,
  ◌==◌, leb, ltb, if◌then◌else◌, length, take, drop,
}
use cronbat.Text.{
  Text, codes, is_empty, text_eq, trim_space, has_prefix, contains, split, join, fields,
}
use cronbat.CronSync.Merge.{newline, tag}
use cronbat.Web.Import.Parse.{mem_text}

pub record ImportedJob : Type 0 where
  pub name : Text
  pub schedule : Text
  pub command : Text

-- strings.Replace(s, old, "", 1)
unfoldable pub remove_first : Text → Text → Text
unfolding has_prefix
remove_first old [] = []
remove_first old (x ∷ xs) =
    let rest = remove_first old xs in
    if has_prefix (x ∷ xs) old then drop (length old) (x ∷ xs) else x ∷ rest

-- The loop over the fields: the last name before "--", and what follows "--". `skip` is the `i++`
-- after a name.
unfoldable pub find_wrap : Bool → Text → List Text → Text × Option (List Text)
unfolding text_eq
find_wrap skip name [] = (name, none)
find_wrap true name (part ∷ parts) = find_wrap false name parts
find_wrap false name (part ∷ []) =
    if text_eq part (codes "--") then (name, some []) else (name, none)
find_wrap false name (part ∷ next ∷ parts) =
    let named = find_wrap true next (next ∷ parts) in
    let other = find_wrap false name (next ∷ parts) in
    if text_eq part (codes "--name")
    then named
    else if text_eq part (codes "--")
    then (name, some (next ∷ parts))
    else other

abbrev pub wrap_found : Text × Option (List Text) → Option (Text × Text)
wrap_found (name, none) = none
wrap_found (name, some []) = none
wrap_found (name, some (part ∷ parts)) =
    if is_empty name then none else some (join 32 (part ∷ parts), name)

-- The wrapped command and the job's name
unfoldable pub parse_wrap_command : Text → Option (Text × Text)
unfolding find_wrap contains fields join
parse_wrap_command command =
    if contains command (codes "wrap")
    then wrap_found (find_wrap false [] (fields command))
    else none

unfoldable pub is_name_char : ℕ → Bool
is_name_char c =
    (leb b'a' c && leb c b'z')
    || (leb b'A' c && leb c b'Z')
    || (leb b'0' c && leb c b'9')
    || c == b'-'
    || c == b'_'

unfoldable pub keep_name_chars : Text → Text
unfolding is_name_char
keep_name_chars [] = []
keep_name_chars (x ∷ xs) =
    let rest = keep_name_chars xs in if is_name_char x then x ∷ rest else rest

-- `base` is filepath.Base; `without_ext` drops what filepath.Ext gives.
module _ (base without_ext : Text → Text) (show : ℕ → Text) (prefix : Text) where
  abbrev pub or_job : Text → Text
  or_job name = if is_empty name then codes "job" else name

  abbrev name_from : List Text → Text
  name_from [] = prefix ++ codes "job"
  name_from (part ∷ parts) = prefix ++ or_job (keep_name_chars (without_ext (base part)))

  unfoldable pub generate_job_name : Text → Text
  unfolding keep_name_chars fields
  generate_job_name command = name_from (fields command)

  -- The number is added to the name that was tried before, not to the first one. Each round makes
  -- a longer name while `show` is not empty, so as many rounds as names are enough.
  unfoldable pub make_unique : ℕ → ℕ → Text → List Text → Text
  unfolding mem_text
  make_unique zero i name seen = name
  make_unique (suc fuel) i name seen =
      let again = make_unique fuel (i + 1) (name ++ show i) seen in
      if mem_text name seen then again else name

  -- The entry of a line and the names seen after it
  abbrev pub entry_named :
      List Text → Text → Text → Option (Text × Text) → Option ImportedJob × List Text
  entry_named seen schedule command (some (wrapped, name)) =
      if mem_text name seen
      then (none, seen)
      else (some (record { name = name; schedule = schedule; command = wrapped }), name ∷ seen)
  entry_named seen schedule command none =
      let name = make_unique (suc (length seen)) 2 (generate_job_name command) seen in
      (some (record { name = name; schedule = schedule; command = command }), name ∷ seen)

  abbrev pub entry_of_parts : List Text → List Text → Option ImportedJob × List Text
  entry_of_parts seen parts =
      if ltb (length parts) 6
      then (none, seen)
      else entry_named seen (join 32 (take 5 parts)) (join 32 (drop 5 parts))
          (parse_wrap_command (join 32 (drop 5 parts)))

  unfoldable pub line_entry : List Text → Text → Option ImportedJob × List Text
  unfolding parse_wrap_command generate_job_name make_unique remove_first trim_space fields
  line_entry seen given =
      let line = trim_space given in
      if is_empty line || has_prefix line (codes "#")
      then (none, seen)
      else if not (contains line tag)
      then (none, seen)
      else entry_of_parts seen (fields (trim_space (remove_first tag line)))

  abbrev pub add_entry : Option ImportedJob → List ImportedJob → List ImportedJob
  add_entry none es = es
  add_entry (some e) es = e ∷ es

  unfoldable pub line_entries : List Text → List Text → List ImportedJob
  unfolding line_entry
  line_entries seen [] = []
  line_entries seen (line ∷ lines) =
      let (found, seen') = line_entry seen line in add_entry found (line_entries seen' lines)

  unfoldable pub parse_cronbat_entries : Text → List ImportedJob
  unfolding line_entries split
  parse_cronbat_entries crontab = line_entries [] (split newline crontab)
