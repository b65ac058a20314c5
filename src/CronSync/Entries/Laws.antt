-- ===== src/CronSync/Entries/Laws.antt =====
-- The entries that an import finds have different names.
use cronbat.Prelude.{
  ℕ, zero, suc, ◌+◌, ◌≤◌, ◌<◌, ◌≡◌, refl, ap, inl, inr, true, false, ◌||◌, Option, none, some, List,
  [], ◌∷◌, ◌++◌, arith, if◌then◌else◌, Bool-cases, leb, length, ltb, length-append, drop,
}
use cronbat.Text.{
  Text, codes, is_empty, text_eq, trim_space, has_prefix, contains, split, fields, join,
}
use cronbat.Text.Laws.{text_eq→eq}
use cronbat.CronSync.Merge.{newline, tag}
use cronbat.Web.Import.Parse.{mem_text}
use cronbat.CronSync.Entries.{
  ImportedJob, entry_named, entry_of_parts, parse_cronbat_entries, make_unique, generate_job_name,
  line_entry, line_entries, add_entry, parse_wrap_command, remove_first,
}

-- How many texts have at least `m` characters.
count_ge : ℕ → List Text → ℕ
count_ge m [] = 0
count_ge m (t ∷ ts) = let rest = count_ge m ts in if leb m (length t) then suc rest else rest

count_ge-le : (m : ℕ) (ts : List Text) → count_ge m ts ≤ length ts
unfolding count_ge
count_ge-le m [] = omega arith
count_ge-le m (t ∷ ts) = ground (arith, count_ge-le m ts)

count_ge_mono : (m n : ℕ) (ts : List Text) → m ≤ n → count_ge n ts ≤ count_ge m ts
unfolding count_ge
count_ge_mono m n [] h = omega arith
count_ge_mono m n (t ∷ ts) h = ground (arith, count_ge_mono m n ts h)

-- Going over to longer texts leaves out a text that is there.
count_ge-mem :
    (name : Text) (n : ℕ) (ts : List Text)
    → mem_text name ts ≡ true
    → length name < n
    → count_ge n ts < count_ge (length name) ts
unfolding count_ge mem_text
count_ge-mem name n [] h longer = absurd (cc)
count_ge-mem name n (t ∷ ts) h longer = elim (Bool-cases (text_eq name t)) [
  | inl e ↦
      let same : length name ≡ length t = ap length (text_eq→eq name t e) in
      ground (arith, same, count_ge_mono (length name) n ts (omega arith))
  | inr e ↦ ground (arith, e, h, count_ge-mem name n ts)
]

is_empty-length : (s : Text) → is_empty s ≡ false → 0 < length s
is_empty-length [] h = absurd (cc)
is_empty-length (x ∷ xs) h = omega arith

module _ (base without_ext : Text → Text) (show : ℕ → Text) (prefix : Text)
    (shows : (n : ℕ) → is_empty (show n) ≡ false) where
  make_unique-fresh :
      (fuel i : ℕ) (name : Text) (seen : List Text)
      → count_ge (length name) seen < fuel
      → mem_text (make_unique base without_ext show prefix fuel i name seen) seen ≡ false
  unfolding make_unique
  make_unique-fresh zero i name seen h = absurd (omega arith)
  make_unique-fresh (suc fuel) i name seen h = elim (Bool-cases (mem_text name seen)) [
    | inl e ↦ rw e (
        make_unique-fresh fuel (i + 1) (name ++ show i) seen (
          omega (
            arith,
            h,
            count_ge-mem name (length (name ++ show i)) seen e
                (omega (arith, length-append name (show i), is_empty-length (show i) (shows i))),
          )))
    | inr e ↦ rw (e, e) refl
  ]

  -- The loop for a new name ends: with one round for each name seen, and one more, it finds a name
  -- that was not seen, where a number is never printed as the empty text.
  pub make_unique_enough :
      (name : Text) (seen : List Text)
      → mem_text (make_unique base without_ext show prefix (suc (length seen)) 2 name seen) seen
        ≡ false
  make_unique_enough name seen =
      make_unique-fresh (suc (length seen)) 2 name seen
        (omega (arith, count_ge-le (length name) seen))

-- No name comes twice or is among `seen`.
pub AllNew : List Text → List ImportedJob → Type 0
AllNew seen [] = Unit
AllNew seen (e ∷ es) = (mem_text e.name seen ≡ false) × AllNew (e.name ∷ seen) es

-- A line adds no entry, or one with a name that was not seen, which is seen from then on.
data Adding (seen : List Text) : Option ImportedJob × List Text → Type 0 where
  nothing : Adding seen (none, seen)
  entry : (e : ImportedJob) → mem_text e.name seen ≡ false → Adding seen (some e, e.name ∷ seen)

module _ (base without_ext : Text → Text) (show : ℕ → Text) (prefix : Text)
    (shows : (n : ℕ) → is_empty (show n) ≡ false) where
  entry_named-Adding :
      (seen : List Text) (schedule command : Text) (r : Option (Text × Text))
      → Adding seen (entry_named base without_ext show prefix seen schedule command r)
  entry_named-Adding seen schedule command none = Adding.entry _ (
      make_unique_enough base without_ext show prefix shows
        (generate_job_name base without_ext show prefix command) seen)
  entry_named-Adding seen schedule command (some (wrapped, name)) =
      elim (Bool-cases (mem_text name seen)) [
        | inl e ↦ rw e Adding.nothing
        | inr e ↦
            rw e (Adding.entry (record { name = name; schedule = schedule; command = wrapped }) e)
      ]

  entry_of_parts-Adding :
      (seen parts : List Text)
      → Adding seen (entry_of_parts base without_ext show prefix seen parts)
  entry_of_parts-Adding seen parts = elim (Bool-cases (ltb (length parts) 6)) [
    | inl e ↦ rw e Adding.nothing
    | inr e ↦ rw e (entry_named-Adding seen _ _ (parse_wrap_command (join 32 (drop 5 parts))))
  ]

  line_entry-Adding :
      (seen : List Text) (given : Text)
      → Adding seen (line_entry base without_ext show prefix seen given)
  unfolding line_entry
  line_entry-Adding seen given =
      elim (Bool-cases (is_empty (trim_space given) || has_prefix (trim_space given) (codes "#"))) [
        | inl e ↦ rw e Adding.nothing
        | inr e ↦ elim (Bool-cases (contains (trim_space given) tag)) [
          | inl e' ↦
              rw (e, e')
                (entry_of_parts-Adding seen
                  (fields (trim_space (remove_first tag (trim_space given)))))
          | inr e' ↦ rw (e, e') Adding.nothing
        ]
      ]

  add_entry-AllNew :
      (seen : List Text) (r : Option ImportedJob × List Text) (es : List ImportedJob)
      → Adding seen r
      → AllNew r.1 es
      → AllNew seen (add_entry base without_ext show prefix r.0 es)
  unfolding AllNew
  add_entry-AllNew seen _ es Adding.nothing more = more
  add_entry-AllNew seen _ es (Adding.entry e new) more = (new, more)

  line_entries-AllNew :
      (seen lines : List Text) → AllNew seen (line_entries base without_ext show prefix seen lines)
  unfolding line_entries AllNew
  line_entries-AllNew seen [] = tt
  line_entries-AllNew seen (line ∷ lines) =
      add_entry-AllNew seen (line_entry base without_ext show prefix seen line) _
        (line_entry-Adding seen line)
        (line_entries-AllNew (line_entry base without_ext show prefix seen line).1 lines)

  -- The entries that `parseCronbatEntries` finds in a crontab all have different names, where a
  -- number is never printed as the empty text.
  pub parse_cronbat_entries-AllNew :
      (crontab : Text) → AllNew [] (parse_cronbat_entries base without_ext show prefix crontab)
  unfolding parse_cronbat_entries
  parse_cronbat_entries-AllNew crontab = line_entries-AllNew [] (split newline crontab)
