-- ===== src/CronSync/Merge.antt =====
-- `mergeCrontab`, and the managed block that `cronsync install` makes.
pub mod Laws
use cronbat.Prelude.{ℕ, Bool, true, false, List, [], ◌∷◌, ◌++◌, ◌==◌, if◌then◌else◌}
use cronbat.Text.{
  Text, codes, is_empty, text_eq, trim_space, trim_left, trim_right, split, join, has_suffix,
}
use cronbat.Config.Job.{Job, is_enabled}

abbrev pub newline : ℕ
newline = 10

abbrev pub is_newline : ℕ → Bool
is_newline c = c == newline

abbrev pub begin_marker : Text
begin_marker = codes "# --- cronbat managed begin ---"

abbrev pub end_marker : Text
end_marker = codes "# --- cronbat managed end ---"

abbrev pub tag : Text
tag = codes "#cronbat"

unfoldable pub is_begin : Text → Bool
unfolding trim_space text_eq
is_begin line = text_eq (trim_space line) begin_marker

unfoldable pub is_end : Text → Bool
unfolding trim_space text_eq
is_end line = text_eq (trim_space line) end_marker

-- `before` and `after`: the lines outside the managed block, before and after its begin marker
abbrev pub Lines : Type 0
Lines = List Text × List Text

abbrev pub keep_line : Bool → Text → Lines → Lines
keep_line false line (before, after) = (line ∷ before, after)
keep_line true line (before, after) = (before, line ∷ after)

-- The loop over the lines, with `inManaged` and `foundManaged`.
unfoldable pub sort_lines : Bool → Bool → List Text → Lines
unfolding is_begin is_end
sort_lines inside found [] = ([], [])
sort_lines inside found (line ∷ lines) =
    let opened = sort_lines true true lines in
    let closed = sort_lines false found lines in
    let same = sort_lines inside found lines in
    if is_begin line
    then opened
    else if is_end line
    then closed
    else if inside
    then same
    else keep_line found line same

abbrev pub with_newline : Text → Text
with_newline s = if has_suffix s (newline ∷ []) then s else s ++ (newline ∷ [])

abbrev pub before_text : List Text → Text
before_text lines =
    let s = trim_right is_newline (join newline lines) in
    if is_empty s then [] else s ++ (newline ∷ [])

abbrev pub after_text : List Text → Text
after_text lines = trim_left is_newline (join newline lines)

unfoldable pub merge_crontab : Text → Text → Text
unfolding sort_lines trim_left trim_right split join has_suffix
merge_crontab existing managed =
    let (before, after) = sort_lines false false (split newline existing) in
    with_newline (before_text before ++ (managed ++ after_text after))

-- The line of one job, and the block of the enabled ones
unfoldable pub managed_line : Text → Text → Job → Text
managed_line binary config j =
    j.schedule
    ++ (codes " "
        ++ (binary
            ++ (codes " wrap --name "
                ++ (j.name
                    ++ (codes " --config "
                        ++ (config ++ (codes " -- " ++ (j.command ++ (codes "  " ++ tag)))))))))

unfoldable pub managed_lines : Text → Text → List Job → Text
unfolding managed_line is_enabled
managed_lines binary config [] = []
managed_lines binary config (j ∷ js) =
    let rest = managed_lines binary config js in
    if is_enabled j then managed_line binary config j ++ (newline ∷ rest) else rest

unfoldable pub managed_block : Text → Text → List Job → Text
unfolding managed_lines
managed_block binary config jobs =
    begin_marker ++ (newline ∷ (managed_lines binary config jobs ++ (end_marker ++ (newline ∷ []))))
