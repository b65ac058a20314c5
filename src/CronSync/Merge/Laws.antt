-- ===== src/CronSync/Merge/Laws.antt =====
-- Which lines of the user's crontab a merge keeps.
use cronbat.Prelude.{◌≡◌, refl, true, false, List, [], ◌∷◌, ◌++◌}
use cronbat.Text.{Text}
use cronbat.CronSync.Merge.{is_begin, is_end, sort_lines}

-- No line is a marker.
abbrev pub Plain : List Text → Type 0
Plain [] = Unit
Plain (l ∷ ls) = (is_begin l ≡ false) × (is_end l ≡ false) × Plain ls

-- Plain lines outside the block are all kept, on the side where they are.
sort_lines-Plain_before : (ls : List Text) → Plain ls → sort_lines false false ls ≡ (ls, [])
unfolding sort_lines
sort_lines-Plain_before [] h = refl
sort_lines-Plain_before (l ∷ ls) h = rw (h.0, h.1, sort_lines-Plain_before ls h.2) refl

-- A begin marker without an end marker makes the merge drop every line that follows it, the user's
-- own included.
pub sort_lines_unclosed :
    (before rest : List Text) (b : Text)
    → Plain before
    → Plain rest
    → is_begin b ≡ true
    → sort_lines false false (before ++ (b ∷ rest)) ≡ (before, [])
unfolding sort_lines
sort_lines_unclosed [] rest b p q begins = rw begins (dropped rest q)
  where
    dropped : (ls : List Text) → Plain ls → sort_lines true true ls ≡ ([], [])
    dropped [] h = refl
    dropped (l ∷ ls) h = rw (h.0, h.1) (dropped ls h.2)
sort_lines_unclosed (l ∷ before) rest b p q begins =
    rw (p.0, p.1, sort_lines_unclosed before rest b p.2 q begins) refl
