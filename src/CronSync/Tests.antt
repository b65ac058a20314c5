-- ===== src/CronSync/Tests.antt =====
-- The theorems about the crontab at concrete inputs.
use cronbat.Prelude.{ℕ, ◌≡◌, refl, false, [], ◌∷◌, ◌++◌}
use cronbat.Text.{Text, codes}
use cronbat.Web.Import.Parse.{mem_text}
use cronbat.CronSync.Merge.{begin_marker, end_marker, newline}
use cronbat.CronSync.Entries.{make_unique, parse_cronbat_entries}
use cronbat.CronSync.Entries.Laws.{AllNew, make_unique_enough, parse_cronbat_entries-AllNew}

abbrev old_crontab : Text
old_crontab =
    codes "a"
    ++ (newline
        ∷ (begin_marker
            ++ (newline ∷ (codes "b" ++ (newline ∷ (end_marker ++ (newline ∷ codes "a")))))))

-- Prints small numbers in unary.
abbrev show : ℕ → Text
show n = b'1' ∷ []

abbrev same : Text → Text
same s = s

abbrev crontab : Text
crontab = codes "0 1 * * * x #cronbat" ++ (newline ∷ codes "0 2 * * * x #cronbat")

make_unique_enough_example :
    mem_text
      (make_unique same same show (codes "p") 2 2 (codes "x") (codes "x" ∷ []))
      (codes "x" ∷ [])
    ≡ false
make_unique_enough_example =
    make_unique_enough same same show (codes "p") (λ n. refl) (codes "x") (codes "x" ∷ [])

parse_cronbat_entries-AllNew_example :
    AllNew [] (parse_cronbat_entries same same show (codes "p") crontab)
parse_cronbat_entries-AllNew_example =
    parse_cronbat_entries-AllNew same same show (codes "p") (λ n. refl) crontab
