-- ===== src/Store/Pages.antt =====
-- Pages of runs, one after the other, are the list that one larger page gives.
use cronbat.Prelude.{
  ℕ, zero, suc, ◌+◌, ◌<◌, ◌==◌, ◌&&◌, ◌≡◌, sym, ap, ◌∙◌, false, none, some, List, [], ◌∷◌, ◌++◌,
  arith, ltb, take, drop, drop-drop, take_all,
}
use cronbat.Text.{Text}
use cronbat.Errors.{Result, ok, err, ◌>>=◌, bind-ok, ok_injective}
use cronbat.Store.{
  Run, Row, Table, ListOpts, Engine, selected, limited, scan_run, scan_all, list_runs,
}

take_add {ℓ} :
    {A : Type ℓ} (m n : ℕ) (xs : List A) → take (m + n) xs ≡ take m xs ++ take n (drop m xs)
take_add zero n xs = ap (λ k. take k xs) (omega arith)
take_add (suc m) n [] =
    ap (λ k. take k []) {x = suc m + n} {y = suc (m + n)} (omega arith)
    ∙ sym (take_all n [] (omega arith))
take_add (suc m) n (x ∷ xs) =
    ap (λ k. take k (x ∷ xs)) {x = suc m + n} {y = suc (m + n)} (omega arith)
    ∙ ap (◌∷◌ x) (take_add m n xs)

module _ (g : Engine) where
  scan_all-append :
      (xs ys : List Row) (us vs : List Run)
      → scan_all g xs ≡ ok us
      → scan_all g ys ≡ ok vs
      → scan_all g (xs ++ ys) ≡ ok (us ++ vs)
  unfolding scan_all
  scan_all-append [] ys us vs l r = r ∙ ap (λ k. ok (k ++ vs)) (ok_injective l)
  scan_all-append (x ∷ xs) ys us vs l r =
      let (a, ea, l') =
        bind-ok (scan_run g x) (λ a. scan_all g xs >>= λ us'. ok (a ∷ us')) (sym l) in
      let (us', eus, l'') = bind-ok (scan_all g xs) (λ us'. ok (a ∷ us')) (sym l') in
      rw (ea, scan_all-append xs ys us' vs eus r) (ap (λ k. ok (k ++ vs)) (ok_injective l''))

  -- A list of a positive limit is a cut of the rows in their order.
  pub list_runs-eq :
      (job : Text) (m k : ℕ) (t : Table)
      → g.query_fault ≡ none
      → 0 < m
      → list_runs g (record { job_name = job; limit = m; offset = k }) t
        ≡ scan_all g (
            take m (
              drop k
                (g.newest_first (selected (record { job_name = job; limit = m; offset = k }) t))))
  unfolding list_runs
  list_runs-eq job m k t works pos =
      let opts : ListOpts = record { job_name = job; limit = m; offset = k } in
      rw no_syntax_error (
        ap
          (λ f. elim f as (λ x. Result (List Run)) [
            | some e ↦ err e
            | none ↦ scan_all g (limited opts (g.newest_first (selected opts t)))
          ])
          works
        ∙ ap (scan_all g) (all_limit (g.newest_first (selected opts t))))
    where
      no_syntax_error : (m == 0 && ltb 0 k) ≡ false
      no_syntax_error = ground arith

      all_limit :
          (rows : List Row)
          → limited (record { job_name = job; limit = m; offset = k }) rows ≡ take m (drop k rows)
      all_limit rows = ground arith

-- Where no statement fails, a page of at most `m` runs followed by the next page of at most `n` is
-- the page of at most `m + n` runs that starts where the first one does, of one job or of all.
pub list_runs-append :
    (g : Engine) (job : Text) (m n k : ℕ) (t : Table) (us vs : List Run)
    → g.query_fault ≡ none
    → 0 < m
    → 0 < n
    → list_runs g (record { job_name = job; limit = m; offset = k }) t ≡ ok us
    → list_runs g (record { job_name = job; limit = n; offset = k + m }) t ≡ ok vs
    → list_runs g (record { job_name = job; limit = m + n; offset = k }) t ≡ ok (us ++ vs)
unfolding selected
list_runs-append g job m n k t us vs works m_pos n_pos first second =
    let rows : List Row =
      g.newest_first (selected (record { job_name = job; limit = m; offset = k }) t) in
    let cut : take (m + n) (drop k rows) ≡ take m (drop k rows) ++ take n (drop (k + m) rows) =
      take_add m n (drop k rows)
      ∙ ap (λ r. take m (drop k rows) ++ take n r) (drop-drop m k rows) in
    list_runs-eq g job (m + n) k t works (omega arith)
    ∙ ap (scan_all g) cut
    ∙ scan_all-append g _ _ us vs (sym (list_runs-eq g job m k t works m_pos) ∙ first)
        (sym (list_runs-eq g job n (k + m) t works n_pos) ∙ second)
