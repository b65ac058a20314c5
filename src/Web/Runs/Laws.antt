-- ===== src/Web/Runs/Laws.antt =====
-- How many runs a request can list.
use cronbat.Prelude.{
  ℕ, zero, suc, ℤ, pos, negsuc, ◌≤◌, ◌<◌, ◌≡◌, refl, sym, ap, ◌∙◌, Bool, true, false, not,
  Bool-cases, inl, inr, Option, none, some, List, [], ◌∷◌, arith, if◌then◌else◌, length, take, drop,
  length-take,
}
use cronbat.Text.{Text, codes, is_empty, text_eq}
use cronbat.Errors.{Result, ok, err, ◌>>=◌, bind-ok, ok_injective}
use cronbat.World.{World}
use cronbat.Store.{Run, Row, Table, ListOpts, Engine, selected, scan_run, scan_all, list_runs}
use cronbat.Store.Pages.{list_runs-eq}
use cronbat.Web.Runs.{
  RunResponse, RunsBody, RunsRequest, responses, positive_or, list_opts, runs_listed,
  handle_list_runs,
}

length-responses : (rs : List Run) → length (responses rs) ≡ length rs
unfolding responses
length-responses [] = refl
length-responses (r ∷ rs) = ap suc (length-responses rs)

positive_or_pos : (default : ℕ) (n : Option ℤ) → 0 < default → 0 < positive_or default n
positive_or_pos default none h = h
positive_or_pos default (some (pos zero)) h = h
positive_or_pos default (some (pos (suc n))) h = omega arith
positive_or_pos default (some (negsuc n)) h = h

length-scan_all :
    (g : Engine) (rows : List Row) (rs : List Run)
    → scan_all g rows ≡ ok rs
    → length rs ≡ length rows
unfolding scan_all
length-scan_all g [] rs h = ap length (sym (ok_injective h))
length-scan_all g (row ∷ rows) rs h =
    let (r, er, h') =
      bind-ok (scan_run g row) (λ r. scan_all g rows >>= λ rs'. ok (r ∷ rs')) (sym h) in
    let (rs', ers, h'') = bind-ok (scan_all g rows) (λ rs'. ok (r ∷ rs')) (sym h') in
    ap length (sym (ok_injective h'')) ∙ ap suc (length-scan_all g rows rs' ers)

module _ (w : World) (base_dir : Text) (g : Engine) (atoi : Text → Option ℤ) where
  limit_pos : (r : RunsRequest) → 0 < (list_opts w base_dir g atoi r).limit
  unfolding list_opts
  limit_pos r = by_text (is_empty r.limit)
    where
      by_text : (b : Bool) → 0 < (if b then 50 else positive_or 50 (atoi r.limit))
      by_text true = omega arith
      by_text false = positive_or_pos 50 (atoi r.limit) (omega arith)

  listed-le :
      (r : RunsRequest) (t : Table) (rs : List Run)
      → g.query_fault ≡ none
      → list_runs g (list_opts w base_dir g atoi r) t ≡ ok rs
      → length rs ≤ (list_opts w base_dir g atoi r).limit
  listed-le r t rs works h =
      let opts : ListOpts = list_opts w base_dir g atoi r in
      let rows : List Row = drop opts.offset (g.newest_first (selected opts t)) in
      omega (
        arith,
        length-scan_all g (take opts.limit rows) rs
            (sym (list_runs-eq g opts.job_name opts.limit opts.offset t works (limit_pos r)) ∙ h),
        length-take opts.limit rows,
      )

  listed_bound :
      (r : RunsRequest) (t : Table) (rs : List RunResponse) (x : Result (List Run))
      → g.query_fault ≡ none
      → list_runs g (list_opts w base_dir g atoi r) t ≡ x
      → runs_listed w base_dir g atoi x ≡ (200, RunsBody.run_list rs)
      → length rs ≤ (list_opts w base_dir g atoi r).limit
  unfolding runs_listed
  listed_bound r t rs (err e) works got h = absurd (omega (arith, ap (λ p. p.0) h))
  listed_bound r t rs (ok runs) works got h = omega (
    arith,
    listed-le r t runs works got,
    length-responses runs,
    ap length (run_list_injective (ap (λ p. p.1) h)),
  )
    where
      run_list_injective :
          {a b : List RunResponse} → RunsBody.run_list a ≡ RunsBody.run_list b → a ≡ b
      run_list_injective e = cc

  -- A listing of runs that is answered holds no more runs than the request's limit, or than 50
  -- where the request gives no positive number. The query does not fail.
  pub handle_list_runs-le :
      (r : RunsRequest) (t : Table) (rs : List RunResponse)
      → g.query_fault ≡ none
      → handle_list_runs w base_dir g atoi r t ≡ (200, RunsBody.run_list rs)
      → length rs ≤ (if is_empty r.limit then 50 else positive_or 50 (atoi r.limit))
  unfolding handle_list_runs list_opts
  handle_list_runs-le r t rs works h = elim (Bool-cases (not (text_eq r.method (codes "GET")))) [
    | inl other ↦ absurd (omega (arith, ap (λ p. p.0) (rw (other, handle_list_runs) at h)))
    | inr get ↦
        listed_bound r t rs (list_runs g (list_opts w base_dir g atoi r) t) works refl
          (rw (get, handle_list_runs) at h)
  ]
