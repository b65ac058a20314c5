-- ===== src/Store/Twice.antt =====
-- A run that is recorded when it starts and again when it ends.
use cronbat.Prelude.{ℕ, ◌≡◌, ap, ◌∙◌, Option, none, some, arith, if◌then◌else◌}
use cronbat.Text.{Text, text_eq}
use cronbat.Text.Laws.{text_eq_refl}
use cronbat.Errors.{ok}
use cronbat.Store.{Run, Table, Engine, filled, record_run, get_run}
use cronbat.Store.Saved.{ReadsBack, kept, stored, get_run-record_run}

module _ (g : Engine) (reads : ReadsBack g) (fine : g.exec_fault ≡ none)
    (works : g.query_fault ≡ none) where
  pub get_run-record_known :
      (id : Text) (now : ℕ) (r : Run) (t : Table) (prior : Option Run)
      → (filled id now r).id ≡ id
      → get_run g id t ≡ ok prior
      → (n : Text)
      → get_run g n (record_run g id now r t).1
        ≡ (if text_eq id n then ok (some (stored prior (filled id now r))) else get_run g n t)
  get_run-record_known id now r t prior same was n =
      get_run-record_run g reads works id now r t prior fine (ap (λ i. get_run g i t) same ∙ was) n
      ∙ ap (λ i. if text_eq i n then ok (some (stored prior (filled id now r))) else get_run g n t)
          same

  pub get_run-record_twice :
      (id : Text) (t₁ t₂ : ℕ) (r₁ r₂ : Run) (t : Table)
      → (filled id t₁ r₁).id ≡ id
      → (filled id t₂ r₂).id ≡ id
      → get_run g id t ≡ ok none
      → (n : Text)
      → get_run g n (record_run g id t₂ r₂ (record_run g id t₁ r₁ t).1).1 ≡ (
          if text_eq id n
          then ok (some (kept (filled id t₁ r₁) (filled id t₂ r₂)))
          else get_run g n t)
  get_run-record_twice id t₁ t₂ r₁ r₂ t e₁ e₂ was n =
      get_run-record_known id t₂ r₂ (record_run g id t₁ r₁ t).1 (some (filled id t₁ r₁)) e₂
        (first id
          ∙ ap (λ b. if b then ok (some (filled id t₁ r₁)) else get_run g id t) (text_eq_refl id))
        n
      ∙ ap (λ x. if text_eq id n then ok (some (kept (filled id t₁ r₁) (filled id t₂ r₂))) else x)
          (first n)
      ∙ ground arith
    where
      first :
          (n : Text)
          → get_run g n (record_run g id t₁ r₁ t).1
            ≡ (if text_eq id n then ok (some (filled id t₁ r₁)) else get_run g n t)
      first = get_run-record_known id t₁ r₁ t none e₁ was
