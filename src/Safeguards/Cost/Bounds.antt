-- ===== src/Safeguards/Cost/Bounds.antt =====
-- When a price is known before the run, and what it depends on.
use lobstr_mcp.Prelude.{ℕ, true, List, Option, none, some, ◌≡◌, refl, ◌↔◌, ◌⊎◌, inl, inr, arith}
use lobstr_mcp.Prelude.Dict.{Dict, has}
use lobstr_mcp.Json.{Json, get, get_str, truthy}
use lobstr_mcp.Safeguards.Cost.{
  Floats, Step, first_rate, task_price_keys, resolve_credit_rate, positive_int, estimate_cost,
  row_estimate, max_rows_of, estimate_by_row, estimate_by_task, paid_steps, step_of, state_of,
}

row_estimate_unknown_iff :
    (fl : Floats) (steps : List Step) (rate n : ℕ) (run_cap per_task : Option ℕ)
    → ((row_estimate fl steps rate (max_rows_of run_cap per_task n)).credits ≡ none)
      ↔ ((run_cap ≡ none) × (per_task ≡ none))
unfolding row_estimate
row_estimate_unknown_iff fl steps rate n (some cap) per_task = ground arith
row_estimate_unknown_iff fl steps rate n none (some cap) = ground arith
row_estimate_unknown_iff fl steps rate n none none = (λ _. (refl, refl), λ _. refl)

module _ (fl : Floats) (crawler : Dict Json) (n : ℕ) (max_results run_cap : Json)
    (settings : Dict Json) where
  abbrev NoCap : Type 0
  NoCap = (positive_int run_cap ≡ none) × (positive_int max_results ≡ none)

  by_row_unknown_iff :
      (rate : Option ℕ)
      → ((estimate_by_row fl crawler n max_results run_cap settings rate).credits ≡ none)
        ↔ ((rate ≡ none) ⊎ NoCap)
  unfolding estimate_by_row
  by_row_unknown_iff none = (λ _. inl refl, λ _. refl)
  by_row_unknown_iff (some rate) =
      let (to, from) =
        row_estimate_unknown_iff fl (paid_steps fl crawler settings) rate n (positive_int run_cap)
          (positive_int max_results) in
      (λ h. inr (to h), λ p. from (ground arith))

  by_task_unknown_iff :
      (price : Option ℕ)
      → ((estimate_by_task fl crawler n max_results run_cap settings price).credits ≡ none) ↔ (
          (price ≡ none)
          × ((resolve_credit_rate fl (get "credits_per_row" crawler) ≡ none) ⊎ NoCap))
  unfolding estimate_by_task
  by_task_unknown_iff (some price) = (λ h. absurd (cc h), λ p. absurd (cc (p.0)))
  by_task_unknown_iff none =
      let (to, from) =
        by_row_unknown_iff (resolve_credit_rate fl (get "credits_per_row" crawler)) in
      (λ h. (refl, to h), λ p. from p.1)

  -- The credits of an estimate are unknown exactly when there is no price per task and either no
  -- price per row or no cap that is a positive integer.
  pub estimate_cost_unknown_iff :
      ((estimate_cost fl crawler n max_results run_cap settings).credits ≡ none) ↔ (
        (first_rate fl task_price_keys crawler ≡ none)
        × ((resolve_credit_rate fl (get "credits_per_row" crawler) ≡ none)
            ⊎ (positive_int run_cap ≡ none) × (positive_int max_results ≡ none)))
  unfolding estimate_cost
  estimate_cost_unknown_iff = by_task_unknown_iff (first_rate fl task_price_keys crawler)

-- What makes an input a paid step of the run: it has a price that can be read, and it is on by the
-- value under `functions`, else the value in the settings, else its own default.
abbrev pub IsPaid : Floats → Dict Json → Dict Json → Dict Json → Step → Type 0
IsPaid fl functions settings item step =
    (has "credits_per_function" item ≡ true)
    × (truthy (state_of (get_str "name" item) functions settings item) ≡ true)
    × (resolve_credit_rate fl (get "credits_per_function" item) ≡ some step.rate)
    × (step.name ≡ get_str "name" item)

pub step_of-IsPaid :
    (fl : Floats) (functions settings item : Dict Json) (step : Step)
    → step_of fl functions settings item ≡ some step
    → IsPaid fl functions settings item step
step_of-IsPaid fl functions settings item step h = ground arith
