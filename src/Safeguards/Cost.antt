-- ===== src/Safeguards/Cost.antt =====
-- safeguards.py: the price of a run before it starts. The sentence `basis` is left out.
-- What the program computes with floats is the record `Floats`: a float is its bit pattern.
pub mod Bounds
use lobstr_mcp.Prelude.{
  ℕ, zero, suc, ◌*◌, String, Bool, true, false, not, List, [], ◌∷◌, Option, none, some,
  if◌then◌else◌, or_else, is_some,
}
use lobstr_mcp.Prelude.Dict.{Dict, lookup, has}
use lobstr_mcp.Prelude.Int.{ℤ, pos}
use lobstr_mcp.Json.{
  Json, null, bool, int, float, str, arr, obj, items, members, as_dict, as_list, get, get_dict,
  get_str, truthy,
}

-- Python's `float(n)`, `*`, `+`, `int(x)`, `round(x, 4)` and `>` against an int, on floats.
pub record Floats : Type 0 where
  pub of_int : ℤ → ℕ
  pub mul : ℕ → ℕ → ℕ
  pub add : ℕ → ℕ → ℕ
  pub trunc : ℕ → ℤ
  pub round_4 : ℕ → ℕ
  pub above : ℕ → ℤ → Bool

-- `isinstance(v, (int, float)) and not isinstance(v, bool)`, with `float(v)`.
abbrev pub as_float : Floats → Json → Option ℕ
as_float fl (int z) = some (fl.of_int z)
as_float fl (float bits) = some bits
as_float fl _ = none

unfoldable pub first_rate : Floats → List String → Dict Json → Option ℕ
first_rate fl [] d = none
first_rate fl (key ∷ rest) d = elim (as_float fl (get key d)) [
  | none ↦ first_rate fl rest d
  | some rate ↦ some rate
]

unfoldable pub resolve_credit_rate : Floats → Json → Option ℕ
unfolding first_rate
resolve_credit_rate fl (int z) = some (fl.of_int z)
resolve_credit_rate fl (float bits) = some bits
resolve_credit_rate fl (obj ms) = first_rate fl ("current" ∷ "legacy" ∷ []) (members ms)
resolve_credit_rate fl _ = none

-- `estimate_cost`'s result, without the sentence and the constant currency.
pub record CostEstimate : Type 0 where
  pub credits : Option ℕ
  pub rate : Option ℕ

unfoldable pub positive_int : Json → Option ℕ
positive_int (int (pos (suc n))) = some (suc n)
positive_int _ = none

pub record Step : Type 0 where
  pub name : Option String
  pub rate : ℕ
  pub success_ratio : ℕ

-- `name in d` and `d.get(name)`, for a name that may be missing.
abbrev pub lookup? : Option String → Dict Json → Option Json
lookup? none d = none
lookup? (some k) d = lookup k d

-- Whether the step is on: the value under `functions`, else the flat one, else the default.
abbrev pub state_of : Option String → Dict Json → Dict Json → Dict Json → Json
state_of name functions settings item =
    or_else (lookup? name functions) (or_else (lookup? name settings) (get "default" item))

abbrev pub ratio_of : Floats → Dict Json → ℕ
ratio_of fl item =
    or_else
      (as_float fl
        (or_else (lookup "success_ratio" (or_else (get_dict "worker_stats" item) [])) null))
      (fl.of_int (pos 1))

abbrev pub step_of : Floats → Dict Json → Dict Json → Dict Json → Option Step
step_of fl functions settings item =
    if not (has "credits_per_function" item)
    then none
    else if not (truthy (state_of (get_str "name" item) functions settings item))
    then none
    else elim (resolve_credit_rate fl (get "credits_per_function" item)) [
      | none ↦ none
      | some rate ↦
          some
            (record { name = get_str "name" item; rate = rate; success_ratio = ratio_of fl item })
    ]

-- The loop over `input[]`; an entry that is no dict is passed over.
unfoldable pub steps_in : Floats → Dict Json → Dict Json → List Json → List Step
steps_in fl functions settings [] = []
steps_in fl functions settings (entry ∷ entries) = elim (as_dict entry) [
  | none ↦ steps_in fl functions settings entries
  | some item ↦ elim (step_of fl functions settings item) [
    | none ↦ steps_in fl functions settings entries
    | some step ↦ step ∷ steps_in fl functions settings entries
  ]
]

unfoldable pub paid_steps : Floats → Dict Json → Dict Json → List Step
unfolding steps_in resolve_credit_rate
paid_steps fl crawler settings =
    steps_in fl (or_else (get_dict "functions" settings) []) settings
      (or_else (as_list (get "input" crawler)) [])

abbrev pub billed_rows : Floats → ℕ → Step → ℤ
billed_rows fl max_rows step = fl.trunc (fl.mul (fl.of_int (pos max_rows)) step.success_ratio)

unfoldable pub add_steps : Floats → ℕ → List Step → ℕ → ℕ
add_steps fl max_rows [] total = total
add_steps fl max_rows (step ∷ steps) total =
    add_steps fl max_rows steps
      (fl.add total (fl.mul (fl.of_int (billed_rows fl max_rows step)) step.rate))

-- The most rows that the caps allow; the cap of the whole run comes first.
abbrev pub max_rows_of : Option ℕ → Option ℕ → ℕ → Option ℕ
max_rows_of (some run_cap) per_task task_count = some run_cap
max_rows_of none (some per_task) task_count = some (per_task * task_count)
max_rows_of none none task_count = none

unfoldable pub row_estimate : Floats → List Step → ℕ → Option ℕ → CostEstimate
unfolding add_steps
row_estimate fl steps rate none = record { credits = none; rate = some rate }
row_estimate fl steps rate (some max_rows) = record {
  credits =
      some (fl.round_4 (add_steps fl max_rows steps (fl.mul rate (fl.of_int (pos max_rows)))));
  rate = some rate;
}

abbrev pub task_price_keys : List String
task_price_keys = "credits_per_task" ∷ "price_per_task" ∷ "cost_per_task" ∷ []

-- Without a price per task: by the rate per row, if there is one.
unfoldable pub estimate_by_row :
    Floats → Dict Json → ℕ → Json → Json → Dict Json → Option ℕ → CostEstimate
unfolding row_estimate paid_steps positive_int
estimate_by_row fl crawler task_count max_results run_cap settings none = record {
  credits = none;
  rate = none;
}
estimate_by_row fl crawler task_count max_results run_cap settings (some rate) =
    row_estimate fl (paid_steps fl crawler settings) rate
      (max_rows_of (positive_int run_cap) (positive_int max_results) task_count)

unfoldable pub estimate_by_task :
    Floats → Dict Json → ℕ → Json → Json → Dict Json → Option ℕ → CostEstimate
unfolding estimate_by_row
estimate_by_task fl crawler task_count max_results run_cap settings (some price) = record {
  credits = some (fl.mul price (fl.of_int (pos task_count)));
  rate = none;
}
estimate_by_task fl crawler task_count max_results run_cap settings none =
    estimate_by_row fl crawler task_count max_results run_cap settings
      (resolve_credit_rate fl (get "credits_per_row" crawler))

unfoldable pub estimate_cost : Floats → Dict Json → ℕ → Json → Json → Dict Json → CostEstimate
unfolding estimate_by_task
estimate_cost fl crawler task_count max_results run_cap settings =
    estimate_by_task fl crawler task_count max_results run_cap settings
      (first_rate fl task_price_keys crawler)
