-- ===== src/Tests/Submit.antt =====
-- Writing the input and starting the run, against the service in memory.
use mathlib.Core.Bool.{false≢true}
use lobstr_mcp.Prelude.{
  eq_iff, String, true, false, [], ◌∷◌, Option, none, some, ◌≡◌, refl, inl, inr, or_else,
}
use lobstr_mcp.Prelude.Dict.{update, Dict, lookup, insert}
use lobstr_mcp.Prelude.Int.{pos}
use lobstr_mcp.Json.{Json, str, int, bool, dict, get_dict}
use lobstr_mcp.Execution.Inputs.{
  at_function_level, at_squid_level, at_task_level, task_params_of, squid_params_of,
  effective_settings, rows_this_run,
}
use lobstr_mcp.Execution.Inputs.Placement.{Placed, placed_somewhere}
use lobstr_mcp.Execution.Submit.{Plan}
use lobstr_mcp.Execution.Submit.Writes.{submit}
use lobstr_mcp.Execution.Submit.Rows.{submit-Keeps}
use lobstr_mcp.Execution.Submit.Replacing.{rewriting, SubmitSafe, submit-Safe}
use lobstr_mcp.Safeguards.Cost.{estimate_cost}
use lobstr_mcp.Execution.Request.{rows_of_plan, estimate_for}
use lobstr_mcp.Prelude.{if◌then◌else◌, leb}
use lobstr_mcp.Json.{get}
use lobstr_mcp.Tests.Saving.{whole}
use lobstr_mcp.Execution.Submit.Counts.Answer.{Told, submit-Told}
use lobstr_mcp.Tests.Service.{service, service-RowLaws, crawler, SavedIn}
use lobstr_mcp.Tests.Saving.{row, bad_row, filled, both}

-- A new scraper for the row.
abbrev fresh : Dict Json → Plan
fresh task = record {
  scraper = "maps";
  crawler = crawler;
  existing_squid = none;
  input = task;
  squid_params = [];
  task_params = task;
  effective = [];
  accounts_to_save = none;
  replace_tasks = false;
  saved = (none, 0);
}

abbrev squid_q : Dict Json
squid_q = ("id", str "q") ∷ []

-- The row is refused, and the squid that was created for it is deleted again.
submit-Keeps_example : SavedIn (submit service (fresh bad_row) filled).1 "q" (row "b")
submit-Keeps_example =
    submit-Keeps service service-RowLaws (fresh bad_row) "q" (row "b") filled refl
      (inr (inl (refl, refl)))

-- The rows of q are replaced by a row that is refused, and put back.
submit-Safe_example :
    SubmitSafe service service-RowLaws "q" both 2 bad_row
      (submit service (rewriting (fresh bad_row) squid_q ("bad", str "x") [] both 2) filled)
unfolding lookup
submit-Safe_example =
    submit-Safe service service-RowLaws (fresh bad_row) squid_q [] ("bad", str "x") "q" both 2
      filled refl (inl (refl, refl), (inr (inl (refl, refl)), tt))

abbrev overwrite : Plan
overwrite = rewriting (fresh (row "d")) squid_q ("url", str "d") [] both 2

submit-Told_example :
    (estimate_for whole overwrite
      ≡ estimate_cost whole crawler
          (if leb 1 1 then 1 else 1)
          (get "max_results" [])
          (get "max_unique_results_per_run" [])
          [])
    × Told service overwrite 1 (submit service overwrite filled)
unfolding rows_of_plan rows_this_run
submit-Told_example =
    submit-Told whole service overwrite 1 filled (λ e. absurd (cc e)) (λ e. refl) refl

abbrev levels : Dict (Option String)
levels = ("url", some "task") ∷ ("squid_country", some "squid") ∷ ("emails", some "function") ∷ []

abbrev wires : Dict String
wires = ("squid_country", "country") ∷ []

abbrev given : Dict Json
given = ("url", str "a") ∷ ("squid_country", str "fr") ∷ ("emails", bool true) ∷ []

placed_test :
    (squid_params_of levels wires given
      ≡ ("country", str "fr") ∷ ("functions", dict (("emails", bool true) ∷ [])) ∷ [])
    × (task_params_of levels wires given ≡ row "a")
unfolding squid_params_of task_params_of lookup insert at_function_level at_squid_level
    at_task_level
placed_test = (refl, refl)

placed_somewhere_example : Placed levels wires given "squid_country" (str "fr")
unfolding lookup
placed_somewhere_example =
    placed_somewhere levels wires (("url", str "a") ∷ []) (("emails", bool true) ∷ [])
      "squid_country" (str "fr") refl
      (λ e. absurd (false≢true ((eq_iff "country" "functions").1 e)))

abbrev old_toggles : Dict Json
old_toggles = ("emails", bool true) ∷ []

abbrev saved : Dict Json
saved = ("max_results", int (pos 5)) ∷ ("functions", dict old_toggles) ∷ []

abbrev new_toggles : Dict Json
new_toggles = ("images", bool true) ∷ []

abbrev existing : Dict Json
existing = ("params", dict saved) ∷ []

abbrev changes : Dict Json
changes = ("functions", dict new_toggles) ∷ []

abbrev quieter : Dict Json
quieter = ("depth", int (pos 2)) ∷ []

-- A call with another toggle.
merged_test :
    (lookup "max_results" (effective_settings existing changes) ≡ lookup "max_results" saved)
    × (lookup "emails" (or_else (get_dict "functions" (effective_settings existing changes)) [])
        ≡ some (bool true))
unfolding lookup effective_settings update insert
merged_test = (refl, refl)
