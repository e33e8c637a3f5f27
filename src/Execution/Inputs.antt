-- ===== src/Execution/Inputs.antt =====
-- execution.py: where each input of a run goes, under which settings the run executes and how many
-- rows it scrapes (`run_scraper_impl`, `_effective_settings`, `_rows_this_run`).
pub mod Placement
pub mod Settings
use lobstr_mcp.Prelude.{
  ℕ, suc, ◌+◌, String, Bool, true, false, not, ◌||◌, ◌&&◌, List, [], ◌∷◌, Option, none, some,
  if◌then◌else◌, ◌==◌, contains, or_else, is_empty, leb,
}
use lobstr_mcp.Prelude.Dict.{Dict, lookup, insert, update}
use lobstr_mcp.Json.{Json, dict, get_dict}
use lobstr_mcp.Schema.Items.{squid_level_names}

abbrev pub function_level : String
function_level = "function"

-- `levels.get(k)`
abbrev pub level_at : Dict (Option String) → String → Option String
level_at levels k = or_else (lookup k levels) none

unfoldable pub at_squid_level : Option String → Bool
at_squid_level none = false
at_squid_level (some level) = contains level squid_level_names

unfoldable pub at_function_level : Option String → Bool
at_function_level none = false
at_function_level (some level) = level == function_level

unfoldable pub at_task_level : Option String → Bool
unfolding at_squid_level at_function_level
at_task_level level = not (at_squid_level level) && not (at_function_level level)

abbrev pub wire_name : Dict String → String → String
wire_name wire_names k = or_else (lookup k wire_names) k

-- `{wire_names.get(k, k): v for k, v in input.items() if ...}`, on top of the entries so far.
unfoldable pub routed : (String → Bool) → Dict String → Dict Json → Dict Json → Dict Json
routed goes wire_names [] out = out
routed goes wire_names ((k, v) ∷ input) out =
    routed goes wire_names input (if goes k then insert (wire_name wire_names k) v out else out)

-- `if functions: squid_params["functions"] = functions`
nested : Dict Json → Dict Json → Dict Json
nested [] params = params
nested (f ∷ fs) params = insert "functions" (dict (f ∷ fs)) params

module _ (levels : Dict (Option String)) (wire_names : Dict String) where
  unfoldable pub functions_of : Dict Json → Dict Json
  unfolding routed
  functions_of input = routed (λ k. at_function_level (level_at levels k)) wire_names input []

  unfoldable pub task_params_of : Dict Json → Dict Json
  unfolding routed
  task_params_of input = routed (λ k. at_task_level (level_at levels k)) wire_names input []

  unfoldable pub squid_params_of : Dict Json → Dict Json
  unfolding routed nested functions_of
  squid_params_of input =
      nested (functions_of input)
        (routed (λ k. at_squid_level (level_at levels k)) wire_names input [])

-- The end of `_effective_settings`: the saved toggles with the new ones on top.
unfoldable pub merged : Option (Dict Json) → Option (Dict Json) → Dict Json → Dict Json
merged (some old) (some new) effective = insert "functions" (dict (update old new)) effective
merged _ _ effective = effective

unfoldable pub effective_settings : Dict Json → Dict Json → Dict Json
unfolding merged
effective_settings existing_squid squid_params =
    let saved = or_else (get_dict "params" existing_squid) [] in
    merged (get_dict "functions" saved) (get_dict "functions" squid_params)
      (update saved squid_params)

unfoldable pub rows_of_reuse : Bool → Bool → Option (List (Dict Json)) → ℕ → Option ℕ
rows_of_reuse has_task_input replace_tasks none saved_count = none
rows_of_reuse has_task_input replace_tasks (some rows) saved_count =
    if not has_task_input
    then some saved_count
    else if replace_tasks
    then some 1
    else if leb 1 saved_count
    then some (saved_count + 1)
    else some 1

-- `_rows_this_run`; `rows` is none where the saved rows could not be read.
unfoldable pub rows_this_run : Bool → Bool → Bool → Option (List (Dict Json)) → ℕ → Option ℕ
unfolding rows_of_reuse
rows_this_run reuse has_task_input replace_tasks rows saved_count =
    if reuse then rows_of_reuse has_task_input replace_tasks rows saved_count else some 1
