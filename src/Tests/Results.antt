-- ===== src/Tests/Results.antt =====
-- Pages of results.
use lobstr_mcp.Prelude.{length, ◌≤◌, true, false, [], ◌∷◌, none, some, ◌≡◌, refl}
use lobstr_mcp.Prelude.Dict.{Dict, lookup, insert}
use lobstr_mcp.Prelude.Int.{pos, negsuc}
use lobstr_mcp.Json.{Json, null, str, int, list, dict}
use lobstr_mcp.Prelude.{ℕ, Option}
use lobstr_mcp.Prelude.Result.{ok}
use lobstr_mcp.Errors.{answer, other}
use lobstr_mcp.Client.{pure, raise, ◌>>=◌}
use lobstr_mcp.Client.Runs.{RunClient}
use lobstr_mcp.Execution.Results.Index.{
  tasks_of_squid, squid_of_tasks, TaskIndex, PageRequest, get_results_impl,
}
use lobstr_mcp.Execution.Results.Unfailing.{Fits, get_results_impl-Answers}
use lobstr_mcp.Execution.Results.{get_results}
use lobstr_mcp.Execution.Results.Bounds.{AtMost, get_results-within}

abbrev payload : Dict Json
payload =
    ("results", list (dict (("a", int (pos 0)) ∷ ("b", str "") ∷ []) ∷ dict [] ∷ dict [] ∷ [])) ∷ []

page_test :
    (get_results (pos 1) none (some (pos 2)) [] false payload).results
    ≡ dict (("a", int (pos 0)) ∷ []) ∷ dict [] ∷ []
unfolding get_results lookup
page_test = refl

-- A negative limit leaves rows off at the end.
negative_test : (get_results (pos 1) none (some (negsuc 0)) [] false payload).returned ≡ 2
unfolding get_results lookup
negative_test = refl

get_results-within_example :
    (1 ≤ (get_results (pos 1) (some (pos 500)) (some (pos 2)) [] false payload).page_size)
    × ((get_results (pos 1) (some (pos 500)) (some (pos 2)) [] false payload).page_size ≤ 100)
    × (length (get_results (pos 1) (some (pos 500)) (some (pos 2)) [] false payload).results
        ≤ (get_results (pos 1) (some (pos 500)) (some (pos 2)) [] false payload).page_size)
    × AtMost (some 2) (get_results (pos 1) (some (pos 500)) (some (pos 2)) [] false payload).results
    × ((get_results (pos 1) (some (pos 500)) (some (pos 2)) [] false payload).returned
        ≡ length (get_results (pos 1) (some (pos 500)) (some (pos 2)) [] false payload).results)
get_results-within_example = get_results-within (pos 1) (some (pos 500)) (some 2) [] false payload

-- Columns are those of the untrimmed rows, and a column that is asked for but missing is None.
fields_test : get_results (pos 1) none none ("b" ∷ "z" ∷ []) true payload ≡ record {
  total_results = null;
  page = int (pos 1);
  page_size = 25;
  total_pages = null;
  returned = 3;
  available = "a" ∷ "b" ∷ [];
  next = null;
  results =
      dict (("b", str "") ∷ ("z", null) ∷ [])
      ∷ dict (("b", null) ∷ ("z", null) ∷ [])
      ∷ dict (("b", null) ∷ ("z", null) ∷ [])
      ∷ [];
}
unfolding get_results lookup insert
fields_test = refl

-- A service that answers with one page and cannot list tasks.
abbrev pages : RunClient
pages = record {
  State = ℕ;
  get_run = λ id. pure (("squid", str "q") ∷ []);
  get_run_stats = λ id. pure [];
  get_run_credits = λ id. pure [];
  get_squid = λ id. pure [];
  list_tasks = λ id. raise (other "boom");
  list_runs = λ id limit. pure [];
  abort_run = λ id. pure null;
  get_run_download_url = λ id format. pure null;
  get_results = λ query. pure payload;
}

abbrev request : PageRequest
request = record {
  run_id = some "r";
  squid_id = none;
  task_id = none;
  page = pos 1;
  page_size = none;
  max_rows = none;
  fields = [];
  full = false;
  task_index = true;
}

get_results_impl-Answers_example :
    (index : Option TaskIndex) × ((get_results_impl pages request 0).0
      ≡ ok (answer (get_results (pos 1) none none [] false payload, index)))
    × Fits request ((squid_of_tasks pages none (some "r") >>= tasks_of_squid pages) 0).0 index
get_results_impl-Answers_example = get_results_impl-Answers pages request 0 0 payload refl refl
