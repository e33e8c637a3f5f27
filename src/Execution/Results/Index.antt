-- ===== src/Execution/Results/Index.antt =====
-- `get_results_impl` and `_task_index`: a page of rows, and on the first page the inputs of the tasks.
use lobstr_mcp.Prelude.{
  ℕ, String, Bool, false, not, ◌||◌, ◌&&◌, List, [], ◌∷◌, Option, none, some, if◌then◌else◌, ltb,
  leb, length, is_some, or_else,
}
use lobstr_mcp.Prelude.Dict.{Dict}
use lobstr_mcp.Prelude.Int.{ℤ, pos, negsuc}
use lobstr_mcp.Prelude.Result.{Result, ok, err}
use lobstr_mcp.Json.{Json, null, as_dict, as_list, get, get_str}
use lobstr_mcp.Errors.{Exn, Reply, answer, failed, error_with, nonempty}
use lobstr_mcp.Client.{Exec, pure, attempt, ◌>>=◌}
use lobstr_mcp.Client.Runs.{RunClient, RowQuery}
use lobstr_mcp.Execution.Results.{Page, take, effective_page_size, get_results}

-- `_TASK_INDEX_CAP`
abbrev pub task_index_cap : ℕ
task_index_cap = 50

-- A task's id and input, and whether there are more tasks than are listed.
pub record TaskIndex : Type 0 where
  pub tasks : List (Json × Json)
  pub tasks_truncated : Bool

unfoldable pub task_entry : Option (Dict Json) → List (Json × Json) → List (Json × Json)
task_entry none rest = rest
task_entry (some t) rest = (get "id" t, get "params" t) ∷ rest

unfoldable pub task_entries : List Json → List (Json × Json)
unfolding task_entry
task_entries [] = []
task_entries (t ∷ tasks) = task_entry (as_dict t) (task_entries tasks)

unfoldable pub index_of : Option (List Json) → Option TaskIndex
unfolding task_entries take
index_of none = none
index_of (some tasks) =
    if ltb (length tasks) 2
    then none
    else some (record {
      tasks = task_entries (take task_index_cap tasks);
      tasks_truncated = ltb task_index_cap (length tasks);
    })

-- The `try` of `_task_index`: any failure adds nothing.
unfoldable pub index_or_none : Result Exn Json → Option TaskIndex
unfolding index_of
index_or_none (err e) = none
index_or_none (ok tasks) = index_of (as_list tasks)

-- What the caller asks for.
pub record PageRequest : Type 0 where
  pub run_id : Option String
  pub squid_id : Option String
  pub task_id : Option String
  pub page : ℤ
  pub page_size : Option ℤ
  pub max_rows : Option ℤ
  pub fields : List String
  pub full : Bool
  pub task_index : Bool

abbrev pub is_one : ℤ → Bool
is_one (pos n) = leb 1 n && leb n 1
is_one (negsuc n) = false

abbrev pub of_squid : Option String → Dict Json → Option String
of_squid none run = nonempty (get_str "squid" run)
of_squid (some squid_id) run = some squid_id

module _ (c : RunClient) where
  unfoldable pub tasks_of_squid : Option String → Exec c.State Json
  tasks_of_squid none = pure null
  tasks_of_squid (some squid_id) = c.list_tasks squid_id

  -- The squid of the tasks: the one that is named, or the run's.
  unfoldable pub squid_of_tasks : Option String → Option String → Exec c.State (Option String)
  squid_of_tasks (some squid_id) run_id = pure (some squid_id)
  squid_of_tasks none run_id = do
    run ← c.get_run (or_else run_id "")
    pure (nonempty (get_str "squid" run))

  unfoldable pub task_index_of : Option String → Option String → Exec c.State (Option TaskIndex)
  unfolding tasks_of_squid squid_of_tasks index_or_none
  task_index_of run_id squid_id = do
    tasks ← attempt (squid_of_tasks (nonempty squid_id) run_id >>= tasks_of_squid)
    pure (index_or_none tasks)

  unfoldable pub query_of : PageRequest → RowQuery
  unfolding effective_page_size
  query_of req = record {
    run = req.run_id;
    squid = req.squid_id;
    task = req.task_id;
    page = req.page;
    page_size = effective_page_size req.page_size req.full;
  }

  unfoldable pub index_for : PageRequest → Exec c.State (Option TaskIndex)
  unfolding task_index_of
  index_for req =
      if is_some (nonempty req.task_id) || (not (is_one req.page) || not req.task_index)
      then pure none
      else task_index_of req.run_id req.squid_id

  unfoldable pub get_results_impl : PageRequest → Exec c.State (Reply (Page × Option TaskIndex))
  unfolding query_of index_for
  get_results_impl req =
      if is_some (nonempty req.run_id) || is_some (nonempty req.squid_id)
      then (do
        payload ← c.get_results (query_of req)
        index ← index_for req
        pure (
            answer
              (get_results req.page req.page_size req.max_rows req.fields req.full payload, index)))
      else pure (failed (error_with "invalid_request"))
