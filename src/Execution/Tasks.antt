-- ===== src/Execution/Tasks.antt =====
-- execution.py: reading, rewriting and restoring the saved input rows of a reused squid.
-- The prose of the messages is left out.
pub mod Loss
use lobstr_mcp.Prelude.{
  ℕ, String, Bool, true, false, not, ◌&&◌, List, [], ◌∷◌, Option, none, some, if◌then◌else◌, length,
  is_empty,
}
use lobstr_mcp.Prelude.Dict.{Dict}
use lobstr_mcp.Prelude.Result.{Result, ok, err}
use lobstr_mcp.Json.{Json, as_dict, as_list, get_dict}
use lobstr_mcp.Errors.{
  Exn, api, transport, other, ErrorDict, error_with, to_error_dict, ApiError, TransportError,
}
use lobstr_mcp.Client.{Client, Exec, pure, raise, continue, attempt, ◌>>=◌}

-- The rows that could be read, or none if the listing failed, and how many tasks were listed.
abbrev pub Snapshot : Type 0
Snapshot = Option (List (Dict Json)) × ℕ

-- What the handlers `except (LobstrAPIError, httpx.TransportError)` make of an exception: the
-- structured error of a refusal, or `upstream_unavailable`. No other exception is caught.
unfoldable pub step_failure : Exn → Option ErrorDict
step_failure (api exc) = some (to_error_dict exc)
step_failure (transport exc) = some (error_with "upstream_unavailable")
step_failure (other e) = none

row_of : Option (Dict Json) → Option (Dict Json)
row_of none = none
row_of (some []) = none
row_of (some (entry ∷ params)) = some (entry ∷ params)

params_of : Json → Option (Dict Json)
params_of task = elim (as_dict task) [ none ↦ none | some t ↦ row_of (get_dict "params" t) ]

-- The loop of `_snapshot_tasks`: the tasks whose params are a dict that is not empty.
rows_of : List Json → List (Dict Json)
rows_of [] = []
rows_of (task ∷ tasks) = elim (params_of task) [
  | none ↦ rows_of tasks
  | some params ↦ params ∷ rows_of tasks
]

snapshot_of : Option (List Json) → Snapshot
snapshot_of none = (none, 0)
snapshot_of (some tasks) = (some (rows_of tasks), length tasks)

snapshot_on : Result Exn Json → Result Exn Snapshot
snapshot_on (ok tasks) = ok (snapshot_of (as_list tasks))
snapshot_on (err e) = elim (step_failure e) [ none ↦ err e | some _ ↦ ok (none, 0) ]

module _ (c : Client) where
  unfoldable pub snapshot_tasks : String → Exec c.State Snapshot
  unfolding snapshot_on snapshot_of rows_of params_of row_of step_failure
  snapshot_tasks squid_id s = let (r, s') = c.list_tasks squid_id s in (snapshot_on r, s')

  -- The answer once the rows were put back, or could not be.
  restored : ErrorDict → List (Dict Json) → Result Exn (Dict Json) → Exec c.State ErrorDict
  restored out rows (ok _) =
      pure (record out { tasks_lost = some false; tasks_restored = some (length rows) })
  restored out rows (err e) = elim (step_failure e) [
    | none ↦ raise e
    | some _ ↦ pure (record out { tasks_lost = some true; lost_tasks = some rows })
  ]

  restore_rows : String → ErrorDict → Option (List (Dict Json)) → Exec c.State ErrorDict
  restore_rows squid_id out none = pure (record out { tasks_lost = some true })
  restore_rows squid_id out (some []) =
      pure (record out { tasks_lost = some false; tasks_restored = some 0 })
  restore_rows squid_id out (some (row ∷ rows)) = do
    r ← attempt (c.add_tasks squid_id (row ∷ rows))
    restored out (row ∷ rows) r

  unfoldable pub restore_tasks : String → Snapshot → ErrorDict → Exec c.State ErrorDict
  unfolding restore_rows restored
  restore_tasks squid_id snapshot failure =
      restore_rows squid_id (record failure { squid_id = some squid_id }) snapshot.0

  abbrev Replaced : Type 0
  Replaced = Option ErrorDict × ℕ

  restoring : String → Snapshot → ErrorDict → Exec c.State Replaced
  restoring squid_id snapshot failure = do
    out ← restore_tasks squid_id snapshot failure
    pure (some out, 0)

  -- The third step of `_replace_squid_input`: the row was added, or not.
  row_added : String → Snapshot → Result Exn (Dict Json) → Exec c.State Replaced
  row_added squid_id snapshot (ok _) = pure (none, snapshot.1)
  row_added squid_id snapshot (err e) = elim (step_failure e) [
    | none ↦ raise e
    | some failure ↦ restoring squid_id snapshot failure
  ]

  -- The second step: the squid was emptied, or not.
  emptied : String → Dict Json → Snapshot → Result Exn (Dict Json) → Exec c.State Replaced
  emptied squid_id task_params snapshot (ok _) = do
    r ← attempt (c.add_tasks squid_id (task_params ∷ []))
    row_added squid_id snapshot r
  emptied squid_id task_params snapshot (err e) = elim (step_failure e) [
    | none ↦ raise e
    | some failure ↦ restoring squid_id snapshot failure
  ]

  -- The first step: the configuration was saved, or not.
  saved : String → Dict Json → Snapshot → Result Exn (Dict Json) → Exec c.State Replaced
  saved squid_id task_params snapshot (ok _) = do
    r ← attempt (c.empty_squid squid_id)
    emptied squid_id task_params snapshot r
  saved squid_id task_params snapshot (err e) = elim (step_failure e) [
    | none ↦ raise e
    | some failure ↦
        pure (some (record failure { squid_id = some squid_id; tasks_lost = some false }), 0)
  ]

  unfoldable pub replace_squid_input :
      String → Dict Json → Dict Json → Snapshot → Exec c.State Replaced
  unfolding saved emptied row_added restoring restore_tasks step_failure
  replace_squid_input squid_id update_body task_params snapshot = do
    r ← attempt (c.update_squid squid_id update_body)
    saved squid_id task_params snapshot r

  save_failed : String → Exn → Exec c.State (Option ErrorDict)
  save_failed squid_id e = elim (step_failure e) [
    | none ↦ raise e
    | some failure ↦
        pure (some (record failure { squid_id = some squid_id; tasks_lost = some false }))
  ]

  saved_added : String → Result Exn (Dict Json) → Exec c.State (Option ErrorDict)
  saved_added squid_id (ok _) = pure none
  saved_added squid_id (err e) = save_failed squid_id e

  saved_config : String → Dict Json → Result Exn (Dict Json) → Exec c.State (Option ErrorDict)
  saved_config squid_id [] (ok _) = pure none
  saved_config squid_id (entry ∷ task_params) (ok _) = do
    r ← attempt (c.add_tasks squid_id ((entry ∷ task_params) ∷ []))
    saved_added squid_id r
  saved_config squid_id task_params (err e) = save_failed squid_id e

  unfoldable pub save_squid_input : String → Dict Json → Dict Json → Exec c.State (Option ErrorDict)
  unfolding saved_config saved_added save_failed step_failure
  save_squid_input squid_id update_body task_params = do
    r ← attempt (c.update_squid squid_id update_body)
    saved_config squid_id task_params r
