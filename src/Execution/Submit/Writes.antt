-- ===== src/Execution/Submit/Writes.antt =====
-- execution.py, `run_scraper_impl`: the requests that save the input and start the run.
use lobstr_mcp.Prelude.{String, Bool, true, false, List, [], ◌∷◌, Option, none, some}
use lobstr_mcp.Prelude.Dict.{Dict}
use lobstr_mcp.Prelude.Result.{Result, ok, err}
use lobstr_mcp.Json.{Json, list, get_str}
use lobstr_mcp.Errors.{
  Exn, api, transport, other, ErrorDict, to_error_dict, transport_error_dict, TasksAction,
  unchanged, created, replaced, Reply, answer, failed,
}
use lobstr_mcp.Client.{Client, Exec, pure, raise, attempt, ◌>>=◌, ◌>>◌}
use lobstr_mcp.Execution.Tasks.{replace_squid_input, save_squid_input, restore_tasks}
use lobstr_mcp.Execution.Submit.{
  Plan, Written, Started, account_ids, update_body, known_count, refusal, saved_reply,
  replaced_reply, start_failure, not_started, is_ok,
}

-- The squid that holds the input, and what was done to its rows.
abbrev pub Placed : Type 0
Placed = String × Written

abbrev pub placed_at : String → Reply Written → Reply Placed
placed_at q (answer w) = answer (q, w)
placed_at q (failed e) = failed e

abbrev pub left_alone : Plan → Reply Written
left_alone plan =
    answer (record { action = unchanged; task_count = known_count plan.saved; replaced_count = 0 })

module _ (c : Client) (plan : Plan) where
  unfoldable pub write_keeping :
      String → Dict Json → Option ErrorDict → Exec c.State (Reply Written)
  unfolding saved_reply
  write_keeping q squid (some refused) = pure (failed refused)
  write_keeping q squid none = do
    failure ← save_squid_input c q (update_body plan squid plan.effective) plan.task_params
    pure (saved_reply (known_count plan.saved) plan.task_params failure)

  unfoldable pub write_replacing : String → Dict Json → Exec c.State (Reply Written)
  unfolding replaced_reply
  write_replacing q squid = do
    done ←
        replace_squid_input c q (update_body plan squid plan.effective) plan.task_params plan.saved
    pure (replaced_reply done)

  -- A re-run without input saves at most the account.
  unfoldable pub write_accounts : String → Option (List String) → Exec c.State (Reply Written)
  write_accounts q none = pure (left_alone plan)
  write_accounts q (some []) = pure (left_alone plan)
  write_accounts q (some (a ∷ accounts)) = do
    _ ← c.update_squid q (("accounts", list (account_ids (a ∷ accounts))) ∷ [])
    pure (left_alone plan)

  unfoldable pub write_input : String → Dict Json → Bool → Exec c.State (Reply Written)
  unfolding write_keeping write_replacing refusal
  write_input q squid true = write_replacing q squid
  write_input q squid false = write_keeping q squid (refusal q plan.saved plan.task_params)

  unfoldable pub write_reused : String → Dict Json → Dict Json → Exec c.State (Reply Written)
  unfolding write_accounts write_input
  write_reused q squid [] = write_accounts q plan.accounts_to_save
  write_reused q squid (entry ∷ input) = write_input q squid plan.replace_tasks

  -- `_new_squid_write_failed`
  unfoldable pub new_squid_write_failed : String → ErrorDict → Exec c.State ErrorDict
  new_squid_write_failed q base = do
    r ← attempt (c.delete_squid q)
    pure (record base { squid_id = some q; scraper = some plan.scraper; deleted = some (is_ok r) })

  unfoldable pub new_squid_written : String → Result Exn (Dict Json) → Exec c.State (Reply Written)
  unfolding new_squid_write_failed
  new_squid_written q (ok _) =
      pure (answer (record { action = created; task_count = some 1; replaced_count = 0 }))
  new_squid_written q (err (api exc)) = do
    failure ← new_squid_write_failed q (to_error_dict exc)
    pure (failed failure)
  new_squid_written q (err (transport exc)) = pure (
      failed
        (record (transport_error_dict exc true) { squid_id = some q; scraper = some plan.scraper }))
  new_squid_written q (err (other e)) = raise (other e)

  -- Both requests stand in one `try`.
  unfoldable pub write_new : String → Dict Json → Exec c.State (Reply Written)
  unfolding new_squid_written
  write_new q squid = do
    r ← attempt (
        c.update_squid q (update_body plan squid plan.squid_params)
        >> c.add_tasks q (plan.task_params ∷ []))
    new_squid_written q r

  -- The id of the squid, which the source takes by `["id"]`; an id that is no text counts as missing,
  -- here and in `run_of`.
  unfoldable pub write_to :
      (String → Dict Json → Exec c.State (Reply Written))
      → Dict Json
      → Option String
      → Exec c.State (Reply Placed)
  write_to write squid none = raise (other "KeyError")
  write_to write squid (some q) = do w ← write q squid; pure (placed_at q w)

  unfoldable pub write_plan : Option (Dict Json) → Exec c.State (Reply Placed)
  unfolding write_to write_new write_reused
  write_plan (some squid) = write_to (λ q s. write_reused q s plan.input) squid (get_str "id" squid)
  write_plan none = do
    squid ← c.create_squid plan.scraper none
    write_to write_new squid (get_str "id" squid)

  -- A run that could not be started after a rewrite: the old rows are put back.
  unfoldable pub start_refused : String → TasksAction → ErrorDict → Exec c.State (Reply Started)
  unfolding restore_tasks
  start_refused q replaced failure = do d ← restore_tasks c q plan.saved failure; pure (failed d)
  start_refused q _ failure = pure (failed failure)

  unfoldable pub run_of : String → Written → Option String → Exec c.State (Reply Started)
  run_of q w none = raise (other "KeyError")
  run_of q w (some run_id) = pure (answer (record { run_id = run_id; squid_id = q; written = w }))

  unfoldable pub run_started :
      String → Written → Result Exn (Dict Json) → Exec c.State (Reply Started)
  unfolding run_of start_refused start_failure
  run_started q w (ok run) = run_of q w (get_str "id" run)
  run_started q w (err e) = elim (start_failure e) [
    | none ↦ raise e
    | some failure ↦ start_refused q w.action (not_started plan q w failure)
  ]

  unfoldable pub start : Reply Placed → Exec c.State (Reply Started)
  unfolding run_started
  start (failed e) = pure (failed e)
  start (answer (q, w)) = do r ← attempt (c.start_run q); run_started q w r

  unfoldable pub submit : Exec c.State (Reply Started)
  unfolding write_plan start
  submit = do w ← write_plan plan.existing_squid; start w
