-- ===== src/Execution/Submit/Rows.antt =====
-- A call that does not ask for replacement takes no saved row away.
use lobstr_mcp.Prelude.{String, false, List, [], ◌∷◌, Option, none, some, ◌≡◌, ◌≢◌, refl, ap, ◌∙◌}
use lobstr_mcp.Prelude.Dict.{Dict}
use lobstr_mcp.Prelude.Result.{Result, ok, err}
use lobstr_mcp.Json.{Json, list, get_str}
use lobstr_mcp.Errors.{
  Exn, api, transport, other, ErrorDict, TasksAction, unchanged, created, added, replaced, Reply,
  answer, failed,
}
use lobstr_mcp.Client.{Client, Exec, continue, attempt, ◌>>◌}
use lobstr_mcp.Client.Rows.{Keeps, bind-Keeps, attempt-Keeps, Additive, RowLaws}
use lobstr_mcp.Execution.Tasks.{restore_tasks, save_squid_input}
use lobstr_mcp.Execution.Tasks.Loss.{save_squid_input-Keeps, restore_tasks-Keeps}
use lobstr_mcp.Execution.Submit.{Plan, Written, account_ids, update_body, refusal}
use lobstr_mcp.Execution.Submit.Writes.{
  Placed, write_keeping, write_accounts, write_input, write_reused, new_squid_write_failed,
  new_squid_written, write_new, write_to, write_plan, start_refused, run_of, run_started, start,
  submit,
}

module _ (c : Client) (P : c.State → Type 0) (additive : Additive c P) (plan : Plan) where
  write_keeping-Keeps :
      (q : String) (squid : Dict Json) (refused : Option ErrorDict)
      → Keeps P (write_keeping c plan q squid refused)
  unfolding write_keeping
  write_keeping-Keeps q squid (some e) = λ s p. p
  write_keeping-Keeps q squid none =
      bind-Keeps P (save_squid_input c q (update_body plan squid plan.effective) plan.task_params) _
        (save_squid_input-Keeps c P additive q _ plan.task_params) (λ a s p. p)

  write_accounts-Keeps :
      (q : String) (accounts : Option (List String)) → Keeps P (write_accounts c plan q accounts)
  unfolding write_accounts
  write_accounts-Keeps q none = λ s p. p
  write_accounts-Keeps q (some []) = λ s p. p
  write_accounts-Keeps q (some (a ∷ accounts)) =
      bind-Keeps P (c.update_squid q (("accounts", list (account_ids (a ∷ accounts))) ∷ [])) _
        (additive.update_squid-Keeps q _) (λ a s p. p)

  write_reused-Keeps :
      (q : String) (squid input : Dict Json)
      → plan.replace_tasks ≡ false
      → Keeps P (write_reused c plan q squid input)
  unfolding write_reused write_input
  write_reused-Keeps q squid [] h = write_accounts-Keeps q plan.accounts_to_save
  write_reused-Keeps q squid (entry ∷ input) h =
      rw (h, write_input) (write_keeping-Keeps q squid (refusal q plan.saved plan.task_params))

  write_to-Keeps :
      (write : String → Dict Json → Exec c.State (Reply Written)) (squid : Dict Json)
      (id : Option String)
      → ((q : String) → id ≡ some q → Keeps P (write q squid))
      → Keeps P (write_to c plan write squid id)
  unfolding write_to
  write_to-Keeps write squid none h = λ s p. p
  write_to-Keeps write squid (some q) h = bind-Keeps P (write q squid) _ (h q refl) (λ a s p. p)

  start_refused-Keeps :
      (q : String) (action : TasksAction) (failure : ErrorDict)
      → Keeps P (start_refused c plan q action failure)
  unfolding start_refused
  start_refused-Keeps q replaced failure =
      bind-Keeps P (restore_tasks c q plan.saved failure) _
        (restore_tasks-Keeps c P additive q plan.saved failure) (λ a s p. p)
  start_refused-Keeps q unchanged failure = λ s p. p
  start_refused-Keeps q created failure = λ s p. p
  start_refused-Keeps q added failure = λ s p. p

  run_of-Keeps : (q : String) (w : Written) (id : Option String) → Keeps P (run_of c plan q w id)
  unfolding run_of
  run_of-Keeps q w none = λ s p. p
  run_of-Keeps q w (some id) = λ s p. p

  run_started-Keeps :
      (q : String) (w : Written) (r : Result Exn (Dict Json)) → Keeps P (run_started c plan q w r)
  unfolding run_started
  run_started-Keeps q w (ok run) = run_of-Keeps q w (get_str "id" run)
  run_started-Keeps q w (err (api e)) = start_refused-Keeps q w.action _
  run_started-Keeps q w (err (transport e)) = start_refused-Keeps q w.action _
  run_started-Keeps q w (err (other e)) = λ s p. p

  start-Keeps : (reply : Reply Placed) → Keeps P (start c plan reply)
  unfolding start
  start-Keeps (failed e) = λ s p. p
  start-Keeps (answer (q, w)) =
      bind-Keeps P (attempt (c.start_run q)) (run_started c plan q w)
        (attempt-Keeps P (c.start_run q) (additive.start_run-Keeps q)) (run_started-Keeps q w)

module _ (c : Client) (laws : RowLaws c) (plan : Plan) (q : String) (row : Dict Json) where
  abbrev Here : c.State → Type 0
  Here s = laws.holds s q row

  new_squid_written-Keeps :
      (made : String) (r : Result Exn (Dict Json))
      → made ≢ q
      → Keeps Here (new_squid_written c plan made r)
  unfolding new_squid_written new_squid_write_failed
  new_squid_written-Keeps made (ok d) apart = λ s p. p
  new_squid_written-Keeps made (err (api e)) apart =
      λ s p. laws.delete_squid-Keeps made q row apart s p
  new_squid_written-Keeps made (err (transport e)) apart = λ s p. p
  new_squid_written-Keeps made (err (other e)) apart = λ s p. p

  write_new-Keeps :
      (made : String) (squid : Dict Json) → made ≢ q → Keeps Here (write_new c plan made squid)
  unfolding write_new
  write_new-Keeps made squid apart =
      let update = c.update_squid made (update_body plan squid plan.squid_params) in
      let add = c.add_tasks made (plan.task_params ∷ []) in
      let additive = laws.additive q row in
      bind-Keeps Here (attempt (update >> add)) (new_squid_written c plan made)
        (attempt-Keeps Here (update >> add) (
          bind-Keeps Here update (λ _. add) (additive.update_squid-Keeps made _)
            (λ _. additive.add_tasks-Keeps made _)))
        (λ r. new_squid_written-Keeps made r apart)

  made_squid-Keeps :
      (s : c.State) (out : Result Exn (Dict Json) × c.State)
      → c.create_squid plan.scraper none s ≡ out
      → Here s
      → Here out.1
      → Here
          (continue (λ squid. write_to c plan (write_new c plan) squid (get_str "id" squid)) out).1
  made_squid-Keeps s (err e, s') h before p = p
  made_squid-Keeps s (ok squid, s') h before p =
      write_to-Keeps c Here (laws.additive q row) plan (write_new c plan) squid (get_str "id" squid)
        (λ made id. write_new-Keeps made squid (λ e.
          laws.create_squid_fresh plan.scraper q none row s s' squid h before (id ∙ ap some e)))
        s' p

  write_plan-Keeps :
      (existing : Option (Dict Json))
      → plan.replace_tasks ≡ false
      → Keeps Here (write_plan c plan existing)
  unfolding write_plan
  write_plan-Keeps (some squid) kept =
      write_to-Keeps c Here (laws.additive q row) plan (λ r s. write_reused c plan r s plan.input)
        squid (get_str "id" squid)
        (λ r id. write_reused-Keeps c Here (laws.additive q row) plan r squid plan.input kept)
  write_plan-Keeps none kept = λ s p.
      made_squid-Keeps s _ refl p ((laws.additive q row).create_squid-Keeps plan.scraper none s p)

  -- Without `replace_tasks` a call takes no saved row from any squid, however its requests end: not
  -- from the squid that it reuses, and not by deleting the one that it created and could not set up.
  pub submit-Keeps :
      (s : c.State)
      → plan.replace_tasks ≡ false
      → laws.holds s q row
      → laws.holds (submit c plan s).1 q row
  unfolding submit
  submit-Keeps s kept p =
      bind-Keeps Here (write_plan c plan plan.existing_squid) (start c plan)
        (write_plan-Keeps plan.existing_squid kept) (start-Keeps c Here (laws.additive q row) plan)
        s p
