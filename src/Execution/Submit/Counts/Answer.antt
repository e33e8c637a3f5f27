-- ===== src/Execution/Submit/Counts/Answer.antt =====
-- The rows of a started run, and those that its estimate covers.
use lobstr_mcp.Prelude.{
  ℕ, zero, suc, leb, if◌then◌else◌, ap, ◌∙◌, refl, arith, String, true, false, Option, none, some,
  ◌≡◌, is_empty,
}
use lobstr_mcp.Prelude.Dict.{Dict}
use lobstr_mcp.Prelude.Result.{Result, ok, err}
use lobstr_mcp.Json.{Json, get, get_str}
use lobstr_mcp.Errors.{
  Exn, api, transport, other, TasksAction, unchanged, created, added, replaced, ErrorDict, Reply,
  answer, failed,
}
use lobstr_mcp.Safeguards.Cost.{Floats, estimate_cost}
use lobstr_mcp.Execution.Request.{rows_of_plan, rows_or_one, estimate_for}
use lobstr_mcp.Client.{Client, continue}
use lobstr_mcp.Execution.Submit.{Plan, Written, Started}
use lobstr_mcp.Execution.Submit.Writes.{Placed, start_refused, run_of, run_started, start, submit}
use lobstr_mcp.Execution.Submit.Counts.{ToldP, write_plan-Told}

module _ (c : Client) (plan : Plan) (k : ℕ) where
  -- What the answer of a started run says of its rows.
  abbrev pub Told : Result Exn (Reply Started) × c.State → Type 0
  Told (ok (failed e), s) = Unit
  Told (ok (answer st), s) = st.written.task_count ≡ some k
  Told (err e, s) = Unit

  run_of-Told :
      (q : String) (w : Written) (id : Option String) (s : c.State)
      → w.task_count ≡ some k
      → Told (run_of c plan q w id s)
  unfolding run_of
  run_of-Told q w none s h = tt
  run_of-Told q w (some id) s h = h

  failing-Told :
      (out : Result Exn ErrorDict × c.State) → Told (continue (λ d s. (ok (failed d), s)) out)
  failing-Told (ok d, s) = tt
  failing-Told (err e, s) = tt

  start_refused-Told :
      (q : String) (action : TasksAction) (failure : ErrorDict) (s : c.State)
      → Told (start_refused c plan q action failure s)
  unfolding start_refused
  start_refused-Told q replaced failure s = failing-Told _
  start_refused-Told q unchanged failure s = tt
  start_refused-Told q created failure s = tt
  start_refused-Told q added failure s = tt

  run_started-Told :
      (q : String) (w : Written) (r : Result Exn (Dict Json)) (s : c.State)
      → w.task_count ≡ some k
      → Told (run_started c plan q w r s)
  unfolding run_started
  run_started-Told q w (ok run) s h = run_of-Told q w (get_str "id" run) s h
  run_started-Told q w (err (api e)) s h = start_refused-Told q w.action _ s
  run_started-Told q w (err (transport e)) s h = start_refused-Told q w.action _ s
  run_started-Told q w (err (other e)) s h = tt

  start-Told :
      (out : Result Exn (Reply Placed) × c.State)
      → ToldP c plan k out
      → Told (continue (start c plan) out)
  unfolding start
  start-Told (err e, s) h = tt
  start-Told (ok (failed e), s) h = tt
  start-Told (ok (answer (q, w)), s) h = run_started-Told q w _ _ h

rows_or_one_lem : (k : ℕ) → rows_or_one (some k) ≡ (if leb 1 k then k else 1)
unfolding rows_or_one
rows_or_one_lem zero = refl
rows_or_one_lem (suc n) = ground arith

-- When a run is started, the rows that the answer says it scrapes are the rows that the estimate
-- was for, wherever these could be read, but that an estimate is for one row at least: for a squid
-- without rows that is run as it is the answer says 0. Requires that a call without input has no
-- task-level input, and that a call with `replace_tasks` has one: without it, the estimate is for
-- the saved rows, and they are replaced by an empty one.
pub submit-Told :
    (fl : Floats) (c : Client) (plan : Plan) (k : ℕ) (s : c.State)
    → (is_empty plan.input ≡ true → is_empty plan.task_params ≡ true)
    → (plan.replace_tasks ≡ true → is_empty plan.task_params ≡ false)
    → rows_of_plan plan ≡ some k
    → (estimate_for fl plan
        ≡ estimate_cost fl plan.crawler
            (if leb 1 k then k else 1)
            (get "max_results" plan.effective)
            (get "max_unique_results_per_run" plan.effective)
            plan.effective)
      × Told c plan k (submit c plan s)
unfolding submit estimate_for rows_of_plan
submit-Told fl c plan k s no_task task h = (
  ap
      (λ n.
        estimate_cost fl plan.crawler n (get "max_results" plan.effective)
          (get "max_unique_results_per_run" plan.effective) plan.effective)
      (ap rows_or_one h ∙ rows_or_one_lem k),
  start-Told c plan k _ (write_plan-Told c plan k plan.existing_squid s no_task task h),
)
