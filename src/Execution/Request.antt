-- ===== src/Execution/Request.antt =====
-- execution.py: `run_scraper_impl` from the look-up of its key to its answer: the account, the rows,
-- the estimate, the confirmation gate, the writes and the record of the run under the key.
pub mod Gate
pub mod Opening
pub mod Whole
pub mod Between
pub mod Retry
use lobstr_mcp.Prelude.{
  ℕ, zero, suc, String, Bool, true, false, not, ◌||◌, ◌&&◌, List, [], ◌∷◌, Option, none, some,
  if◌then◌else◌, ◌==◌, is_empty, is_some, or_else,
}
use lobstr_mcp.Prelude.Dict.{Dict}
use lobstr_mcp.Prelude.Int.{ℤ}
use lobstr_mcp.Prelude.Result.{Result, ok, err}
use lobstr_mcp.Json.{Json, get}
use lobstr_mcp.Errors.{Exn, ErrorDict, Reply, answer, failed}
use lobstr_mcp.Client.{Client, Exec, pure, raise, continue, ◌>>=◌}
use lobstr_mcp.Safeguards.Cost.{Floats, CostEstimate, estimate_cost}
use lobstr_mcp.Safeguards.Idempotency as Idempotency
use lobstr_mcp.Safeguards.Idempotency.{IdempotencyStore}
use lobstr_mcp.Accounts.{Clock, AccountError}
use lobstr_mcp.Accounts.Attach.{Attached, find_account}
use lobstr_mcp.Execution.Tasks.{Snapshot, snapshot_tasks}
use lobstr_mcp.Execution.Inputs.{squid_params_of, task_params_of, effective_settings, rows_this_run}
use lobstr_mcp.Execution.Submit.{Plan, Started}
use lobstr_mcp.Execution.Submit.Writes.{submit}

-- What is known once the input was checked: `key` and `key_ttl`, the crawler and where its inputs
-- go, the squid if one is reused, the arguments and `run_confirm_threshold`.
pub record Request : Type 0 where
  pub key : String
  pub key_ttl : Option ℕ
  pub scraper : String
  pub crawler : Dict Json
  pub levels : Dict (Option String)
  pub wire_names : Dict String
  pub input : Dict Json
  pub squid_id : String
  pub existing_squid : Option (Dict Json)
  pub account_id : Option String
  pub replace_tasks : Bool
  pub confirm : Bool
  pub run_confirm_threshold : ℤ

pub data Outcome : Type 0 where
  submitted : Started → Outcome
  refused : ErrorDict → Outcome
  account_refused : AccountError → Outcome
  needs_confirmation : Option ℕ → Option ℕ → Outcome
  already_submitted : String → Outcome

unfoldable pub plan_of : Request → Attached → Snapshot → Plan
plan_of req attached saved =
    let squid_params = squid_params_of req.levels req.wire_names req.input in
    record {
      scraper = req.scraper;
      crawler = req.crawler;
      existing_squid = req.existing_squid;
      input = req.input;
      squid_params = squid_params;
      task_params = task_params_of req.levels req.wire_names req.input;
      effective = effective_settings (or_else req.existing_squid []) squid_params;
      accounts_to_save = attached.accounts_to_save;
      replace_tasks = req.replace_tasks;
      saved = saved;
    }

unfoldable pub rows_of_plan : Plan → Option ℕ
rows_of_plan plan =
    rows_this_run (is_some plan.existing_squid) (not (is_empty plan.task_params)) plan.replace_tasks
      plan.saved.0 plan.saved.1

-- `rows_this_run or 1`
unfoldable pub rows_or_one : Option ℕ → ℕ
rows_or_one none = 1
rows_or_one (some zero) = 1
rows_or_one (some (suc n)) = suc n

unfoldable pub outcome_of : Reply Started → Outcome
outcome_of (answer st) = submitted st
outcome_of (failed e) = refused e

unfoldable pub recorded : Request → Result Exn Outcome → ℕ → IdempotencyStore → IdempotencyStore
recorded req (ok (submitted st)) now store = Idempotency.put store req.key st.run_id req.key_ttl now
recorded req _ now store = store

module _ (fl : Floats) where
  unfoldable pub estimate_for : Plan → CostEstimate
  unfolding rows_or_one rows_of_plan
  estimate_for plan =
      estimate_cost fl plan.crawler (rows_or_one (rows_of_plan plan))
        (get "max_results" plan.effective) (get "max_unique_results_per_run" plan.effective)
        plan.effective

  -- The credits are not known, or are above the threshold.
  unfoldable pub is_costly : Option ℕ → ℤ → Bool
  is_costly none threshold = true
  is_costly (some credits) threshold = fl.above credits threshold

  module _ (clock : Clock) (c : Client) where
    unfoldable pub read_rows : Request → Option (Dict Json) → Exec c.State Snapshot
    read_rows req none = pure (none, 0)
    read_rows req (some squid) = snapshot_tasks c req.squid_id

    -- The balance is only reported.
    unfoldable pub confirmed : Plan → Exec c.State Outcome
    unfolding outcome_of
    confirmed plan = do _ ← c.get_balance; reply ← submit c plan; pure (outcome_of reply)

    unfoldable pub gated : Request → Plan → Bool → Exec c.State Outcome
    unfolding confirmed
    gated req plan true = pure (needs_confirmation (estimate_for plan).credits (rows_of_plan plan))
    gated req plan false = confirmed plan

    unfoldable pub with_rows : Request → Attached → Snapshot → Exec c.State Outcome
    unfolding gated plan_of estimate_for is_costly
    with_rows req attached saved =
        let plan = plan_of req attached saved in
        gated req plan
          (not req.confirm && is_costly (estimate_for plan).credits req.run_confirm_threshold)

    unfoldable pub with_account : Request → Result AccountError Attached → Exec c.State Outcome
    unfolding with_rows read_rows
    with_account req (err e) = pure (account_refused e)
    with_account req (ok attached) = do
      saved ← read_rows req req.existing_squid
      with_rows req attached saved

    unfoldable pub proceed : Request → Exec c.State Outcome
    unfolding with_account
    proceed req = do
      account ← find_account clock c req.crawler req.existing_squid req.account_id
      with_account req account

    unfoldable pub run_fresh :
        Request → IdempotencyStore → ℕ → c.State → (Result Exn Outcome × c.State) × IdempotencyStore
    unfolding proceed recorded
    run_fresh req store later s = let out = proceed req s in (out, recorded req out.0 later store)

    unfoldable pub run_known :
        Request
        → Option String × IdempotencyStore
        → ℕ
        → c.State
        → (Result Exn Outcome × c.State) × IdempotencyStore
    unfolding run_fresh
    run_known req (none, store) later s = run_fresh req store later s
    run_known req (some run_id, store) later s =
        if run_id == ""
        then run_fresh req store later s
        else ((ok (already_submitted run_id), s), store)

    -- `now` is when the key is looked up, and `later` when the run is recorded.
    unfoldable pub run_scraper :
        Request
        → IdempotencyStore
        → ℕ
        → ℕ
        → c.State
        → (Result Exn Outcome × c.State) × IdempotencyStore
    unfolding run_known
    run_scraper req store now later s = run_known req (Idempotency.get store req.key now) later s
