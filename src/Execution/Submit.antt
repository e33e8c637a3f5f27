-- ===== src/Execution/Submit.antt =====
-- execution.py: the part of `run_scraper_impl` that writes and starts the run, once the input is
-- checked, the account is resolved and the cost is confirmed. The prose of the messages is left
-- out, and of a failed start also the estimate and the balance that its answer carries.
pub mod Writes
pub mod Rows
pub mod Replacing
pub mod Counts
use lobstr_mcp.Prelude.{
  ℕ, suc, ◌+◌, String, Bool, true, false, not, ◌&&◌, List, [], ◌∷◌, Option, none, some,
  if◌then◌else◌, leb, is_empty,
}
use lobstr_mcp.Prelude.Dict.{Dict, insert}
use lobstr_mcp.Prelude.Result.{Result, ok, err}
use lobstr_mcp.Json.{Json, str, dict, list, get, get_str, truthy}
use lobstr_mcp.Errors.{
  Exn, api, transport, other, ErrorDict, error_with, to_error_dict, transport_error_dict,
  TasksAction, unchanged, created, added, replaced, Reply, answer, failed,
}
use lobstr_mcp.Client.{Client, Exec, pure, raise, continue, attempt, ◌>>=◌, ◌>>◌}
use lobstr_mcp.Execution.Tasks.{Snapshot, replace_squid_input, save_squid_input, restore_tasks}

-- What the call has found out before it writes. There is an existing squid if one is reused.
pub record Plan : Type 0 where
  pub scraper : String
  pub crawler : Dict Json
  pub existing_squid : Option (Dict Json)
  pub input : Dict Json
  pub squid_params : Dict Json
  pub task_params : Dict Json
  pub effective : Dict Json
  pub accounts_to_save : Option (List String)
  pub replace_tasks : Bool
  pub saved : Snapshot

-- `tasks_action`, `task_count` and `replaced_count`.
pub record Written : Type 0 where
  pub action : TasksAction
  pub task_count : Option ℕ
  pub replaced_count : ℕ

pub record Started : Type 0 where
  pub run_id : String
  pub squid_id : String
  pub written : Written

abbrev pub or_value : Json → Json → Json
or_value a b = if truthy a then a else b

unfoldable pub account_ids : List String → List Json
account_ids [] = []
account_ids (a ∷ accounts) = str a ∷ account_ids accounts

unfoldable pub with_accounts : Option (List String) → Dict Json → Dict Json
unfolding account_ids
with_accounts none body = body
with_accounts (some []) body = body
with_accounts (some (a ∷ accounts)) body =
    insert "accounts" (list (account_ids (a ∷ accounts))) body

unfoldable pub update_body : Plan → Dict Json → Dict Json → Dict Json
unfolding with_accounts
update_body plan squid params = with_accounts plan.accounts_to_save (
    ("name", or_value (get "name" squid) (or_value (get "name" plan.crawler) (str plan.scraper)))
    ∷ ("params", dict params)
    ∷ [])

-- `task_count` of a squid whose rows are left as they are.
unfoldable pub known_count : Snapshot → Option ℕ
known_count (none, n) = none
known_count (some rows, n) = some n

-- `_refuse_to_touch_saved_tasks`
unfoldable pub refuse_to_touch_saved_tasks : String → Dict Json → ℕ → ErrorDict
refuse_to_touch_saved_tasks squid_id task_params n = record (error_with "squid_has_tasks") {
  squid_id = some squid_id;
  existing_task_count = some n;
  tasks_lost = some false;
  new_task = some task_params;
  cost_multiplier_if_added = some (n + 1);
}

-- Without `replace_tasks`, a task-level input is refused where there may be rows.
unfoldable pub refusal : String → Snapshot → Dict Json → Option ErrorDict
unfolding refuse_to_touch_saved_tasks
refusal squid_id saved [] = none
refusal squid_id (none, n) (entry ∷ task_params) =
    some
      (record (error_with "tasks_unreadable") { squid_id = some squid_id; tasks_lost = some false })
refusal squid_id (some rows, n) (entry ∷ task_params) =
    if leb 1 n then some (refuse_to_touch_saved_tasks squid_id (entry ∷ task_params) n) else none

unfoldable pub saved_reply : Option ℕ → Dict Json → Option ErrorDict → Reply Written
saved_reply count task_params (some failure) = failed failure
saved_reply count [] none =
    answer (record { action = unchanged; task_count = count; replaced_count = 0 })
saved_reply count (entry ∷ task_params) none =
    answer (record { action = added; task_count = some 1; replaced_count = 0 })

unfoldable pub replaced_reply : Option ErrorDict × ℕ → Reply Written
replaced_reply (some failure, n) = failed failure
replaced_reply (none, n) =
    answer (record { action = replaced; task_count = some 1; replaced_count = n })

-- What the handlers around `start_run` make of an exception.
unfoldable pub start_failure : Exn → Option ErrorDict
start_failure (api exc) = some (to_error_dict exc)
start_failure (transport exc) = some (transport_error_dict exc true)
start_failure (other e) = none

abbrev pub not_started : Plan → String → Written → ErrorDict → ErrorDict
not_started plan squid_id w failure = record failure {
  squid_id = some squid_id;
  scraper = some plan.scraper;
  tasks_action = some w.action;
  task_count = some w.task_count;
}

abbrev pub is_ok {ℓ} : {E : Type 0} {A : Type ℓ} → Result E A → Bool
is_ok (ok _) = true
is_ok (err _) = false
