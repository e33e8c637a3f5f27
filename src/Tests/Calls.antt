-- ===== src/Tests/Calls.antt =====
-- Whole calls of run_scraper from their arguments on, against the service in memory.
use mathlib.Core.Bool.{false≢true}
use lobstr_mcp.Prelude.{arith, true, false, [], ◌∷◌, none, some, ◌≡◌, refl, eq_iff}
use lobstr_mcp.Prelude.Dict.{lookup, insert}
use lobstr_mcp.Prelude.Int.{pos}
use lobstr_mcp.Prelude.Result.{ok}
use lobstr_mcp.Safeguards.Idempotency.{new_store, expiry, Digests}
use lobstr_mcp.Errors.{created}
use lobstr_mcp.Execution.Submit.{Started}
use lobstr_mcp.Execution.Request.{
  Request, submitted, needs_confirmation, already_submitted, run_scraper,
}
use lobstr_mcp.Safeguards.Idempotency as Idempotency
use lobstr_mcp.Safeguards.Cost.{estimate_cost}
use lobstr_mcp.Accounts.Attach.{find_account}
use lobstr_mcp.Execution.Inputs.{
  rows_this_run, effective_settings, squid_params_of, at_function_level, at_squid_level,
  task_params_of, at_task_level,
}
use lobstr_mcp.Execution.Submit.Writes.{submit}
use lobstr_mcp.Client.Crawlers.{resolve_crawler_id}
use lobstr_mcp.Schema.Items.{input_items, input_modes, property_from_item}
use lobstr_mcp.Schema.Params.{params_only_specs, placement_from_params}
use lobstr_mcp.Schema.Translate.{translate_input_schema}
use lobstr_mcp.Safeguards.Validation.{validate_input}
use lobstr_mcp.Json.{truthy}
use lobstr_mcp.Prelude.Dict.{update}
use lobstr_mcp.Execution.Request.Opening.{
  Call, Texts, opened, outcome, opening, run_opened, completed, run_scraper_impl,
}
use lobstr_mcp.Execution.Request.Whole.{Opens, CallUnspent, run_scraper_impl-Unspent}
use lobstr_mcp.Execution.Request.Between.{Turn, after_calls}
use lobstr_mcp.Execution.Request.Retry.{run_scraper_impl_retry}
use lobstr_mcp.Tests.Service.{service, Store, crawler}
use lobstr_mcp.Tests.Saving.{row, filled, whole}
use lobstr_mcp.Tests.Accounts.{clock}
use lobstr_mcp.Tests.Requests.{Untouched, untouched_reads}

abbrev pub texts : Texts
texts = record {
  show = λ n. "2";
  short = λ t. t;
  digests = record { dumps = λ d. "d"; sha256_hex = λ t. t };
}

abbrev call : Call
call = record {
  scraper = some "maps";
  input = row "a";
  confirm = true;
  idempotency_key = some "k";
  squid_id = none;
  account_id = none;
  replace_tasks = false;
  run_confirm_threshold = pos 100;
}

abbrev untouched_opens : Opens service Untouched
untouched_opens = record {
  reads = untouched_reads;
  list_crawlers-Keeps = λ s p. p;
  get_crawler-Keeps = λ id s p. p;
  get_crawler_params-Keeps = λ id s p. p;
  get_squid-Keeps = λ id s p. p;
}

-- The call without its confirmation, above the threshold.
abbrev unsure : Call
unsure = record call { confirm = false; run_confirm_threshold = pos 0 }

abbrev unsure_request : Request
unsure_request = record {
  key = "me:k";
  key_ttl = none;
  scraper = "maps";
  crawler = crawler;
  levels = ("url", some "task") ∷ [];
  wire_names = [];
  input = row "a";
  squid_id = "";
  existing_squid = none;
  account_id = none;
  replace_tasks = false;
  confirm = false;
  run_confirm_threshold = pos 0;
}

unsure_call_test : opening texts service unsure filled ≡ (ok (opened unsure_request), filled)
unfolding opening lookup insert resolve_crawler_id input_items validate_input translate_input_schema
    input_modes truthy params_only_specs property_from_item placement_from_params update
unsure_call_test = refl

unsure_request_test :
    (run_scraper whole clock service unsure_request new_store 5 9 filled).0
    ≡ (ok (needs_confirmation none (some 1)), filled)
unfolding run_scraper lookup insert update Idempotency.get find_account estimate_cost
    effective_settings squid_params_of at_function_level at_squid_level task_params_of at_task_level
    rows_this_run
unsure_request_test = refl

unsure_test :
    (run_scraper_impl texts service whole clock unsure new_store 5 9 filled).0
    ≡ (ok (outcome (needs_confirmation none (some 1))), filled)
unfolding run_scraper_impl run_opened completed
unsure_test = rw (unsure_call_test, unsure_request_test) refl

-- The call asks for confirmation, and the store of the service is as it was.
run_scraper_impl-Unspent_example :
    CallUnspent texts service Untouched untouched_opens
      (run_scraper_impl texts service whole clock unsure new_store 5 9 filled).0
run_scraper_impl-Unspent_example =
    run_scraper_impl-Unspent texts whole clock service Untouched untouched_opens unsure new_store 5
      9 filled refl

abbrev opened_request : Request
opened_request = record {
  key = "me:k";
  key_ttl = none;
  scraper = "maps";
  crawler = crawler;
  levels = ("url", some "task") ∷ [];
  wire_names = [];
  input = row "a";
  squid_id = "";
  existing_squid = none;
  account_id = none;
  replace_tasks = false;
  confirm = true;
  run_confirm_threshold = pos 100;
}

opening_test : opening texts service call filled ≡ (ok (opened opened_request), filled)
unfolding opening lookup insert resolve_crawler_id input_items validate_input translate_input_schema
    input_modes truthy params_only_specs property_from_item placement_from_params update
opening_test = refl

abbrev saved : Store
saved = record { rows = ("qqpsquid", row "a") ∷ filled.rows; runs = "qqpsquid" ∷ filled.runs }

abbrev run_started : Started
run_started = record {
  run_id = "run";
  squid_id = "qqpsquid";
  written = record { action = created; task_count = some 1; replaced_count = 0 };
}

run_test :
    (run_scraper whole clock service opened_request new_store 5 9 filled).0
    ≡ (ok (submitted run_started), saved)
unfolding run_scraper lookup insert update Idempotency.get find_account estimate_cost
    effective_settings squid_params_of at_function_level at_squid_level submit task_params_of
    at_task_level
run_test = refl

whole_test :
    (run_scraper_impl texts service whole clock call new_store 5 9 filled).0
    ≡ (ok (outcome (submitted run_started)), saved)
unfolding run_scraper_impl run_opened completed
whole_test = rw (opening_test, run_test) refl

opening_again : opening texts service call saved ≡ (ok (opened opened_request), saved)
unfolding opening lookup insert resolve_crawler_id input_items validate_input translate_input_schema
    input_modes truthy params_only_specs property_from_item placement_from_params update
opening_again = refl

-- Another call, under another key, half a minute later.
abbrev other_turn : Turn service
other_turn = record {
  call = record call { idempotency_key = some "j"; input = row "z" };
  now = 30000000;
  later = 30000001;
  state = saved;
}

-- The same call a minute later.
run_scraper_impl_retry_example :
    (run_scraper_impl texts service whole clock call
      (after_calls texts whole clock service
        (other_turn ∷ [])
        (run_scraper_impl texts service whole clock call new_store 5 9 filled).1)
      60000000
      60000001
      saved).0
    ≡ (ok (outcome (already_submitted "run")), saved)
unfolding expiry
run_scraper_impl_retry_example =
    run_scraper_impl_retry texts whole clock service call call opened_request opened_request
      new_store run_started 5 9 60000000 60000001 (other_turn ∷ []) filled filled saved saved saved
      opening_test whole_test opening_again refl (λ e. absurd (false≢true ((eq_iff "run" "").1 e)))
      refl (omega arith, tt)
