-- ===== src/Tests/Status.antt =====
-- Runs that are watched: a service whose run is done after three seconds.
use lobstr_mcp.Prelude.{ℕ, ◌+◌, ◌≤◌, String, true, false, [], ◌∷◌, leb, arith}
use lobstr_mcp.Prelude.Dict.{lookup}
use lobstr_mcp.Prelude.Int.{pos}
use lobstr_mcp.Prelude.Result.{ok}
use lobstr_mcp.Json.{Json, null, bool, str, list, truthy}
use lobstr_mcp.Client.{pure}
use lobstr_mcp.Client.Runs.{RunClient}
use lobstr_mcp.Execution.Status.{get_run, get_run_impl, done_reason_fields, full_fields}
use lobstr_mcp.Execution.Status.Done.{Finished, Yields, get_run_impl-Finished}
use lobstr_mcp.Execution.Status.Waiting.{Timer, wait_timeout, wait_for_run}
use lobstr_mcp.Execution.Status.Steady.{SteadyClient}
use lobstr_mcp.Execution.Status.Waited.{Waited}
use lobstr_mcp.Execution.Status.Timely.{Prompt, wait_for_run_ends}

abbrev watched : RunClient
watched = record {
  State = ℕ;
  get_run = λ id. pure [];
  get_run_stats = λ id now. (ok (("is_done", bool (leb 3000000 now)) ∷ []), now);
  get_run_credits = λ id. pure [];
  get_squid = λ id. pure [];
  list_tasks = λ id. pure (list []);
  list_runs = λ id limit. pure [];
  abort_run = λ id. pure null;
  get_run_download_url = λ id format. pure null;
  get_results = λ query. pure [];
}

abbrev timer : Timer ℕ
timer = record { monotonic = λ now. now; sleep = λ d now. now + d }

abbrev lower : Json → String
lower (str s) = s
lower _ = ""

abbrev timer-SteadyClient : SteadyClient watched timer
timer-SteadyClient = record {
  sleep_lasts = λ d s. omega arith;
  get_run_stats-Keeps = λ t id s h. h;
  get_run-Keeps = λ t id s h. h;
  get_run_credits-Keeps = λ t id s h. h;
  get_squid-Keeps = λ t id s h. h;
}

timer-Prompt : Prompt timer (get_run watched lower "r" false) 0 0
unfolding get_run get_run_impl done_reason_fields full_fields lookup truthy
timer-Prompt = record { sleep_ends = λ d s. omega arith; ask_ends = λ s. omega arith }

get_run_impl-Finished_example : Yields (Finished lower) (get_run_impl watched lower "r" true)
get_run_impl-Finished_example = get_run_impl-Finished watched lower "r" true

wait_for_run_ends_example :
    ((wait_for_run watched timer lower "r" (pos 10000000) 5).1
      ≤ 5 + wait_timeout (pos 10000000) + 0 + 0)
    × ((wait_for_run watched timer lower "r" (pos 10000000) 5).1 ≤ 5 + 50000000 + 0 + 0)
wait_for_run_ends_example =
    wait_for_run_ends watched timer timer-SteadyClient lower "r" (pos 10000000) 0 0 timer-Prompt 5
