-- ===== src/Execution/Status/Waiting.antt =====
-- `wait_for_run_impl`: `get_run` is asked again until the run is done or the time is over. Times are
-- microseconds.
use lobstr_mcp.Prelude.{
  ℕ, zero, suc, ◌+◌, ◌-◌, ◌*◌, String, Bool, true, false, Option, none, some, if◌then◌else◌, leb,
  ◌||◌,
}
use lobstr_mcp.Prelude.Dict.{Dict, insert}
use lobstr_mcp.Prelude.Int.{ℤ, pos, negsuc}
use lobstr_mcp.Json.{Json, bool, str, get, truthy}
use lobstr_mcp.Errors.{Reply, answer, failed}
use lobstr_mcp.Client.{Exec, pure, continue, ◌>>=◌}
use lobstr_mcp.Client.Runs.{RunClient}
use lobstr_mcp.Execution.Status.{get_run}

-- `time.monotonic` and `time.sleep`
pub record Timer (S : Type 0) : Type 0 where
  pub monotonic : S → ℕ
  pub sleep : ℕ → S → S

-- `_WAIT_MAX_TIMEOUT_SECONDS` and `_WAIT_POLL_INTERVAL_SECONDS`
abbrev pub wait_max_timeout : ℕ
wait_max_timeout = 50 * 1000000

abbrev pub wait_poll_interval : ℕ
wait_poll_interval = 2 * 1000000

abbrev pub lesser : ℕ → ℕ → ℕ
lesser a b = if leb a b then a else b

-- `max(1.0, min(timeout_seconds, _WAIT_MAX_TIMEOUT_SECONDS))`
unfoldable pub wait_timeout : ℤ → ℕ
wait_timeout (negsuc n) = 1000000
wait_timeout (pos n) = if leb n 1000000 then 1000000 else lesser n wait_max_timeout

-- Whether the loop ends on an answer: an error, or a run that is done.
unfoldable pub settled : Reply (Dict Json) → Bool
settled (failed e) = true
settled (answer out) = truthy (get "is_done" out)

unfoldable pub give_up : Dict Json → Dict Json
give_up out = insert "timed_out" (bool true) (insert "status" (str "still_running") out)

unfoldable pub concluded : Reply (Dict Json) → Reply (Dict Json)
unfolding give_up
concluded (failed e) = failed e
concluded (answer out) = if truthy (get "is_done" out) then answer out else answer (give_up out)

module _ {S : Type 0} (timer : Timer S) (ask : Exec S (Reply (Dict Json))) where
  -- The loop, on fuel, with what `ask` last answered; without fuel there is no answer.
  unfoldable pub poll : ℕ → ℕ → Reply (Dict Json) → Exec S (Option (Reply (Dict Json)))
  unfolding settled
  poll zero deadline out s =
      if settled out || leb deadline (timer.monotonic s) then pure (some out) s else pure none s
  poll (suc fuel) deadline out s =
      let later = timer.sleep (lesser wait_poll_interval (deadline - timer.monotonic s)) s in
      let again = continue (poll fuel deadline) (ask later) in
      if settled out || leb deadline (timer.monotonic s) then pure (some out) s else again

  unfoldable pub wait : ℕ → ℕ → Exec S (Option (Reply (Dict Json)))
  unfolding poll
  wait fuel timeout s = continue (poll fuel (timer.monotonic s + timeout)) (ask s)

-- The sleeps that fit into the longest time.
abbrev pub wait_fuel : ℕ
wait_fuel = 25

abbrev pub ended : Option (Reply (Dict Json)) → Option (Reply (Dict Json))
ended none = none
ended (some out) = some (concluded out)

module _ (c : RunClient) (timer : Timer c.State) where
  unfoldable pub wait_for_run :
      (Json → String) → String → ℤ → Exec c.State (Option (Reply (Dict Json)))
  unfolding wait concluded
  wait_for_run lower run_id timeout_seconds = do
    out ← wait timer (get_run c lower run_id false) wait_fuel (wait_timeout timeout_seconds)
    pure (ended out)
