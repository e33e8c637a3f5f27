-- ===== src/Execution/Status/Waited.antt =====
-- What a call of `wait_for_run` comes to.
use lobstr_mcp.Prelude.{ℕ, ◌≤◌, true, Option, none, some, ◌≡◌, ◌⊎◌, arith}
use lobstr_mcp.Prelude.Dict.{Dict}
use lobstr_mcp.Prelude.Int.{ℤ, pos, negsuc}
use lobstr_mcp.Prelude.Result.{Result, ok, err}
use lobstr_mcp.Json.{Json, bool, str, get, truthy}
use lobstr_mcp.Errors.{Exn, Reply, answer, failed}
use lobstr_mcp.Execution.Status.Waiting.{Timer, wait_timeout}

-- A wait that started at `start`: no error but one that `get_run` raised, and an answer that is an
-- error, is of a run that is done, or says that the time is over when it is.
abbrev pub Waited :
    {S : Type 0} (timer : Timer S) → ℕ → Result Exn (Option (Reply (Dict Json))) × S → Type 0
Waited timer deadline (err e, s) = Unit
Waited timer deadline (ok none, s) = ⊥
Waited timer deadline (ok (some (failed e)), s) = Unit
Waited timer deadline (ok (some (answer out)), s) =
    (truthy (get "is_done" out) ≡ true)
    ⊎ ((get "timed_out" out ≡ bool true)
        × (get "status" out ≡ str "still_running")
        × (deadline ≤ timer.monotonic s))

pub wait_timeout-within :
    (timeout : ℤ) → (1000000 ≤ wait_timeout timeout) × (wait_timeout timeout ≤ 50000000)
unfolding wait_timeout
wait_timeout-within (pos n) = ground arith
wait_timeout-within (negsuc n) = ground arith
