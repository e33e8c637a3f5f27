-- ===== src/Execution/Status/Timely.antt =====
-- How long a call of `wait_for_run` takes at most, and that it reports a run that is done in time.
use lobstr_mcp.Prelude.{
  ℕ, ◌+◌, ◌-◌, ◌*◌, ◌≤◌, ◌<◌, refl, String, true, false, Option, none, some, ◌≡◌, ◌⊎◌, arith,
}
use lobstr_mcp.Prelude.Dict.{Dict}
use lobstr_mcp.Prelude.Int.{ℤ}
use lobstr_mcp.Prelude.Result.{Result, ok, err}
use lobstr_mcp.Json.{Json, get, truthy}
use lobstr_mcp.Errors.{Exn, Reply, answer, failed}
use lobstr_mcp.Client.{Exec, continue, pure}
use lobstr_mcp.Client.Runs.{RunClient}
use lobstr_mcp.Execution.Status.{get_run}
use lobstr_mcp.Execution.Status.Waiting.{
  Timer, wait_poll_interval, lesser, settled, poll, wait, wait_timeout, wait_fuel, wait_for_run,
  ended,
}
use lobstr_mcp.Execution.Status.Bounded.{Steady, Over, wait-Over, Asked, Ends, poll-Ends}
use lobstr_mcp.Execution.Status.Steady.{SteadyClient, get_run-Steady}
use lobstr_mcp.Execution.Status.Waited.{wait_timeout-within}

-- A sleep overruns by `slack` at most, and asking takes `cost` at most.
pub record Prompt {S : Type 0} (timer : Timer S) (ask : Exec S (Reply (Dict Json))) (slack cost : ℕ)
    : Type 0 where
  pub sleep_ends :
      (d : ℕ) (s : S) → timer.monotonic (timer.sleep d s) ≤ timer.monotonic s + d + slack
  pub ask_ends : (s : S) → timer.monotonic (ask s).1 ≤ timer.monotonic s + cost

lesser-le : (a b : ℕ) → lesser a b ≤ b
lesser-le a b = ground arith

module _ {S : Type 0} (timer : Timer S) (ask : Exec S (Reply (Dict Json))) (slack cost : ℕ)
    (prompt : Prompt timer ask slack cost) where
  Before : ℕ → S → Type 0
  Before t s = timer.monotonic s ≤ t

  ask-Before :
      (t : ℕ) (asked : Result Exn (Reply (Dict Json)) × S)
      → timer.monotonic asked.1 ≤ t
      → Asked timer ask (λ out. Before t) (Before t) asked
  unfolding Before
  ask-Before t (ok out, s) h = h
  ask-Before t (err e, s) h = h

  first-Before :
      (fuel t : ℕ) (deadline : ℕ) (asked : Result Exn (Reply (Dict Json)) × S)
      → deadline + slack + cost ≤ t
      → timer.monotonic asked.1 ≤ t
      → Ends timer ask (λ out. Before t) (Before t) (continue (poll timer ask fuel deadline) asked)
  unfolding Before
  first-Before fuel t deadline (err e, s) le h = h
  first-Before fuel t deadline (ok out, s) le h =
      poll-Ends timer ask (λ out. Before t) (Before t) deadline
        (λ again s' kept early.
          let pause = lesser wait_poll_interval (deadline - timer.monotonic s') in
          let later = timer.sleep pause s' in
          ask-Before t (ask later) (
            omega (
              arith,
              le,
              early,
              prompt.sleep_ends pause s',
              prompt.ask_ends later,
              lesser-le wait_poll_interval (deadline - timer.monotonic s'),
            )))
        fuel out s h

  run-Before :
      (t deadline : ℕ) (run : Result Exn (Option (Reply (Dict Json))) × S)
      → Ends timer ask (λ out. Before t) (Before t) run
      → Over timer deadline run
      → timer.monotonic run.1 ≤ t
  unfolding Before
  run-Before t deadline (err e, s) h o = h
  run-Before t deadline (ok none, s) h o = absurd o
  run-Before t deadline (ok (some out), s) h o = h

  wait-Before :
      (steady : Steady timer ask) (fuel timeout : ℕ) (s : S)
      → timeout ≤ fuel * 2000000
      → timer.monotonic (wait timer ask fuel timeout s).1
        ≤ timer.monotonic s + timeout + slack + cost
  unfolding wait
  wait-Before steady fuel timeout s h =
      let deadline = timer.monotonic s + timeout in
      run-Before (deadline + slack + cost) deadline (wait timer ask fuel timeout s)
        (first-Before fuel (deadline + slack + cost) deadline (ask s) (omega arith)
          (omega (arith, prompt.ask_ends s)))
        (wait-Over timer ask steady fuel timeout s h)

continue-state :
    {S : Type 0} (run : Result Exn (Option (Reply (Dict Json))) × S)
    → (continue (λ out. pure (ended out)) run).1 ≡ run.1
continue-state (ok out, s) = refl
continue-state (err e, s) = refl

-- A wait is over, whatever it answers, at most one overrun of a sleep and one `get_run` after its
-- time limit, and so within 50 seconds and these.
pub wait_for_run_ends :
    (c : RunClient) (timer : Timer c.State)
    → SteadyClient c timer
    → (lower : Json → String) (run_id : String) (timeout_seconds : ℤ) (slack cost : ℕ)
    → Prompt timer (get_run c lower run_id false) slack cost
    → (s : c.State)
    → (timer.monotonic (wait_for_run c timer lower run_id timeout_seconds s).1
        ≤ timer.monotonic s + wait_timeout timeout_seconds + slack + cost)
      × (timer.monotonic (wait_for_run c timer lower run_id timeout_seconds s).1
          ≤ timer.monotonic s + 50000000 + slack + cost)
unfolding wait_for_run
wait_for_run_ends c timer steady lower run_id timeout_seconds slack cost prompt s =
    let ask = get_run c lower run_id false in
    let within = wait_timeout-within timeout_seconds in
    let last = continue-state (wait timer ask wait_fuel (wait_timeout timeout_seconds) s) in
    let bound =
      wait-Before timer ask slack cost prompt (get_run-Steady c timer steady lower run_id) wait_fuel
        (wait_timeout timeout_seconds) s within.1 in
    rw last (bound, omega (arith, bound, within.1))

-- An answer of `get_run` that ends the wait.
abbrev pub Settled : {S : Type 0} → Result Exn (Reply (Dict Json)) × S → Type 0
Settled (ok out, s) = settled out ≡ true
Settled (err e, s) = Unit

-- No wait that ends like this says that its time is over.
abbrev pub Reported : {S : Type 0} → Result Exn (Option (Reply (Dict Json))) × S → Type 0
Reported (err e, s) = Unit
Reported (ok none, s) = ⊥
Reported (ok (some (failed e)), s) = Unit
Reported (ok (some (answer out)), s) = truthy (get "is_done" out) ≡ true

module _ {S : Type 0} (timer : Timer S) (ask : Exec S (Reply (Dict Json))) (slack cost : ℕ)
    (prompt : Prompt timer ask slack cost) (done_at : ℕ)
    (done : (s : S) → done_at ≤ timer.monotonic s → Settled (ask s)) where
  InTime : ℕ → Reply (Dict Json) → S → Type 0
  InTime deadline out s = (settled out ≡ true) ⊎ (timer.monotonic s < deadline)
