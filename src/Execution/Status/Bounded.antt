-- ===== src/Execution/Status/Bounded.antt =====
-- How long `wait_for_run` waits, and what it then answers.
use lobstr_mcp.Prelude.{
  ℕ, zero, suc, ◌+◌, ◌-◌, ◌*◌, ◌≤◌, ◌<◌, true, ◌||◌, Option, none, some, leb, ◌≡◌, ◌⊎◌, inl, inr,
  arith, Bool-cases,
}
use lobstr_mcp.Prelude.Dict.{Dict}
use lobstr_mcp.Prelude.Result.{Result, ok, err}
use lobstr_mcp.Json.{Json}
use lobstr_mcp.Errors.{Exn, Reply}
use lobstr_mcp.Client.{Exec, continue}
use lobstr_mcp.Execution.Status.Waiting.{Timer, wait_poll_interval, lesser, settled, poll, wait}

-- `sleep` lasts at least as long as it is told, and code that asks does not turn the clock back.
pub record Steady {S : Type 0} (timer : Timer S) (ask : Exec S (Reply (Dict Json))) : Type 0 where
  pub sleep_lasts : (d : ℕ) (s : S) → timer.monotonic s + d ≤ timer.monotonic (timer.sleep d s)
  pub ask_forward : (s : S) → timer.monotonic s ≤ timer.monotonic (ask s).1

-- What the loop ends with: what `ask` raised, or an answer that is settled or comes at the deadline.
abbrev pub Over : {S : Type 0} → Timer S → ℕ → Result Exn (Option (Reply (Dict Json))) × S → Type 0
Over timer deadline (err e, s) = Unit
Over timer deadline (ok none, s) = ⊥
Over timer deadline (ok (some out), s) = (settled out ≡ true) ⊎ (deadline ≤ timer.monotonic s)

module _ {S : Type 0} (timer : Timer S) (ask : Exec S (Reply (Dict Json)))
    (steady : Steady timer ask) where
  continue-Over :
      (fuel deadline : ℕ) (asked : Result Exn (Reply (Dict Json)) × S)
      → ((out : Reply (Dict Json)) → Over timer deadline (poll timer ask fuel deadline out asked.1))
      → Over timer deadline (continue (poll timer ask fuel deadline) asked)
  continue-Over fuel deadline (ok out, s) h = h out
  continue-Over fuel deadline (err e, s) h = tt

  -- Fuel for the sleeps that are left is enough.
  pub poll-Over :
      (fuel deadline : ℕ) (out : Reply (Dict Json)) (s : S)
      → deadline ≤ timer.monotonic s + fuel * 2000000
      → Over timer deadline (poll timer ask fuel deadline out s)
  unfolding poll
  poll-Over zero deadline out s h = elim (Bool-cases (settled out)) [
    | inl done ↦ rw done (inl done)
    | inr unsettled ↦ elim (Bool-cases (leb deadline (timer.monotonic s))) [
      | inl over ↦ rw (unsettled, over) (inr (ground arith))
      | inr early ↦ absurd (ground arith)
    ]
  ]
  poll-Over (suc fuel) deadline out s h = elim (Bool-cases (settled out)) [
    | inl done ↦ rw done (inl done)
    | inr unsettled ↦ elim (Bool-cases (leb deadline (timer.monotonic s))) [
      | inl over ↦ rw (unsettled, over) (inr (ground arith))
      | inr early ↦
          let pause = lesser wait_poll_interval (deadline - timer.monotonic s) in
          let later = timer.sleep pause s in
          let enough : deadline ≤ timer.monotonic (ask later).1 + fuel * 2000000 =
            ground (arith, steady.sleep_lasts pause s, steady.ask_forward later) in
          rw (unsettled, early)
            (continue-Over fuel deadline (ask later)
              (λ again. poll-Over fuel deadline again (ask later).1 enough))
    ]
  ]

  pub wait-Over :
      (fuel timeout : ℕ) (s : S)
      → timeout ≤ fuel * 2000000
      → Over timer (timer.monotonic s + timeout) (wait timer ask fuel timeout s)
  unfolding wait
  wait-Over fuel timeout s h =
      let deadline = timer.monotonic s + timeout in
      continue-Over fuel deadline (ask s)
        (λ out. poll-Over fuel deadline out (ask s).1 (omega (arith, h, steady.ask_forward s)))

-- What holds where the loop ends, given what each round keeps: P of the answer, E of what is raised.
module _ {S : Type 0} (timer : Timer S) (ask : Exec S (Reply (Dict Json)))
    (P : Reply (Dict Json) → S → Type 0) (E : S → Type 0) where
  abbrev pub Asked : Result Exn (Reply (Dict Json)) × S → Type 0
  Asked (ok out, s) = P out s
  Asked (err e, s) = E s

  abbrev pub Ends : Result Exn (Option (Reply (Dict Json))) × S → Type 0
  Ends (ok none, s) = Unit
  Ends (ok (some out), s) = P out s
  Ends (err e, s) = E s

  module _ (deadline : ℕ)
      (round : (out : Reply (Dict Json)) (s : S)
        → P out s
        → timer.monotonic s < deadline
        → Asked
            (ask (timer.sleep (lesser wait_poll_interval (deadline - timer.monotonic s)) s))) where
    continue-Ends :
        (fuel : ℕ) (asked : Result Exn (Reply (Dict Json)) × S)
        → Asked asked
        → ((out : Reply (Dict Json)) (s : S) → P out s → Ends (poll timer ask fuel deadline out s))
        → Ends (continue (poll timer ask fuel deadline) asked)
    continue-Ends fuel (ok out, s) h rest = rest out s h
    continue-Ends fuel (err e, s) h rest = h

    pub poll-Ends :
        (fuel : ℕ) (out : Reply (Dict Json)) (s : S)
        → P out s
        → Ends (poll timer ask fuel deadline out s)
    unfolding poll
    poll-Ends zero out s h = elim (Bool-cases (settled out || leb deadline (timer.monotonic s))) [
      | inl over ↦ rw over h
      | inr more ↦ rw more tt
    ]
    poll-Ends (suc fuel) out s h =
        elim (Bool-cases (settled out || leb deadline (timer.monotonic s))) [
          | inl over ↦ rw over h
          | inr more ↦ rw more (
              continue-Ends fuel _ (round out s h (ground arith))
                (λ again later kept. poll-Ends fuel again later kept))
        ]
