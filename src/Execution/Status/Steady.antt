-- ===== src/Execution/Status/Steady.antt =====
-- `get_run` never turns the clock back.
use lobstr_mcp.Prelude.{
  ℕ, ◌+◌, ◌≤◌, String, Bool, true, false, Option, none, some, arith, or_else, ◌==◌,
}
use lobstr_mcp.Prelude.Dict.{Dict}
use lobstr_mcp.Prelude.Result.{Result, ok, err}
use lobstr_mcp.Json.{Json, get_str}
use lobstr_mcp.Errors.{Exn, api, transport, other, nonempty}
use lobstr_mcp.Client.{Exec, attempt, ◌>>=◌}
use lobstr_mcp.Client.Rows.{Keeps, bind-Keeps, attempt-Keeps, if-Keeps}
use lobstr_mcp.Client.Runs.{RunClient}
use lobstr_mcp.Execution.Status.{
  get_run, get_run_impl, detail_of, limited_of, limited_accounts, account_limit_out,
  done_reason_fields, credits_of, full_fields,
}
use lobstr_mcp.Execution.Status.Waiting.{Timer}
use lobstr_mcp.Execution.Status.Bounded.{Steady}

-- `sleep` lasts at least as long as it is told, and no request turns the clock back.
pub record SteadyClient (c : RunClient) (timer : Timer c.State) : Type 0 where
  pub sleep_lasts :
      (d : ℕ) (s : c.State) → timer.monotonic s + d ≤ timer.monotonic (timer.sleep d s)
  pub get_run_stats-Keeps :
      (t : ℕ) (id : String) → Keeps (λ s. t ≤ timer.monotonic s) (c.get_run_stats id)
  pub get_run-Keeps : (t : ℕ) (id : String) → Keeps (λ s. t ≤ timer.monotonic s) (c.get_run id)
  pub get_run_credits-Keeps :
      (t : ℕ) (id : String) → Keeps (λ s. t ≤ timer.monotonic s) (c.get_run_credits id)
  pub get_squid-Keeps : (t : ℕ) (id : String) → Keeps (λ s. t ≤ timer.monotonic s) (c.get_squid id)

module _ (c : RunClient) (timer : Timer c.State) (steady : SteadyClient c timer) (t : ℕ) where
  abbrev Kept {ℓ} : {A : Type ℓ} → Exec c.State A → Type 0
  Kept m = Keeps (λ s. t ≤ timer.monotonic s) m

  detail_of-Kept : (r : Result Exn (Dict Json)) → Kept (detail_of c r)
  unfolding detail_of
  detail_of-Kept (ok detail) s h = h
  detail_of-Kept (err (api e)) s h = h
  detail_of-Kept (err (transport e)) s h = h
  detail_of-Kept (err (other e)) s h = h

  limited_of-Kept : (r : Result Exn (Dict Json)) → Kept (limited_of c r)
  unfolding limited_of
  limited_of-Kept (ok squid) s h = h
  limited_of-Kept (err (api e)) s h = h
  limited_of-Kept (err (transport e)) s h = h
  limited_of-Kept (err (other e)) s h = h

  credits_of-Kept : (r : Result Exn (Dict Json)) → Kept (credits_of c r)
  unfolding credits_of
  credits_of-Kept (ok credits) s h = h
  credits_of-Kept (err (api e)) s h = h
  credits_of-Kept (err (transport e)) s h = h
  credits_of-Kept (err (other e)) s h = h

  limited_accounts-Kept : (squid : Option String) → Kept (limited_accounts c squid)
  unfolding limited_accounts
  limited_accounts-Kept none s h = h
  limited_accounts-Kept (some id) s h =
      bind-Keeps _ (attempt (c.get_squid id)) (limited_of c)
        (attempt-Keeps _ (c.get_squid id) (steady.get_squid-Keeps t id)) limited_of-Kept s h

  done_reason_fields-Kept : (detail : Dict Json) → Kept (done_reason_fields c detail)
  unfolding done_reason_fields account_limit_out
  done_reason_fields-Kept detail =
      if-Keeps _ (or_else (get_str "done_reason" detail) "" == "limit_exceeded") _ _
        (bind-Keeps _ (account_limit_out c (get_str "squid" detail)) _
          (bind-Keeps _ (limited_accounts c (nonempty (get_str "squid" detail))) _
            (limited_accounts-Kept (nonempty (get_str "squid" detail))) (λ limited s h. h))
          (λ limit s h. h))
        (λ s h. h)

  full_fields-Kept :
      (id : String) (stats : Dict Json) (full : Bool) → Kept (full_fields c id stats full)
  unfolding full_fields
  full_fields-Kept id stats false s h = h
  full_fields-Kept id stats true s h =
      bind-Keeps _ (attempt (c.get_run_credits id) >>= credits_of c) _
        (bind-Keeps _ (attempt (c.get_run_credits id)) (credits_of c)
          (attempt-Keeps _ (c.get_run_credits id) (steady.get_run_credits-Keeps t id))
          credits_of-Kept)
        (λ breakdown s h. h) s h

  get_run_impl-Kept :
      (lower : Json → String) (id : String) (full : Bool) → Kept (get_run_impl c lower id full)
  unfolding get_run_impl
  get_run_impl-Kept lower id full =
      bind-Keeps _ (c.get_run_stats id) _ (steady.get_run_stats-Keeps t id) λ stats.
        bind-Keeps _ (attempt (c.get_run id) >>= detail_of c) _
          (bind-Keeps _ (attempt (c.get_run id)) (detail_of c)
            (attempt-Keeps _ (c.get_run id) (steady.get_run-Keeps t id)) detail_of-Kept)
          λ detail.
            bind-Keeps _ (done_reason_fields c detail) _ (done_reason_fields-Kept detail) λ reason.
              bind-Keeps _ (full_fields c id stats full) _ (full_fields-Kept id stats full)
                λ extra s h. h

module _ (c : RunClient) (timer : Timer c.State) (steady : SteadyClient c timer) where
  pub get_run-Steady :
      (lower : Json → String) (id : String) → Steady timer (get_run c lower id false)
  unfolding get_run
  get_run-Steady lower id = record {
    sleep_lasts = steady.sleep_lasts;
    ask_forward =
        λ s. get_run_impl-Kept c timer steady (timer.monotonic s) lower id false s (omega arith);
  }
