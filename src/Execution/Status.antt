-- ===== src/Execution/Status.antt =====
-- execution.py: `get_run_impl`, what is said of a run. The prose of notes is left out.
pub mod Done
pub mod Waiting
pub mod Bounded
pub mod Steady
pub mod Waited
pub mod Timely
pub mod Stopping
use lobstr_mcp.Prelude.{
  ℕ, String, Bool, true, false, not, ◌||◌, ◌&&◌, List, [], ◌∷◌, ◌++◌, Option, none, some,
  if◌then◌else◌, ◌==◌, contains, or_else, is_some,
}
use lobstr_mcp.Prelude.Dict.{Dict, lookup, has}
use lobstr_mcp.Prelude.Result.{Result, ok, err}
use lobstr_mcp.Json.{Json, null, bool, str, arr, list, dict, as_dict, get, get_str, truthy}
use lobstr_mcp.Errors.{Exn, Reply, api, transport, other, nonempty}
use lobstr_mcp.Client.{Exec, pure, raise, attempt, ◌>>=◌}
use lobstr_mcp.Client.Runs.{RunClient, replying}

-- Python's `a or b`, and `d.get(k, v)`.
abbrev pub either : Json → Json → Json
either a b = if truthy a then a else b

abbrev pub get_default : String → Dict Json → Json → Json
get_default k d v = or_else (lookup k d) v

-- The keys of `_verification_out`.
unfoldable pub trimmed : Dict Json → Dict Json
trimmed v =
    ("status", get "status" v)
    ∷ ("progress", get "progress" v)
    ∷ ("verified_emails", get "verified_emails" v)
    ∷ ("total_emails", get "total_emails" v)
    ∷ ("is_done", bool (truthy (get "is_done" v)))
    ∷ []

unfoldable pub trimmed_of : Option (Dict Json) → Option (Dict Json)
unfolding trimmed
trimmed_of none = none
trimmed_of (some v) = some (trimmed v)

unfoldable pub verification_out : Dict Json → Option (Dict Json)
unfolding trimmed_of
verification_out detail = trimmed_of (as_dict (get "email_verification" detail))

-- `_UNFINISHED_RUN_STATES`
abbrev pub unfinished_run_states : List String
unfinished_run_states = "pending" ∷ "running" ∷ "uploading" ∷ []

-- A verification that is there and not done.
unfoldable pub verifying : Option (Dict Json) → Bool
verifying none = false
verifying (some v) = not (truthy (get "is_done" v))

abbrev pub is_false : Json → Bool
is_false (bool false) = true
is_false _ = false

abbrev pub of_dict : Option (Dict Json) → Json
of_dict none = null
of_dict (some d) = dict d

unfoldable pub entry_if : Bool → String → Json → Dict Json
entry_if b k v = if b then (k, v) ∷ [] else []

-- `lower v` is `str(v).lower()`.
module _ (lower : Json → String) where
  unfoldable pub fully_done : Json → Option (Dict Json) → Json → Json → Bool
  unfolding verifying
  fully_done stats_is_done verification export_done run_status =
      if not (truthy stats_is_done) || contains (lower run_status) unfinished_run_states
      then false
      else if verifying verification
      then false
      else if is_false export_done
      then false
      else true

  unfoldable pub run_status_of : Dict Json → Dict Json → Json
  run_status_of detail stats = either (get "status" detail) (
      either (get "status" stats)
        (if truthy (get "is_done" stats) then str "done" else str "running"))

  unfoldable pub status_of : Json → Option (Dict Json) → Json
  unfolding verifying
  status_of run_status verification =
      if verifying verification
        && contains (lower run_status) ("done" ∷ "success" ∷ "succeeded" ∷ [])
      then str "verifying_emails"
      else run_status

  unfoldable pub run_is_done : Dict Json → Dict Json → Bool
  unfolding fully_done run_status_of verification_out
  run_is_done detail stats =
      fully_done (get "is_done" stats) (verification_out detail) (get "export_done" detail)
        (run_status_of detail stats)

  unfoldable pub run_fields : String → Dict Json → Dict Json → Dict Json
  unfolding run_is_done run_status_of status_of verification_out
  run_fields run_id detail stats =
      ("run_id", get_default "id" stats (str run_id))
      ∷ ("status", status_of (run_status_of detail stats) (verification_out detail))
      ∷ ("run_status", run_status_of detail stats)
      ∷ ("is_done", bool (run_is_done detail stats))
      ∷ ("progress", get "percent_done" stats)
      ∷ ("tasks_total", get "total_tasks" stats)
      ∷ ("tasks_done", get "total_tasks_done" stats)
      ∷ ("total_results", get_default "total_results" detail (get "total_results" stats))
      ∷ ("credits_consumed", get "credit_used" detail)
      ∷ ("done_reason", either (get "done_reason_desc" detail) (get "done_reason" detail))
      ∷ ("started_at", get "started_at" stats)
      ∷ ("ended_at", get "ended_at" stats)
      ∷ ("duration", get "duration" stats)
      ∷ []

  -- The keys that come last, in front of `extra`.
  unfoldable pub later_fields : Dict Json → Dict Json → Dict Json → Dict Json
  unfolding run_status_of verification_out entry_if
  later_fields detail stats extra =
      entry_if
        ((lower (run_status_of detail stats) == "paused") && truthy (get "next_launch_at" detail))
        "next_launch_at" (get "next_launch_at" detail)
      ++ (entry_if (has "total_unique_results" detail) "total_unique_results"
            (get "total_unique_results" detail)
          ++ (entry_if (has "email_verification" detail) "email_verification"
                (of_dict (verification_out detail))
              ++ (entry_if (has "export_done" detail) "export_done" (get "export_done" detail)
                  ++ extra)))

module _ (c : RunClient) where
  -- `detail` is empty if the request is refused.
  unfoldable pub detail_of : Result Exn (Dict Json) → Exec c.State (Dict Json)
  detail_of (ok detail) = pure detail
  detail_of (err (api e)) = pure []
  detail_of (err (transport e)) = raise (transport e)
  detail_of (err (other e)) = raise (other e)

  unfoldable pub limited_of : Result Exn (Dict Json) → Exec c.State Json
  limited_of (ok squid) = pure (either (get "last_run_limited_accounts" squid) (list []))
  limited_of (err (api e)) = pure (list [])
  limited_of (err (transport e)) = pure (list [])
  limited_of (err (other e)) = raise (other e)

  unfoldable pub limited_accounts : Option String → Exec c.State Json
  unfolding limited_of
  limited_accounts none = pure (list [])
  limited_accounts (some squid_id) = attempt (c.get_squid squid_id) >>= limited_of

  -- `_account_limit_out`, of a squid id that is a text.
  unfoldable pub account_limit_out : Option String → Exec c.State (Dict Json)
  unfolding limited_accounts
  account_limit_out squid_id = do
    limited ← limited_accounts (nonempty squid_id)
    pure (("limited_accounts", limited) ∷ [])

  unfoldable pub done_reason_fields : Dict Json → Exec c.State (Dict Json)
  unfolding account_limit_out entry_if
  done_reason_fields detail =
      let code = get "done_reason" detail in
      let fields = entry_if (truthy code) "done_reason_code" code in
      if or_else (get_str "done_reason" detail) "" == "limit_exceeded"
      then (do
        limit ← account_limit_out (get_str "squid" detail)
        pure (fields ++ (("account_limit", dict limit) ∷ [])))
      else pure fields

  unfoldable pub credits_of : Result Exn (Dict Json) → Exec c.State (Dict Json)
  credits_of (ok credits) = pure (
      (
        "credits_breakdown",
        dict (
            ("total_credits", get "total_credits" credits)
            ∷ ("breakdown", get "breakdown" credits)
            ∷ []),
      )
      ∷ [])
  credits_of (err (api e)) = pure []
  credits_of (err (transport e)) = raise (transport e)
  credits_of (err (other e)) = raise (other e)

  unfoldable pub full_fields : String → Dict Json → Bool → Exec c.State (Dict Json)
  unfolding credits_of
  full_fields run_id stats false = pure []
  full_fields run_id stats true = do
    breakdown ← attempt (c.get_run_credits run_id) >>= credits_of
    pure (("stats", dict stats) ∷ breakdown)

  unfoldable pub get_run_impl : (Json → String) → String → Bool → Exec c.State (Dict Json)
  unfolding detail_of done_reason_fields full_fields run_fields later_fields
  get_run_impl lower run_id full = do
    stats ← c.get_run_stats run_id
    detail ← attempt (c.get_run run_id) >>= detail_of
    reason ← done_reason_fields detail
    extra ← full_fields run_id stats full
    pure (run_fields lower run_id detail stats ++ (reason ++ later_fields lower detail stats extra))

  -- As the tool answers.
  unfoldable pub get_run :
      (Json → String) → String → Bool → c.State → Result Exn (Reply (Dict Json)) × c.State
  unfolding get_run_impl
  get_run lower run_id full = replying false (get_run_impl lower run_id full)
