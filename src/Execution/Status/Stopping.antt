-- ===== src/Execution/Status/Stopping.antt =====
-- `abort_run_impl`, `list_runs_impl` and `get_results_url_impl`. The prose of messages is left out.
use lobstr_mcp.Prelude.{
  ℕ, String, Bool, true, false, ◌||◌, List, [], ◌∷◌, Option, none, some, if◌then◌else◌, ◌==◌,
  contains, or_else, map,
}
use lobstr_mcp.Prelude.Dict.{Dict}
use lobstr_mcp.Json.{Json, null, bool, int, str, list, dict, as_dict, get, truthy}
use lobstr_mcp.Json
use lobstr_mcp.Errors.{error_with, Reply, answer, failed}
use lobstr_mcp.Client.{Exec, pure, ◌>>=◌}
use lobstr_mcp.Client.Runs.{RunClient}
use lobstr_mcp.Prelude.{length}

-- `_TERMINAL_RUN_STATES`
abbrev pub terminal_run_states : List String
terminal_run_states =
    "done" ∷ "success" ∷ "succeeded" ∷ "failed" ∷ "aborted" ∷ "cancelled" ∷ "canceled" ∷ "error"
    ∷ []

-- What the tool says of an abort.
pub record Abort : Type 0 where
  pub run_id : String
  pub status : String
  pub aborted : Bool

-- `a or b`, of texts.
abbrev pub or_text : String → String → String
or_text a b = if a == "" then b else a

-- The lower-case text of `value or ""`.
abbrev pub lowered : (Json → String) → Json → String
lowered lower v = if truthy v then lower v else ""

unfoldable pub abort_outcome : (Json → String) → String → Dict Json → Abort
abort_outcome lower run_id run =
    let status = lowered lower (Json.get "status" run) in
    let done_reason = lowered lower (Json.get "done_reason" run) in
    if (done_reason == "aborted") || (status == "uploading")
    then record { run_id = run_id; status = "aborting"; aborted = true }
    else if truthy (Json.get "is_done" run) || contains status terminal_run_states
    then record { run_id = run_id; status = or_text status "done"; aborted = false }
    else record { run_id = run_id; status = or_text status "aborting"; aborted = true }

abbrev pub dict_or_empty : Json → Dict Json
dict_or_empty v = or_else (as_dict v) []

unfoldable pub run_row : Dict Json → Dict Json
run_row r =
    ("run_id", Json.get "id" r)
    ∷ ("status", Json.get "status" r)
    ∷ ("total_results", Json.get "total_results" r)
    ∷ ("credits_consumed", Json.get "credit_used" r)
    ∷ ("started_at", Json.get "started_at" r)
    ∷ ("ended_at", Json.get "ended_at" r)
    ∷ []

-- `_DOWNLOAD_FORMATS`
abbrev pub download_formats : List String
download_formats = "csv" ∷ "xlsx" ∷ "json" ∷ "jsonl" ∷ []

-- A download that is ready, or still being built.
pub data Download : Type 0 where
  ready : String → Json → Download
  processing : String → Json → Download

unfoldable pub download_of : String → Json → Option (Dict Json) → Download
download_of fmt result none = ready fmt result
download_of fmt result (some d) =
    if or_else (Json.get_str "status" d) "" == "processing"
    then processing fmt (Json.get "progress" d)
    else ready fmt result

module _ (c : RunClient) where
  unfoldable pub abort_run_impl : (Json → String) → String → Exec c.State Abort
  unfolding abort_outcome
  abort_run_impl lower run_id = do
    run ← c.abort_run run_id
    pure (abort_outcome lower run_id (dict_or_empty run))

  -- The count and the rows.
  unfoldable pub list_runs_impl : String → ℕ → Exec c.State (ℕ × List (Dict Json))
  unfolding run_row
  list_runs_impl squid_id limit = do
    runs ← c.list_runs squid_id limit
    pure (length runs, map run_row runs)

  -- `lower t` is `t.lower()`; no format counts as "csv".
  unfoldable pub get_results_url_impl :
      (String → String) → String → Option String → Exec c.State (Reply Download)
  unfolding download_of
  get_results_url_impl lower run_id format =
      let fmt = lower (or_text (or_else format "") "csv") in
      if contains fmt download_formats
      then (do
        result ← c.get_run_download_url run_id fmt
        pure (answer (download_of fmt result (as_dict result))))
      else pure (failed (error_with "invalid_request"))
