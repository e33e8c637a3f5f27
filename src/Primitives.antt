-- ===== src/Primitives.antt =====
-- tools/primitives.py: `create_squid`, `add_tasks` and `update_scraper`, each one step of a run. The
-- prose of messages is left out.
pub mod Creating
pub mod Updating
use lobstr_mcp.Prelude.{
  ℕ, String, Bool, true, false, not, List, [], ◌∷◌, Option, none, some, if◌then◌else◌, ◌==◌,
  is_empty, length, or_else,
}
use lobstr_mcp.Prelude.Dict.{Dict, lookup, has, insert, erase, update}
use lobstr_mcp.Prelude.Result.{Result, ok, err}
use lobstr_mcp.Json.{Json, null, dict, str, as_dict, as_list, get, get_dict, get_str, is_none}
use lobstr_mcp.Errors.{Exn, other, Reply, answer, failed, error_with, nonempty}
use lobstr_mcp.Client.{Client, Exec, pure, raise, continue, attempt, ◌>>=◌}
use lobstr_mcp.Schema.Items.{input_items}
use lobstr_mcp.Schema.Translate.{Translated}
use lobstr_mcp.Execution.Inputs.{routed}
use lobstr_mcp.Execution.Request.Opening.{Texts, translated_of, params_of}

abbrev pub is_functions : String → Bool
is_functions k = k == "functions"

-- The toggles under "functions", when they are a dict.
unfoldable pub with_functions : Option (Dict Json) → Dict String → Dict Json → Dict Json
with_functions none wire_names out = out
with_functions (some functions) wire_names out =
    insert "functions" (dict (routed (λ k. true) wire_names functions [])) out

-- `_apply_wire_names`
unfoldable pub apply_wire_names : Dict Json → Dict String → Dict Json
unfolding with_functions
apply_wire_names values wire_names =
    with_functions (get_dict "functions" values) wire_names
      (routed (λ k. not (is_functions k)) wire_names values [])

-- `concurrency`, which a config may carry.
unfoldable pub effective_concurrency : Option Json → Dict Json → Json
effective_concurrency none config = get "concurrency" config
effective_concurrency (some n) config = n

abbrev pub nonempty_dict : Dict Json → Bool
nonempty_dict d = not (is_empty d)

abbrev pub text_or : Option String → String → String
text_or none d = d
text_or (some t) d = t

module _ (texts : Texts) (c : Client) where
  -- `_translated_schema`
  unfoldable pub translated_schema : String → Exec c.State Translated
  translated_schema crawler_id = do
    crawler ← c.get_crawler crawler_id
    params ← attempt (c.get_crawler_params crawler_id)
    translated_of texts c (input_items crawler) (params_of params)

  unfoldable pub names_or_none : Result Exn Translated → Dict String
  names_or_none (ok translated) = translated.wire_names
  names_or_none (err e) = []

  unfoldable pub names_of_crawler :
      Option String → Dict Json → Exec c.State (Dict String × Dict Json)
  unfolding translated_schema names_or_none
  names_of_crawler none squid = pure ([], squid)
  names_of_crawler (some crawler_id) squid = do
    translated ← attempt (translated_schema crawler_id)
    pure (names_or_none translated, squid)

  unfoldable pub names_of_squid : Result Exn (Dict Json) → Exec c.State (Dict String × Dict Json)
  unfolding names_of_crawler
  names_of_squid (err e) = pure ([], [])
  names_of_squid (ok squid) = names_of_crawler (nonempty (get_str "crawler" squid)) squid

  -- `_squid_and_wire_names`: a squid that cannot be read counts as an empty one.
  unfoldable pub squid_and_wire_names : String → Exec c.State (Dict String × Dict Json)
  unfolding names_of_squid
  squid_and_wire_names squid_id = attempt (c.get_squid squid_id) >>= names_of_squid

  unfoldable pub wired_tasks : Dict String → List (Dict Json) → List (Dict Json)
  unfolding apply_wire_names
  wired_tasks wire_names [] = []
  wired_tasks wire_names (t ∷ tasks) = apply_wire_names t wire_names ∷ wired_tasks wire_names tasks

  -- How many rows were added, as the API lists them or else as they were sent.
  unfoldable pub added_count : Option (List Json) → List (Dict Json) → ℕ
  added_count (some added) tasks = length added
  added_count none tasks = length tasks

  -- The number of rows that were added, and of duplicates.
  unfoldable pub add_tasks_impl : String → List (Dict Json) → Exec c.State (Reply (ℕ × Json))
  unfolding squid_and_wire_names wired_tasks added_count
  add_tasks_impl squid_id [] = pure (failed (error_with "invalid_request"))
  add_tasks_impl squid_id (t ∷ tasks) = do
    (wire_names, _) ← squid_and_wire_names squid_id
    result ← c.add_tasks squid_id (wired_tasks wire_names (t ∷ tasks))
    pure (
        answer
          (added_count (as_list (get "tasks" result)) (t ∷ tasks), get "duplicated_count" result))
