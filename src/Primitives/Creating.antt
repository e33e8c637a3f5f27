-- ===== src/Primitives/Creating.antt =====
-- `create_squid_impl`: a squid with a configuration and no input rows.
pub mod Orphans
use lobstr_mcp.Prelude.{
  ℕ, String, Bool, true, false, not, ◌||◌, List, [], ◌∷◌, Option, none, some, if◌then◌else◌, ◌==◌,
  is_empty, or_else, ◌++◌,
}
use lobstr_mcp.Prelude.Dict.{Dict, lookup, has, insert, erase, update}
use lobstr_mcp.Prelude.Result.{Result, ok, err}
use lobstr_mcp.Json.{Json, null, dict, str, as_dict, get, get_dict, get_str, is_none}
use lobstr_mcp.Errors.{
  Exn, api, transport, other, ErrorDict, ApiError, to_error_dict, error_with, nonempty,
}
use lobstr_mcp.Client.{Client, Exec, pure, raise, continue, attempt, ◌>>=◌}
use lobstr_mcp.Client.Crawlers.{resolve_crawler_id}
use lobstr_mcp.Schema.Translate.{Translated}
use lobstr_mcp.Safeguards.Validation.{ValidationError, validate_input}
use lobstr_mcp.Execution.Inputs.{level_at}
use lobstr_mcp.Execution.Request.Opening.{Texts}
use lobstr_mcp.Primitives.{
  is_functions, apply_wire_names, effective_concurrency, nonempty_dict, translated_schema,
}

pub record Created : Type 0 where
  pub squid_id : String
  pub scraper : String
  pub name : Json
  pub concurrency : Json

pub data CreateReply : Type 0 where
  made : Created → CreateReply
  invalid_config : List ValidationError → CreateReply
  not_configured : ErrorDict → CreateReply

-- `{k: v for k, v in cfg.items() if k != "functions"}`
unfoldable pub without_functions : Dict Json → Dict Json
without_functions [] = []
without_functions ((k, v) ∷ cfg) =
    let rest = without_functions cfg in if is_functions k then rest else (k, v) ∷ rest

-- The configuration with its toggles beside its other keys.
unfoldable pub flattened : Dict Json → Dict Json
unfolding without_functions
flattened cfg = update (without_functions cfg) (or_else (get_dict "functions" cfg) [])

-- `d.setdefault(k, v)`
abbrev pub set_default : String → Json → Dict Json → Dict Json
set_default k v d = if has k d then d else insert k v d

-- A default among the toggles; none where "functions" is there and no dict, which raises.
unfoldable pub set_toggle : String → Json → Option Json → Dict Json → Option (Dict Json)
set_toggle k v none cfg = some (insert "functions" (dict ((k, v) ∷ [])) cfg)
set_toggle k v (some functions) cfg = elim (as_dict functions) [
  | none ↦ none
  | some d ↦ some (insert "functions" (dict (set_default k v d)) cfg)
]

-- A task-level default is left to the rows.
unfoldable pub fill_one : Option String → String → Json → Dict Json → Option (Dict Json)
unfolding set_toggle
fill_one none k v cfg = some (set_default k v cfg)
fill_one (some level) k v cfg =
    if level == "task"
    then some cfg
    else if level == "function"
    then set_toggle k v (lookup "functions" cfg) cfg
    else some (set_default k v cfg)

unfoldable pub fill : Dict (Option String) → Dict Json → Option (Dict Json) → Option (Dict Json)
unfolding fill_one
fill levels [] cfg = cfg
fill levels ((k, v) ∷ defaults) none = none
fill levels ((k, v) ∷ defaults) (some cfg) =
    fill levels defaults (fill_one (level_at levels k) k v cfg)

abbrev pub name_or : Option String → Dict Json → String → String
name_or name squid crawler_id =
    or_else (nonempty name) (or_else (nonempty (get_str "name" squid)) crawler_id)

abbrev pub text_or_null : Option String → Json → Json
text_or_null none v = v
text_or_null (some t) v = str t

unfoldable pub config_body : String → Dict Json → Dict String → Json → Dict Json
config_body name cfg wire_names concurrency =
    (if is_empty cfg
      then ("name", str name) ∷ []
      else ("name", str name) ∷ ("params", dict (apply_wire_names cfg wire_names)) ∷ [])
    ++ (if is_none concurrency then [] else ("concurrency", concurrency) ∷ [])

module _ (texts : Texts) (c : Client) where
  -- The `try` of `_cleanup_squid`.
  unfoldable pub cleaned : Result Exn (Dict Json) → Bool
  cleaned (ok d) = true
  cleaned (err e) = false

  -- `_config_rejected`, on top of the error of the API.
  unfoldable pub config_rejected : String → String → ErrorDict → Exec c.State CreateReply
  unfolding cleaned
  config_rejected squid_id crawler_id base = do
    r ← attempt (c.delete_squid squid_id)
    pure (
        not_configured (record base {
          squid_id = some squid_id;
          scraper = some crawler_id;
          deleted = some (cleaned r);
        }))

  -- `_config_apply_unknown`
  unfoldable pub config_apply_unknown : String → String → ErrorDict
  config_apply_unknown squid_id crawler_id = record (error_with "upstream_unavailable") {
    squid_id = some squid_id;
    scraper = some crawler_id;
  }

  unfoldable pub configured :
      String → String → CreateReply → Result Exn (Dict Json) → Exec c.State CreateReply
  unfolding config_rejected config_apply_unknown
  configured squid_id crawler_id reply (ok d) = pure reply
  configured squid_id crawler_id reply (err (api e)) =
      config_rejected squid_id crawler_id (to_error_dict e)
  configured squid_id crawler_id reply (err (transport e)) =
      pure (not_configured (config_apply_unknown squid_id crawler_id))
  configured squid_id crawler_id reply (err (other e)) = raise (other e)

  unfoldable pub created_reply : String → String → Option String → Dict Json → Json → CreateReply
  created_reply squid_id crawler_id name squid concurrency = made (record {
    squid_id = squid_id;
    scraper = crawler_id;
    name = text_or_null (nonempty name) (get "name" squid);
    concurrency = concurrency;
  })

  -- A squid without an id is addressed as "None".
  unfoldable pub configure :
      String → Option String → Dict Json → Dict String → Json → Dict Json → Exec c.State CreateReply
  unfolding configured created_reply config_body
  configure crawler_id name cfg wire_names concurrency squid =
      let squid_id = or_else (get_str "id" squid) "None" in
      let reply = created_reply squid_id crawler_id name squid concurrency in
      if nonempty_dict cfg || not (is_none concurrency)
      then (do
        r ← attempt (
            c.update_squid squid_id
              (config_body (name_or name squid crawler_id) cfg wire_names concurrency))
        configured squid_id crawler_id reply r)
      else pure reply

  unfoldable pub create_filled :
      String → Option String → Dict String → Json → Option (Dict Json) → Exec c.State CreateReply
  unfolding configure
  create_filled crawler_id name wire_names concurrency none = raise (other "AttributeError")
  create_filled crawler_id name wire_names concurrency (some cfg) = do
    squid ← c.create_squid crawler_id name
    configure crawler_id name cfg wire_names concurrency squid

  unfoldable pub create_valid :
      String
      → Option String
      → Dict Json
      → Json
      → Translated
      → List ValidationError
      → Exec c.State CreateReply
  unfolding create_filled fill
  create_valid crawler_id name cfg concurrency translated (e ∷ errors) =
      pure (invalid_config (e ∷ errors))
  create_valid crawler_id name cfg concurrency translated [] =
      create_filled crawler_id name translated.wire_names concurrency
        (fill translated.levels translated.defaults_to_fill (some cfg))

  -- A schema that cannot be had skips the check and the translation.
  unfoldable pub create_checked :
      String → Option String → Dict Json → Json → Result Exn Translated → Exec c.State CreateReply
  unfolding create_valid create_filled flattened
  create_checked crawler_id name cfg concurrency (err e) =
      create_filled crawler_id name [] concurrency (some cfg)
  create_checked crawler_id name cfg concurrency (ok translated) =
      create_valid crawler_id name cfg concurrency translated
        (validate_input (flattened cfg) translated.json_schema none false)

  unfoldable pub create_with : String → Option String → Dict Json → Json → Exec c.State CreateReply
  unfolding create_checked create_filled
  create_with crawler_id name [] concurrency =
      create_filled crawler_id name [] concurrency (some [])
  create_with crawler_id name (entry ∷ cfg) concurrency = do
    translated ← attempt (translated_schema texts c crawler_id)
    create_checked crawler_id name (entry ∷ cfg) concurrency translated

  unfoldable pub create_squid_impl :
      String → Option String → Dict Json → Option Json → Exec c.State CreateReply
  unfolding create_with effective_concurrency
  create_squid_impl scraper name config concurrency = do
    crawler_id ← resolve_crawler_id texts.short c (some scraper)
    create_with (or_else crawler_id scraper) name (erase "concurrency" config)
        (effective_concurrency concurrency config)
