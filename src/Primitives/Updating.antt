-- ===== src/Primitives/Updating.antt =====
-- `update_scraper_impl`: the settings of a squid that exists.
pub mod Saved
use lobstr_mcp.Prelude.{
  String, Bool, true, false, not, ◌&&◌, List, [], ◌∷◌, Option, none, some, if◌then◌else◌, is_empty,
  or_else, ◌++◌,
}
use lobstr_mcp.Prelude.Dict.{Dict, lookup, erase}
use lobstr_mcp.Json.{Json, null, dict, str, get, get_str, is_none}
use lobstr_mcp.Errors.{Reply, answer, failed, error_with, nonempty}
use lobstr_mcp.Client.{Client, Exec, pure, continue, ◌>>=◌}
use lobstr_mcp.Execution.Inputs.{effective_settings}
use lobstr_mcp.Execution.Request.Opening.{Texts}
use lobstr_mcp.Primitives.{apply_wire_names, effective_concurrency, squid_and_wire_names}

pub record Updated : Type 0 where
  pub name : Json
  pub concurrency : Json

-- The name of the squid, with what stands in for one.
abbrev pub saved_name : String → Dict Json → String
saved_name squid_id squid =
    or_else (nonempty (get_str "name" squid))
      (or_else (nonempty (get_str "crawler" squid)) squid_id)

unfoldable pub named_part : String → Option String → Dict Json → Dict Json → Dict Json
named_part squid_id (some name) cfg squid = ("name", str name) ∷ []
named_part squid_id none [] squid = []
named_part squid_id none (entry ∷ cfg) squid = ("name", str (saved_name squid_id squid)) ∷ []

unfoldable pub params_part : Dict Json → Dict String → Dict Json → Dict Json
params_part [] wire_names squid = []
params_part (entry ∷ cfg) wire_names squid =
    ("params", dict (effective_settings squid (apply_wire_names (entry ∷ cfg) wire_names))) ∷ []

abbrev pub concurrency_part : Json → Dict Json
concurrency_part concurrency = if is_none concurrency then [] else ("concurrency", concurrency) ∷ []

unfoldable pub settings_body :
    String → Option String → Dict Json → Json → Dict String → Dict Json → Dict Json
unfolding named_part params_part
settings_body squid_id name cfg concurrency wire_names squid =
    named_part squid_id name cfg squid
    ++ (params_part cfg wire_names squid ++ concurrency_part concurrency)

abbrev pub no_name : Option String → Bool
no_name none = true
no_name (some t) = false

module _ (texts : Texts) (c : Client) where
  unfoldable pub update_with :
      String
      → Option String
      → Dict Json
      → Json
      → Dict String × Dict Json
      → Exec c.State (Reply Updated)
  unfolding settings_body
  update_with squid_id name cfg concurrency (wire_names, squid) =
      let body = settings_body squid_id name cfg concurrency wire_names squid in
      (do
        updated ← c.update_squid squid_id body
        pure (
            answer (record {
              name = or_else (lookup "name" updated) (get "name" body);
              concurrency = or_else (lookup "concurrency" updated) concurrency;
            })))

  unfoldable pub update_settings :
      String → Option String → Dict Json → Json → Exec c.State (Reply Updated)
  unfolding update_with
  update_settings squid_id name cfg concurrency =
      if no_name name && (is_empty cfg && is_none concurrency)
      then pure (failed (error_with "invalid_request"))
      else (squid_and_wire_names texts c squid_id >>= update_with squid_id name cfg concurrency)

  unfoldable pub update_scraper_impl :
      String → Option String → Dict Json → Option Json → Exec c.State (Reply Updated)
  unfolding update_settings effective_concurrency
  update_scraper_impl squid_id name config concurrency =
      update_settings squid_id name (erase "concurrency" config)
        (effective_concurrency concurrency config)
