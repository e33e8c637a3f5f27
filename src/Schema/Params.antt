-- ===== src/Schema/Params.antt =====
-- schema_translator.py: what GET /crawlers/{hash}/params says of each input. None stands for a
-- payload that is no dict.
use lobstr_mcp.Prelude.{
  String, List, [], ◌∷◌, ◌++◌, Option, none, some, if◌then◌else◌, ◌==◌, contains, or_else,
}
use lobstr_mcp.Prelude.Dict.{Dict, lookup, insert}
use lobstr_mcp.Json.{Json, null, bool, int, float, str, arr, obj, as_dict, get, get_dict, get_str}
use lobstr_mcp.Schema.Items.{type_map}

-- `at.setdefault(name, set()).add(level)`; a set is a list without repetitions.
unfoldable pub add_level : String → String → Dict (List String) → Dict (List String)
add_level level name at =
    let old = or_else (lookup name at) [] in
    insert name (if contains level old then old else old ++ (level ∷ [])) at

unfoldable pub add_names : String → Dict Json → Dict (List String) → Dict (List String)
unfolding add_level
add_names level [] at = at
add_names level ((name, _) ∷ rest) at = add_names level rest (add_level level name at)

abbrev pub functions_in : Json → Dict Json
functions_in spec = or_else (as_dict spec) []

-- The loop over the squid section; the key `functions` holds the toggles.
unfoldable pub add_squid_names : Dict Json → Dict (List String) → Dict (List String)
unfolding add_names add_level
add_squid_names [] at = at
add_squid_names ((name, spec) ∷ rest) at = add_squid_names rest (
    if name == "functions"
    then add_names "function" (functions_in spec) at
    else add_level "squid" name at)

unfoldable pub levels_from_params : Option (Dict Json) → Dict (List String)
unfolding add_squid_names add_names
levels_from_params none = []
levels_from_params (some params) =
    add_squid_names (or_else (get_dict "squid" params) [])
      (add_names "task" (or_else (get_dict "task" params) []) [])

-- The first of the levels task, function and squid that the name is listed at.
abbrev pub first_level : List String → Option String
first_level at =
    if contains "task" at
    then some "task"
    else if contains "function" at
    then some "function"
    else if contains "squid" at
    then some "squid"
    else none

unfoldable pub place : Dict (List String) → Dict String
place [] = []
place ((name, at) ∷ rest) = elim (first_level at) [
  | none ↦ place rest
  | some level ↦ (name, level) ∷ place rest
]

unfoldable pub placement_from_params : Option (Dict Json) → Dict String
unfolding place levels_from_params
placement_from_params params = place (levels_from_params params)

abbrev pub type_of_default : Json → Option String
type_of_default null = none
type_of_default (bool b) = some "boolean"
type_of_default (int z) = some "integer"
type_of_default (float b) = some "number"
type_of_default (str s) = some "string"
type_of_default (arr vs) = some "array"
type_of_default (obj ms) = some "object"

unfoldable pub params_type : Dict Json → Option String
params_type spec = elim (get_str "type" spec) [
  | none ↦ type_of_default (get "default" spec)
  | some declared ↦ elim (lookup declared type_map) [
    | none ↦ type_of_default (get "default" spec)
    | some json_type ↦ some json_type
  ]
]

-- The entries of a section that are dicts themselves.
unfoldable pub add_specs : Dict Json → Dict (Dict Json) → Dict (Dict Json)
add_specs [] specs = specs
add_specs ((name, spec) ∷ rest) specs =
    add_specs rest (elim (as_dict spec) [ none ↦ specs | some d ↦ insert name d specs ])

unfoldable pub add_squid_specs : Dict Json → Dict (Dict Json) → Dict (Dict Json)
unfolding add_specs
add_squid_specs [] specs = specs
add_squid_specs ((name, spec) ∷ rest) specs = add_squid_specs rest (
    if name == "functions"
    then add_specs (functions_in spec) specs
    else add_specs ((name, spec) ∷ []) specs)

unfoldable pub params_only_specs : Option (Dict Json) → Dict (Dict Json)
unfolding add_squid_specs
params_only_specs none = []
params_only_specs (some params) = add_squid_specs (or_else (get_dict "squid" params) []) []
