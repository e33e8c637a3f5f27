-- ===== src/Schema/Translate.antt =====
-- schema_translator.py: `translate_input_schema`. The sentence that `_alias_description` writes into
-- an alias's property is left out, and with it the key `description` of that property.
use lobstr_mcp.Prelude.{
  ℕ, String, Bool, not, ◌&&◌, List, [], ◌∷◌, ◌++◌, Option, none, some, if◌then◌else◌, ◌==◌, or_else,
  is_some, keep_if,
}
use lobstr_mcp.Prelude.Dict.{Dict, lookup, has, insert, erase, values}
use lobstr_mcp.Json.{Json, str, get, get_str}
use lobstr_mcp.Errors.{nonempty}
use lobstr_mcp.Safeguards.Validation.{JsonSchema, InputModes}
use lobstr_mcp.Schema.Items.{
  Item, normalized_level, level_of, level_or_task, is_required, group_of, has_default, input_modes,
  property_from_item,
}
use lobstr_mcp.Schema.Alias.{alias_name}
use lobstr_mcp.Schema.Params.{
  levels_from_params, placement_from_params, params_type, params_only_specs,
}

-- `seen` and `shadowed`, after some of the entries.
pub record Ranking : Type 0 where
  pub seen : Dict Item
  pub shadowed : Dict Item

unfoldable pub outranks : Item → Item → Bool
outranks new old = is_required new && not (is_required old)

abbrev pub same_level : Item → Item → Bool
same_level a b = normalized_level (level_of a) == normalized_level (level_of b)

unfoldable pub keep_one : Ranking → String → Item → Item → Ranking
keep_one r name kept dropped = record {
  seen = insert name kept r.seen;
  shadowed = if same_level dropped kept then r.shadowed else insert name dropped r.shadowed;
}

unfoldable pub rank_item : Ranking → Item → Ranking
unfolding keep_one outranks
rank_item r item = elim (lookup item.name r.seen) [
  | none ↦ record r { seen = insert item.name item r.seen }
  | some previous ↦
      if outranks item previous
      then keep_one r item.name item previous
      else keep_one r item.name previous item
]

unfoldable pub rank_from : Ranking → List Item → Ranking
unfolding rank_item
rank_from r [] = r
rank_from r (item ∷ items) = rank_from (rank_item r item) items

abbrev pub no_ranking : Ranking
no_ranking = record { seen = []; shadowed = [] }

-- The dicts that the rest of the function fills.
pub record Draft : Type 0 where
  pub properties : Dict (Dict Json)
  pub required : List String
  pub levels : Dict (Option String)
  pub wire_names : Dict String
  pub defaults_to_fill : Dict Json

abbrev pub no_draft : Draft
no_draft = record {
  properties = [];
  required = [];
  levels = [];
  wire_names = [];
  defaults_to_fill = [];
}

abbrev pub or_level : Option String → Option String → Option String
or_level placed declared = elim (nonempty placed) [ none ↦ declared | some level ↦ some level ]

-- Where an entry that kept its name goes.
abbrev pub kept_level : Dict Item → Dict String → Item → Option String
kept_level shadowed placement item =
    if has item.name shadowed
    then level_or_task item
    else or_level (lookup item.name placement) (level_or_task item)

-- The required field of a name: filled by its default, unless it is grouped; or asked for.
unfoldable pub require : Item → Draft → Draft
require item d =
    if is_required item
    then (if has_default item && not (is_some (group_of item))
        then record d {
          defaults_to_fill = insert item.name (get "default" item.fields) d.defaults_to_fill;
        }
        else record d { required = d.required ++ (item.name ∷ []) })
    else d

unfoldable pub publish_seen : Dict Item → Dict String → Dict Item → Draft → Draft
unfolding require
publish_seen shadowed placement [] d = d
publish_seen shadowed placement ((name, item) ∷ rest) d = publish_seen shadowed placement rest (
    require item (record d {
      properties = insert name (property_from_item item) d.properties;
      levels = insert name (kept_level shadowed placement item) d.levels;
    }))

abbrev pub with_type : Option String → Dict Json → Dict Json
with_type none prop = prop
with_type (some t) prop = insert "type" (str t) prop

abbrev pub with_description : Option String → Dict Json → Dict Json
with_description none prop = prop
with_description (some t) prop = insert "description" (str t) prop

abbrev pub with_default : Option Json → Dict Json → Dict Json
with_default none prop = prop
with_default (some v) prop = insert "default" v prop

abbrev pub property_from_spec : Dict Json → Dict Json
property_from_spec spec =
    with_default (lookup "default" spec)
      (with_description (nonempty (get_str "description" spec)) (with_type (params_type spec) []))

-- The inputs that only /params lists.
unfoldable pub publish_params : Dict String → Dict (Dict Json) → Draft → Draft
publish_params placement [] d = d
publish_params placement ((name, spec) ∷ rest) d = publish_params placement rest (
    if has name d.properties then d else record d {
      properties = insert name (property_from_spec spec) d.properties;
      levels = insert name (or_level (lookup name placement) (some "squid")) d.levels;
    })

-- `_shadowed_level`; `at` is what the source calls `candidates`.
abbrev pub only_level : List String → Option String → Option String
only_level (level ∷ []) declared = some level
only_level _ declared = or_level declared (some "squid")

unfoldable pub shadowed_level : String → Item → Item → Dict (List String) → Option String
shadowed_level name shadowed_item kept_item params_levels =
    only_level
      (keep_if (λ level. not (level == normalized_level (level_of kept_item)))
        (or_else (lookup name params_levels) []))
      (level_of shadowed_item)

abbrev pub alias_property : Item → Dict Json
alias_property item = erase "description" (property_from_item item)

abbrev pub add_alias : String → String → Option String → Item → Draft → Draft
add_alias alias name level item d = record d {
  properties = insert alias (alias_property item) d.properties;
  levels = insert alias level d.levels;
  wire_names = insert alias name d.wire_names;
}

abbrev pub kept_of : String → Dict Item → Item → Item
kept_of name seen item = or_else (lookup name seen) item

pub record Translated : Type 0 where
  pub json_schema : JsonSchema
  pub levels : Dict (Option String)
  pub modes : Option InputModes
  pub wire_names : Dict String
  pub defaults_to_fill : Dict Json

abbrev pub schema_required : Option InputModes → List String → List String
schema_required none required = required
schema_required (some modes) required = modes.always

module _ (show : ℕ → String) where
  -- The entries that another of the same name shadowed.
  unfoldable pub publish_shadowed : Dict Item → Dict (List String) → Dict Item → Draft → Draft
  publish_shadowed seen params_levels [] d = d
  publish_shadowed seen params_levels ((name, item) ∷ rest) d =
      let level = shadowed_level name item (kept_of name seen item) params_levels in
      publish_shadowed seen params_levels rest
        (add_alias (alias_name show level name d.properties) name level item d)

  -- All the inputs published, before the modes are looked at.
  unfoldable pub draft_of : List Item → Option (Dict Json) → Draft
  unfolding publish_seen publish_params publish_shadowed rank_from
  draft_of items params =
      let r = rank_from no_ranking items in
      let placement = placement_from_params params in
      publish_shadowed r.seen (levels_from_params params) r.shadowed (
        publish_params placement (params_only_specs params)
          (publish_seen r.shadowed placement r.seen no_draft))

  unfoldable pub translate_input_schema : List Item → Option (Dict Json) → Translated
  unfolding draft_of
  translate_input_schema items params =
      let d = draft_of items params in
      let modes = input_modes (values (rank_from no_ranking items).seen) in
      record {
        json_schema = record {
          properties = d.properties;
          required = schema_required modes d.required;
        };
        levels = d.levels;
        modes = modes;
        wire_names = d.wire_names;
        defaults_to_fill = d.defaults_to_fill;
      }
