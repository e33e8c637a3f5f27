-- ===== src/Schema/Items.antt =====
-- schema_translator.py: one entry of a crawler's `input[]`, and what is read from it.
use lobstr_mcp.Prelude.{
  String, Bool, not, List, [], ◌∷◌, ◌++◌, Option, none, some, if◌then◌else◌, ◌==◌, contains,
  is_empty, or_else, length, ltb,
}
use lobstr_mcp.Prelude.Dict.{Dict, lookup, has, insert, values}
use lobstr_mcp.Json.{Json, str, list, as_dict, as_list, get, get_str, truthy?}
use lobstr_mcp.Errors.{nonempty}
use lobstr_mcp.Safeguards.Validation.{InputModes}

-- An entry with its name, which the source takes by `item["name"]`, and all its keys.
pub record Item : Type 0 where
  pub name : String
  pub fields : Dict Json

item_of : Json → Option Item
item_of v = elim (as_dict v) [
  | none ↦ none
  | some fields ↦ elim (get_str "name" fields) [
    | none ↦ none
    | some name ↦ some (record { name = name; fields = fields })
  ]
]

items_of : List Json → Option (List Item)
items_of [] = some []
items_of (v ∷ vs) = elim (item_of v) [
  | none ↦ none
  | some item ↦ elim (items_of vs) [ none ↦ none | some rest ↦ some (item ∷ rest) ]
]

-- `crawler.get("input", [])`; none where the source raises, because an entry is no dict or has no
-- text for a name.
unfoldable pub input_items : Dict Json → Option (List Item)
unfolding items_of item_of
input_items crawler = items_of (or_else (as_list (get "input" crawler)) [])

-- `_TYPE_MAP`
abbrev pub type_map : Dict String
type_map =
    ("int", "integer")
    ∷ ("integer", "integer")
    ∷ ("float", "number")
    ∷ ("number", "number")
    ∷ ("bool", "boolean")
    ∷ ("boolean", "boolean")
    ∷ ("string", "string")
    ∷ ("str", "string")
    ∷ ("list", "array")
    ∷ ("array", "array")
    ∷ ("dict", "object")
    ∷ ("object", "object")
    ∷ []

abbrev pub squid_level_names : List String
squid_level_names = "squid" ∷ "cluster" ∷ []

-- A level is a text, or None.
unfoldable pub normalized_level : Option String → String
normalized_level none = "task"
normalized_level (some level) =
    if contains level squid_level_names then "squid" else if level == "" then "task" else level

-- `item.get("level")`, and `item.get("level", "task")`.
abbrev pub level_of : Item → Option String
level_of item = get_str "level" item.fields

abbrev pub level_or_task : Item → Option String
level_or_task item = if has "level" item.fields then level_of item else some "task"

abbrev pub is_required : Item → Bool
is_required item = truthy? (lookup "required" item.fields)

-- `item.get("group")`, of which None and an empty text count as none.
abbrev pub group_of : Item → Option String
group_of item = nonempty (get_str "group" item.fields)

abbrev pub has_default : Item → Bool
has_default item = has "default" item.fields

-- `groups.setdefault(group, []).append(name)`
unfoldable pub append_to : String → String → Dict (List String) → Dict (List String)
append_to group name groups = insert group (or_else (lookup group groups) [] ++ (name ∷ [])) groups

-- The loop of `_input_modes`: the groups and the names that are always required.
unfoldable pub group_required :
    List Item → Dict (List String) → List String → Dict (List String) × List String
unfolding append_to
group_required [] groups always = (groups, always)
group_required (it ∷ rest) groups always =
    let skip = group_required rest groups always in
    let plain = group_required rest groups (always ++ (it.name ∷ [])) in
    if not (is_required it) then skip else elim (group_of it) [
      | some group ↦ group_required rest (append_to group it.name groups) always
      | none ↦ if has_default it then skip else plain
    ]

abbrev pub nonempty_lists : List (List String) → List (List String)
nonempty_lists [] = []
nonempty_lists (g ∷ gs) = if is_empty g then nonempty_lists gs else g ∷ nonempty_lists gs

abbrev pub modes_of : Dict (List String) × List String → Option InputModes
modes_of (groups, always) =
    let either = nonempty_lists (values groups) in
    if ltb (length either) 2 then none else some (record { either = either; always = always })

unfoldable pub input_modes : List Item → Option InputModes
unfolding group_required
input_modes items = modes_of (group_required items [] [])

abbrev pub copy_field : String → String → Dict Json → Dict Json → Dict Json
copy_field key target fields prop = elim (lookup key fields) [
  | none ↦ prop
  | some v ↦ insert target v prop
]

abbrev pub copy_example : Dict Json → Dict Json → Dict Json
copy_example fields prop = elim (lookup "example" fields) [
  | none ↦ prop
  | some v ↦ insert "examples" (list (v ∷ [])) prop
]

-- `_TYPE_MAP.get(item.get("type", "string"), "string")`
abbrev pub mapped_type : Option Json → String
mapped_type none = "string"
mapped_type (some (str t)) = or_else (lookup t type_map) "string"
mapped_type (some _) = "string"

unfoldable pub property_from_item : Item → Dict Json
property_from_item item = copy_example item.fields (
    copy_field "default" "default" item.fields (
      copy_field "description" "description" item.fields
        (("type", str (mapped_type (lookup "type" item.fields))) ∷ [])))
