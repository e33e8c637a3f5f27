-- ===== src/Safeguards/Validation.antt =====
-- safeguards.py: `validate_input`. Each error keeps its parts and leaves the sentence out.
pub mod Meaning
use lobstr_mcp.Prelude.{
  String, Bool, true, false, not, ◌&&◌, ◌||◌, List, [], ◌∷◌, ◌++◌, Option, none, some,
  if◌then◌else◌, ◌==◌, any, all, is_empty, or_else,
}
use lobstr_mcp.Prelude.Dict.{Dict, lookup, has}
use lobstr_mcp.Json.{Json, bool, int, float, str, arr, obj, null, get}

-- The schema of a scraper's input, as translate_input_schema builds it.
pub record JsonSchema : Type 0 where
  pub properties : Dict (Dict Json)
  pub required : List String

pub record InputModes : Type 0 where
  pub either : List (List String)
  pub always : List String

pub data ValidationError : Type 0 where
  is_required : String → ValidationError
  one_of_sets : List (List String) → ValidationError
  must_be : String → String → ValidationError

-- The keys of `_PY_TYPE_OK`, and its tests.
pub data TypeName : Type 0 where
  string_type integer_type number_type boolean_type array_type object_type : TypeName

abbrev pub type_names : Dict TypeName
type_names =
    ("string", string_type)
    ∷ ("integer", integer_type)
    ∷ ("number", number_type)
    ∷ ("boolean", boolean_type)
    ∷ ("array", array_type)
    ∷ ("object", object_type)
    ∷ []

unfoldable pub py_type_ok : TypeName → Json → Bool
py_type_ok string_type (str s) = true
py_type_ok integer_type (int z) = true
py_type_ok number_type (int z) = true
py_type_ok number_type (float b) = true
py_type_ok boolean_type (bool b) = true
py_type_ok array_type (arr vs) = true
py_type_ok object_type (obj ms) = true
py_type_ok _ _ = false

unfoldable pub missing_required : List String → Dict Json → List ValidationError
missing_required [] values = []
missing_required (req ∷ rest) values =
    if has req values
    then missing_required rest values
    else is_required req ∷ missing_required rest values

abbrev pub complete : Dict Json → List String → Bool
complete values group = all (λ f. has f values) group

unfoldable pub missing_modes : Option InputModes → Dict Json → List ValidationError
missing_modes none values = []
missing_modes (some modes) values =
    if not (is_empty modes.either) && not (any (complete values) modes.either)
    then one_of_sets modes.either ∷ []
    else []

-- `check` of a declared type, and the error of one value.
unfoldable pub type_error : String → Json → Json → List ValidationError
type_error key val (str t) = elim (lookup t type_names) [
  | none ↦ []
  | some name ↦ if py_type_ok name val then [] else must_be key t ∷ []
]
type_error key val _ = []

unfoldable pub spec_error : String → Json → Option (Dict Json) → List ValidationError
spec_error key val none = []
spec_error key val (some spec) = type_error key val (get "type" spec)

unfoldable pub wrong_types : Dict (Dict Json) → Dict Json → List ValidationError
wrong_types props [] = []
wrong_types props ((key, val) ∷ values) =
    spec_error key val (lookup key props) ++ wrong_types props values

unfoldable pub validate_input :
    Dict Json → JsonSchema → Option InputModes → Bool → List ValidationError
unfolding missing_required missing_modes wrong_types spec_error type_error py_type_ok
validate_input values schema modes check_required =
    (if check_required
      then missing_required schema.required values ++ missing_modes modes values
      else [])
    ++ wrong_types schema.properties values
