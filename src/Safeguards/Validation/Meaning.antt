-- ===== src/Safeguards/Validation/Meaning.antt =====
-- An input passes exactly when it meets the schema.
use lobstr_mcp.Prelude.{
  String, Bool, true, false, List, [], ◌∷◌, ◌++◌, Option, none, some, ◌≡◌, refl, ◌↔◌, ◌⊎◌, inl, inr,
  any, all, arith, Bool-cases, ℕ,
}
use lobstr_mcp.Prelude.Int.{ℤ}
use lobstr_mcp.Prelude.Dict.{Dict, lookup, has}
use lobstr_mcp.Json.{Json, bool, int, float, str, arr, obj, Items, Members, get}
use lobstr_mcp.Safeguards.Validation.{
  JsonSchema, InputModes, TypeName, string_type, integer_type, number_type, boolean_type,
  array_type, object_type, type_names, py_type_ok, missing_required, complete, missing_modes,
  type_error, spec_error, wrong_types, validate_input,
}

-- The values of each JSON schema type. A Python bool is no integer, and an integer is a number.
pub data HasType : TypeName → Json → Type 0 where
  a_string : (s : String) → HasType string_type (str s)
  an_integer : (z : ℤ) → HasType integer_type (int z)
  a_whole_number : (z : ℤ) → HasType number_type (int z)
  a_number : (bits : ℕ) → HasType number_type (float bits)
  a_boolean : (b : Bool) → HasType boolean_type (bool b)
  an_array : (vs : Items) → HasType array_type (arr vs)
  an_object : (ms : Members) → HasType object_type (obj ms)

py_type_ok_sound : (n : TypeName) (v : Json) → py_type_ok n v ≡ true → HasType n v
unfolding py_type_ok
py_type_ok_sound string_type (str s) h = a_string s
py_type_ok_sound integer_type (int z) h = an_integer z
py_type_ok_sound number_type (int z) h = a_whole_number z
py_type_ok_sound number_type (float b) h = a_number b
py_type_ok_sound boolean_type (bool b) h = a_boolean b
py_type_ok_sound array_type (arr vs) h = an_array vs
py_type_ok_sound object_type (obj ms) h = an_object ms
py_type_ok_sound _ _ h = absurd (cc h)

py_type_ok_complete : {n : TypeName} {v : Json} → HasType n v → py_type_ok n v ≡ true
unfolding py_type_ok
py_type_ok_complete (a_string s) = refl
py_type_ok_complete (an_integer z) = refl
py_type_ok_complete (a_whole_number z) = refl
py_type_ok_complete (a_number b) = refl
py_type_ok_complete (a_boolean b) = refl
py_type_ok_complete (an_array vs) = refl
py_type_ok_complete (an_object ms) = refl

-- A declared type that is none of the six is not checked, nor is a property without a type.
abbrev pub Declared : Option TypeName → Json → Type 0
Declared none val = Unit
Declared (some n) val = HasType n val

abbrev pub Typed : Json → Json → Type 0
Typed val (str t) = Declared (lookup t type_names) val
Typed val _ = Unit

abbrev pub Fits : Json → Option (Dict Json) → Type 0
Fits val none = Unit
Fits val (some spec) = Typed val (get "type" spec)

abbrev pub AllFit : Dict (Dict Json) → Dict Json → Type 0
AllFit props [] = Unit
AllFit props ((key, val) ∷ values) = Fits val (lookup key props) × AllFit props values

Declared-eq-nil :
    (key t : String) (val : Json) (n : Option TypeName)
    → lookup t type_names ≡ n
    → (type_error key val (str t) ≡ []) ↔ Declared n val
unfolding type_error
Declared-eq-nil key t val none h = (λ _. tt, λ _. rw (h, type_error))
Declared-eq-nil key t val (some n) h = elim (Bool-cases (py_type_ok n val)) [
  | inl fine ↦ (λ _. py_type_ok_sound n val fine, λ _. ground arith)
  | inr wrong ↦ (λ e. absurd (ground arith), λ has. absurd (cc (wrong, py_type_ok_complete has)))
]

type_error-eq-nil : (key : String) (val t : Json) → (type_error key val t ≡ []) ↔ Typed val t
unfolding type_error
type_error-eq-nil key val (str t) = Declared-eq-nil key t val _ refl
type_error-eq-nil key val _ = (λ _. tt, λ _. refl)

missing_required-eq-nil :
    (req : List String) (values : Dict Json)
    → (missing_required req values ≡ []) ↔ (all (λ k. has k values) req ≡ true)
unfolding missing_required
missing_required-eq-nil [] values = (λ _. refl, λ _. refl)
missing_required-eq-nil (r ∷ req) values = ground (arith, missing_required-eq-nil req values)

-- One of the alternative groups is complete, where there are any.
abbrev pub GroupGiven : Option InputModes → Dict Json → Type 0
GroupGiven none values = Unit
GroupGiven (some modes) values = (modes.either ≡ []) ⊎ (any (complete values) modes.either ≡ true)

missing_modes-eq-nil :
    (modes : Option InputModes) (values : Dict Json)
    → (missing_modes modes values ≡ []) ↔ GroupGiven modes values
unfolding missing_modes
missing_modes-eq-nil none values = (λ _. tt, λ _. refl)
missing_modes-eq-nil (some modes) values = ground arith

spec_error-eq-nil :
    (key : String) (val : Json) (spec : Option (Dict Json))
    → (spec_error key val spec ≡ []) ↔ Fits val spec
unfolding spec_error
spec_error-eq-nil key val none = (λ _. tt, λ _. refl)
spec_error-eq-nil key val (some spec) = type_error-eq-nil key val (get "type" spec)

append-eq-nil {ℓ} : {A : Type ℓ} (xs ys : List A) → (xs ++ ys ≡ []) ↔ ((xs ≡ []) × (ys ≡ []))
append-eq-nil [] ys = (λ h. (refl, h), λ h. h.1)
append-eq-nil (x ∷ xs) ys = (λ h. absurd (cc h), λ h. absurd (cc (h.0)))

wrong_types-eq-nil :
    (props : Dict (Dict Json)) (values : Dict Json)
    → (wrong_types props values ≡ []) ↔ AllFit props values
unfolding wrong_types
wrong_types-eq-nil props [] = (λ _. tt, λ _. refl)
wrong_types-eq-nil props ((key, val) ∷ values) =
    let (to, from) =
      append-eq-nil (spec_error key val (lookup key props)) (wrong_types props values) in
    let (fit, unfit) = spec_error-eq-nil key val (lookup key props) in
    let (rest, unrest) = wrong_types-eq-nil props values in
    (λ h. (fit (to h).0, rest (to h).1), λ f. from (unfit f.0, unrest f.1))

-- What a valid input is: every required name is given and, if there are alternative groups, one
-- of them completely, where these are asked for; and every value has its property's type.
pub record IsValidInput (values : Dict Json) (schema : JsonSchema) (modes : Option InputModes)
    (check_required : Bool) : Type 0 where
  pub required_given : (check_required ≡ false) ⊎ (all (λ k. has k values) schema.required ≡ true)
  pub group_given : (check_required ≡ false) ⊎ GroupGiven modes values
  pub values_fit : AllFit schema.properties values

asked : {A : Type 0} → (true ≡ false) ⊎ A → A
asked (inl e) = absurd (cc e)
asked (inr a) = a

-- An input has no validation errors exactly when it is valid.
pub validate_input_iff :
    (values : Dict Json) (schema : JsonSchema) (modes : Option InputModes) (check_required : Bool)
    → (validate_input values schema modes check_required ≡ [])
      ↔ IsValidInput values schema modes check_required
unfolding validate_input
validate_input_iff values schema modes true =
    let req = missing_required schema.required values in
    let mode = missing_modes modes values in
    let typ = wrong_types schema.properties values in
    let (to, from) = append-eq-nil (req ++ mode) typ in
    let (to', from') = append-eq-nil req mode in
    (
      λ h.
          let (front, fit) = to h in
          let (r, m) = to' front in
          record {
            required_given = inr ((missing_required-eq-nil schema.required values).0 r);
            group_given = inr ((missing_modes-eq-nil modes values).0 m);
            values_fit = (wrong_types-eq-nil schema.properties values).0 fit;
          },
      λ v. from (
        from' (
          (missing_required-eq-nil schema.required values).1 (asked v.required_given),
          (missing_modes-eq-nil modes values).1 (asked v.group_given),
        ),
        (wrong_types-eq-nil schema.properties values).1 v.values_fit,
      ),
    )
validate_input_iff values schema modes false = (
  λ h. record {
    required_given = inl refl;
    group_given = inl refl;
    values_fit = (wrong_types-eq-nil schema.properties values).0 h;
  },
  λ v. (wrong_types-eq-nil schema.properties values).1 v.values_fit,
)
