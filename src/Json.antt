-- ===== src/Json.antt =====
-- The Python values that come from and go to JSON. A float is its 64-bit IEEE 754 pattern, so that
-- no value is rounded by the model; what the program computes with floats is a parameter elsewhere.
use Prim.Native.Nat.{compare, Ordering}
use lobstr_mcp.Prelude.{
  ℕ, String, Bool, true, false, not, List, [], ◌∷◌, Option, none, some, ◌≡◌, refl, ap, ◌==◌,
  or_else,
}
use lobstr_mcp.Prelude.Dict.{Dict, lookup}
use lobstr_mcp.Prelude.Int.{ℤ, is_zero}

mutual
  pub data Json : Type 0 where
    null : Json
    bool : Bool → Json
    int : ℤ → Json
    float : ℕ → Json
    str : String → Json
    arr : Items → Json
    obj : Members → Json

  pub data Items : Type 0 where
    nil : Items
    cons : Json → Items → Items

  pub data Members : Type 0 where
    end : Members
    member : String → Json → Members → Members

abbrev pub items : Items → List Json
items nil = []
items (cons v vs) = v ∷ items vs

abbrev pub of_items : List Json → Items
of_items [] = nil
of_items (v ∷ vs) = cons v (of_items vs)

abbrev pub members : Members → Dict Json
members end = []
members (member k v ms) = (k, v) ∷ members ms

abbrev pub of_members : Dict Json → Members
of_members [] = end
of_members ((k, v) ∷ d) = member k v (of_members d)

-- A Python list and a Python dict as values.
abbrev pub list : List Json → Json
list vs = arr (of_items vs)

abbrev pub dict : Dict Json → Json
dict d = obj (of_members d)

pub items-of_items : (vs : List Json) → items (of_items vs) ≡ vs
items-of_items [] = refl
items-of_items (v ∷ vs) = ap (λ r. v ∷ r) (items-of_items vs)

pub members-of_members : (d : Dict Json) → members (of_members d) ≡ d
members-of_members [] = refl
members-of_members ((k, v) ∷ d) = ap (λ r. (k, v) ∷ r) (members-of_members d)

-- The patterns of 0.0 and -0.0 are the falsy floats.
abbrev is_float_zero : ℕ → Bool
is_float_zero bits = elim (compare bits 0) [
  | Ordering.eq ↦ true
  | _ ↦ elim (compare bits 9223372036854775808) [ Ordering.eq ↦ true | _ ↦ false ]
]

-- `bool(v)`
unfoldable pub truthy : Json → Bool
truthy null = false
truthy (bool b) = b
truthy (int z) = not (is_zero z)
truthy (float bits) = not (is_float_zero bits)
truthy (str s) = not (s == "")
truthy (arr nil) = false
truthy (arr (cons v vs)) = true
truthy (obj end) = false
truthy (obj (member k v ms)) = true

abbrev pub truthy? : Option Json → Bool
truthy? none = false
truthy? (some v) = truthy v

-- `isinstance` tests that hand over what they found.
abbrev pub as_dict : Json → Option (Dict Json)
as_dict (obj ms) = some (members ms)
as_dict _ = none

abbrev pub as_list : Json → Option (List Json)
as_list (arr vs) = some (items vs)
as_list _ = none

abbrev pub as_str : Json → Option String
as_str (str s) = some s
as_str _ = none

-- `d.get(k)`, with Python's `None` for a missing key.
abbrev pub get : String → Dict Json → Json
get k d = or_else (lookup k d) null

-- `d.get(k)` of a value that must be a dict, and none otherwise.
abbrev pub get_dict : String → Dict Json → Option (Dict Json)
get_dict k d = as_dict (get k d)

abbrev pub get_str : String → Dict Json → Option String
get_str k d = as_str (get k d)

abbrev pub is_none : Json → Bool
is_none null = true
is_none _ = false

-- A value of a text that may be `None`.
abbrev pub of_str : Option String → Json
of_str none = null
of_str (some s) = str s
