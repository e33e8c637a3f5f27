-- ===== src/Toon/Document.antt =====
-- toon.py: `to_toon`, the lines of a document. The code points of a text, the text of a number and
-- `json.dumps` are parameters.
pub mod Tables
use lobstr_mcp.Prelude.{
  ℕ, zero, suc, String, Bool, true, false, not, ◌||◌, ◌&&◌, List, [], ◌∷◌, Option, none, some,
  if◌then◌else◌, ◌++◌, contains, length, map,
}
use lobstr_mcp.Prelude.Int.{ℤ}
use lobstr_mcp.Prelude.Dict.{Dict}
use lobstr_mcp.Json.{
  Json, null, bool, int, float, str, arr, obj, Items, nil, cons, Members, end, member, items, get,
  members, of_members,
}
use lobstr_mcp.Toon.{Codes, comma, written, key}

pub record Printing : Type 0 where
  pub strip : Codes → Codes
  pub is_number : Codes → Bool
  pub codes : String → Codes
  pub show_int : ℤ → Codes
  -- `_num` of a float
  pub show_float : ℕ → Codes
  pub show_count : ℕ → Codes
  pub dumps : List Json → Codes

abbrev pub show_bool : Bool → Codes
show_bool true = 116 ∷ 114 ∷ 117 ∷ 101 ∷ []
show_bool false = 102 ∷ 97 ∷ 108 ∷ 115 ∷ 101 ∷ []

abbrev pub show_null : Codes
show_null = 110 ∷ 117 ∷ 108 ∷ 108 ∷ []

abbrev pub is_nested : Json → Bool
is_nested (arr vs) = true
is_nested (obj ms) = true
is_nested v = false

abbrev pub any_nested : List Json → Bool
any_nested [] = false
any_nested (v ∷ vs) = is_nested v || any_nested vs

-- The dicts of a list, when all are dicts.
unfoldable pub rows_of_items : Items → Option (List (Dict Json))
rows_of_items nil = some []
rows_of_items (cons (obj ms) vs) = elim (rows_of_items vs) [
  | none ↦ none
  | some rows ↦ some (members ms ∷ rows)
]
rows_of_items (cons v vs) = none

unfoldable pub seen_columns : Dict Json → List String → List String
seen_columns [] cols = cols
seen_columns ((k, v) ∷ row) cols =
    seen_columns row (if contains k cols then cols else cols ++ (k ∷ []))

-- The columns of a table, in the order in which they are first seen.
unfoldable pub columns : List (Dict Json) → List String → List String
unfolding seen_columns
columns [] cols = cols
columns (row ∷ rows) cols = columns rows (seen_columns row cols)

-- `row.get(c)` for every column
abbrev pub row_values : List String → Dict Json → List Json
row_values [] row = []
row_values (c ∷ cols) row = get c row ∷ row_values cols row

unfoldable pub flat : List String → List (Dict Json) → Bool
flat cols [] = true
flat cols (row ∷ rows) = not (any_nested (row_values cols row)) && flat cols rows

abbrev pub joined : List Codes → Codes
joined [] = []
joined (s ∷ []) = s
joined (s ∷ t ∷ rest) = s ++ (comma ∷ joined (t ∷ rest))

abbrev pub padding : ℕ → Codes
padding zero = []
padding (suc n) = 32 ∷ 32 ∷ padding n

module _ (p : Printing) where
  -- `_scalar`; a nested value does not come to it.
  unfoldable pub scalar : Json → Codes
  scalar null = show_null
  scalar (bool b) = show_bool b
  scalar (int z) = p.show_int z
  scalar (float bits) = p.show_float bits
  scalar (str s) = written p.strip p.is_number (p.codes s) false
  scalar (arr vs) = []
  scalar (obj ms) = []

  -- `_cell`; a nested value does not come to it.
  unfoldable pub cell : Json → Codes
  cell null = []
  cell (bool b) = show_bool b
  cell (int z) = p.show_int z
  cell (float bits) = p.show_float bits
  cell (str s) = written p.strip p.is_number (p.codes s) true
  cell (arr vs) = []
  cell (obj ms) = []

  abbrev pub key_of : String → Codes
  key_of k = key p.strip p.is_number (p.codes k)

  -- `{pad}{_key(key)}[{n}]`
  abbrev pub counted : String → ℕ → ℕ → Codes
  counted k n depth = padding depth ++ (key_of k ++ (91 ∷ (p.show_count n ++ (93 ∷ []))))

  unfoldable pub table_row : List String → ℕ → Dict Json → Codes
  unfolding cell
  table_row cols depth row = padding (suc depth) ++ joined (map cell (row_values cols row))

  unfoldable pub table : String → List String → List (Dict Json) → ℕ → List Codes
  unfolding table_row
  table k cols rows depth =
      (counted k (length rows) depth ++ (123 ∷ (joined (map key_of cols) ++ (125 ∷ 58 ∷ []))))
      ∷ map (table_row cols depth) rows

  -- Anything that is no table is written as JSON.
  unfoldable pub as_json : String → List Json → ℕ → List Codes
  as_json k vs depth = (counted k (length vs) depth ++ (58 ∷ 32 ∷ p.dumps vs)) ∷ []

  unfoldable pub emit_rows : String → List Json → Option (List (Dict Json)) → ℕ → List Codes
  unfolding table as_json flat columns
  emit_rows k vs none depth = as_json k vs depth
  emit_rows k vs (some rows) depth =
      let cols = columns rows [] in
      if flat cols rows then table k cols rows depth else as_json k vs depth

  -- `_emit_array`
  unfoldable pub emit_array : String → Items → ℕ → List Codes
  unfolding emit_rows cell rows_of_items
  emit_array k nil depth = (counted k 0 depth ++ (58 ∷ [])) ∷ []
  emit_array k (cons v vs) depth =
      if not (any_nested (v ∷ items vs))
      then (counted k (length (v ∷ items vs)) depth ++ (58 ∷ 32 ∷ joined (map cell (v ∷ items vs))))
        ∷ []
      else emit_rows k (v ∷ items vs) (rows_of_items (cons v vs)) depth

  unfoldable mutual
    unfolding emit_array scalar

    -- `_emit_kv`
    pub emit_kv : String → Json → ℕ → List Codes
    emit_kv k (obj ms) depth =
        (padding depth ++ (key_of k ++ (58 ∷ []))) ∷ emit_members ms (suc depth)
    emit_kv k (arr vs) depth = emit_array k vs depth
    emit_kv k v depth = (padding depth ++ (key_of k ++ (58 ∷ 32 ∷ scalar v))) ∷ []

    pub emit_members : Members → ℕ → List Codes
    emit_members end depth = []
    emit_members (member k v ms) depth = emit_kv k v depth ++ emit_members ms depth

  -- The lines of `to_toon`.
  unfoldable pub to_toon : Json → List Codes
  unfolding emit_array scalar emit_kv
  to_toon (obj ms) = emit_members ms 0
  to_toon (arr vs) = emit_array "items" vs 0
  to_toon v = scalar v ∷ []
