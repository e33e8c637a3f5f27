-- ===== src/Toon/Document/Tables.antt =====
-- The rows of a table are read back.
use lobstr_mcp.Prelude.{
  ℕ, zero, suc, String, true, false, List, [], ◌∷◌, Option, none, some, ◌++◌, ◌≡◌, refl, sym, ap,
  ◌∙◌, length, map,
}
use mathlib.Core.List.{append-nil}
use lobstr_mcp.Prelude.Int.{ℤ}
use lobstr_mcp.Prelude.Dict.{Dict}
use lobstr_mcp.Json.{Json, get, null, bool, int, float, str, arr, obj}
use lobstr_mcp.Toon.{Codes, comma, mark, occurs}
use lobstr_mcp.Toon.Reading.{
  read_cell, read_row, last_cell, further, with_cell, after, read_cell-plain, read_cell-written,
}
use lobstr_mcp.Toon.Lines.{one_line, one_line-append, one_line-written}
use lobstr_mcp.Toon.Document.{Printing, show_bool, cell, joined, row_values, table_row, padding}

-- A text that needs no quotation marks as a cell.
abbrev pub Plain : Codes → Type 0
Plain t = (occurs comma t ≡ false) × (occurs mark t ≡ false) × (one_line t ≡ true)

-- The text that a cell stands for.
abbrev pub shown : Printing → Json → Codes
shown p null = []
shown p (bool b) = show_bool b
shown p (int z) = p.show_int z
shown p (float bits) = p.show_float bits
shown p (str s) = p.codes s
shown p (arr vs) = []
shown p (obj ms) = []

module _ (p : Printing) (ints : (z : ℤ) → Plain (p.show_int z))
    (floats : (bits : ℕ) → Plain (p.show_float bits)) where
  read_cell-cell :
      (v : Json) (rest : Option Codes)
      → read_cell (cell p v ++ after rest) ≡ some (shown p v, after rest)
  unfolding cell
  read_cell-cell null rest = read_cell-plain [] rest refl refl
  read_cell-cell (bool true) rest = read_cell-plain (show_bool true) rest refl refl
  read_cell-cell (bool false) rest = read_cell-plain (show_bool false) rest refl refl
  read_cell-cell (int z) rest = read_cell-plain (p.show_int z) rest (ints z).0 (ints z).1
  read_cell-cell (float bits) rest =
      read_cell-plain (p.show_float bits) rest (floats bits).0 (floats bits).1
  read_cell-cell (str s) rest = read_cell-written p.strip p.is_number (p.codes s) rest
  read_cell-cell (arr vs) rest = read_cell-plain [] rest refl refl
  read_cell-cell (obj ms) rest = read_cell-plain [] rest refl refl

  read_row-joined :
      (v : Json) (vs : List Json)
      → read_row (length vs) (joined (map (cell p) (v ∷ vs))) ≡ some (map (shown p) (v ∷ vs))
  unfolding read_row last_cell further
  read_row-joined v [] =
      ap last_cell (ap read_cell (sym (append-nil (cell p v))) ∙ read_cell-cell v none)
  read_row-joined v (w ∷ vs) =
      ap (further (read_row (length vs))) (read_cell-cell v (some (joined (map (cell p) (w ∷ vs)))))
      ∙ ap (with_cell (shown p v)) (read_row-joined w vs)

  one_line-cell : (v : Json) → one_line (cell p v) ≡ true
  unfolding cell
  one_line-cell null = refl
  one_line-cell (bool true) = refl
  one_line-cell (bool false) = refl
  one_line-cell (int z) = (ints z).2
  one_line-cell (float bits) = (floats bits).2
  one_line-cell (str s) = one_line-written p.strip p.is_number (p.codes s) true
  one_line-cell (arr vs) = refl
  one_line-cell (obj ms) = refl

  one_line-joined : (vs : List Json) → one_line (joined (map (cell p) vs)) ≡ true
  one_line-joined [] = refl
  one_line-joined (v ∷ []) = one_line-cell v
  one_line-joined (v ∷ w ∷ vs) =
      one_line-append (cell p v) (comma ∷ joined (map (cell p) (w ∷ vs))) (one_line-cell v)
        (one_line-joined (w ∷ vs))

one_line-padding : (n : ℕ) → one_line (padding n) ≡ true
one_line-padding zero = refl
one_line-padding (suc n) = one_line-padding n

-- `line[len(pad):]`
abbrev pub unpadded : ℕ → Codes → Codes
unpadded zero line = line
unpadded (suc n) [] = []
unpadded (suc n) (c ∷ []) = []
unpadded (suc n) (c ∷ d ∷ line) = unpadded n line

unpadded-padding : (n : ℕ) (line : Codes) → unpadded n (padding n ++ line) ≡ line
unpadded-padding zero line = refl
unpadded-padding (suc n) line = unpadded-padding n line

length-row_values :
    (cols : List String) (row : Dict Json) → length (row_values cols row) ≡ length cols
length-row_values [] row = refl
length-row_values (c ∷ cols) row = ap suc (length-row_values cols row)

-- Whatever texts a row of a table holds, with commas, quotation marks or line breaks in them, it is
-- written on one line, and a reader that takes off the padding and knows how many columns the table
-- has reads from the line the text of each of its cells. Requires that no text of a number has a
-- comma, a quotation mark or a line break.
pub read_row-table_row :
    (p : Printing) (c : String) (cols : List String) (depth : ℕ) (row : Dict Json)
    → ((z : ℤ) → Plain (p.show_int z))
    → ((bits : ℕ) → Plain (p.show_float bits))
    → let line = table_row p (c ∷ cols) depth row in
      (one_line line ≡ true)
      × (read_row (length cols) (unpadded (suc depth) line)
          ≡ some (map (shown p) (row_values (c ∷ cols) row)))
unfolding table_row
read_row-table_row p c cols depth row ints floats = (
  one_line-append (padding (suc depth)) (joined (map (cell p) (row_values (c ∷ cols) row)))
      (one_line-padding (suc depth)) (one_line-joined p ints floats (row_values (c ∷ cols) row)),
  ap (read_row (length cols)) (unpadded-padding depth _)
      ∙ ap (λ n. read_row n (joined (map (cell p) (row_values (c ∷ cols) row))))
          (sym (length-row_values cols row))
      ∙ read_row-joined p ints floats (get c row) (row_values cols row),
)
