-- ===== src/Tests/Toon.antt =====
-- A table with a text that needs quotation marks, and a document.
use lobstr_mcp.Prelude.{String, true, false, [], ◌∷◌, some, if◌then◌else◌, ◌==◌, ◌≡◌, refl, map}
use lobstr_mcp.Prelude.Dict.{Dict, lookup}
use lobstr_mcp.Prelude.Int.{pos}
use lobstr_mcp.Json.{Json, int, str, list, dict}
use lobstr_mcp.Toon.{Codes, key, written}
use lobstr_mcp.Toon.Reading.{read_row}
use lobstr_mcp.Toon.Lines.{one_line}
use lobstr_mcp.Toon.Document.{Printing, row_values, table_row, to_toon}
use lobstr_mcp.Toon.Document.Tables.{shown, unpadded, read_row-table_row}

-- "q" is a text with a comma, a quotation mark and a line break.
abbrev codes : String → Codes
codes s =
    if s == "q"
    then 97 ∷ 44 ∷ 34 ∷ 10 ∷ 98 ∷ []
    else if s == "k"
    then 107 ∷ []
    else if s == "t"
    then 116 ∷ []
    else 120 ∷ []

abbrev printing : Printing
printing = record {
  strip = λ s. s;
  is_number = λ s. false;
  codes = codes;
  show_int = λ z. 55 ∷ [];
  show_float = λ bits. 56 ∷ [];
  show_count = λ n. 49 ∷ [];
  dumps = λ vs. 91 ∷ 93 ∷ [];
}

abbrev row : Dict Json
row = ("k", str "q") ∷ ("t", int (pos 7)) ∷ []

read_row-table_row_example :
    (one_line (table_row printing ("k" ∷ "gone" ∷ "t" ∷ []) 1 row) ≡ true)
    × (read_row 2 (unpadded 2 (table_row printing ("k" ∷ "gone" ∷ "t" ∷ []) 1 row))
        ≡ some (map (shown printing) (row_values ("k" ∷ "gone" ∷ "t" ∷ []) row)))
read_row-table_row_example =
    read_row-table_row printing "k" ("gone" ∷ "t" ∷ []) 1 row (λ z. (refl, refl, refl))
      (λ bits. (refl, refl, refl))

-- t[1]{k,t}: and, indented, "a,\"\nb",7
document_test :
    to_toon printing (dict (("t", list (dict row ∷ [])) ∷ []))
    ≡ (116 ∷ 91 ∷ 49 ∷ 93 ∷ 123 ∷ 107 ∷ 44 ∷ 116 ∷ 125 ∷ 58 ∷ [])
      ∷ (32 ∷ 32 ∷ 34 ∷ 97 ∷ 44 ∷ 92 ∷ 34 ∷ 92 ∷ 110 ∷ 98 ∷ 34 ∷ 44 ∷ 55 ∷ [])
      ∷ []
unfolding to_toon lookup key written
document_test = refl
