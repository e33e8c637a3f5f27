-- ===== src/Toon.antt =====
-- toon.py: how a text, a key and a cell of a table are written. A text is the list of its code
-- points; `str.strip` and the pattern of numbers are parameters.
pub mod Reading
pub mod Lines
pub mod Document
use Prim.Native.Nat.{compare, Ordering}
use lobstr_mcp.Prelude.{ℕ, Bool, true, false, not, ◌||◌, ◌&&◌, List, [], ◌∷◌, if◌then◌else◌, ◌++◌}

abbrev pub Codes : Type 0
Codes = List ℕ

abbrev pub same : ℕ → ℕ → Bool
same a b = elim (compare a b) [ Ordering.eq ↦ true | _ ↦ false ]

abbrev pub same_codes : Codes → Codes → Bool
same_codes [] [] = true
same_codes [] (y ∷ ys) = false
same_codes (x ∷ xs) [] = false
same_codes (x ∷ xs) (y ∷ ys) = same x y && same_codes xs ys

-- `c in s`
abbrev pub occurs : ℕ → Codes → Bool
occurs c [] = false
occurs c (x ∷ s) = same x c || occurs c s

-- `any(c in s for c in chars)`
abbrev pub any_of : Codes → Codes → Bool
any_of [] s = false
any_of (c ∷ chars) s = occurs c s || any_of chars s

-- `s.replace(c, t)` for a single character
abbrev pub replace_all : ℕ → Codes → Codes → Codes
replace_all c t [] = []
replace_all c t (x ∷ s) = (if same x c then t else x ∷ []) ++ replace_all c t s

-- The quotation mark, the backslash, the comma and the colon.
abbrev pub mark : ℕ
mark = 34

abbrev pub backslash : ℕ
backslash = 92

abbrev pub comma : ℕ
comma = 44

-- `,:{}[]"` and the three control characters
abbrev pub key_unsafe : Codes
key_unsafe = 44 ∷ 58 ∷ 123 ∷ 125 ∷ 91 ∷ 93 ∷ 34 ∷ 10 ∷ 9 ∷ 13 ∷ []

-- `[{#-&*!|>%@`"'`
abbrev pub lead_unsafe : Codes
lead_unsafe = 91 ∷ 123 ∷ 35 ∷ 45 ∷ 38 ∷ 42 ∷ 33 ∷ 124 ∷ 62 ∷ 37 ∷ 64 ∷ 96 ∷ 34 ∷ 39 ∷ []

-- `true`, `false` and `null`
abbrev pub is_literal : Codes → Bool
is_literal s =
    same_codes s (116 ∷ 114 ∷ 117 ∷ 101 ∷ [])
    || (same_codes s (102 ∷ 97 ∷ 108 ∷ 115 ∷ 101 ∷ []) || same_codes s (110 ∷ 117 ∷ 108 ∷ 108 ∷ []))

-- The replacements of `_quote`
unfoldable pub escaped : Codes → Codes
escaped s = replace_all 13 (backslash ∷ 114 ∷ []) (
    replace_all 9 (backslash ∷ 116 ∷ []) (
      replace_all 10 (backslash ∷ 110 ∷ []) (
        replace_all mark (backslash ∷ mark ∷ [])
          (replace_all backslash (backslash ∷ backslash ∷ []) s))))

-- `_quote`
unfoldable pub quote : Codes → Codes
unfolding escaped
quote s = mark ∷ (escaped s ++ (mark ∷ []))

module _ (strip : Codes → Codes) (is_number : Codes → Bool) where
  -- `_needs_quote`
  unfoldable pub needs_quote : Codes → Bool → Bool
  needs_quote [] in_cell = not in_cell
  needs_quote (c ∷ s) in_cell =
      not (same_codes (c ∷ s) (strip (c ∷ s)))
      || (any_of (mark ∷ 10 ∷ 9 ∷ 13 ∷ []) (c ∷ s)
          || (occurs 58 (c ∷ s)
              || ((in_cell && occurs comma (c ∷ s))
                  || ((is_literal (c ∷ s) || is_number (c ∷ s)) || occurs c lead_unsafe))))

  -- The end of `_scalar` and of `_cell`: a text in the position of a value and in a cell.
  unfoldable pub written : Codes → Bool → Codes
  unfolding needs_quote quote
  written s in_cell = if needs_quote s in_cell then quote s else s

  -- `_key`
  unfoldable pub key : Codes → Codes
  unfolding quote
  key [] = quote []
  key (c ∷ k) =
      if not (same_codes (c ∷ k) (strip (c ∷ k))) || any_of key_unsafe (c ∷ k)
      then quote (c ∷ k)
      else c ∷ k
