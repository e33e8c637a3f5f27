-- ===== src/Toon/Reading.antt =====
-- A reader of the cells of a row, and the proof that it reads back what the encoder writes.
use lobstr_mcp.Prelude.{
  ℕ, Bool, true, false, List, [], ◌∷◌, Option, none, some, if◌then◌else◌, ◌++◌, ◌≡◌, refl, zero,
  suc, sym, ap, ◌∙◌, arith, Bool-cases, inl, inr,
}
use mathlib.Core.List.{append_assoc}
use lobstr_mcp.Toon.{
  Codes, same, occurs, replace_all, mark, backslash, comma, escaped, quote, needs_quote, written,
}

-- What an escaped character stands for.
abbrev pub meaning : ℕ → ℕ
meaning c = if same c 110 then 10 else if same c 116 then 9 else if same c 114 then 13 else c

abbrev pub onto : ℕ → Option (Codes × Codes) → Option (Codes × Codes)
onto c none = none
onto c (some (s, rest)) = some (c ∷ s, rest)

-- The text up to the closing mark, and what follows it; the flag says that a backslash came before.
unfoldable pub read_quoted : Bool → Codes → Option (Codes × Codes)
read_quoted after [] = none
read_quoted true (c ∷ s) = onto (meaning c) (read_quoted false s)
read_quoted false (c ∷ s) =
    if same c mark
    then some ([], s)
    else if same c backslash
    then read_quoted true s
    else onto c (read_quoted false s)

pub same_eq : (a b : ℕ) → same a b ≡ true → a ≡ b
same_eq a b h = ground (arith, h)

replace_all-append :
    (c : ℕ) (t s r : Codes) → replace_all c t (s ++ r) ≡ replace_all c t s ++ replace_all c t r
replace_all-append c t [] r = refl
replace_all-append c t (x ∷ s) r =
    ap (λ q. (if same x c then t else x ∷ []) ++ q) (replace_all-append c t s r)
    ∙ sym (append_assoc (if same x c then t else x ∷ []) (replace_all c t s) (replace_all c t r))

pub escaped-append : (s r : Codes) → escaped (s ++ r) ≡ escaped s ++ escaped r
unfolding escaped
escaped-append s r =
    rw
      (
        replace_all-append, replace_all-append, replace_all-append, replace_all-append,
        replace_all-append,
      )
      refl

escaped_one :
    (c : ℕ) (rest : Codes)
    → read_quoted false (escaped (c ∷ []) ++ rest) ≡ onto c (read_quoted false rest)
unfolding read_quoted escaped
escaped_one c rest = elim (Bool-cases (same c backslash)) [
  | inl h ↦ rw (same_eq c backslash h) refl
  | inr h92 ↦ elim (Bool-cases (same c mark)) [
    | inl h ↦ rw (same_eq c mark h) refl
    | inr h34 ↦ elim (Bool-cases (same c 10)) [
      | inl h ↦ rw (same_eq c 10 h) refl
      | inr h10 ↦ elim (Bool-cases (same c 9)) [
        | inl h ↦ rw (same_eq c 9 h) refl
        | inr h9 ↦ elim (Bool-cases (same c 13)) [
          | inl h ↦ rw (same_eq c 13 h) refl
          | inr h13 ↦ rw (h92, h34, h10, h9, h13, h34, h92) refl
        ]
      ]
    ]
  ]
]

read-escaped : (s rest : Codes) → read_quoted false (escaped s ++ (mark ∷ rest)) ≡ some (s, rest)
unfolding read_quoted escaped
read-escaped [] rest = refl
read-escaped (c ∷ s) rest =
    ap (λ e. read_quoted false (e ++ (mark ∷ rest))) (escaped-append (c ∷ []) s)
    ∙ ap (read_quoted false) (append_assoc (escaped (c ∷ [])) (escaped s) (mark ∷ rest))
    ∙ escaped_one c (escaped s ++ (mark ∷ rest))
    ∙ ap (onto c) (read-escaped s rest)

-- A bare cell ends before the next comma or with the row.
unfoldable read_bare : Codes → Codes × Codes
read_bare [] = ([], [])
read_bare (c ∷ s) =
    let (t, rest) = read_bare s in if same c comma then ([], c ∷ s) else (c ∷ t, rest)

unfoldable pub read_cell : Codes → Option (Codes × Codes)
unfolding read_bare read_quoted
read_cell [] = some ([], [])
read_cell (c ∷ s) = if same c mark then read_quoted false s else some (read_bare (c ∷ s))

-- What follows the first cell of a row that has no more columns.
unfoldable pub last_cell : Option (Codes × Codes) → Option (List Codes)
last_cell none = none
last_cell (some (t, [])) = some (t ∷ [])
last_cell (some (t, c ∷ rest)) = none

abbrev pub with_cell : Codes → Option (List Codes) → Option (List Codes)
with_cell t none = none
with_cell t (some ts) = some (t ∷ ts)

-- What follows a cell of a row that has more columns.
unfoldable pub further :
    (Codes → Option (List Codes)) → Option (Codes × Codes) → Option (List Codes)
further reads none = none
further reads (some (t, [])) = none
further reads (some (t, c ∷ rest)) = if same c comma then with_cell t (reads rest) else none

-- The cells of a row that has one column more than the number.
unfoldable pub read_row : ℕ → Codes → Option (List Codes)
unfolding last_cell read_cell further
read_row zero s = last_cell (read_cell s)
read_row (suc n) s = further (read_row n) (read_cell s)

-- The end of a row, or a comma and further cells.
abbrev pub after : Option Codes → Codes
after none = []
after (some rest) = comma ∷ rest

read_bare-append :
    (s : Codes) (rest : Option Codes)
    → occurs comma s ≡ false
    → read_bare (s ++ after rest) ≡ (s, after rest)
unfolding read_bare
read_bare-append [] none h = refl
read_bare-append [] (some rest) h = refl
read_bare-append (c ∷ s) rest h = elim (Bool-cases (same c comma)) [
  | inl stop ↦ absurd (ground (arith, h, stop))
  | inr on ↦ rw (on, read_bare-append s rest (ground (arith, h, on))) refl
]

-- A text without a comma or a mark is a cell as it is.
pub read_cell-plain :
    (s : Codes) (rest : Option Codes)
    → occurs comma s ≡ false
    → occurs mark s ≡ false
    → read_cell (s ++ after rest) ≡ some (s, after rest)
unfolding read_cell
read_cell-plain [] none h m = refl
read_cell-plain [] (some rest) h m = refl
read_cell-plain (c ∷ s) rest h m =
    let plain : same c mark ≡ false = ground (arith, m) in
    rw plain (ap some (read_bare-append (c ∷ s) rest h))

module _ (strip : Codes → Codes) (is_number : Codes → Bool) where
  read_cell-quote : (s : Codes) (rest : Codes) → read_cell (quote s ++ rest) ≡ some (s, rest)
  unfolding read_cell quote
  read_cell-quote s rest =
      ap (read_quoted false) (append_assoc (escaped s) (mark ∷ []) rest) ∙ read-escaped s rest

  read_cell-bare :
      (s : Codes) (rest : Option Codes)
      → needs_quote strip is_number s true ≡ false
      → read_cell (s ++ after rest) ≡ some (s, after rest)
  unfolding needs_quote
  read_cell-bare [] rest h = read_cell-plain [] rest refl refl
  read_cell-bare (c ∷ s) rest h =
      read_cell-plain (c ∷ s) rest (ground (arith, h)) (ground (arith, h))

  pub read_cell-written :
      (s : Codes) (rest : Option Codes)
      → read_cell (written strip is_number s true ++ after rest) ≡ some (s, after rest)
  unfolding written
  read_cell-written s rest = elim (Bool-cases (needs_quote strip is_number s true)) [
    | inl h ↦ rw h (read_cell-quote s (after rest))
    | inr h ↦ rw h (read_cell-bare s rest h)
  ]
