-- ===== src/Toon/Lines.antt =====
-- What the encoder writes of a text stands on one line.
use lobstr_mcp.Prelude.{
  ℕ, Bool, true, false, not, ◌&&◌, [], ◌∷◌, ◌++◌, ◌≡◌, refl, ap, ◌∙◌, arith, Bool-cases, inl, inr,
}
use lobstr_mcp.Toon.{Codes, same, occurs, mark, backslash, escaped, quote, needs_quote, written}
use lobstr_mcp.Toon.Reading.{same_eq, escaped-append}

-- There is no line feed and no carriage return in the text.
abbrev pub one_line : Codes → Bool
one_line [] = true
one_line (c ∷ s) = not (same c 10) && (not (same c 13) && one_line s)

pub one_line-append :
    (s r : Codes) → one_line s ≡ true → one_line r ≡ true → one_line (s ++ r) ≡ true
one_line-append [] r h k = k
one_line-append (c ∷ s) r h k =
    let rest = one_line-append s r (ground (arith, h)) k in ground (arith, h, rest)

escaped-one_line : (c : ℕ) → one_line (escaped (c ∷ [])) ≡ true
unfolding escaped
escaped-one_line c = elim (Bool-cases (same c backslash)) [
  | inl h ↦ rw (same_eq c backslash h) refl
  | inr h92 ↦ elim (Bool-cases (same c mark)) [
    | inl h ↦ rw (same_eq c mark h) refl
    | inr h34 ↦ elim (Bool-cases (same c 10)) [
      | inl h ↦ rw (same_eq c 10 h) refl
      | inr h10 ↦ elim (Bool-cases (same c 9)) [
        | inl h ↦ rw (same_eq c 9 h) refl
        | inr h9 ↦ elim (Bool-cases (same c 13)) [
          | inl h ↦ rw (same_eq c 13 h) refl
          | inr h13 ↦ rw (h92, h34, h10, h9, h13, h10, h13) refl
        ]
      ]
    ]
  ]
]

one_line-escaped : (s : Codes) → one_line (escaped s) ≡ true
unfolding escaped
one_line-escaped [] = refl
one_line-escaped (c ∷ s) =
    ap one_line (escaped-append (c ∷ []) s)
    ∙ one_line-append (escaped (c ∷ [])) (escaped s) (escaped-one_line c) (one_line-escaped s)

one_line-bare : (s : Codes) → occurs 10 s ≡ false → occurs 13 s ≡ false → one_line s ≡ true
one_line-bare [] h k = refl
one_line-bare (c ∷ s) h k =
    let rest = one_line-bare s (ground (arith, h)) (ground (arith, k)) in ground (arith, h, k, rest)

pub one_line-written :
    (strip : Codes → Codes) (is_number : Codes → Bool) (s : Codes) (in_cell : Bool)
    → one_line (written strip is_number s in_cell) ≡ true
unfolding written quote needs_quote
one_line-written strip is_number [] true = refl
one_line-written strip is_number [] false = refl
one_line-written strip is_number (c ∷ s) in_cell =
    elim (Bool-cases (needs_quote strip is_number (c ∷ s) in_cell)) [
      | inl h ↦ rw h (one_line-append (escaped (c ∷ s)) (mark ∷ []) (one_line-escaped (c ∷ s)) refl)
      | inr h ↦ rw h (one_line-bare (c ∷ s) (ground (arith, h)) (ground (arith, h)))
    ]
