-- ===== src/Schema/Alias/Fresh.antt =====
-- An alias is never a name that is already published.
use text.Mathlib.TextLemmas.{append_cancel_left, length-append}
use Prim.Native.String.{count}
use lobstr_mcp.Prelude.{
  ℕ, zero, suc, ◌≤◌, ◌<◌, String, ◌<>◌, true, false, [], ◌∷◌, Option, ◌≡◌, refl, ◌≢◌, sym, ap, ◌∙◌,
  arith, eq_iff, length, Bool-cases, inl, inr,
}
use lobstr_mcp.Prelude.Dict.{Dict, lookup, has, erase, lookup-erase}
use lobstr_mcp.Json.{Json}
use lobstr_mcp.Schema.Items.{normalized_level}
use lobstr_mcp.Schema.Alias.{candidate, first_free, alias_name}

length-erase_le {ℓ} : {V : Type ℓ} (k : String) (d : Dict V) → length (erase k d) ≤ length d
unfolding erase
length-erase_le k [] = omega arith
length-erase_le k ((j, v) ∷ d) = ground (arith, length-erase_le k d)

length-erase_lt {ℓ} :
    {V : Type ℓ} (k : String) (d : Dict V) → has k d ≡ true → length (erase k d) < length d
unfolding erase lookup
length-erase_lt k [] h = absurd (cc h)
length-erase_lt k ((j, v) ∷ d) h = ground (arith, length-erase_le k d, length-erase_lt k d)

has-erase_ne {ℓ} : {V : Type ℓ} (k j : String) (d : Dict V) → k ≢ j → has j (erase k d) ≡ has j d
has-erase_ne k j d h = ground (arith, lookup-erase k j d, eq_iff k j)

module _ {ℓ} {V : Type ℓ} (cand : ℕ → String)
    (inj : (i j : ℕ) → 1 ≤ i → i < j → cand i ≢ cand j) where
  first_free-erase :
      (fuel n m : ℕ) (d : Dict V)
      → 1 ≤ m
      → m < n
      → first_free cand fuel n (erase (cand m) d) ≡ first_free cand fuel n d
  unfolding first_free
  first_free-erase zero n m d one h = refl
  first_free-erase (suc fuel) n m d one h = ground (
    arith,
    has-erase_ne (cand m) (cand n) d (inj m n one h),
    first_free-erase fuel (suc n) m d one (omega arith),
  )

  first_free-ne : (fuel n m : ℕ) (d : Dict V) → 1 ≤ m → m < n → cand m ≢ first_free cand fuel n d
  unfolding first_free
  first_free-ne zero n m d one h = inj m n one h
  first_free-ne (suc fuel) n m d one h =
      ground (arith, inj m n one h, first_free-ne fuel (suc n) m d one (omega arith))

  -- More tries than names: one of the candidates is free, and the loop ends at it.
  first_free_lem :
      (fuel n : ℕ) (d : Dict V) → 1 ≤ n → length d < fuel → has (first_free cand fuel n d) d ≡ false
  unfolding first_free
  first_free_lem zero n d one h = absurd (omega arith)
  first_free_lem (suc fuel) n d one h = elim (Bool-cases (has (cand n) d)) [
    | inl used ↦
        let shorter = length-erase_lt (cand n) d used in
        let free = first_free_lem fuel (suc n) (erase (cand n) d) (omega arith) (omega arith) in
        let same = first_free-erase fuel (suc n) n d one (omega arith) in
        let differs = first_free-ne fuel (suc n) n d one (omega arith) in
        rw used (
          sym (has-erase_ne (cand n) (first_free cand fuel (suc n) d) d differs)
          ∙ ap (λ x. has x (erase (cand n) d)) (sym same)
          ∙ free)
    | inr unused ↦ rw unused unused
  ]

base-ne : (base rest : String) → base ≢ base <> ("_" <> rest)
base-ne base rest e =
    let l = ap count e in
    absurd (omega (arith, l, length-append base ("_" <> rest), length-append "_" rest))

candidate_inj :
    (show : ℕ → String) (base : String)
    → ((i j : ℕ) → show i ≡ show j → i ≡ j)
    → (i j : ℕ) → 1 ≤ i
    → i < j
    → candidate show base i ≢ candidate show base j
unfolding candidate
candidate_inj show base distinct zero j one h e = absurd (omega arith)
candidate_inj show base distinct (suc zero) zero one h e = absurd (omega arith)
candidate_inj show base distinct (suc zero) (suc zero) one h e = absurd (omega arith)
candidate_inj show base distinct (suc zero) (suc (suc j)) one h e = base-ne base _ e
candidate_inj show base distinct (suc (suc i)) zero one h e = absurd (omega arith)
candidate_inj show base distinct (suc (suc i)) (suc zero) one h e = absurd (omega arith)
candidate_inj show base distinct (suc (suc i)) (suc (suc j)) one h e =
    let same =
      distinct (suc (suc i)) (suc (suc j))
        (append_cancel_left "_" _ _ (append_cancel_left base _ _ e)) in
    absurd (omega arith)

-- The alias of a shadowed input is none of the names that are published already, where numbers
-- are written distinctly.
pub alias_name-fresh :
    (show : ℕ → String) (level : Option String) (name : String) (taken : Dict (Dict Json))
    → ((i j : ℕ) → show i ≡ show j → i ≡ j)
    → has (alias_name show level name taken) taken ≡ false
unfolding alias_name
alias_name-fresh show level name taken distinct =
    first_free_lem (candidate show (normalized_level level <> ("_" <> name)))
      (candidate_inj show _ distinct) (suc (length taken)) 1 taken (omega arith) (omega arith)
