-- ===== src/Auth/Provider/Grants.antt =====
-- What `_effective_scopes` lets through.
use lobstr_mcp.Prelude.{
  String, Bool, true, false, ◌||◌, ◌&&◌, List, [], ◌∷◌, Option, some, ◌≡◌, refl, arith, contains,
  is_empty, keep_if, all, any, not, ◌↔◌, or_else, eq_refl,
}
use lobstr_mcp.Prelude.Result.{ok, err}
use lobstr_mcp.Auth.Provider.State.{Raised, effective_scopes, invalid_grant}

-- A grant with no scopes at all does not restrict what is asked for.
abbrev pub within : List String → List String → Bool
within scopes granted = is_empty granted || all (λ s. contains s granted) scopes

all-keep_if : (p : String → Bool) (xs : List String) → all p (keep_if p xs) ≡ true
all-keep_if p [] = refl
all-keep_if p (x ∷ xs) = ground (arith, all-keep_if p xs)

all-contains-cons :
    (x : String) (xs ys : List String)
    → all (λ s. contains s xs) ys ≡ true
    → all (λ s. contains s (x ∷ xs)) ys ≡ true
all-contains-cons x xs [] h = refl
all-contains-cons x xs (y ∷ ys) h = ground (arith, all-contains-cons x xs ys)

pub all-contains_self : (xs : List String) → all (λ s. contains s xs) xs ≡ true
all-contains_self [] = refl
all-contains_self (x ∷ xs) =
    ground (arith, all-contains-cons x xs xs (all-contains_self xs), eq_refl x)

all-contains-keep_if :
    (p : String → Bool) (xs : List String) → all (λ s. contains s xs) (keep_if p xs) ≡ true
all-contains-keep_if p [] = refl
all-contains-keep_if p (x ∷ xs) =
    ground (arith, all-contains-cons x xs (keep_if p xs) (all-contains-keep_if p xs), eq_refl x)

-- The scopes that are issued lie in the grant if it names any, lie in the request if it names
-- any, and are empty only if both are.
pub effective_scopes-within :
    (requested granted : Option (List String)) (scopes : List String)
    → effective_scopes requested granted ≡ ok scopes
    → (within scopes (or_else granted []) ≡ true)
      × (within scopes (or_else requested []) ≡ true)
      × (is_empty scopes ≡ (is_empty (or_else granted []) && is_empty (or_else requested [])))
unfolding effective_scopes
effective_scopes-within requested granted scopes h = ground (
  arith,
  all-keep_if (λ s. contains s (or_else granted [])) (or_else requested []),
  all-contains-keep_if (λ s. contains s (or_else granted [])) (or_else requested []),
  all-contains_self (or_else granted []),
  all-contains_self (or_else requested []),
)

any-keep_if : (p : String → Bool) (xs : List String) → any p xs ≡ not (is_empty (keep_if p xs))
any-keep_if p [] = refl
any-keep_if p (x ∷ xs) = ground (arith, any-keep_if p xs)

-- A request is refused exactly when it names scopes, the grant names scopes, and they share none.
pub effective_scopes_refused_iff :
    (requested granted : Option (List String))
    → ((e : Raised) × (effective_scopes requested granted ≡ err e)) ↔ (
        (is_empty (or_else requested []) ≡ false)
        × (is_empty (or_else granted []) ≡ false)
        × (any (λ s. contains s (or_else granted [])) (or_else requested []) ≡ false))
unfolding effective_scopes
effective_scopes_refused_iff requested granted = (
  λ (e, h).
      ground (arith, any-keep_if (λ s. contains s (or_else granted [])) (or_else requested [])),
  λ h. (
    invalid_grant "none of the requested scopes were granted by the user",
    ground (arith, any-keep_if (λ s. contains s (or_else granted [])) (or_else requested [])),
  ),
)

-- A grant that carries no scope at all issues every scope that the client asked for.
pub effective_scopes_of_empty_grant :
    (requested : List String) → effective_scopes (some requested) (some []) ≡ ok requested
unfolding effective_scopes
effective_scopes_of_empty_grant requested = refl
