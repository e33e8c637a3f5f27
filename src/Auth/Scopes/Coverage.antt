-- ===== src/Auth/Scopes/Coverage.antt =====
-- Which required scopes a grant covers.
use lobstr_mcp.Prelude.{
  String, Bool, not, ◌||◌, ◌&&◌, List, [], ◌∷◌, ◌++◌, ◌≡◌, refl, some, arith, contains, ◌==◌,
  keep_if, is_empty, if◌then◌else◌,
}
use lobstr_mcp.Prelude.Result.{ok, err}
use lobstr_mcp.Auth.Scopes.{account_read, profile_read, expand_granted, missing_of, check_scopes}

-- A scope is covered if it was granted, or if it is `profile:read` and `account:read` was granted.
abbrev pub covers : List String → String → Bool
covers granted s = contains s granted || (contains account_read granted && s == profile_read)

pub contains-append :
    (s : String) (xs ys : List String) → contains s (xs ++ ys) ≡ (contains s xs || contains s ys)
contains-append s [] ys = refl
contains-append s (x ∷ xs) ys = ground (arith, contains-append s xs ys)

pub contains-expand_granted :
    (s : String) (granted : List String)
    → contains s (expand_granted (some granted)) ≡ covers granted s
unfolding expand_granted
contains-expand_granted s granted = ground (arith, contains-append s granted (profile_read ∷ []))

missing_of-lem :
    (granted required : List String)
    → missing_of (expand_granted (some granted)) required
      ≡ keep_if (λ s. not (covers granted s)) required
unfolding missing_of
missing_of-lem granted [] = refl
missing_of-lem granted (s ∷ rest) =
    ground (arith, contains-expand_granted s granted, missing_of-lem granted rest)

-- The check raises exactly the required scopes that the grant does not cover, in their order,
-- and passes when there is none. `profile:read` is covered by `account:read`, and not conversely.
pub check_scopes-eq :
    (granted required : List String)
    → check_scopes (some granted) required ≡ (
        let missing = keep_if (λ s. not (covers granted s)) required in
        if is_empty missing then ok tt else err missing)
unfolding check_scopes
check_scopes-eq granted required = cc (missing_of-lem granted required)
