-- ===== src/Auth/Scopes.antt =====
-- auth/scopes.py: the scopes, and the check that every tool makes of them.
pub mod Coverage
use lobstr_mcp.Prelude.{
  String, Bool, true, false, not, List, [], ◌∷◌, Option, none, some, ◌++◌, if◌then◌else◌, contains,
  is_empty, keep_if, or_else,
}
use lobstr_mcp.Prelude.Result.{Result, ok, err}

abbrev pub crawlers_read : String
crawlers_read = "crawlers:read"

abbrev pub runs_read : String
runs_read = "runs:read"

abbrev pub results_read : String
results_read = "results:read"

abbrev pub profile_read : String
profile_read = "profile:read"

abbrev pub account_read : String
account_read = "account:read"

abbrev pub runs_execute : String
runs_execute = "runs:execute"

abbrev pub all_scopes : List String
all_scopes =
    crawlers_read ∷ runs_read ∷ results_read ∷ profile_read ∷ account_read ∷ runs_execute ∷ []

-- `_IMPLIED_SCOPES`
abbrev pub implied_scopes : List (String × List String)
implied_scopes = (account_read, profile_read ∷ []) ∷ []

-- The loop over `_IMPLIED_SCOPES`. A set is a list that is only asked what it contains.
imply : List (String × List String) → List String → List String
imply [] out = out
imply ((scope, implied) ∷ rest) out =
    imply rest (if contains scope out then out ++ implied else out)

-- `granted or []`, for an argument that may be `None`.
unfoldable pub expand_granted : Option (List String) → List String
unfolding imply
expand_granted granted = imply implied_scopes (or_else granted [])

missing_of : List String → List String → List String
missing_of granted_set required = keep_if (λ s. not (contains s granted_set)) required

-- `err missing` is the `ScopeError` with its list.
unfoldable pub check_scopes : Option (List String) → List String → Result (List String) (Unit {0})
unfolding expand_granted missing_of
check_scopes granted required =
    let missing = missing_of (expand_granted granted) required in
    if is_empty missing then ok tt else err missing
