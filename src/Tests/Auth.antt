-- ===== src/Tests/Auth.antt =====
-- A consent flow from `authorize` to the access token, and the theorems along it.
use lobstr_mcp.Prelude.{
  ◌*◌, ◌+◌, String, true, not, ◌&&◌, List, [], ◌∷◌, none, some, ◌≡◌, refl, arith, if◌then◌else◌,
  ◌==◌, leb, eq_iff, is_empty, keep_if,
}
use lobstr_mcp.Prelude.Dict.{lookup, insert, erase}
use lobstr_mcp.Prelude.Result.{ok, err}
use lobstr_mcp.Auth.Scopes.{check_scopes}
use lobstr_mcp.Auth.Scopes.Coverage.{covers, check_scopes-eq}
use lobstr_mcp.Auth.TokenStore
use lobstr_mcp.Auth.TokenStore.{TokenLink, is_expired}
use lobstr_mcp.Auth.Provider.State.{
  ClientInfo, AuthorizationParams, AuthorizationCode, RefreshToken, AccessToken, Provider,
  invalid_grant, effective_scopes, prune_pending, seconds,
}
use lobstr_mcp.Auth.Provider.Consent.{Environment, authorize, complete_consent}
use lobstr_mcp.Auth.Provider.Exchange.{
  load_authorization_code, exchange_authorization_code, load_refresh_token, exchange_refresh_token,
  load_access_token, revoke_token,
}
use lobstr_mcp.Auth.Provider.Grants.{within, effective_scopes-within}
use lobstr_mcp.Auth.Provider.Lifecycle.{
  exchange_authorization_code_once, exchange_refresh_token_once, load_access_token-exchange,
  revoke_token_lem, complete_consent_retry,
}
use lobstr_mcp.Auth.Provider.Flow.{empty, Reach, here, next, ask, consent, exchange, Redeemed}
use lobstr_mcp.Auth.Provider.Flow.Reached.{load_access_token-IsBacked}

abbrev ann : TokenLink
ann = record {
  lobstr_user_id = "ann";
  lobstr_api_token = "secret";
  scopes = "runs:read" ∷ "runs:execute" ∷ [];
  expires_at = none;
}

-- The grant "good" is Ann's; redeeming any other fails.
abbrev env : Environment
env = record {
  construct_redirect_uri = λ base pairs. base;
  hostname = λ uri. some "host";
  join = λ scopes. "";
  redeem_grant = λ grant. if grant == "good" then ok ann else err "grant redeem failed";
  consent_url = "https://consent";
}

abbrev client : ClientInfo
client = record { client_id = "c"; client_name = none; redirect_uris = "https://host/cb" ∷ [] }

abbrev params : AuthorizationParams
params = record {
  state = some "st";
  scopes = some ("runs:read" ∷ "profile:read" ∷ []);
  code_challenge = "x";
  redirect_uri = "https://host/cb";
  redirect_uri_provided_explicitly = true;
  resource = none;
}

flow : Unit {0}
unfolding authorize complete_consent exchange_authorization_code load_authorization_code
    load_access_token load_refresh_token exchange_refresh_token revoke_token prune_pending
    effective_scopes TokenStore.get TokenStore.put TokenStore.revoke lookup insert erase is_expired
flow = tt

abbrev asked : Provider
asked = (authorize env empty 5000000 "rid" client params).1

abbrev consented : Provider
consented = (complete_consent env asked 6000000 "code" "rid" "good").1

abbrev code : AuthorizationCode
code = record {
  code = "code";
  scopes = "runs:read" ∷ [];
  expires_at = 606;
  client_id = "c";
  code_challenge = "x";
  redirect_uri = "https://host/cb";
  redirect_uri_provided_explicitly = true;
  resource = none;
  subject = "ann";
}

load_test : load_authorization_code consented 7000000 "code" ≡ some code
unfolding flow
load_test = refl

abbrev exchanged : Provider
exchanged = (exchange_authorization_code consented 7000000 "at" "rt" client code).1

abbrev access : AccessToken
access = record {
  token = "at";
  client_id = "ann";
  scopes = "runs:read" ∷ [];
  expires_at = some 3607;
  subject = "ann";
  lobstr_token = "secret";
  lobstr_user_id = "ann";
}

access_test :
    ((load_access_token exchanged 8000000 "at").0 ≡ some access)
    × ((load_access_token exchanged 3607000000 "at").0 ≡ none)
unfolding flow
access_test = (refl, refl)

reached : Reach env empty exchanged
reached =
    next
      (next (next here (ask empty 5000000 "rid" client params))
        (consent asked 6000000 "code" "rid" "good"))
      (exchange consented 7000000 "code" "at" "rt" client code load_test)

load_access_token-IsBacked_example :
    (link : TokenLink) × Redeemed env link
    × ("ann" ≡ link.lobstr_user_id)
    × ("secret" ≡ link.lobstr_api_token)
    × (within ("runs:read" ∷ []) link.scopes ≡ true)
load_access_token-IsBacked_example =
    load_access_token-IsBacked env {s = exchanged} 8000000 "at" access reached access_test.0

exchange_authorization_code_once_example :
    let s' = (exchange_authorization_code consented 7000000 "at" "rt" client code).1 in
    let again = exchange_authorization_code s' 8000000 "at2" "rt2" client code in
    (load_authorization_code s' 8000000 "code" ≡ none)
    × (again.0 ≡ err (invalid_grant "unknown or already-used authorization code"))
    × (again.1.tokens ≡ s'.tokens)
    × (again.1.refreshes ≡ s'.refreshes)
exchange_authorization_code_once_example =
    exchange_authorization_code_once consented 7000000 8000000 "at" "rt" "at2" "rt2" client client
      code

abbrev held : RefreshToken
held = record {
  token = "rt";
  client_id = "c";
  scopes = "runs:read" ∷ [];
  expires_at = some 2592007;
}

abbrev no_scopes : List String
no_scopes = []

exchange_refresh_token_once_example :
    let s' = (exchange_refresh_token exchanged 8000000 "at3" "rt3" client held no_scopes).1 in
    ((load_refresh_token s' 9000000 "rt").0 ≡ none)
    × ((exchange_refresh_token s' 9000000 "at4" "rt4" client held no_scopes).0
        ≡ err (invalid_grant "unknown refresh token"))
exchange_refresh_token_once_example =
    exchange_refresh_token_once exchanged 8000000 9000000 "at3" "rt3" "at4" "rt4" client client held
      no_scopes no_scopes (ground (arith, eq_iff "rt3" "rt"))

load_access_token-exchange_example : (load_access_token exchanged 8000000 "at").0 ≡ (
    if leb ((seconds 7000000 + 3600) * 1000000) 8000000
    then none
    else some (record {
      token = "at";
      client_id = ann.lobstr_user_id;
      scopes = "runs:read" ∷ [];
      expires_at = some (seconds 7000000 + 3600);
      subject = ann.lobstr_user_id;
      lobstr_token = ann.lobstr_api_token;
      lobstr_user_id = ann.lobstr_user_id;
    }))
unfolding flow
load_access_token-exchange_example =
    load_access_token-exchange consented 7000000 8000000 "at" "rt" client code ann refl

revoke_token_lem_example :
    ((load_access_token (revoke_token exchanged "at") 8000000 "at").0 ≡ none)
    × ((load_refresh_token (revoke_token exchanged "at") 8000000 "at").0 ≡ none)
revoke_token_lem_example = revoke_token_lem exchanged 8000000 "at" (ground (arith, eq_iff "at" ""))

complete_consent_retry_example :
    complete_consent env
      (complete_consent env asked 6000000 "c1" "rid" "stale").1
      7000000
      "code"
      "rid"
      "good"
    ≡ complete_consent env asked 7000000 "code" "rid" "good"
complete_consent_retry_example =
    complete_consent_retry env env asked 6000000 7000000 "c1" "code" "rid" "rid" "stale" "good" refl
      (omega arith)

abbrev want : List String
want = "runs:read" ∷ "profile:read" ∷ []

abbrev issued : List String
issued = "runs:read" ∷ []

effective_scopes-within_example :
    (within issued ann.scopes ≡ true)
    × (within issued want ≡ true)
    × (is_empty issued ≡ (is_empty ann.scopes && is_empty want))
unfolding effective_scopes
effective_scopes-within_example = effective_scopes-within (some want) (some ann.scopes) issued refl

check_scopes-eq_example : check_scopes (some ("account:read" ∷ [])) want ≡ (
    let missing = keep_if (λ s. not (covers ("account:read" ∷ []) s)) want in
    if is_empty missing then ok tt else err missing)
check_scopes-eq_example = check_scopes-eq ("account:read" ∷ []) want

abbrev stored : TokenStore.Tokens
stored = ("t", ann) ∷ []
