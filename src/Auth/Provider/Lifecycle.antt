-- ===== src/Auth/Provider/Lifecycle.antt =====
-- Single use of codes and refresh tokens, revocation, and a consent that can be tried again.
use lobstr_mcp.Prelude.{
  ℕ, ◌+◌, ◌*◌, ◌≤◌, String, List, [], ◌∷◌, Option, none, some, ◌≡◌, refl, ◌≢◌, ◌∙◌, arith,
  if◌then◌else◌, eq_iff, eq_refl, leb,
}
use lobstr_mcp.Prelude.Dict.{Dict, lookup, erase, lookup-insert, lookup-erase}
use lobstr_mcp.Prelude.Result.{Result, ok, err}
use lobstr_mcp.Auth.TokenStore
use lobstr_mcp.Auth.TokenStore.{TokenLink, is_expired}
use lobstr_mcp.Auth.Provider.State.{
  seconds, ClientInfo, AuthorizationCode, RefreshToken, Pending, Provider, Raised, invalid_grant,
  prune, prune_pending,
}
use lobstr_mcp.Auth.Provider.Consent.{Environment, complete_consent}
use lobstr_mcp.Auth.Provider.Exchange.{
  load_authorization_code, exchange_authorization_code, load_refresh_token, exchange_refresh_token,
  exchange_code, issue, rotate, exchange_refresh, fresh_refresh, refresh_if_live, load_access_token,
  access_link, revoke_token,
}

-- An authorization code works once. After an exchange of it, whatever that answered, the code is
-- not loaded again, and a second exchange is refused and changes neither tokens nor refreshes.
pub exchange_authorization_code_once :
    (s : Provider) (now later : ℕ) (access refresh access' refresh' : String)
    (client client' : ClientInfo) (code : AuthorizationCode)
    → let s' = (exchange_authorization_code s now access refresh client code).1 in
      let again = exchange_authorization_code s' later access' refresh' client' code in
      (load_authorization_code s' later code.code ≡ none)
      × (again.0 ≡ err (invalid_grant "unknown or already-used authorization code"))
      × (again.1.tokens ≡ s'.tokens)
      × (again.1.refreshes ≡ s'.refreshes)
unfolding exchange_authorization_code load_authorization_code
exchange_authorization_code_once s now later access refresh access' refresh' client client' code =
    ground (
      arith,
      lookup-erase code.code code.code s.codes,
      eq_refl code.code,
      lookup-erase code.code code.code s.code_identity,
      lookup-erase code.code code.code (erase code.code s.code_identity),
    )

issue-refreshes :
    (s : Provider) (now : ℕ) (access refresh t : String) (client : ClientInfo) (link : TokenLink)
    (scopes : List String)
    → refresh ≢ t
    → lookup t (issue s now access refresh client link scopes).1.refreshes ≡ lookup t s.refreshes
unfolding issue
issue-refreshes s now access refresh t client link scopes fresh = ground (
  arith,
  eq_iff refresh t,
  lookup-insert refresh t (fresh_refresh client scopes now refresh, link) s.refreshes,
)

rotate-refreshes :
    (s : Provider) (now : ℕ) (access refresh t : String) (client : ClientInfo) (link : TokenLink)
    (scopes : Result Raised (List String))
    → refresh ≢ t
    → lookup t (rotate s now access refresh client link scopes).1.refreshes ≡ lookup t s.refreshes
unfolding rotate
rotate-refreshes s now access refresh t client link (err e) fresh = refl
rotate-refreshes s now access refresh t client link (ok scopes) fresh =
    issue-refreshes s now access refresh t client link scopes fresh

exchange_refresh-refreshes :
    (s : Provider) (now : ℕ) (access rotated t : String) (client : ClientInfo) (rt : RefreshToken)
    (scopes : List String) (found : Option (RefreshToken × TokenLink))
    → rotated ≢ t
    → lookup t (exchange_refresh s now access rotated client rt scopes found).1.refreshes
      ≡ lookup t s.refreshes
unfolding exchange_refresh
exchange_refresh-refreshes s now access rotated t client rt scopes none fresh = refl
exchange_refresh-refreshes s now access rotated t client rt scopes (some (_, link)) fresh =
    rotate-refreshes s now access rotated t client link _ fresh

-- An exchange retires the token that it was given.
retired :
    (s : Provider) (now : ℕ) (access rotated : String) (client : ClientInfo) (rt : RefreshToken)
    (scopes : List String)
    → rotated ≢ rt.token
    → lookup rt.token (exchange_refresh_token s now access rotated client rt scopes).1.refreshes
      ≡ none
unfolding exchange_refresh_token
retired s now access rotated client rt scopes fresh =
    exchange_refresh-refreshes (record s { refreshes = erase rt.token s.refreshes }) now access
      rotated rt.token client rt scopes (lookup rt.token s.refreshes) fresh
    ∙ lookup-erase rt.token rt.token s.refreshes
    ∙ rw (eq_refl rt.token)

-- A refresh token works once: after an exchange of it that draws another token, whatever that
-- answered, it is not loaded again and a second exchange is refused.
pub exchange_refresh_token_once :
    (s : Provider) (now later : ℕ) (access rotated access' rotated' : String)
    (client client' : ClientInfo) (rt : RefreshToken) (scopes scopes' : List String)
    → rotated ≢ rt.token
    → let s' = (exchange_refresh_token s now access rotated client rt scopes).1 in
      ((load_refresh_token s' later rt.token).0 ≡ none)
      × ((exchange_refresh_token s' later access' rotated' client' rt scopes').0
          ≡ err (invalid_grant "unknown refresh token"))
unfolding exchange_refresh_token load_refresh_token
exchange_refresh_token_once s now later access rotated access' rotated' client client' rt scopes
      scopes' fresh =
    let gone = retired s now access rotated client rt scopes fresh in
    (rw (gone, refresh_if_live), rw (gone, exchange_refresh))

-- The access token of an exchanged code answers, for an hour from the whole second of the
-- exchange, with the user and the token of the grant and the code's scopes, and then no longer.
-- Requires that the code has not been exchanged.
pub load_access_token-exchange :
    (s : Provider) (now later : ℕ) (access refresh : String) (client : ClientInfo)
    (code : AuthorizationCode) (link : TokenLink)
    → lookup code.code s.code_identity ≡ some link
    → let s' = (exchange_authorization_code s now access refresh client code).1 in
      (load_access_token s' later access).0 ≡ (
        if leb ((seconds now + 3600) * 1000000) later
        then none
        else some (record {
          token = access;
          client_id = link.lobstr_user_id;
          scopes = code.scopes;
          expires_at = some (seconds now + 3600);
          subject = link.lobstr_user_id;
          lobstr_token = link.lobstr_api_token;
          lobstr_user_id = link.lobstr_user_id;
        }))
unfolding exchange_authorization_code load_access_token TokenStore.get TokenStore.put is_expired
load_access_token-exchange s now later access refresh client code link h =
    rw (h, exchange_code)
      (ground (
        arith,
        eq_refl access,
        lookup-insert access access (access_link link code.scopes now) s.tokens,
      ))

-- After a revocation neither half of a pair is accepted under that token.
pub revoke_token_lem :
    (s : Provider) (now : ℕ) (token : String)
    → token ≢ ""
    → ((load_access_token (revoke_token s token) now token).0 ≡ none)
      × ((load_refresh_token (revoke_token s token) now token).0 ≡ none)
unfolding revoke_token load_access_token load_refresh_token TokenStore.get TokenStore.revoke
revoke_token_lem s now token named = ground (
  arith,
  eq_refl token,
  eq_iff token "",
  lookup-erase token token s.tokens,
  lookup-erase token token s.refreshes,
)

prune-prune :
    (now later : ℕ) (d : Dict Pending) → now ≤ later → prune later (prune now d) ≡ prune later d
unfolding prune
prune-prune now later [] h = refl
prune-prune now later ((rid, p) ∷ d) h = ground (arith, prune-prune now later d h)

-- A consent whose grant could not be redeemed leaves the flow as it was: any later attempt, at any
-- request, answers and leaves the state as if the failed attempt had not been made.
pub complete_consent_retry :
    (env env' : Environment) (s : Provider) (now later : ℕ)
    (code code' rid rid' grant grant' : String) {failure : String}
    → env.redeem_grant grant ≡ err failure
    → now ≤ later
    → complete_consent env' (complete_consent env s now code rid grant).1 later code' rid' grant'
      ≡ complete_consent env' s later code' rid' grant'
unfolding complete_consent prune_pending
complete_consent_retry env env' s now later code code' rid rid' grant grant' failed h =
    ground (arith, prune-prune now later s.pending h)
