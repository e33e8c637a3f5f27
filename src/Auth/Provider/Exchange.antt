-- ===== src/Auth/Provider/Exchange.antt =====
-- Authorization codes, refresh tokens and access tokens: `load_*`, `exchange_*`, `revoke_token`.
use lobstr_mcp.Prelude.{
  ℕ, ◌+◌, String, List, Option, none, some, if◌then◌else◌, ◌==◌, leb, ltb, is_empty,
}
use lobstr_mcp.Prelude.Dict.{lookup, insert, erase}
use lobstr_mcp.Prelude.Result.{Result, ok, err}
use lobstr_mcp.Auth.TokenStore
use lobstr_mcp.Auth.TokenStore.{TokenLink}
use lobstr_mcp.Auth.Provider.State.{
  seconds, at_second, access_ttl, refresh_ttl, ClientInfo, AuthorizationCode, RefreshToken,
  OauthToken, AccessToken, Provider, Raised, invalid_grant, effective_scopes,
}

unfoldable pub code_if_live : ℕ → Option AuthorizationCode → Option AuthorizationCode
code_if_live now none = none
code_if_live now (some code) = if leb (seconds now) code.expires_at then some code else none

unfoldable pub load_authorization_code : Provider → ℕ → String → Option AuthorizationCode
unfolding code_if_live
load_authorization_code s now code = code_if_live now (lookup code s.codes)

-- The identity of an access token that is issued now.
abbrev pub access_link : TokenLink → List String → ℕ → TokenLink
access_link link scopes now = record {
  lobstr_user_id = link.lobstr_user_id;
  lobstr_api_token = link.lobstr_api_token;
  scopes = scopes;
  expires_at = some (at_second (seconds now + access_ttl));
}

abbrev pub fresh_refresh : ClientInfo → List String → ℕ → String → RefreshToken
fresh_refresh client scopes now refresh = record {
  token = refresh;
  client_id = client.client_id;
  scopes = scopes;
  expires_at = some (seconds now + refresh_ttl);
}

-- The end of both exchanges: store the pair of tokens and answer with it.
unfoldable pub issue :
    Provider
    → ℕ
    → String
    → String
    → ClientInfo
    → TokenLink
    → List String
    → Result Raised OauthToken × Provider
issue s now access refresh client link scopes = (
  ok (record {
    access_token = access;
    token_type = "Bearer";
    expires_in = access_ttl;
    scope = scopes;
    refresh_token = refresh;
  }),
  record s {
    tokens = TokenStore.put s.tokens access (access_link link scopes now);
    refreshes = insert refresh (fresh_refresh client scopes now refresh, link) s.refreshes;
  },
)

unfoldable pub exchange_code :
    Provider
    → ℕ
    → String
    → String
    → ClientInfo
    → AuthorizationCode
    → Option TokenLink
    → Result Raised OauthToken × Provider
exchange_code s now access refresh client code none =
    (err (invalid_grant "unknown or already-used authorization code"), s)
exchange_code s now access refresh client code (some link) =
    issue s now access refresh client link code.scopes

unfoldable pub exchange_authorization_code :
    Provider
    → ℕ
    → String
    → String
    → ClientInfo
    → AuthorizationCode
    → Result Raised OauthToken × Provider
unfolding exchange_code issue
exchange_authorization_code s now access refresh client authorization_code =
    let code = authorization_code.code in
    let s' : Provider = record s {
      code_identity = erase code s.code_identity;
      codes = erase code s.codes;
    } in
    exchange_code s' now access refresh client authorization_code (lookup code s.code_identity)

unfoldable pub refresh_checked :
    Provider → ℕ → String → RefreshToken → Option ℕ → Option RefreshToken × Provider
refresh_checked s now token rt none = (some rt, s)
refresh_checked s now token rt (some expires_at) =
    if ltb expires_at (seconds now)
    then (none, record s { refreshes = erase token s.refreshes })
    else (some rt, s)

unfoldable pub refresh_if_live :
    Provider → ℕ → String → Option (RefreshToken × TokenLink) → Option RefreshToken × Provider
unfolding refresh_checked
refresh_if_live s now token none = (none, s)
refresh_if_live s now token (some (rt, link)) = refresh_checked s now token rt rt.expires_at

unfoldable pub load_refresh_token : Provider → ℕ → String → Option RefreshToken × Provider
unfolding refresh_if_live
load_refresh_token s now token = refresh_if_live s now token (lookup token s.refreshes)

-- The scopes of a rotated pair are known, or the request shares none with the grant.
unfoldable pub rotate :
    Provider
    → ℕ
    → String
    → String
    → ClientInfo
    → TokenLink
    → Result Raised (List String)
    → Result Raised OauthToken × Provider
rotate s now access rotated client link (err e) = (err e, s)
rotate s now access rotated client link (ok scopes) = issue s now access rotated client link scopes

unfoldable pub exchange_refresh :
    Provider
    → ℕ
    → String
    → String
    → ClientInfo
    → RefreshToken
    → List String
    → Option (RefreshToken × TokenLink)
    → Result Raised OauthToken × Provider
exchange_refresh s now access rotated client rt scopes none =
    (err (invalid_grant "unknown refresh token"), s)
exchange_refresh s now access rotated client rt scopes (some (_, link)) =
    rotate s now access rotated client link
      (effective_scopes (some (if is_empty scopes then rt.scopes else scopes)) (some link.scopes))

unfoldable pub exchange_refresh_token :
    Provider
    → ℕ
    → String
    → String
    → ClientInfo
    → RefreshToken
    → List String
    → Result Raised OauthToken × Provider
unfolding exchange_refresh rotate issue
exchange_refresh_token s now access rotated client rt scopes =
    exchange_refresh (record s { refreshes = erase rt.token s.refreshes }) now access rotated client
      rt scopes (lookup rt.token s.refreshes)

abbrev pub expiry_seconds : Option ℕ → Option ℕ
expiry_seconds none = none
expiry_seconds (some t) = some (seconds t)

-- The `AccessToken` of a link; `load_access_token` and the verifier of auth/verifier.py build it.
abbrev pub access_token_of : String → TokenLink → AccessToken
access_token_of token link = record {
  token = token;
  client_id = link.lobstr_user_id;
  scopes = link.scopes;
  expires_at = expiry_seconds link.expires_at;
  subject = link.lobstr_user_id;
  lobstr_token = link.lobstr_api_token;
  lobstr_user_id = link.lobstr_user_id;
}

abbrev pub access_of : String → Option TokenLink → Option AccessToken
access_of token none = none
access_of token (some link) = some (access_token_of token link)

unfoldable pub load_access_token : Provider → ℕ → String → Option AccessToken × Provider
load_access_token s now token =
    let (found, tokens') = TokenStore.get s.tokens token now in
    (access_of token found, record s { tokens = tokens' })

unfoldable pub revoke_token : Provider → String → Provider
revoke_token s token =
    if token == ""
    then s
    else record s { tokens = TokenStore.revoke s.tokens token; refreshes = erase token s.refreshes }
