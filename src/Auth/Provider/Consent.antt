-- ===== src/Auth/Provider/Consent.antt =====
-- Registration, `authorize` and `complete_consent`.
use lobstr_mcp.Prelude.{
  ℕ, ◌+◌, String, List, [], ◌∷◌, Option, none, some, if◌then◌else◌, ◌==◌, or_else,
}
use lobstr_mcp.Prelude.Dict.{lookup, insert, erase}
use lobstr_mcp.Prelude.Result.{Result, ok, err}
use lobstr_mcp.Auth.TokenStore.{TokenLink}
use lobstr_mcp.Auth.Provider.State.{
  seconds, pending_ttl, auth_code_ttl, ClientInfo, AuthorizationParams, AuthorizationCode, Pending,
  Provider, Raised, invalid_grant, delegation, prune_pending, effective_scopes,
}

-- What the provider takes from elsewhere: the SDK's `construct_redirect_uri` (a parameter with no
-- value is left out), urllib's host of a URI, the joining of scopes by spaces, and the delegation
-- client that it is given.
pub record Environment : Type 0 where
  pub construct_redirect_uri : String → List (String × Option String) → String
  pub hostname : String → Option String
  pub join : List String → String
  pub redeem_grant : String → Result String TokenLink
  pub consent_url : String

unfoldable pub register_client : Provider → ClientInfo → Provider
register_client s info = record s { clients = insert info.client_id info s.clients }

unfoldable pub get_client : Provider → String → Option ClientInfo
get_client s client_id = lookup client_id s.clients

-- An optional text of which an empty one counts as none.
abbrev pub nonempty : Option String → Option String
nonempty none = none
nonempty (some t) = if t == "" then none else some t

unfoldable pub redirect_host_of : Environment → List String → Option String
redirect_host_of env [] = none
redirect_host_of env (uri ∷ uris) = nonempty (env.hostname uri)

unfoldable pub redirect_host : Environment → ClientInfo → Option String
unfolding redirect_host_of
redirect_host env client = redirect_host_of env client.redirect_uris

unfoldable pub authorize :
    Environment → Provider → ℕ → String → ClientInfo → AuthorizationParams → String × Provider
unfolding redirect_host
authorize env s now request_id client params =
    let s' = prune_pending s now in
    let entry : Pending = record {
      client_id = client.client_id;
      params = params;
      exp = seconds now + pending_ttl;
    } in
    (
      env.construct_redirect_uri env.consent_url (
          ("request_id", some request_id)
          ∷ ("scope", some (env.join (or_else params.scopes [])))
          ∷ ("client_id", some client.client_id)
          ∷ ("client_name", nonempty client.client_name)
          ∷ ("redirect_host", redirect_host env client)
          ∷ []),
      record s' { pending = insert request_id entry s'.pending },
    )

abbrev pub issued_code : Pending → TokenLink → List String → ℕ → String → AuthorizationCode
issued_code p link scopes now code = record {
  code = code;
  scopes = scopes;
  expires_at = seconds now + auth_code_ttl;
  client_id = p.client_id;
  code_challenge = p.params.code_challenge;
  redirect_uri = p.params.redirect_uri;
  redirect_uri_provided_explicitly = p.params.redirect_uri_provided_explicitly;
  resource = p.params.resource;
  subject = link.lobstr_user_id;
}

-- The end of `complete_consent`: the scopes are known or the grant shares none with the request.
unfoldable pub issue_code :
    Environment
    → Provider
    → ℕ
    → String
    → Pending
    → TokenLink
    → Result Raised (List String)
    → Result Raised String × Provider
issue_code env s now code p link (err e) = (err e, s)
issue_code env s now code p link (ok scopes) = (
  ok (
      env.construct_redirect_uri p.params.redirect_uri
        (("code", some code) ∷ ("state", p.params.state) ∷ [])),
  record s {
    codes = insert code (issued_code p link scopes now code) s.codes;
    code_identity = insert code link s.code_identity;
  },
)

-- The grant is redeemed before the pending request is consumed.
unfoldable pub redeemed :
    Environment
    → Provider
    → ℕ
    → String
    → String
    → Pending
    → Result String TokenLink
    → Result Raised String × Provider
redeemed env s now code request_id p (err e) = (err (delegation e), s)
redeemed env s now code request_id p (ok link) =
    issue_code env (record s { pending = erase request_id s.pending }) now code p link
      (effective_scopes p.params.scopes (some link.scopes))

unfoldable pub consent_on :
    Environment
    → Provider
    → ℕ
    → String
    → String
    → String
    → Option Pending
    → Result Raised String × Provider
consent_on env s now code request_id grant none =
    (err (invalid_grant "unknown or expired consent request"), s)
consent_on env s now code request_id grant (some p) =
    redeemed env s now code request_id p (env.redeem_grant grant)

unfoldable pub complete_consent :
    Environment → Provider → ℕ → String → String → String → Result Raised String × Provider
unfolding consent_on redeemed issue_code
complete_consent env s now code request_id grant =
    let s' = prune_pending s now in
    consent_on env s' now code request_id grant (lookup request_id s'.pending)
