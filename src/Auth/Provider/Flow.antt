-- ===== src/Auth/Provider/Flow.antt =====
-- Everything that the provider can be made to do, in any order, and what its tokens then stand for.
pub mod Filed
pub mod Soundness
pub mod Reached
use lobstr_mcp.Prelude.{
  ℕ, String, Bool, true, false, List, [], ◌∷◌, Option, none, some, ◌≡◌, refl, arith, if◌then◌else◌,
  ◌==◌, eq_iff, eq_refl,
}
use lobstr_mcp.Prelude.Dict.{
  Dict, lookup, insert, erase, lookup-insert, lookup-erase, Holds, insert-Holds, erase-Holds,
}
use lobstr_mcp.Prelude.Result.{Result, ok, err}
use lobstr_mcp.Auth.TokenStore
use lobstr_mcp.Auth.TokenStore.{TokenLink, Tokens}
use lobstr_mcp.Auth.Provider.State.{
  ClientInfo, AuthorizationParams, AuthorizationCode, RefreshToken, Pending, Provider, Raised,
  effective_scopes, prune_pending,
}
use lobstr_mcp.Auth.Provider.Consent.{
  Environment, register_client, authorize, complete_consent, issue_code, redeemed, consent_on,
  issued_code,
}
use lobstr_mcp.Auth.Provider.Exchange.{
  load_authorization_code, code_if_live, exchange_authorization_code, load_refresh_token,
  exchange_refresh_token, load_access_token, access_link, revoke_token, issue, rotate,
  exchange_code, exchange_refresh, fresh_refresh, refresh_if_live,
}
use lobstr_mcp.Auth.Provider.Grants.{within, effective_scopes-within}

abbrev pub empty : Provider
empty = record {
  clients = [];
  refreshes = [];
  tokens = [];
  codes = [];
  code_identity = [];
  pending = [];
}

-- One request to the provider. The SDK's handlers exchange only a code or a refresh token that
-- they have just loaded; all else, the random tokens included, is whatever the caller sends.
pub data Step (env : Environment) : Provider → Provider → Type 0 where
  register : (s : Provider) (info : ClientInfo) → Step env s (register_client s info)
  ask :
      (s : Provider) (now : ℕ) (rid : String) (client : ClientInfo) (params : AuthorizationParams)
      → Step env s (authorize env s now rid client params).1
  consent :
      (s : Provider) (now : ℕ) (code rid grant : String)
      → Step env s (complete_consent env s now code rid grant).1
  exchange :
      (s : Provider) (now : ℕ) (key access refresh : String) (client : ClientInfo)
      (code : AuthorizationCode)
      → load_authorization_code s now key ≡ some code
      → Step env s (exchange_authorization_code s now access refresh client code).1
  load_refresh :
      (s : Provider) (now : ℕ) (token : String) → Step env s (load_refresh_token s now token).1
  renew :
      (s : Provider) (now : ℕ) (access rotated : String) (client : ClientInfo) (rt : RefreshToken)
      (scopes : List String)
      → Step env s (exchange_refresh_token s now access rotated client rt scopes).1
  load_access :
      (s : Provider) (now : ℕ) (token : String) → Step env s (load_access_token s now token).1
  revoke : (s : Provider) (token : String) → Step env s (revoke_token s token)

pub data Reach (env : Environment) (s : Provider) : Provider → Type 0 where
  here : Reach env s s
  next : {t u : Provider} → Reach env s t → Step env t u → Reach env s u

-- The identity of some grant that the user approved and Lobstr redeemed.
abbrev pub Redeemed : Environment → TokenLink → Type 0
Redeemed env link = (grant : String) × (env.redeem_grant grant ≡ ok link)

-- A token speaks for the user of one redeemed grant, with that grant's API token, and within its
-- scopes.
pub record IsBacked (env : Environment) (t : TokenLink) : Type 0 where
  pub link : TokenLink
  pub redeemed_link : Redeemed env link
  pub same_user : t.lobstr_user_id ≡ link.lobstr_user_id
  pub same_api_token : t.lobstr_api_token ≡ link.lobstr_api_token
  pub scopes_within : within t.scopes link.scopes ≡ true

-- A code that is on file is filed under its own name, beside an identity whose grant covers it.
pub record IsFiled (identity : Dict TokenLink) (key : String) (code : AuthorizationCode)
    : Type 0 where
  pub link : TokenLink
  pub own_name : code.code ≡ key
  pub filed : lookup key identity ≡ some link
  pub covered : within code.scopes link.scopes ≡ true

pub record IsSound (env : Environment) (s : Provider) : Type 0 where
  pub codes_filed : Holds (IsFiled s.code_identity) s.codes
  pub identities : Holds (λ _ link. Redeemed env link) s.code_identity
  pub refreshes : Holds (λ _ pair. Redeemed env pair.1) s.refreshes
  pub tokens : Holds (λ _ t. IsBacked env t) s.tokens
