-- ===== src/Auth/Provider/Flow/Reached.antt =====
-- Soundness over every sequence of requests, and what it says of an access token.
use mathlib.Core.Path.{subst}
use lobstr_mcp.Prelude.{ℕ, String, true, some, ◌≡◌, sym, ap, ◌∙◌, arith}
use lobstr_mcp.Prelude.Dict.{lookup, erase, erase-Holds}
use lobstr_mcp.Auth.TokenStore
use lobstr_mcp.Auth.TokenStore.{TokenLink}
use lobstr_mcp.Auth.Provider.State.{ClientInfo, AuthorizationCode, AccessToken, Provider}
use lobstr_mcp.Auth.Provider.Consent.{Environment, register_client}
use lobstr_mcp.Auth.Provider.Exchange.{
  load_authorization_code, exchange_authorization_code, load_access_token, access_token_of,
  exchange_code,
}
use lobstr_mcp.Auth.Provider.Grants.{within}
use lobstr_mcp.Auth.Provider.Flow.{
  empty, Step, register, ask, consent, exchange, load_refresh, renew, load_access, revoke, Reach,
  here, next, Redeemed, IsFiled, IsSound,
}
use lobstr_mcp.Auth.Provider.Flow.Filed.{codes-IsFiled-erase}
use lobstr_mcp.Auth.Provider.Flow.Soundness.{
  issue-IsSound, exchange_refresh_token-IsSound, load_access_token-IsSound,
  load_refresh_token-IsSound, revoke_token-IsSound, complete_consent-IsSound, authorize-IsSound,
}

loaded :
    (s : Provider) (now : ℕ) (key : String) (code : AuthorizationCode)
    → load_authorization_code s now key ≡ some code
    → lookup key s.codes ≡ some code
unfolding load_authorization_code
loaded s now key code h = ground arith

accepted :
    (s : Provider) (now : ℕ) (token : String) (access : AccessToken)
    → (load_access_token s now token).0 ≡ some access
    → (t : TokenLink) × (lookup token s.tokens ≡ some t) × (access ≡ access_token_of token t)
unfolding load_access_token TokenStore.get
accepted s now token access h = ground arith

module _ (env : Environment) where
  without_code :
      (s : Provider) (code : String)
      → IsSound env s
      → IsSound env
          (record s { code_identity = erase code s.code_identity; codes = erase code s.codes })
  without_code s code sound = record {
    codes_filed = codes-IsFiled-erase s.code_identity s.codes code sound.codes_filed;
    identities = erase-Holds (λ _ l. Redeemed env l) code s.code_identity sound.identities;
    refreshes = sound.refreshes;
    tokens = sound.tokens;
  }

  exchange_authorization_code-IsSound :
      (s : Provider) (now : ℕ) (access refresh : String) (client : ClientInfo)
      (code : AuthorizationCode)
      → IsFiled s.code_identity code.code code
      → IsSound env s
      → IsSound env (exchange_authorization_code s now access refresh client code).1
  unfolding exchange_authorization_code
  exchange_authorization_code-IsSound s now access refresh client code f sound =
      rw (f.filed, exchange_code)
        (issue-IsSound env _ now access refresh client f.link code.scopes
          (sound.identities code.code f.link f.filed) f.covered (without_code s code.code sound))

  exchange-IsFiled :
      (s : Provider) (now : ℕ) (key : String) (code : AuthorizationCode)
      → load_authorization_code s now key ≡ some code
      → IsSound env s
      → IsFiled s.code_identity code.code code
  exchange-IsFiled s now key code h sound =
      let f = sound.codes_filed key code (loaded s now key code h) in
      subst (λ k. IsFiled s.code_identity k code) (sym f.own_name) f

  Step-IsSound : {s t : Provider} → Step env s t → IsSound env s → IsSound env t
  unfolding register_client
  Step-IsSound (register s info) sound = record {
    codes_filed = sound.codes_filed;
    identities = sound.identities;
    refreshes = sound.refreshes;
    tokens = sound.tokens;
  }
  Step-IsSound (ask s now rid client params) sound =
      authorize-IsSound env s now rid client params sound
  Step-IsSound (consent s now code rid grant) sound =
      complete_consent-IsSound env s now code rid grant sound
  Step-IsSound (exchange s now key access refresh client code h) sound =
      exchange_authorization_code-IsSound s now access refresh client code
        (exchange-IsFiled s now key code h sound) sound
  Step-IsSound (load_refresh s now token) sound = load_refresh_token-IsSound env s now token sound
  Step-IsSound (renew s now access rotated client rt scopes) sound =
      exchange_refresh_token-IsSound env s now access rotated client rt scopes sound
  Step-IsSound (load_access s now token) sound = load_access_token-IsSound env s now token sound
  Step-IsSound (revoke s token) sound = revoke_token-IsSound env s token sound

  Reach-IsSound : {s t : Provider} → IsSound env s → Reach env s t → IsSound env t
  Reach-IsSound sound here = sound
  Reach-IsSound sound (next r st) = Step-IsSound st (Reach-IsSound sound r)

  empty-IsSound : IsSound env empty
  unfolding lookup
  empty-IsSound = record {
    codes_filed = λ k v h. absurd (cc h);
    identities = λ k v h. absurd (cc h);
    refreshes = λ k v h. absurd (cc h);
    tokens = λ k v h. absurd (cc h);
  }

  -- After any requests in any order, an access token that is accepted carries the user and the API
  -- token of a grant that Lobstr redeemed, and no scope outside that grant, if the grant names any.
  pub load_access_token-IsBacked :
      {s : Provider} (now : ℕ) (token : String) (access : AccessToken)
      → Reach env empty s
      → (load_access_token s now token).0 ≡ some access
      → (link : TokenLink) × Redeemed env link
        × (access.subject ≡ link.lobstr_user_id)
        × (access.lobstr_token ≡ link.lobstr_api_token)
        × (within access.scopes link.scopes ≡ true)
  load_access_token-IsBacked {s} now token access r h =
      let (t, stored, same) = accepted s now token access h in
      let b = (Reach-IsSound empty-IsSound r).tokens token t stored in
      (
        b.link,
        b.redeemed_link,
        ap (λ a. a.subject) same ∙ b.same_user,
        ap (λ a. a.lobstr_token) same ∙ b.same_api_token,
        rw same b.scopes_within,
      )
