-- ===== src/Auth/Provider/Flow/Soundness.antt =====
-- Every request keeps the provider sound.
use lobstr_mcp.Prelude.{
  ℕ, String, true, List, Option, none, some, ◌≡◌, refl, ◌==◌, Option-cases, inl, inr, Bool-cases,
  ltb,
}
use lobstr_mcp.Prelude.Dict.{Dict, lookup, erase}
use lobstr_mcp.Prelude.Dict.{Holds, insert-Holds, erase-Holds}
use lobstr_mcp.Prelude.Result.{Result, ok, err}
use lobstr_mcp.Auth.TokenStore
use lobstr_mcp.Auth.TokenStore.{TokenLink, Tokens, get_found}
use lobstr_mcp.Auth.Provider.State.{
  seconds, ClientInfo, AuthorizationParams, RefreshToken, Pending, Provider, Raised,
  effective_scopes, prune_pending,
}
use lobstr_mcp.Auth.Provider.Consent.{
  Environment, authorize, complete_consent, issue_code, redeemed, consent_on, issued_code,
}
use lobstr_mcp.Auth.Provider.Exchange.{
  load_refresh_token, exchange_refresh_token, load_access_token, access_link, revoke_token, issue,
  rotate, exchange_refresh, fresh_refresh, refresh_if_live, refresh_checked,
}
use lobstr_mcp.Auth.Provider.Grants.{within, effective_scopes-within}
use lobstr_mcp.Auth.Provider.Flow.{Redeemed, IsBacked, IsSound}
use lobstr_mcp.Auth.Provider.Flow.Filed.{codes-IsFiled-insert}

module _ (env : Environment) where
  -- What the two exchanges store.
  pub issue-IsSound :
      (s : Provider) (now : ℕ) (access refresh : String) (client : ClientInfo) (link : TokenLink)
      (scopes : List String)
      → Redeemed env link
      → within scopes link.scopes ≡ true
      → IsSound env s
      → IsSound env (issue s now access refresh client link scopes).1
  unfolding issue TokenStore.put
  issue-IsSound s now access refresh client link scopes r w sound = record {
    codes_filed = sound.codes_filed;
    identities = sound.identities;
    refreshes =
        insert-Holds (λ _ pair. Redeemed env pair.1) refresh
          (fresh_refresh client scopes now refresh, link) s.refreshes r sound.refreshes;
    tokens =
        insert-Holds (λ _ t. IsBacked env t) access (access_link link scopes now) s.tokens
          (record {
            link = link;
            redeemed_link = r;
            same_user = refl;
            same_api_token = refl;
            scopes_within = w;
          })
          sound.tokens;
  }

  pub rotate-IsSound :
      (s : Provider) (now : ℕ) (access rotated : String) (client : ClientInfo) (link : TokenLink)
      (requested : Option (List String)) (scopes : Result Raised (List String))
      → effective_scopes requested (some link.scopes) ≡ scopes
      → Redeemed env link
      → IsSound env s
      → IsSound env (rotate s now access rotated client link scopes).1
  unfolding rotate
  rotate-IsSound s now access rotated client link requested (err e) h r sound = sound
  rotate-IsSound s now access rotated client link requested (ok scopes) h r sound =
      issue-IsSound s now access rotated client link scopes r
        (effective_scopes-within requested (some link.scopes) scopes h).0 sound

  pub exchange_refresh-IsSound :
      (s : Provider) (now : ℕ) (access rotated : String) (client : ClientInfo) (rt : RefreshToken)
      (scopes : List String) (found : Option (RefreshToken × TokenLink))
      → ((old : RefreshToken) (link : TokenLink) → found ≡ some (old, link) → Redeemed env link)
      → IsSound env s
      → IsSound env (exchange_refresh s now access rotated client rt scopes found).1
  unfolding exchange_refresh
  exchange_refresh-IsSound s now access rotated client rt scopes none r sound = sound
  exchange_refresh-IsSound s now access rotated client rt scopes (some (old, link)) r sound =
      rotate-IsSound s now access rotated client link _ _ refl (r old link refl) sound

  pub without_refresh :
      (s : Provider) (token : String)
      → IsSound env s
      → IsSound env (record s { refreshes = erase token s.refreshes })
  without_refresh s token sound = record {
    codes_filed = sound.codes_filed;
    identities = sound.identities;
    refreshes = erase-Holds (λ _ pair. Redeemed env pair.1) token s.refreshes sound.refreshes;
    tokens = sound.tokens;
  }

  pub with_tokens :
      (s : Provider) (tokens : Tokens)
      → Holds (λ _ t. IsBacked env t) tokens
      → IsSound env s
      → IsSound env (record s { tokens = tokens })
  with_tokens s tokens h sound = record {
    codes_filed = sound.codes_filed;
    identities = sound.identities;
    refreshes = sound.refreshes;
    tokens = h;
  }

  pub exchange_refresh_token-IsSound :
      (s : Provider) (now : ℕ) (access rotated : String) (client : ClientInfo) (rt : RefreshToken)
      (scopes : List String)
      → IsSound env s
      → IsSound env (exchange_refresh_token s now access rotated client rt scopes).1
  unfolding exchange_refresh_token
  exchange_refresh_token-IsSound s now access rotated client rt scopes sound =
      exchange_refresh-IsSound _ now access rotated client rt scopes _
        (λ old link found. sound.refreshes rt.token (old, link) found)
        (without_refresh s rt.token sound)

  get_found-Holds :
      (d : Tokens) (token : String) (now : ℕ) (found : Option TokenLink)
      → Holds (λ _ t. IsBacked env t) d
      → Holds (λ _ t. IsBacked env t) (get_found d token now found).1
  unfolding get_found
  get_found-Holds d token now none h = h
  get_found-Holds d token now (some link) h = elim (Bool-cases (TokenStore.is_expired link now)) [
    | inl e ↦ rw e (erase-Holds (λ _ t. IsBacked env t) token d h)
    | inr e ↦ rw e h
  ]

  pub load_access_token-IsSound :
      (s : Provider) (now : ℕ) (token : String)
      → IsSound env s
      → IsSound env (load_access_token s now token).1
  unfolding load_access_token TokenStore.get
  load_access_token-IsSound s now token sound =
      with_tokens s _ (get_found-Holds s.tokens token now _ sound.tokens) sound

  pub refresh_checked-IsSound :
      (s : Provider) (now : ℕ) (token : String) (rt : RefreshToken) (expires_at : Option ℕ)
      → IsSound env s
      → IsSound env (refresh_checked s now token rt expires_at).1
  unfolding refresh_checked
  refresh_checked-IsSound s now token rt none sound = sound
  refresh_checked-IsSound s now token rt (some t) sound = elim (Bool-cases (ltb t (seconds now))) [
    | inl e ↦ rw e (without_refresh s token sound)
    | inr e ↦ rw e sound
  ]

  pub load_refresh_token-IsSound :
      (s : Provider) (now : ℕ) (token : String)
      → IsSound env s
      → IsSound env (load_refresh_token s now token).1
  unfolding load_refresh_token refresh_if_live
  load_refresh_token-IsSound s now token sound = elim (Option-cases (lookup token s.refreshes)) [
    | inl e ↦ rw (e, refresh_if_live) sound
    | inr ((rt, link), e) ↦
        rw (e, refresh_if_live) (refresh_checked-IsSound s now token rt rt.expires_at sound)
  ]

  pub revoke_token-IsSound :
      (s : Provider) (token : String) → IsSound env s → IsSound env (revoke_token s token)
  unfolding revoke_token TokenStore.revoke
  revoke_token-IsSound s token sound = elim (Bool-cases (token == "")) [
    | inl e ↦ rw e sound
    | inr e ↦ rw e (
        with_tokens (record s { refreshes = erase token s.refreshes }) _
          (erase-Holds (λ _ t. IsBacked env t) token s.tokens sound.tokens)
          (without_refresh s token sound))
  ]

  -- `authorize` and the bookkeeping of pending requests touch nothing that soundness speaks of.
  pub with_pending :
      (s : Provider) (pending : Dict Pending)
      → IsSound env s
      → IsSound env (record s { pending = pending })
  with_pending s pending sound = record {
    codes_filed = sound.codes_filed;
    identities = sound.identities;
    refreshes = sound.refreshes;
    tokens = sound.tokens;
  }

  pub issue_code-IsSound :
      (s : Provider) (now : ℕ) (code : String) (p : Pending) (link : TokenLink)
      (requested : Option (List String)) (scopes : Result Raised (List String))
      → effective_scopes requested (some link.scopes) ≡ scopes
      → Redeemed env link
      → IsSound env s
      → IsSound env (issue_code env s now code p link scopes).1
  unfolding issue_code
  issue_code-IsSound s now code p link requested (err e) h r sound = sound
  issue_code-IsSound s now code p link requested (ok scopes) h r sound = record {
    codes_filed =
        codes-IsFiled-insert s.code_identity s.codes code link (issued_code p link scopes now code)
          refl (effective_scopes-within requested (some link.scopes) scopes h).0 sound.codes_filed;
    identities = insert-Holds (λ _ l. Redeemed env l) code link s.code_identity r sound.identities;
    refreshes = sound.refreshes;
    tokens = sound.tokens;
  }

  pub redeemed-IsSound :
      (s : Provider) (now : ℕ) (code rid grant : String) (p : Pending)
      (outcome : Result String TokenLink)
      → env.redeem_grant grant ≡ outcome
      → IsSound env s
      → IsSound env (redeemed env s now code rid p outcome).1
  unfolding redeemed
  redeemed-IsSound s now code rid grant p (err e) h sound = sound
  redeemed-IsSound s now code rid grant p (ok link) h sound =
      issue_code-IsSound _ now code p link _ _ refl (grant, h) (with_pending s _ sound)

  pub consent_on-IsSound :
      (s : Provider) (now : ℕ) (code rid grant : String) (entry : Option Pending)
      → IsSound env s
      → IsSound env (consent_on env s now code rid grant entry).1
  unfolding consent_on
  consent_on-IsSound s now code rid grant none sound = sound
  consent_on-IsSound s now code rid grant (some p) sound =
      redeemed-IsSound s now code rid grant p _ refl sound

  pub complete_consent-IsSound :
      (s : Provider) (now : ℕ) (code rid grant : String)
      → IsSound env s
      → IsSound env (complete_consent env s now code rid grant).1
  unfolding complete_consent prune_pending
  complete_consent-IsSound s now code rid grant sound =
      consent_on-IsSound _ now code rid grant _ (with_pending s _ sound)

  pub authorize-IsSound :
      (s : Provider) (now : ℕ) (rid : String) (client : ClientInfo) (params : AuthorizationParams)
      → IsSound env s
      → IsSound env (authorize env s now rid client params).1
  unfolding authorize prune_pending
  authorize-IsSound s now rid client params sound = with_pending s _ sound
