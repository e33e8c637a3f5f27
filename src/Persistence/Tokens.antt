-- ===== src/Persistence/Tokens.antt =====
-- `RedisTokenStore`, and that it stands in for the store in memory.
pub mod Schedule
pub mod Refines
use lobstr_mcp.Prelude.{ℕ, String, ◌<>◌, Option, none, some, if◌then◌else◌}
use lobstr_mcp.Prelude.Result.{Result, ok, err}
use lobstr_mcp.Auth.TokenStore.{TokenLink, is_expired}
use lobstr_mcp.Persistence.{Redis, token_prefix, ttl_from}
use lobstr_mcp.Persistence.Link.{Crypto, StoreError, TokenCipher, link_to_json, link_from_json}

module _ (r : Redis) (f : Crypto) (cipher : TokenCipher) where
  unfoldable pub put : String → TokenLink → ℕ → String → r.State → r.State
  put mcp_token link now salt s =
      r.set (token_prefix <> mcp_token) (link_to_json f link cipher salt)
        (ttl_from link.expires_at now) now s

  unfoldable pub revoke : String → r.State → r.State
  revoke mcp_token s = r.delete (token_prefix <> mcp_token) s

  -- The branches of `get`, on what was read.
  unfoldable pub get_link :
      String
      → ℕ
      → Result StoreError TokenLink
      → r.State
      → Result StoreError (Option TokenLink) × r.State
  unfolding revoke
  get_link mcp_token now (err e) s = (err e, s)
  get_link mcp_token now (ok link) s =
      if is_expired link now then (ok none, revoke mcp_token s) else (ok (some link), s)

  unfoldable pub get_raw :
      String → ℕ → Option String → r.State → Result StoreError (Option TokenLink) × r.State
  unfolding get_link
  get_raw mcp_token now none s = (ok none, s)
  get_raw mcp_token now (some raw) s = get_link mcp_token now (link_from_json f raw cipher) s

  unfoldable pub get : String → ℕ → r.State → Result StoreError (Option TokenLink) × r.State
  unfolding get_raw
  get mcp_token now s = get_raw mcp_token now (r.get (token_prefix <> mcp_token) now s) s
