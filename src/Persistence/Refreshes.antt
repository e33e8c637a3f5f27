-- ===== src/Persistence/Refreshes.antt =====
-- The registries of clients and of refresh tokens, in Redis and in memory. The JSON form of an SDK
-- model is a parameter.
pub mod Popping
use lobstr_mcp.Prelude.{
  ℕ, ◌≤◌, String, ◌<>◌, Bool, true, false, [], ◌∷◌, Option, none, some, ◌≡◌, refl, if◌then◌else◌,
  ◌==◌, ap, ◌∙◌, sym, Bool-cases, inl, inr, eq_refl, arith,
}
use lobstr_mcp.Prelude.Dict.{Dict, lookup, insert, erase}
use lobstr_mcp.Prelude.Result.{Result, ok, err, ◌>>=◌}
use lobstr_mcp.Json.{Json, str, dict}
use lobstr_mcp.Auth.TokenStore.{TokenLink}
use lobstr_mcp.Auth.Provider.State.{ClientInfo, RefreshToken, at_second}
use lobstr_mcp.Persistence.{
  Redis, RedisLaws, client_prefix, refresh_prefix, client_ttl, prefixed, held, ttl_from,
  ttl_from-positive,
}
use lobstr_mcp.Persistence.Link.{
  Crypto, CryptoLaws, StoreError, malformed, TokenCipher, text_at, dict_of, link_to_json,
  link_from_json, dict_of-dict, link_from_json-link_to_json,
}

-- `model_dump_json` and `model_validate_json`
pub record Models : Type 0 where
  pub dump_refresh : RefreshToken → String
  pub validate_refresh : String → Option RefreshToken
  pub dump_client : ClientInfo → String
  pub validate_client : String → Option ClientInfo

pub record ModelLaws (m : Models) : Type 0 where
  pub validate-dump_refresh : (t : RefreshToken) → m.validate_refresh (m.dump_refresh t) ≡ some t
  pub validate-dump_client : (c : ClientInfo) → m.validate_client (m.dump_client c) ≡ some c

-- `MemoryClientRegistry` and `MemoryRefreshRegistry`; `none` is the pair of two Nones.
unfoldable pub put_client : ClientInfo → Dict ClientInfo → Dict ClientInfo
put_client info d = insert info.client_id info d

unfoldable pub memory_client : String → Dict ClientInfo → Option ClientInfo
memory_client client_id d = lookup client_id d

unfoldable pub put_refresh :
    RefreshToken → TokenLink → Dict (RefreshToken × TokenLink) → Dict (RefreshToken × TokenLink)
put_refresh refresh_token link d = insert refresh_token.token (refresh_token, link) d

unfoldable pub get_refresh :
    String → Dict (RefreshToken × TokenLink) → Option (RefreshToken × TokenLink)
get_refresh token d = lookup token d

unfoldable pub pop_refresh :
    String
    → Dict (RefreshToken × TokenLink)
    → Option (RefreshToken × TokenLink) × Dict (RefreshToken × TokenLink)
pop_refresh token d = (lookup token d, erase token d)

unfoldable pub validated {ℓ} : {A : Type ℓ} → Option A → Result StoreError A
validated none = err malformed
validated (some a) = ok a

unfoldable pub expiry_of : Option ℕ → Option ℕ
expiry_of none = none
expiry_of (some n) = some (at_second n)

module _ (r : Redis) (f : Crypto) (m : Models) (cipher : TokenCipher) where
  -- `RedisClientRegistry`, with its time to live.
  unfoldable pub put_client_in : ClientInfo → ℕ → r.State → r.State
  put_client_in info now s =
      r.set (client_prefix <> info.client_id) (m.dump_client info) (some client_ttl) now s

  unfoldable pub found_client : Option String → Result StoreError (Option ClientInfo)
  unfolding validated
  found_client none = ok none
  found_client (some raw) = validated (m.validate_client raw) >>= λ info. ok (some info)

  unfoldable pub get_client_in : String → ℕ → r.State → Result StoreError (Option ClientInfo)
  unfolding found_client
  get_client_in client_id now s = found_client (r.get (client_prefix <> client_id) now s)

  -- `RedisRefreshRegistry`
  unfoldable pub refresh_payload : RefreshToken → TokenLink → String → Dict Json
  refresh_payload refresh_token link salt =
      ("refresh", str (m.dump_refresh refresh_token))
      ∷ ("link", str (link_to_json f link cipher salt))
      ∷ []

  unfoldable pub put_refresh_in : RefreshToken → TokenLink → ℕ → String → r.State → r.State
  unfolding refresh_payload expiry_of
  put_refresh_in refresh_token link now salt s =
      r.set (refresh_prefix <> refresh_token.token)
        (f.dumps (dict (refresh_payload refresh_token link salt)))
        (ttl_from (expiry_of refresh_token.expires_at) now) now s

  unfoldable pub load_fields : Dict Json → Result StoreError (RefreshToken × TokenLink)
  unfolding validated
  load_fields d = do
    dumped ← text_at "refresh" d
    refresh_token ← validated (m.validate_refresh dumped)
    stored ← text_at "link" d
    link ← link_from_json f stored cipher
    ok (refresh_token, link)

  unfoldable pub load : String → Result StoreError (RefreshToken × TokenLink)
  unfolding load_fields
  load raw = dict_of (f.loads raw) >>= load_fields

  unfoldable pub loaded : Option String → Result StoreError (Option (RefreshToken × TokenLink))
  unfolding load
  loaded none = ok none
  loaded (some raw) = load raw >>= λ pair. ok (some pair)

  unfoldable pub get_refresh_in :
      String → ℕ → r.State → Result StoreError (Option (RefreshToken × TokenLink))
  unfolding loaded
  get_refresh_in token now s = loaded (r.get (refresh_prefix <> token) now s)

  unfoldable pub pop_raw :
      String
      → Option String
      → r.State
      → Result StoreError (Option (RefreshToken × TokenLink)) × r.State
  unfolding loaded
  pop_raw token none s = (ok none, s)
  pop_raw token (some raw) s = (loaded (some raw), r.delete (refresh_prefix <> token) s)

  unfoldable pub pop_refresh_in :
      String → ℕ → r.State → Result StoreError (Option (RefreshToken × TokenLink)) × r.State
  unfolding pop_raw
  pop_refresh_in token now s = pop_raw token (r.get (refresh_prefix <> token) now s) s
