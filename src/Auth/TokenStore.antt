-- ===== src/Auth/TokenStore.antt =====
-- auth/token_store.py: issued access tokens, each with the Lobstr identity that it stands for.
-- Instants are microseconds since the epoch; the source keeps them as a float of seconds.
pub mod Laws
use lobstr_mcp.Prelude.{ℕ, ◌*◌, String, Bool, false, List, Option, none, some, if◌then◌else◌, leb}
use lobstr_mcp.Prelude.Dict.{Dict, lookup, insert, erase}

pub record TokenLink : Type 0 where
  pub lobstr_user_id : String
  pub lobstr_api_token : String
  pub scopes : List String
  pub expires_at : Option ℕ

-- Expiry and clock, the `now` argument being the reading that is used.
unfoldable pub expired_at : Option ℕ → ℕ → Bool
expired_at none now = false
expired_at (some t) now = leb t now

unfoldable pub is_expired : TokenLink → ℕ → Bool
unfolding expired_at
is_expired link now = expired_at link.expires_at now

abbrev pub Tokens : Type 0
Tokens = Dict TokenLink

unfoldable pub put : Tokens → String → TokenLink → Tokens
put by_token mcp_token link = insert mcp_token link by_token

-- The branches of `get`, on what the dict holds.
unfoldable pub get_found : Tokens → String → ℕ → Option TokenLink → Option TokenLink × Tokens
get_found by_token mcp_token now none = (none, by_token)
get_found by_token mcp_token now (some link) =
    if is_expired link now then (none, erase mcp_token by_token) else (some link, by_token)

unfoldable pub get : Tokens → String → ℕ → Option TokenLink × Tokens
unfolding get_found
get by_token mcp_token now = get_found by_token mcp_token now (lookup mcp_token by_token)

unfoldable pub revoke : Tokens → String → Tokens
revoke by_token mcp_token = erase mcp_token by_token
