-- ===== src/Persistence/Idempotency.antt =====
-- `RedisIdempotencyStore`, and that it stands in for the store in memory.
pub mod Refines
use lobstr_mcp.Prelude.{ℕ, String, ◌<>◌, Option, some, or_else}
use lobstr_mcp.Persistence.{Redis, idem_prefix}

module _ (r : Redis) where
  unfoldable pub get : String → ℕ → r.State → Option String
  get key now s = r.get (idem_prefix <> key) now s

  -- `default_ttl` is the store's `_ttl`.
  unfoldable pub put : ℕ → String → String → Option ℕ → ℕ → r.State → r.State
  put default_ttl key run_id ttl now s =
      r.set (idem_prefix <> key) run_id (some (or_else ttl default_ttl)) now s
