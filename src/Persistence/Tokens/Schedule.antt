-- ===== src/Persistence/Tokens/Schedule.antt =====
-- Sequences of calls of the token store, in Redis and in memory, and how the two are compared.
use lobstr_mcp.Prelude.{ℕ, ◌≤◌, String, ◌<>◌, true, List, [], ◌∷◌, Option, none, some, ◌≡◌, ◌⊎◌}
use lobstr_mcp.Prelude.Dict.{lookup}
use lobstr_mcp.Prelude.Result.{Result, ok}
use lobstr_mcp.Auth.TokenStore.{TokenLink, is_expired, expired_at, Tokens}
use lobstr_mcp.Auth.TokenStore as Memory
use lobstr_mcp.Persistence.{Redis, token_prefix, ends_soon}
use lobstr_mcp.Persistence.Link.{Crypto, StoreError, TokenCipher, link_to_json}
use lobstr_mcp.Persistence.Tokens.{put, get, revoke}

-- A call, with the random bytes of its encryption.
pub data Call : Type 0 where
  put_call : String → TokenLink → String → Call
  get_call revoke_call : String → Call

abbrev pub Schedule : Type 0
Schedule = List (ℕ × Call)

-- The calls come in the order of their instants, none before `now` and none after `later`.
abbrev pub Ordered : ℕ → Schedule → ℕ → Type 0
Ordered now [] later = now ≤ later
Ordered now ((t, call) ∷ rest) later = (now ≤ t) × Ordered t rest later

abbrev pub step_memory : ℕ → Call → Tokens → Tokens
step_memory t (put_call token link salt) d = Memory.put d token link
step_memory t (get_call token) d = (Memory.get d token t).1
step_memory t (revoke_call token) d = Memory.revoke d token

abbrev pub run_memory : Schedule → Tokens → Tokens
run_memory [] d = d
run_memory ((t, call) ∷ rest) d = run_memory rest (step_memory t call d)

-- Redis answers what memory answers, or nothing for a link that has less than a second left.
abbrev pub Stands : Result StoreError (Option TokenLink) → Option TokenLink → ℕ → Type 0
Stands redis memory later =
    (redis ≡ ok memory)
    ⊎ ((link : TokenLink) × (memory ≡ some link)
        × (redis ≡ ok none)
        × (ends_soon link.expires_at later ≡ true))

module _ (r : Redis) (f : Crypto) (cipher : TokenCipher) where
  abbrev pub step_redis : ℕ → Call → r.State → r.State
  step_redis t (put_call token link salt) s = put r f cipher token link t salt s
  step_redis t (get_call token) s = (get r f cipher token t s).1
  step_redis t (revoke_call token) s = revoke r f cipher token s

  abbrev pub run_redis : Schedule → r.State → r.State
  run_redis [] s = s
  run_redis ((t, call) ∷ rest) s = run_redis rest (step_redis t call s)

  -- What one key holds in Redis, against the entry in memory.
  abbrev pub Agrees : Option String → Option TokenLink → ℕ → Type 0
  Agrees none none later = Unit
  Agrees none (some link) later = ends_soon link.expires_at later ≡ true
  Agrees (some raw) entry later =
      (link : TokenLink) × (salt : String) × (raw ≡ link_to_json f link cipher salt)
      × ((entry ≡ some link) ⊎ ((entry ≡ none) × (is_expired link later ≡ true)))

  abbrev pub Agree : r.State → Tokens → ℕ → Type 0
  Agree s d now =
      (token : String) (later : ℕ)
      → now ≤ later
      → Agrees (r.get (token_prefix <> token) later s) (lookup token d) later
