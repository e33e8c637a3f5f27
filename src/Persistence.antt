-- ===== src/Persistence.antt =====
-- persistence.py: the stores that outlive the process, kept in Redis, and the choice between these
-- and the stores in memory. The client library of Redis, Fernet and the JSON module are parameters.
pub mod Link
pub mod Tokens
pub mod Idempotency
pub mod Refreshes
pub mod Backend
use lobstr_mcp.Prelude.{
  ℕ, zero, suc, ◌+◌, ◌-◌, ◌*◌, ◌≤◌, String, ◌<>◌, Bool, true, false, Option, none, some, ◌≡◌,
  if◌then◌else◌, ltb, ◌==◌, refl, arith, eq_iff, ap, Bool-cases, inl, inr,
}
use text.Mathlib.TextLemmas.{append_cancel_left}
use lobstr_mcp.Auth.Provider.State.{seconds}

-- `_TOKEN_PREFIX`, `_IDEM_PREFIX`, `_CLIENT_PREFIX` and `_REFRESH_PREFIX`
abbrev pub token_prefix : String
token_prefix = "lobstr_mcp:token:"

abbrev pub idem_prefix : String
idem_prefix = "lobstr_mcp:idem:"

abbrev pub client_prefix : String
client_prefix = "lobstr_mcp:client:"

abbrev pub refresh_prefix : String
refresh_prefix = "lobstr_mcp:refresh:"

-- `_DEFAULT_IDEM_TTL` and `_CLIENT_TTL`, in seconds.
abbrev pub default_idem_ttl : ℕ
default_idem_ttl = 24 * 3600

abbrev pub client_ttl : ℕ
client_ttl = 90 * (24 * 3600)

-- The requests of a Redis client. `set` takes the key, the value, the time to live in seconds and
-- the instant at which it is sent; `get` the key and the instant.
pub record Redis : Type 1 where
  pub State : Type 0
  pub set : String → String → Option ℕ → ℕ → State → State
  pub get : String → ℕ → State → Option String
  pub delete : String → State → State

-- Whether a value that was set at `now` is still held at `later`.
abbrev pub held : Option ℕ → ℕ → ℕ → Bool
held none now later = true
held (some ttl) now later = ltb later (now + ttl * 1000000)

-- What the documentation of SET, GET and DEL promises. Of a time to live of 0 nothing is said: Redis
-- refuses it.
pub record RedisLaws (r : Redis) : Type 0 where
  pub empty : r.State
  pub get_empty : (k : String) (now : ℕ) → r.get k now empty ≡ none
  pub get-set :
      (k j v : String) (ex : Option ℕ) (now later : ℕ) (s : r.State)
      → now ≤ later
      → ((n : ℕ) → ex ≡ some n → 1 ≤ n)
      → r.get j later (r.set k v ex now s)
        ≡ (if k == j then (if held ex now later then some v else none) else r.get j later s)
  pub get-delete :
      (k j : String) (now : ℕ) (s : r.State)
      → r.get j now (r.delete k s) ≡ (if k == j then none else r.get j now s)

-- `_ttl_from`, of an instant: whole seconds that remain, and None if there are none.
unfoldable pub positive : ℕ → Option ℕ
positive zero = none
positive (suc n) = some (suc n)

unfoldable pub ttl_from : Option ℕ → ℕ → Option ℕ
unfolding positive
ttl_from none now = none
ttl_from (some expires_at) now = positive (seconds (expires_at - now))

-- Two keys with the same prefix are equal when what follows it is.
pub prefixed : (p k j : String) → (p <> k == p <> j) ≡ (k == j)
prefixed p k j =
    ground (arith, eq_iff (p <> k) (p <> j), eq_iff k j, append_cancel_left p k j, ap (λ x. p <> x))

-- Whether an entry has less than a second left.
abbrev pub ends_soon : Option ℕ → ℕ → Bool
ends_soon none now = false
ends_soon (some expires_at) now = ltb expires_at (now + 1000000)

pub ttl_from-positive : (e : Option ℕ) (now n : ℕ) → ttl_from e now ≡ some n → 1 ≤ n
unfolding ttl_from
ttl_from-positive none now n h = absurd (cc h)
ttl_from-positive (some e) now n h = ground arith

-- An entry that Redis has dropped on its own had less than a second left.
pub held-ttl_from :
    (e : Option ℕ) (now later : ℕ)
    → held (ttl_from e now) now later ≡ false
    → ends_soon e later ≡ true
unfolding ttl_from
held-ttl_from none now later h = absurd (ground arith)
held-ttl_from (some e) now later h = ground arith
