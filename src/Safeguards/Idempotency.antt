-- ===== src/Safeguards/Idempotency.antt =====
-- safeguards.py: the in-memory `IdempotencyStore`, and the key that a run is filed under.
-- Instants are microseconds since the epoch, times to live whole seconds.
pub mod Expiry
use lobstr_mcp.Prelude.{
  ℕ, zero, suc, ◌+◌, ◌*◌, String, ◌<>◌, Bool, true, false, [], Option, none, some, if◌then◌else◌,
  leb, ◌==◌, or_else,
}
use lobstr_mcp.Prelude.Dict.{Dict, lookup, insert, erase}
use lobstr_mcp.Json.{Json}

-- `DERIVED_IDEMPOTENCY_TTL` and `DEFAULT_IDEMPOTENCY_TTL`
abbrev pub derived_idempotency_ttl : ℕ
derived_idempotency_ttl = 120

abbrev pub default_idempotency_ttl : ℕ
default_idempotency_ttl = 24 * 3600

abbrev pub Entry : Type 0
Entry = String × Option ℕ

pub record IdempotencyStore : Type 0 where
  pub entries : Dict Entry
  pub default_ttl : ℕ

abbrev pub new_store : IdempotencyStore
new_store = record { entries = []; default_ttl = default_idempotency_ttl }

abbrev pub is_past : Option ℕ → ℕ → Bool
is_past none now = false
is_past (some expires_at) now = leb expires_at now

unfoldable pub get_entry :
    IdempotencyStore → String → ℕ → Option Entry → Option String × IdempotencyStore
get_entry store key now none = (none, store)
get_entry store key now (some (run_id, expires_at)) =
    if is_past expires_at now
    then (none, record store { entries = erase key store.entries })
    else (some run_id, store)

unfoldable pub get : IdempotencyStore → String → ℕ → Option String × IdempotencyStore
unfolding get_entry
get store key now = get_entry store key now (lookup key store.entries)

-- A time to live of 0 means that the entry never expires.
unfoldable pub expiry : ℕ → ℕ → Option ℕ
expiry now zero = none
expiry now (suc ttl) = some (now + suc ttl * 1000000)

unfoldable pub put : IdempotencyStore → String → String → Option ℕ → ℕ → IdempotencyStore
unfolding expiry
put store key run_id ttl now = record store {
  entries = insert key (run_id, expiry now (or_else ttl store.default_ttl)) store.entries;
}

-- Python's `json.dumps(values, sort_keys=True, default=str)` and the hex digest of SHA-256.
pub record Digests : Type 0 where
  pub dumps : Dict Json → String
  pub sha256_hex : String → String

unfoldable pub compute_idempotency_key : Digests → String → String → Dict Json → String
compute_idempotency_key dig user_scope scraper values =
    dig.sha256_hex (user_scope <> ("|" <> (scraper <> ("|" <> dig.dumps values))))
