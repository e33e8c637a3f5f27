-- ===== src/Persistence/Backend.antt =====
-- `make_stores`: which stores the server keeps. A store is what it is built from.
use lobstr_mcp.Prelude.{
  ℕ, String, Option, none, some, ◌≡◌, ◌⊎◌, inl, inr, if◌then◌else◌, ◌==◌, Bool-cases, true, ap, sym,
  refl, arith,
}
use lobstr_mcp.Prelude.Result.{Result, ok, err, ◌>>=◌, ok-injective}
use lobstr_mcp.Errors.{nonempty}
use lobstr_mcp.Safeguards.Idempotency.{default_idempotency_ttl}
use lobstr_mcp.Persistence.{default_idem_ttl, client_ttl}
use lobstr_mcp.Persistence.Link.{Crypto, StoreError, value_error, TokenCipher, new_cipher}

-- Each store in memory, or in Redis at an address, with its cipher or its time to live.
pub data TokenBackend : Type 0 where
  memory_tokens : TokenBackend
  redis_tokens : String → TokenCipher → TokenBackend

pub data IdempotencyBackend : Type 0 where
  memory_idempotency : ℕ → IdempotencyBackend
  redis_idempotency : String → ℕ → IdempotencyBackend

pub data ClientBackend : Type 0 where
  memory_clients : ClientBackend
  redis_clients : String → ℕ → ClientBackend

pub data RefreshBackend : Type 0 where
  memory_refreshes : RefreshBackend
  redis_refreshes : String → TokenCipher → RefreshBackend

pub record Stores : Type 0 where
  pub tokens : TokenBackend
  pub idempotency : IdempotencyBackend
  pub clients : ClientBackend
  pub refreshes : RefreshBackend
  pub backend : String

-- The settings that are read; an empty one counts as none.
pub record StoreSettings : Type 0 where
  pub redis_url : Option String
  pub token_key : Option String

module _ (f : Crypto) where
  unfoldable pub redis_stores : String → Option String → Result StoreError Stores
  unfolding new_cipher
  redis_stores url token_key = do
    tokens ← new_cipher f token_key
    refreshes ← new_cipher f token_key
    ok (record {
      tokens = redis_tokens url tokens;
      idempotency = redis_idempotency url default_idem_ttl;
      clients = redis_clients url client_ttl;
      refreshes = redis_refreshes url refreshes;
      backend = "redis";
    })

  -- Without a key the stores in Redis are refused before a connection is made.
  unfoldable pub keyed_stores : String → Option String → Result StoreError Stores
  unfolding redis_stores
  keyed_stores url none = err value_error
  keyed_stores url (some key) = if key == "" then err value_error else redis_stores url (some key)

  unfoldable pub memory_stores : Stores
  memory_stores = record {
    tokens = memory_tokens;
    idempotency = memory_idempotency default_idempotency_ttl;
    clients = memory_clients;
    refreshes = memory_refreshes;
    backend = "memory";
  }

  unfoldable pub with_url : Option String → Option String → Result StoreError Stores
  unfolding keyed_stores memory_stores
  with_url none token_key = ok memory_stores
  with_url (some url) token_key = if url == "" then ok memory_stores else keyed_stores url token_key

  unfoldable pub make_stores : StoreSettings → Result StoreError Stores
  unfolding with_url
  make_stores settings = with_url settings.redis_url settings.token_key

-- Whether the stores keep API tokens out of the process, and then only under the configured key.
abbrev pub Sealed : Crypto → Option String → Option String → Stores → Type 0
Sealed f redis_url token_key stores =
    ((nonempty redis_url ≡ none)
      × (stores.tokens ≡ memory_tokens)
      × (stores.refreshes ≡ memory_refreshes))
    ⊎ ((url : String) × (key : String) × (nonempty redis_url ≡ some url)
        × (nonempty token_key ≡ some key)
        × (f.accepts key ≡ true)
        × (stores.tokens ≡ redis_tokens url (record { key = key }))
        × (stores.refreshes ≡ redis_refreshes url (record { key = key })))

with_url-Sealed :
    (f : Crypto) (redis_url token_key : Option String) (stores : Stores)
    → with_url f redis_url token_key ≡ ok stores
    → Sealed f redis_url token_key stores
unfolding with_url keyed_stores redis_stores new_cipher memory_stores
with_url-Sealed f none token_key stores h =
    let made = ok-injective _ _ h in
    inl (refl, ap (λ s. s.tokens) (sym made), ap (λ s. s.refreshes) (sym made))
with_url-Sealed f (some url) none stores h = elim (Bool-cases (url == "")) [
  | inl blank ↦
      let made = ok-injective _ _ (rw blank at h) in
      inl (rw blank refl, ap (λ s. s.tokens) (sym made), ap (λ s. s.refreshes) (sym made))
  | inr filled ↦ absurd (ground arith)
]
with_url-Sealed f (some url) (some key) stores h = elim (Bool-cases (url == "")) [
  | inl blank ↦
      let made = ok-injective _ _ (rw blank at h) in
      inl (rw blank refl, ap (λ s. s.tokens) (sym made), ap (λ s. s.refreshes) (sym made))
  | inr there ↦ elim (Bool-cases (key == "")) [
    | inl blank ↦ absurd (ground arith)
    | inr filled ↦ elim (Bool-cases (f.accepts key)) [
      | inl fine ↦
          let made = ok-injective _ _ (rw (there, filled, fine) at h) in
          inr (
            url,
            key,
            rw there refl,
            rw filled refl,
            fine,
            ap (λ s. s.tokens) (sym made),
            ap (λ s. s.refreshes) (sym made),
          )
      | inr bad ↦ absurd (ground arith)
    ]
  ]
]

-- Whatever the settings, stores that are made keep the API tokens in the process, and then no Redis
-- address is set, or keep them in Redis under a cipher that holds the configured key, which is not
-- empty.
pub make_stores-Sealed :
    (f : Crypto) (settings : StoreSettings) (stores : Stores)
    → make_stores f settings ≡ ok stores
    → Sealed f settings.redis_url settings.token_key stores
unfolding make_stores
make_stores-Sealed f settings stores h =
    with_url-Sealed f settings.redis_url settings.token_key stores h
