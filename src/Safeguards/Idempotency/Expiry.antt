-- ===== src/Safeguards/Idempotency/Expiry.antt =====
-- How long a key guards against a second run.
use lobstr_mcp.Prelude.{
  ℕ, ◌+◌, ◌≤◌, String, Option, none, some, ◌≡◌, if◌then◌else◌, ltb, ◌==◌, eq_iff, eq_refl, or_else,
  arith, ◌∙◌,
}
use lobstr_mcp.Prelude.Dict.{lookup, lookup-insert, lookup-erase}
use lobstr_mcp.Safeguards.Idempotency.{
  Entry, IdempotencyStore, is_past, get, expiry, put, derived_idempotency_ttl,
}

-- What `get` answers for an entry.
abbrev pub answer_of : Option Entry → ℕ → Option String
answer_of none now = none
answer_of (some (run_id, expires_at)) now = if is_past expires_at now then none else some run_id

pub get_lem :
    (store : IdempotencyStore) (key : String) (now : ℕ)
    → (get store key now).0 ≡ answer_of (lookup key store.entries) now
unfolding get
get_lem store key now = ground arith

-- A recorded run answers for its key until `ttl` seconds have passed, and for ever if `ttl` is 0;
-- then the key is free again. Every other key answers as before.
pub get-put_lifetime :
    (store : IdempotencyStore) (key other run_id : String) (ttl : Option ℕ) (now later : ℕ)
    → (get (put store key run_id ttl now) other later).0 ≡ (
        if key == other
        then answer_of (some (run_id, expiry now (or_else ttl store.default_ttl))) later
        else (get store other later).0)
unfolding put
get-put_lifetime store key other run_id ttl now later = ground (
  arith,
  get_lem (put store key run_id ttl now) other later,
  get_lem store other later,
  lookup-insert key other (run_id, expiry now (or_else ttl store.default_ttl)) store.entries,
)

pub default_ttl-get :
    (key : String) (store : IdempotencyStore) (t : ℕ)
    → (get store key t).1.default_ttl ≡ store.default_ttl
unfolding get
default_ttl-get key store t = ground arith

-- A read that drops an expired entry changes no later answer.
pub get-get_other :
    (store : IdempotencyStore) (key other : String) (now later : ℕ)
    → now ≤ later
    → (get (get store key now).1 other later).0 ≡ (get store other later).0
unfolding get
get-get_other store key other now later h =
    ground (arith, lookup-erase key other store.entries, eq_iff key other)

-- A run that is filed under a derived key is found by a retry within two minutes, and not after.
pub derived_window :
    (store : IdempotencyStore) (key run_id : String) (now later : ℕ)
    → (get (put store key run_id (some derived_idempotency_ttl) now) key later).0
      ≡ (if ltb later (now + 120000000) then some run_id else none)
unfolding expiry
derived_window store key run_id now later =
    get-put_lifetime store key key run_id (some derived_idempotency_ttl) now later
    ∙ rw (eq_refl key) (ground arith)
