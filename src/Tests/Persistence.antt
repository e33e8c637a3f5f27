-- ===== src/Tests/Persistence.antt =====
-- The stores in a Redis of the tests.
use lobstr_mcp.Prelude.{
  ℕ, String, List, [], ◌∷◌, Option, none, some, ◌≡◌, refl, ap, ◌∙◌, if◌then◌else◌, arith,
}
use lobstr_mcp.Prelude.Result.{Result, ok, err}
use lobstr_mcp.Json.{Json, str, list, as_list, as_str, of_str}
use lobstr_mcp.Auth.TokenStore.{TokenLink}
use lobstr_mcp.Auth.TokenStore as TokenStore
use lobstr_mcp.Safeguards.Idempotency as IdempotencyStore
use lobstr_mcp.Auth.Provider.State.{RefreshToken, ClientInfo}
use lobstr_mcp.Persistence.Link.{
  StoreError, TokenCipher, to_scopes, to_expiry, of_texts, of_expiry, to_scopes-list,
  to_expiry-of_expiry,
}
use lobstr_mcp.Persistence.Tokens as Tokens
use lobstr_mcp.Persistence.Tokens.Schedule.{
  Schedule, put_call, get_call, revoke_call, run_memory, run_redis, Stands,
}
use lobstr_mcp.Persistence.Tokens.Refines.{run_refines}
use lobstr_mcp.Persistence.Idempotency as Idempotency
use lobstr_mcp.Persistence.Idempotency.Refines as Runs
use lobstr_mcp.Persistence.Refreshes.{Models, ModelLaws, put_refresh_in, pop_refresh_in}
use lobstr_mcp.Persistence.Refreshes.Popping.{lasts, pop-put_once}
use lobstr_mcp.Persistence.Backend.{
  StoreSettings, Stores, redis_tokens, redis_idempotency, redis_clients, redis_refreshes,
  make_stores, Sealed, make_stores-Sealed,
}
use lobstr_mcp.Tests.Wire.{crypto, crypto-accepts, crypto-CryptoLaws, redis, redis-RedisLaws}

abbrev link : TokenLink
link = record {
  lobstr_user_id = "u1";
  lobstr_api_token = "secret";
  scopes = "runs:read" ∷ [];
  expires_at = some 5000000;
}

abbrev cipher : TokenCipher
cipher = record { key = "k" }

abbrev calls : Schedule
calls =
    (1000000, put_call "a" link "salt")
    ∷ (2000000, get_call "a")
    ∷ (2500000, put_call "b" link "other")
    ∷ (3000000, revoke_call "b")
    ∷ []

run_refines_example :
    Stands
      (Tokens.get redis crypto cipher "a" 4000000
        (run_redis redis crypto cipher calls redis-RedisLaws.empty)).0
      (TokenStore.get (run_memory calls []) "a" 4000000).0
      4000000
run_refines_example =
    run_refines redis redis-RedisLaws crypto crypto-CryptoLaws cipher calls 0 4000000 "a"
      (ground arith)

abbrev run_calls : Runs.Schedule
run_calls =
    (0, Runs.put_call "k" "run1" (some 120))
    ∷ (1000000, Runs.get_call "k")
    ∷ (2000000, Runs.put_call "j" "run2" none)
    ∷ []

run_refines_memory_example :
    Idempotency.get redis "k" 90000000 (Runs.run_redis redis 86400 run_calls redis-RedisLaws.empty)
    ≡ (IdempotencyStore.get
        (Runs.run_memory run_calls (record { entries = []; default_ttl = 86400 }))
        "k"
        90000000).0
run_refines_memory_example =
    Runs.run_refines_memory redis redis-RedisLaws 86400 run_calls 0 90000000 "k" (omega arith) (
      omega arith,
      (λ n e. ground arith),
      (omega arith, tt, (omega arith, (λ n e. ground arith), omega arith)),
    )

abbrev settings : StoreSettings
settings = record { redis_url = some "redis://host"; token_key = some "k" }

built :
    String
    → String
    → Result StoreError (List String)
    → Result StoreError (Option ℕ)
    → Option RefreshToken
built token client_id (ok scopes) (ok expires_at) =
    some (record { token = token; client_id = client_id; scopes = scopes; expires_at = expires_at })
built token client_id _ _ = none

refresh_of : Option (List Json) → Option RefreshToken
unfolding built
refresh_of (some (str token ∷ str client_id ∷ scopes ∷ expires_at ∷ [])) =
    built token client_id (to_scopes scopes) (to_expiry expires_at)
refresh_of _ = none

listed : Option Json → Option (List Json)
listed none = none
listed (some v) = as_list v

known : String → Option String → Result StoreError (List String) → Option ClientInfo
known client_id name (ok uris) =
    some (record { client_id = client_id; client_name = name; redirect_uris = uris })
known client_id name (err e) = none

client_of : Option (List Json) → Option ClientInfo
unfolding known
client_of (some (str client_id ∷ name ∷ uris ∷ [])) = known client_id (as_str name) (to_scopes uris)
client_of _ = none

as_str-of_str : (o : Option String) → as_str (of_str o) ≡ o
as_str-of_str none = refl
as_str-of_str (some t) = refl

refresh_parts : RefreshToken → List Json
refresh_parts t =
    str t.token ∷ str t.client_id ∷ list (of_texts t.scopes) ∷ of_expiry t.expires_at ∷ []

client_parts : ClientInfo → List Json
client_parts c = str c.client_id ∷ of_str c.client_name ∷ list (of_texts c.redirect_uris) ∷ []

pub models : Models
unfolding refresh_of listed client_of refresh_parts client_parts
models = record {
  dump_refresh = λ t. crypto.dumps (list (refresh_parts t));
  validate_refresh = λ s. refresh_of (listed (crypto.loads s));
  dump_client = λ c. crypto.dumps (list (client_parts c));
  validate_client = λ s. client_of (listed (crypto.loads s));
}

client_of-client_parts :
    (c : ClientInfo) → client_of (listed (some (list (client_parts c)))) ≡ some c
unfolding client_of listed client_parts known
client_of-client_parts c =
    ap (λ n. known c.client_id n (to_scopes (list (of_texts c.redirect_uris))))
      (as_str-of_str c.client_name)
    ∙ ap (known c.client_id c.client_name) (to_scopes-list c.redirect_uris)

refresh_of-refresh_parts :
    (t : RefreshToken) → refresh_of (listed (some (list (refresh_parts t)))) ≡ some t
unfolding refresh_of listed refresh_parts built
refresh_of-refresh_parts t =
    ap (λ s. built t.token t.client_id s (to_expiry (of_expiry t.expires_at)))
      (to_scopes-list t.scopes)
    ∙ ap (built t.token t.client_id (ok t.scopes)) (to_expiry-of_expiry t.expires_at)

models-ModelLaws : ModelLaws models
unfolding models
models-ModelLaws = record {
  validate-dump_refresh = λ t.
      ap (λ o. refresh_of (listed o)) (crypto-CryptoLaws.loads-dumps (list (refresh_parts t)))
      ∙ refresh_of-refresh_parts t;
  validate-dump_client = λ c.
      ap (λ o. client_of (listed o)) (crypto-CryptoLaws.loads-dumps (list (client_parts c)))
      ∙ client_of-client_parts c;
}

abbrev refresh_token : RefreshToken
refresh_token = record {
  token = "r";
  client_id = "c";
  scopes = "runs:read" ∷ [];
  expires_at = some 90;
}

pop-put_once_example :
    let stored =
      put_refresh_in redis crypto models cipher refresh_token link 1000000 "salt"
        redis-RedisLaws.empty in
    let (popped, s') = pop_refresh_in redis crypto models cipher "r" 2000000 stored in
    (popped ≡ ok (if lasts (some 90) 1000000 2000000 then some (refresh_token, link) else none))
    × ((pop_refresh_in redis crypto models cipher "r" 3000000 s').0 ≡ ok none)
pop-put_once_example =
    pop-put_once redis crypto models cipher redis-RedisLaws crypto-CryptoLaws models-ModelLaws
      refresh_token link "salt" 1000000 2000000 3000000 redis-RedisLaws.empty (omega arith)
      (omega arith)

abbrev kept : Stores
kept = record {
  tokens = redis_tokens "redis://host" cipher;
  idempotency = redis_idempotency "redis://host" 86400;
  clients = redis_clients "redis://host" 7776000;
  refreshes = redis_refreshes "redis://host" cipher;
  backend = "redis";
}

kept_test : make_stores crypto settings ≡ ok kept
unfolding make_stores
kept_test = rw (crypto-accepts "k") refl

make_stores-Sealed_example : Sealed crypto (some "redis://host") (some "k") kept
make_stores-Sealed_example = make_stores-Sealed crypto settings kept kept_test
