-- ===== src/Lib.antt =====
-- Verification library of lobstr-mcp: an MCP server that lets an AI client find, configure and run
-- Lobstr scrapers over the Lobstr API, with OAuth for remote clients.
--
-- The parts and the files that model them:
--   src/lobstr_mcp/execution.py            Execution/Tasks: `_snapshot_tasks`, `_restore_tasks`,
--     `_replace_squid_input`, `_save_squid_input`, in the monad Exec of Client over a record of the
--     API's requests. Execution/Inputs: where each input goes, `_effective_settings` and
--     `_rows_this_run`. Execution/Submit: the end of `run_scraper_impl`, which writes and starts.
--     Execution/Request: `run_scraper_impl` from its key to its answer, and from its arguments on
--     (Opening). Execution/Results: `get_results_impl` with the index of tasks (Index).
--     Execution/Status: `get_run`, `wait_for_run` (Waiting), `abort_run`, `list_runs` and
--     `get_results_url`.
--   src/lobstr_mcp/tools/primitives.py     Primitives: `add_tasks_impl`, `create_squid_impl`
--     (Creating) and `update_scraper_impl` (Updating).
--   src/lobstr_mcp/tools/accounts.py       Accounts/Linking: `attach_account_impl`.
--   src/lobstr_mcp/lobstr_client.py        Client: the requests of `LobstrClient` as a record, with
--     those about runs in Client/Runs, and `resolve_crawler_id` in Client/Crawlers.
--   src/lobstr_mcp/persistence.py          Persistence: the store of tokens (Tokens), of keys
--     (Idempotency), the registries of clients and refresh tokens (Refreshes) and `make_stores`
--     (Backend).
--   src/lobstr_mcp/account_linking.py      Accounts, with the account of a run (Accounts/Attach) from
--     execution.py.
--   src/lobstr_mcp/auth/oauth_provider.py  Auth/Provider: the state of `LobstrOAuthProvider` (State),
--     `authorize` and `complete_consent` (Consent), the exchanges (Exchange), `_effective_scopes`
--     (State, Grants), and every sequence of requests as a step relation (Flow).
--   src/lobstr_mcp/auth/token_store.py     Auth/TokenStore
--   src/lobstr_mcp/auth/scopes.py          Auth/Scopes
--   src/lobstr_mcp/schema_translator.py    Schema: one input (Items), the /params payload (Params),
--     `_alias_name` (Alias), `translate_input_schema` (Translate), names that are declared twice
--     (Collisions).
--   src/lobstr_mcp/safeguards.py           Safeguards: `validate_input` (Validation),
--     `estimate_cost` (Cost), `IdempotencyStore` (Idempotency).
--   src/lobstr_mcp/errors.py               Errors
--   src/lobstr_mcp/toon.py                 Toon: quotation (Toon), the document (Document) and a
--     reader of rows (Reading, Lines).
--   Prelude, Json and Client hold what these share: tests, dictionaries, results, JSON-like values
--   and the client's requests. Tests runs the models on concrete data.
--
-- How they interact: the error contract turns what the client raises into the dict that a tool
-- returns, and the execution functions add the state of the saved rows to it. The provider keeps its
-- access tokens in the token store and narrows scopes before it issues any. The translated schema is
-- what input validation reads and what says where each input goes. A run looks up its key in the
-- idempotency store, finds its account, reads the saved rows, is estimated, asks for confirmation if
-- it is costly, writes, starts, and is recorded under the key. Execution/Request/Between follows the
-- store of keys through a list of calls.
--
-- State is passed explicitly. A dict is an association list in insertion order. The clock, random
-- tokens and the results of requests are arguments; times are in microseconds where the source has a
-- float of seconds, so `int(now)` is a division. A float of JSON is its bit pattern, and the
-- arithmetic of estimates is a parameter. The requests of the client are a parameter with the laws
-- that requests which delete nothing keep the saved rows, and that rows whose adding is answered are
-- saved.
-- The stores run over a Redis client, the cipher Fernet and the JSON module as parameters, with the
-- laws that a key which was set is there until it expires or is deleted, that a token of the cipher
-- decrypts to what was encrypted, and that a text of the JSON module reads back as what was written.
-- The encoder writes texts as lists of code points, and `str.strip`, the pattern of numbers, the text
-- of a number and `json.dumps` are parameters. A wait runs over a timer that tells the time and
-- sleeps.
--
-- Bounds and fuel: `wait_for_run` polls every 2 seconds for 50 seconds at most, so 25 sleeps fill the
-- limit, and the model has fuel for them. `_alias_name` counts up in a `while` loop; the model tries
-- one candidate more than there are names taken, and one of these is free.
--
-- Not modelled: the text of messages, hints and descriptions; the HTTP transport; the SDK's
-- request handlers; the declarations of the tools and the tools that only read (scrapers, listings of
-- accounts, estimates); the calls of the Lobstr backend for identities.
pub mod Prelude
pub mod Json
pub mod Errors
pub mod Client
pub mod Safeguards
pub mod Persistence
pub mod Schema
pub mod Accounts
pub mod Execution
pub mod Primitives
pub mod Toon
mod Tests
pub mod Auth
