-- ===== src/Execution/Request/Opening.antt =====
-- execution.py: the first part of `run_scraper_impl`, from the arguments to the key of the run: the
-- crawler, its schema, the check of the input, the defaults and the key; and the whole call.
use lobstr_mcp.Prelude.{
  ℕ, String, ◌<>◌, Bool, not, ◌||◌, List, [], ◌∷◌, Option, none, some, if◌then◌else◌, any, is_empty,
  is_some, or_else,
}
use lobstr_mcp.Prelude.Dict.{Dict, keys, update}
use lobstr_mcp.Prelude.Int.{ℤ}
use lobstr_mcp.Prelude.Result.{Result, ok, err}
use lobstr_mcp.Json.{Json, get_str}
use lobstr_mcp.Errors.{Exn, other, nonempty}
use lobstr_mcp.Client.{Client, Exec, pure, raise, continue, attempt, ◌>>=◌}
use lobstr_mcp.Client.Crawlers.{resolve_crawler_id}
use lobstr_mcp.Schema.Items.{Item, input_items}
use lobstr_mcp.Schema.Translate.{Translated, translate_input_schema}
use lobstr_mcp.Safeguards.Validation.{ValidationError, validate_input}
use lobstr_mcp.Safeguards.Cost.{Floats}
use lobstr_mcp.Safeguards.Idempotency.{
  IdempotencyStore, Digests, compute_idempotency_key, derived_idempotency_ttl,
}
use lobstr_mcp.Accounts.{Clock}
use lobstr_mcp.Execution.Inputs.{at_task_level, level_at}
use lobstr_mcp.Execution.Request.{Request, Outcome, run_scraper}

-- The arguments, and `run_confirm_threshold` of the settings.
pub record Call : Type 0 where
  pub scraper : Option String
  pub input : Dict Json
  pub confirm : Bool
  pub idempotency_key : Option String
  pub squid_id : Option String
  pub account_id : Option String
  pub replace_tasks : Bool
  pub run_confirm_threshold : ℤ

-- What the program computes with texts and values: a number's digits, `t.strip().lower()`, digests.
pub record Texts : Type 0 where
  pub show : ℕ → String
  pub short : String → String
  pub digests : Digests

-- A call is turned away, or comes to what is known once its input was checked.
pub data Opened : Type 0 where
  invalid_request : Opened
  validation_error : List ValidationError → Opened
  opened : Request → Opened

pub data CallOutcome : Type 0 where
  turned_away : Opened → CallOutcome
  outcome : Outcome → CallOutcome

abbrev pub reuse : Call → Bool
reuse call = is_some (nonempty call.squid_id)

-- `levels.get(k)` of some key is neither of a squid nor of a function.
unfoldable pub has_task_input : Dict (Option String) → Dict Json → Bool
has_task_input levels input = any (λ k. at_task_level (level_at levels k)) (keys input)

-- The errors of the input; a reused squid without any input is not checked.
unfoldable pub errors_of : Bool → Translated → Dict Json → List ValidationError
unfolding has_task_input
errors_of reused translated input =
    if not (is_empty input) || not reused
    then validate_input input translated.json_schema translated.modes
        (not reused || has_task_input translated.levels input)
    else []

-- The defaults of a new squid, under the input.
unfoldable pub filled_input : Bool → Translated → Dict Json → Dict Json
filled_input reused translated input =
    if reused then input else update translated.defaults_to_fill input

-- The key under which the run is filed, and its time to live.
unfoldable pub key_of : Texts → String → Option String → String → Dict Json → String × Option ℕ
key_of texts user_scope none target input = (
  "derived:" <> compute_idempotency_key texts.digests user_scope target input,
  some derived_idempotency_ttl,
)
key_of texts user_scope (some key) target input = (user_scope <> (":" <> key), none)

unfoldable pub request_of :
    Texts → Call → String → Option (Dict Json) → String → Dict Json → Translated → Request
unfolding key_of filled_input
request_of texts call user_scope existing scraper crawler translated =
    let input = filled_input (reuse call) translated call.input in
    let (key, key_ttl) =
      key_of texts user_scope (nonempty call.idempotency_key)
        (or_else (nonempty call.squid_id) scraper) input in
    record {
      key = key;
      key_ttl = key_ttl;
      scraper = scraper;
      crawler = crawler;
      levels = translated.levels;
      wire_names = translated.wire_names;
      input = input;
      squid_id = or_else call.squid_id "";
      existing_squid = existing;
      account_id = call.account_id;
      replace_tasks = call.replace_tasks;
      confirm = call.confirm;
      run_confirm_threshold = call.run_confirm_threshold;
    }

unfoldable pub params_of : Result Exn (Dict Json) → Option (Dict Json)
params_of (ok params) = some params
params_of (err e) = none

module _ (texts : Texts) (c : Client) where
  unfoldable pub checked :
      Call
      → Option (Dict Json)
      → String
      → Dict Json
      → Translated
      → List ValidationError
      → Exec c.State Opened
  unfolding request_of
  checked call existing scraper crawler translated (e ∷ errors) =
      pure (validation_error (e ∷ errors))
  checked call existing scraper crawler translated [] = λ s.
      (ok (opened (request_of texts call (c.user_scope s) existing scraper crawler translated)), s)

  -- A malformed entry of the crawler's inputs raises.
  unfoldable pub translated_of : Option (List Item) → Option (Dict Json) → Exec c.State Translated
  translated_of none params = raise (other "KeyError")
  translated_of (some items) params = pure (translate_input_schema texts.show items params)

  unfoldable pub open_schema :
      Call → Option (Dict Json) → String → Dict Json → Result Exn (Dict Json) → Exec c.State Opened
  unfolding checked translated_of errors_of params_of
  open_schema call existing scraper crawler params = do
    translated ← translated_of (input_items crawler) (params_of params)
    checked call existing scraper crawler translated (errors_of (reuse call) translated call.input)

  unfoldable pub open_crawler : Call → Option (Dict Json) → String → Exec c.State Opened
  unfolding open_schema
  open_crawler call existing scraper = do
    crawler ← c.get_crawler scraper
    params ← attempt (c.get_crawler_params scraper)
    open_schema call existing scraper crawler params

  unfoldable pub open_with : Call → Option (Dict Json) → Option String → Exec c.State Opened
  unfolding open_crawler
  open_with call existing scraper = do
    crawler_id ← resolve_crawler_id texts.short c scraper
    open_crawler call existing (or_else crawler_id "")

  -- The squid if one is reused, and the crawler that the caller or the squid names.
  unfoldable pub open_call : Call → Option String → Option String → Exec c.State Opened
  unfolding open_with
  open_call call none none = pure invalid_request
  open_call call (some scraper) none = open_with call none (some scraper)
  open_call call scraper (some squid_id) = do
    squid ← c.get_squid squid_id
    open_with call (some squid) (elim scraper [ none ↦ get_str "crawler" squid | some t ↦ some t ])

  unfoldable pub opening : Call → Exec c.State Opened
  unfolding open_call
  opening call = open_call call (nonempty call.scraper) (nonempty call.squid_id)

  module _ (fl : Floats) (clock : Clock) where
    unfoldable pub completed :
        (Result Exn Outcome × c.State) × IdempotencyStore
        → (Result Exn CallOutcome × c.State) × IdempotencyStore
    completed (out, store) = (continue (λ o. pure (outcome o)) out, store)

    unfoldable pub run_opened :
        Result Exn Opened × c.State
        → IdempotencyStore
        → ℕ
        → ℕ
        → (Result Exn CallOutcome × c.State) × IdempotencyStore
    unfolding completed
    run_opened (err e, s) store now later = ((err e, s), store)
    run_opened (ok (opened req), s) store now later =
        completed (run_scraper fl clock c req store now later s)
    run_opened (ok turned, s) store now later = ((ok (turned_away turned), s), store)

    -- `now` is when the key is looked up, and `later` when the run is recorded.
    unfoldable pub run_scraper_impl :
        Call
        → IdempotencyStore
        → ℕ
        → ℕ
        → c.State
        → (Result Exn CallOutcome × c.State) × IdempotencyStore
    unfolding run_opened
    run_scraper_impl call store now later s = run_opened (opening call s) store now later
