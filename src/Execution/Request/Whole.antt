-- ===== src/Execution/Request/Whole.antt =====
-- What whole calls of `run_scraper` do, from their arguments on.
use lobstr_mcp.Prelude.{ℕ, String, List, [], ◌∷◌, Option, none, some, or_else}
use lobstr_mcp.Prelude.Dict.{Dict}
use lobstr_mcp.Prelude.Result.{Result, ok, err}
use lobstr_mcp.Json.{Json}
use lobstr_mcp.Errors.{Exn, nonempty}
use lobstr_mcp.Client.{Client, pure, continue, attempt, ◌>>=◌}
use lobstr_mcp.Client.Rows.{Keeps, bind-Keeps, attempt-Keeps, if-Keeps}
use lobstr_mcp.Client.Crawlers.{resolve_crawler_id, resolved_from, is_crawler_id}
use lobstr_mcp.Schema.Items.{Item, input_items}
use lobstr_mcp.Schema.Translate.{Translated}
use lobstr_mcp.Safeguards.Validation.{ValidationError}
use lobstr_mcp.Safeguards.Cost.{Floats}
use lobstr_mcp.Safeguards.Idempotency.{IdempotencyStore}
use lobstr_mcp.Accounts.{Clock}
use lobstr_mcp.Execution.Request.{
  Outcome, submitted, refused, account_refused, needs_confirmation, already_submitted, run_scraper,
}
use lobstr_mcp.Execution.Request.Gate.{Reads, Unspent, run_scraper-Unspent}
use lobstr_mcp.Execution.Request.Opening.{
  Call, Texts, Opened, invalid_request, validation_error, opened, CallOutcome, turned_away, outcome,
  checked, translated_of, open_schema, open_crawler, open_with, open_call, opening, completed,
  run_opened, run_scraper_impl, params_of, errors_of, reuse,
}

-- The requests that open a call keep the property too.
pub record Opens (c : Client) (P : c.State → Type 0) : Type 0 where
  pub reads : Reads c P
  pub list_crawlers-Keeps : Keeps P c.list_crawlers
  pub get_crawler-Keeps : (id : String) → Keeps P (c.get_crawler id)
  pub get_crawler_params-Keeps : (id : String) → Keeps P (c.get_crawler_params id)
  pub get_squid-Keeps : (id : String) → Keeps P (c.get_squid id)

module _ (texts : Texts) (c : Client) (P : c.State → Type 0) (opens : Opens c P) where
  checked-Keeps :
      (call : Call) (existing : Option (Dict Json)) (scraper : String) (crawler : Dict Json)
      (translated : Translated) (errors : List ValidationError)
      → Keeps P (checked texts c call existing scraper crawler translated errors)
  unfolding checked
  checked-Keeps call existing scraper crawler translated [] = λ s p. p
  checked-Keeps call existing scraper crawler translated (e ∷ errors) = λ s p. p

  translated_of-Keeps :
      (items : Option (List Item)) (params : Option (Dict Json))
      → Keeps P (translated_of texts c items params)
  unfolding translated_of
  translated_of-Keeps none params = λ s p. p
  translated_of-Keeps (some items) params = λ s p. p

  open_schema-Keeps :
      (call : Call) (existing : Option (Dict Json)) (id : String) (crawler : Dict Json)
      (params : Result Exn (Dict Json))
      → Keeps P (open_schema texts c call existing id crawler params)
  unfolding open_schema
  open_schema-Keeps call existing id crawler params =
      bind-Keeps P (translated_of texts c (input_items crawler) (params_of params))
        (λ translated.
          checked texts c call existing id crawler translated
            (errors_of (reuse call) translated call.input))
        (translated_of-Keeps (input_items crawler) (params_of params))
        (λ translated.
          checked-Keeps call existing id crawler translated
            (errors_of (reuse call) translated call.input))

  open_crawler-Keeps :
      (call : Call) (existing : Option (Dict Json)) (id : String)
      → Keeps P (open_crawler texts c call existing id)
  unfolding open_crawler
  open_crawler-Keeps call existing id =
      bind-Keeps P (c.get_crawler id)
        (λ crawler.
          attempt (c.get_crawler_params id) >>= open_schema texts c call existing id crawler)
        (opens.get_crawler-Keeps id)
        (λ crawler.
          bind-Keeps P (attempt (c.get_crawler_params id))
            (open_schema texts c call existing id crawler)
            (attempt-Keeps P (c.get_crawler_params id) (opens.get_crawler_params-Keeps id))
            (open_schema-Keeps call existing id crawler))

  resolve-Keeps : (scraper : Option String) → Keeps P (resolve_crawler_id texts.short c scraper)
  unfolding resolve_crawler_id
  resolve-Keeps scraper =
      if-Keeps P (is_crawler_id (or_else scraper "")) (pure scraper)
        (attempt c.list_crawlers >>= λ crawlers. pure (resolved_from texts.short scraper crawlers))
        (λ s p. p)
        (bind-Keeps P (attempt c.list_crawlers)
          (λ crawlers. pure (resolved_from texts.short scraper crawlers))
          (attempt-Keeps P c.list_crawlers opens.list_crawlers-Keeps) (λ crawlers s p. p))

  open_with-Keeps :
      (call : Call) (existing : Option (Dict Json)) (scraper : Option String)
      → Keeps P (open_with texts c call existing scraper)
  unfolding open_with
  open_with-Keeps call existing scraper =
      bind-Keeps P (resolve_crawler_id texts.short c scraper)
        (λ id. open_crawler texts c call existing (or_else id "")) (resolve-Keeps scraper)
        (λ id. open_crawler-Keeps call existing (or_else id ""))

  open_call-Keeps :
      (call : Call) (scraper squid_id : Option String)
      → Keeps P (open_call texts c call scraper squid_id)
  unfolding open_call
  open_call-Keeps call none none = λ s p. p
  open_call-Keeps call (some scraper) none = open_with-Keeps call none (some scraper)
  open_call-Keeps call none (some id) =
      bind-Keeps P (c.get_squid id) _ (opens.get_squid-Keeps id)
        (λ squid. open_with-Keeps call (some squid) _)
  open_call-Keeps call (some scraper) (some id) =
      bind-Keeps P (c.get_squid id) _ (opens.get_squid-Keeps id)
        (λ squid. open_with-Keeps call (some squid) _)

  -- The state after a call that is turned away, or that comes to an outcome without a run.
  abbrev pub CallUnspent : Result Exn CallOutcome × c.State → Type 0
  CallUnspent (ok (turned_away turned), s) = P s
  CallUnspent (ok (outcome (submitted st)), s) = Unit
  CallUnspent (ok (outcome (refused e)), s) = Unit
  CallUnspent (ok (outcome (account_refused e)), s) = P s
  CallUnspent (ok (outcome (needs_confirmation credits rows)), s) = P s
  CallUnspent (ok (outcome (already_submitted run_id)), s) = P s
  CallUnspent (err e, s) = Unit

  module _ (fl : Floats) (clock : Clock) where
    outcome-Unspent :
        (out : Result Exn Outcome × c.State)
        → Unspent clock c P opens.reads out
        → CallUnspent (continue (λ o s. (ok (outcome o), s)) out)
    outcome-Unspent (ok (submitted st), s) h = tt
    outcome-Unspent (ok (refused e), s) h = tt
    outcome-Unspent (ok (account_refused e), s) h = h
    outcome-Unspent (ok (needs_confirmation credits rows), s) h = h
    outcome-Unspent (ok (already_submitted run_id), s) h = h
    outcome-Unspent (err e, s) h = tt

    run_opened-Unspent :
        (out : Result Exn Opened × c.State) (store : IdempotencyStore) (now later : ℕ)
        → P out.1
        → CallUnspent (run_opened texts c fl clock out store now later).0
    unfolding run_opened completed
    run_opened-Unspent (err e, s) store now later p = tt
    run_opened-Unspent (ok invalid_request, s) store now later p = p
    run_opened-Unspent (ok (validation_error errors), s) store now later p = p
    run_opened-Unspent (ok (opened req), s) store now later p =
        outcome-Unspent (run_scraper fl clock c req store now later s).0
          (run_scraper-Unspent fl clock c P opens.reads req store now later s p)

-- A call that is turned away because it names no scraper or its input is wrong, that asks for
-- confirmation, that fails over its account or that repeats another has only read: what every
-- reading request keeps is as before it.
pub run_scraper_impl-Unspent :
    (texts : Texts) (fl : Floats) (clock : Clock) (c : Client) (P : c.State → Type 0)
    (opens : Opens c P) (call : Call) (store : IdempotencyStore) (now later : ℕ) (s : c.State)
    → P s
    → CallUnspent texts c P opens (run_scraper_impl texts c fl clock call store now later s).0
unfolding run_scraper_impl opening
run_scraper_impl-Unspent texts fl clock c P opens call store now later s p =
    run_opened-Unspent texts c P opens fl clock (opening texts c call s) store now later
      (open_call-Keeps texts c P opens call (nonempty call.scraper) (nonempty call.squid_id) s p)
