-- ===== src/Execution/Request/Gate.antt =====
-- What a call that starts no run has done, and what a retry of one that did does.
use lobstr_mcp.Prelude.{
  ℕ, String, Bool, true, false, List, [], ◌∷◌, Option, none, some, ◌≡◌, ◌≢◌, refl, sym, ap, ◌==◌,
  eq_iff, eq_refl, or_else, Bool-cases, inl, inr, ◌∙◌,
}
use lobstr_mcp.Prelude.Dict.{Dict}
use lobstr_mcp.Prelude.Result.{Result, ok, err}
use lobstr_mcp.Json.{Json, get_str}
use mathlib.Core.Option.{some-injective}
use lobstr_mcp.Execution.Submit.Writes.{submit}
use lobstr_mcp.Errors.{Exn, Reply, answer, failed}
use lobstr_mcp.Client.{Client, Exec, continue, ◌>>=◌}
use lobstr_mcp.Client.Rows.{Keeps, bind-Keeps}
use lobstr_mcp.Safeguards.Cost.{Floats}
use lobstr_mcp.Safeguards.Idempotency as Idempotency
use lobstr_mcp.Safeguards.Idempotency.{IdempotencyStore, expiry, is_past}
use lobstr_mcp.Safeguards.Idempotency.Expiry.{get-put_lifetime}
use lobstr_mcp.Accounts.{Clock, AccountError, ShapeError, crawler_account_type, pick_or_explain}
use lobstr_mcp.Accounts.Resolve.{resolve_account}
use lobstr_mcp.Accounts.Attach.{
  Attached, current_ids, add_account, named, set_account, picked, attach_of_type, attach_with,
  find_account,
}
use lobstr_mcp.Execution.Tasks.{snapshot_tasks}
use lobstr_mcp.Execution.Submit.{Plan, Started}
use lobstr_mcp.Execution.Request.{
  Request, Outcome, submitted, refused, account_refused, needs_confirmation, already_submitted,
  recorded, outcome_of, read_rows, confirmed, gated, with_rows, with_account, proceed, run_fresh,
  run_known, run_scraper,
}

-- The requests that only read keep the property.
pub record Reads (c : Client) (P : c.State → Type 0) : Type 0 where
  pub list_tasks-Keeps : (q : String) → Keeps P (c.list_tasks q)
  pub get_account-Keeps : (id : String) → Keeps P (c.get_account id)
  pub list_accounts-Keeps : (type : String) → Keeps P (c.list_accounts type)

module _ (clock : Clock) (c : Client) (P : c.State → Type 0) (reads : Reads c P) where
  named-Keeps :
      (current : List String) (r : Result AccountError (Dict Json))
      → Keeps P (named clock c current r)
  unfolding named add_account
  named-Keeps current (err e) = λ s p. p
  named-Keeps current (ok account) = added (get_str "id" account)
    where
      added : (id : Option String) → Keeps P (add_account clock c current account id)
      added none = λ s p. p
      added (some id) = λ s p. p

  picked-Keeps : (r : Result AccountError (Dict Json)) → Keeps P (picked clock c r)
  unfolding picked set_account
  picked-Keeps (err e) = λ s p. p
  picked-Keeps (ok account) = set_to (get_str "id" account)
    where
      set_to : (id : Option String) → Keeps P (set_account clock c id)
      set_to none = λ s p. p
      set_to (some id) = λ s p. p

  pick_or_explain-Keeps : (account_type : String) → Keeps P (pick_or_explain clock c account_type)
  unfolding pick_or_explain
  pick_or_explain-Keeps account_type =
      bind-Keeps P (c.list_accounts account_type) _ (reads.list_accounts-Keeps account_type)
        (λ payload s p. p)

  resolve_account-Keeps :
      (account_id account_type : String) → Keeps P (resolve_account c account_id account_type)
  unfolding resolve_account
  resolve_account-Keeps account_id account_type = reads.get_account-Keeps account_id

  attach_of_type-Keeps :
      (account_type account_id : Option String) (current : List String)
      → Keeps P (attach_of_type clock c account_type account_id current)
  unfolding attach_of_type
  attach_of_type-Keeps none none current = λ s p. p
  attach_of_type-Keeps none (some id) current = λ s p. p
  attach_of_type-Keeps (some t) (some id) current =
      bind-Keeps P (resolve_account c id t) (named clock c current) (resolve_account-Keeps id t)
        (named-Keeps current)
  attach_of_type-Keeps (some t) none [] =
      bind-Keeps P (pick_or_explain clock c t) (picked clock c) (pick_or_explain-Keeps t)
        picked-Keeps
  attach_of_type-Keeps (some t) none (x ∷ current) = λ s p. p

  attach_with-Keeps :
      (account_type account_id : Option String) (current : Result ShapeError (List String))
      → Keeps P (attach_with clock c account_type account_id current)
  unfolding attach_with
  attach_with-Keeps account_type account_id (err e) = λ s p. p
  attach_with-Keeps account_type account_id (ok current) =
      attach_of_type-Keeps account_type account_id current

  find_account-Keeps :
      (crawler : Dict Json) (existing : Option (Dict Json)) (account_id : Option String)
      → Keeps P (find_account clock c crawler existing account_id)
  unfolding find_account
  find_account-Keeps crawler existing account_id =
      attach_with-Keeps (crawler_account_type crawler) account_id (current_ids existing)

  -- The state after a call that asks for confirmation, that finds no account or that repeats
  -- another.
  abbrev pub Unspent : Result Exn Outcome × c.State → Type 0
  Unspent (ok (submitted st), s) = Unit
  Unspent (ok (refused e), s) = Unit
  Unspent (ok (account_refused e), s) = P s
  Unspent (ok (needs_confirmation credits rows), s) = P s
  Unspent (ok (already_submitted run_id), s) = P s
  Unspent (err e, s) = Unit

  after :
      {A : Type 0} (f : A → Exec c.State Outcome) (out : Result Exn A × c.State)
      → P out.1
      → ((a : A) (s : c.State) → P s → Unspent (f a s))
      → Unspent (continue f out)
  after f (ok a, s) p h = h a s p
  after f (err e, s) p h = tt

  module _ (fl : Floats) (req : Request) where
    outcomes :
        (out : Result Exn (Reply Started) × c.State)
        → Unspent (continue (λ reply s. (ok (outcome_of reply), s)) out)
    unfolding outcome_of
    outcomes (ok (answer st), s) = tt
    outcomes (ok (failed e), s) = tt
    outcomes (err e, s) = tt

    confirmed-Unspent : (plan : Plan) (s : c.State) → Unspent (confirmed fl clock c plan s)
    unfolding confirmed
    confirmed-Unspent plan s = balanced (c.get_balance s)
      where
        balanced :
            (out : Result Exn (Dict Json) × c.State)
            → Unspent (continue (λ b. submit c plan >>= λ reply s. (ok (outcome_of reply), s)) out)
        balanced (ok d, s) = outcomes (submit c plan s)
        balanced (err e, s) = tt

    gated-Unspent :
        (plan : Plan) (ask : Bool) (s : c.State) → P s → Unspent (gated fl clock c req plan ask s)
    unfolding gated
    gated-Unspent plan true s p = p
    gated-Unspent plan false s p = confirmed-Unspent plan s

    read_rows-Keeps : (existing : Option (Dict Json)) → Keeps P (read_rows fl clock c req existing)
    unfolding read_rows snapshot_tasks
    read_rows-Keeps none = λ s p. p
    read_rows-Keeps (some squid) = reads.list_tasks-Keeps req.squid_id

    with_account-Unspent :
        (account : Result AccountError Attached) (s : c.State)
        → P s
        → Unspent (with_account fl clock c req account s)
    unfolding with_account with_rows
    with_account-Unspent (err e) s p = p
    with_account-Unspent (ok attached) s p =
        after _ (read_rows fl clock c req req.existing_squid s)
          (read_rows-Keeps req.existing_squid s p) (λ saved t q. gated-Unspent _ _ t q)

    proceed-Unspent : (s : c.State) → P s → Unspent (proceed fl clock c req s)
    unfolding proceed
    proceed-Unspent s p =
        after (with_account fl clock c req)
          (find_account clock c req.crawler req.existing_squid req.account_id s)
          (find_account-Keeps req.crawler req.existing_squid req.account_id s p)
          with_account-Unspent

    run_known-Unspent :
        (found : Option String × IdempotencyStore) (later : ℕ) (s : c.State)
        → P s
        → Unspent (run_known fl clock c req found later s).0
    unfolding run_known run_fresh
    run_known-Unspent (none, store) later s p = proceed-Unspent s p
    run_known-Unspent (some run_id, store) later s p = elim (Bool-cases (run_id == "")) [
      | inl blank ↦ rw blank (proceed-Unspent s p)
      | inr named_run ↦ rw named_run p
    ]

-- A call that answers with a request for confirmation, with an error about accounts or with an
-- earlier run has only read: what every reading request keeps is as before it.
pub run_scraper-Unspent :
    (fl : Floats) (clock : Clock) (c : Client) (P : c.State → Type 0) (reads : Reads c P)
    (req : Request) (store : IdempotencyStore) (now later : ℕ) (s : c.State)
    → P s
    → Unspent clock c P reads (run_scraper fl clock c req store now later s).0
unfolding run_scraper
run_scraper-Unspent fl clock c P reads req store now later s p =
    run_known-Unspent clock c P reads fl req (Idempotency.get store req.key now) later s p

pub repeated :
    (fl : Floats) (clock : Clock) (c : Client) (req : Request) (run_id : String)
    (found : Option String × IdempotencyStore) (later : ℕ) (s : c.State)
    → run_id ≢ ""
    → found.0 ≡ some run_id
    → (run_known fl clock c req found later s).0 ≡ (ok (already_submitted run_id), s)
unfolding run_known
repeated fl clock c req run_id (none, store) later s h e = absurd (cc e)
repeated fl clock c req run_id (some other_run, store) later s h e =
    let same = some-injective other_run run_id e in
    elim (Bool-cases (other_run == "")) [
      | inl blank ↦ absurd (h (sym same ∙ (eq_iff other_run "").0 blank))
      | inr named_run ↦ rw named_run (ap (λ r. (ok (already_submitted r), s)) same)
    ]

-- A retry under the key of a call that started a run answers with that run and sends no request,
-- until the time of the key has passed.
pub run_scraper_retry :
    (fl : Floats) (clock : Clock) (c : Client) (req : Request) (store : IdempotencyStore)
    (st : Started) (now later again : ℕ) (s : c.State)
    → st.run_id ≢ ""
    → is_past (expiry now (or_else req.key_ttl store.default_ttl)) later ≡ false
    → (run_scraper fl clock c req (recorded req (ok (submitted st)) now store) later again s).0
      ≡ (ok (already_submitted st.run_id), s)
unfolding run_scraper recorded
run_scraper_retry fl clock c req store st now later again s named_run live =
    repeated fl clock c req st.run_id _ again s named_run (
      get-put_lifetime store req.key req.key st.run_id req.key_ttl now later
      ∙ rw (eq_refl req.key) (rw live refl))
