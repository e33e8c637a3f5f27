-- ===== src/Execution/Request/Retry.antt =====
-- A whole call of `run_scraper` that is repeated starts no second run.
use lobstr_mcp.Prelude.{
  ℕ, String, false, List, Option, none, some, ◌≡◌, ◌≢◌, refl, ap, ◌∙◌, or_else, ◌==◌, Bool-cases,
  inl, inr, arith, eq_refl,
}
use lobstr_mcp.Prelude.Result.{Result, ok, err}
use lobstr_mcp.Errors.{Exn}
use lobstr_mcp.Client.{Client, pure, continue}
use lobstr_mcp.Safeguards.Cost.{Floats}
use lobstr_mcp.Safeguards.Idempotency as Idempotency
use lobstr_mcp.Safeguards.Idempotency.{IdempotencyStore, expiry, is_past}
use lobstr_mcp.Safeguards.Idempotency.Expiry.{get-put_lifetime, default_ttl-get}
use lobstr_mcp.Accounts.{Clock}
use lobstr_mcp.Execution.Submit.{Started}
use lobstr_mcp.Execution.Request.{
  Request, Outcome, submitted, already_submitted, recorded, run_scraper, run_known, run_fresh,
}
use lobstr_mcp.Execution.Request.Gate.{repeated}
use lobstr_mcp.Execution.Request.Between.{Turn, Before, after_calls, after_calls-Holds}
use lobstr_mcp.Execution.Request.Opening.{
  Call, Texts, opened, outcome, opening, completed, run_opened, run_scraper_impl,
}

repeated_call :
    (texts : Texts) (fl : Floats) (clock : Clock) (c : Client) (call : Call) (req : Request)
    (store : IdempotencyStore) (run_id : String) (again later : ℕ) (s s' : c.State)
    → opening texts c call s ≡ (ok (opened req), s')
    → run_id ≢ ""
    → (Idempotency.get store req.key again).0 ≡ some run_id
    → (run_scraper_impl texts c fl clock call store again later s).0
      ≡ (ok (outcome (already_submitted run_id)), s')
unfolding run_scraper_impl run_opened completed run_scraper
repeated_call texts fl clock c call req store run_id again later s s' open_again named_run found =
    rw
      (
        open_again,
        repeated fl clock c req run_id (Idempotency.get store req.key again) later s' named_run
            found,
      )
      refl

known-submitted :
    (run_id : String) (st : Started)
    → ◌≢◌ {A = Result Exn Outcome} (ok (already_submitted run_id)) (ok (submitted st))
known-submitted run_id st h = absurd (cc h)

unwrapped :
    {S : Type 0} (out : Result Exn Outcome × S) (o : Outcome) (s : S)
    → continue (λ o. pure (outcome o)) out ≡ (ok (outcome o), s)
    → out ≡ (ok o, s)
unwrapped (ok o', s') o s h = ground arith
unwrapped (err e, s') o s h = absurd (cc (ap (λ p. p.0) h))

-- The store after a run that was started.
stored :
    (fl : Floats) (clock : Clock) (c : Client) (req : Request)
    (found : Option String × IdempotencyStore) (later : ℕ) (s s' : c.State) (st : Started)
    → (run_known fl clock c req found later s).0 ≡ (ok (submitted st), s')
    → (run_known fl clock c req found later s).1
      ≡ Idempotency.put found.1 req.key st.run_id req.key_ttl later
unfolding run_known run_fresh recorded
stored fl clock c req (none, store) later s s' st h = rw h refl
stored fl clock c req (some run_id, store) later s s' st h = elim (Bool-cases (run_id == "")) [
  | inl blank ↦ let ran = rw blank at h in rw (blank, ran) refl
  | inr earlier ↦ absurd (known-submitted run_id st (ap (λ p. p.0) (rw earlier at h)))
]

kept_store :
    (texts : Texts) (fl : Floats) (clock : Clock) (c : Client) (call : Call) (req : Request)
    (store : IdempotencyStore) (st : Started) (now later : ℕ) (s s1 s2 : c.State)
    → opening texts c call s ≡ (ok (opened req), s1)
    → (run_scraper_impl texts c fl clock call store now later s).0
      ≡ (ok (outcome (submitted st)), s2)
    → (run_scraper_impl texts c fl clock call store now later s).1
      ≡ Idempotency.put (Idempotency.get store req.key now).1 req.key st.run_id req.key_ttl later
unfolding run_scraper_impl run_opened completed run_scraper
kept_store texts fl clock c call req store st now later s s1 s2 opened_first ran =
    let first = unwrapped _ (submitted st) s2 (rw opened_first at ran) in
    rw opened_first (stored fl clock c req (Idempotency.get store req.key now) later s1 s2 st first)

held_run :
    (store : IdempotencyStore) (key run_id : String) (ttl : Option ℕ) (now later again : ℕ)
    → is_past (expiry later (or_else ttl store.default_ttl)) again ≡ false
    → (Idempotency.get
        (Idempotency.put (Idempotency.get store key now).1 key run_id ttl later)
        key
        again).0
      ≡ some run_id
held_run store key run_id ttl now later again live =
    get-put_lifetime (Idempotency.get store key now).1 key key run_id ttl later again
    ∙ rw (eq_refl key, default_ttl-get key store now, live) refl

-- A call that started a run, repeated with arguments that come to the same key before the time of the
-- key has passed, answers with that run: it only opens, and starts no second run. Any calls may have
-- used the store between the two, and the API may have changed, as long as the repetition opens.
-- Requires that the calls between look up their keys by the time of the repetition, and that the id
-- of the run is not empty.
pub run_scraper_impl_retry :
    (texts : Texts) (fl : Floats) (clock : Clock) (c : Client) (call call' : Call)
    (req req' : Request) (store : IdempotencyStore) (st : Started) (now later again afterwards : ℕ)
    (turns : List (Turn c)) (s s1 s2 s3 s4 : c.State)
    → opening texts c call s ≡ (ok (opened req), s1)
    → (run_scraper_impl texts c fl clock call store now later s).0
      ≡ (ok (outcome (submitted st)), s2)
    → opening texts c call' s3 ≡ (ok (opened req'), s4)
    → req'.key ≡ req.key
    → st.run_id ≢ ""
    → is_past (expiry later (or_else req.key_ttl store.default_ttl)) again ≡ false
    → Before texts fl clock c again turns
    → let kept = (run_scraper_impl texts c fl clock call store now later s).1 in
      (run_scraper_impl texts c fl clock call'
        (after_calls texts fl clock c turns kept)
        again
        afterwards
        s3).0
      ≡ (ok (outcome (already_submitted st.run_id)), s4)
run_scraper_impl_retry texts fl clock c call call' req req' store st now later again afterwards
      turns s s1 s2 s3 s4 open_first ran open_again same named_run live before =
    let kept = kept_store texts fl clock c call req store st now later s s1 s2 open_first ran in
    let held = held_run store req.key st.run_id req.key_ttl now later again live in
    let first = (run_scraper_impl texts c fl clock call store now later s).1 in
    let found =
      after_calls-Holds texts fl clock c turns first req.key st.run_id again named_run before
        (rw kept held) in
    repeated_call texts fl clock c call' req' _ st.run_id again afterwards s3 s4 open_again
      named_run (rw same found)
