-- ===== src/Execution/Request/Between.antt =====
-- The store of keys through other calls of `run_scraper`.
use lobstr_mcp.Prelude.{
  ℕ, ◌≤◌, String, false, List, [], ◌∷◌, Option, none, some, ◌≡◌, ◌≢◌, sym, ◌∙◌, ◌==◌, eq_iff, arith,
  Bool-cases, inl, inr,
}
use lobstr_mcp.Prelude.Dict.{lookup}
use lobstr_mcp.Prelude.Result.{Result, ok, err}
use lobstr_mcp.Errors.{Exn}
use lobstr_mcp.Client.{Client}
use lobstr_mcp.Safeguards.Cost.{Floats}
use lobstr_mcp.Safeguards.Idempotency as Idempotency
use lobstr_mcp.Safeguards.Idempotency.{IdempotencyStore, expiry, is_past}
use lobstr_mcp.Safeguards.Idempotency.Expiry.{answer_of, get_lem, get-put_lifetime, get-get_other}
use lobstr_mcp.Accounts.{Clock}
use lobstr_mcp.Execution.Request.{
  Request, Outcome, submitted, refused, account_refused, needs_confirmation, already_submitted,
  recorded, run_scraper, run_known, run_fresh,
}
use lobstr_mcp.Execution.Request.Opening.{
  Call, Texts, Opened, opened, invalid_request, validation_error, opening, completed, run_opened,
  run_scraper_impl,
}

-- The run that the store has under the key at the time.
abbrev pub Holds : IdempotencyStore → String → ℕ → String → Type 0
Holds store key again run_id = (Idempotency.get store key again).0 ≡ some run_id

answer_earlier :
    (entry : Option (String × Option ℕ)) (now again : ℕ) (run_id : String)
    → now ≤ again
    → answer_of entry again ≡ some run_id
    → answer_of entry now ≡ some run_id
answer_earlier none now again run_id h e = e
answer_earlier (some (r, none)) now again run_id h e = e
answer_earlier (some (r, some t)) now again run_id h e = ground arith

-- What is held at a time is held before it.
held_before :
    (store : IdempotencyStore) (key : String) (now again : ℕ) (run_id : String)
    → now ≤ again
    → Holds store key again run_id
    → Holds store key now run_id
held_before store key now again run_id h held =
    get_lem store key now
    ∙ answer_earlier (lookup key store.entries) now again run_id h
        (sym (get_lem store key again) ∙ held)

put-Holds :
    (store : IdempotencyStore) (other key run_id other_run : String) (ttl : Option ℕ)
    (later again : ℕ)
    → (other == key) ≡ false
    → Holds store key again run_id
    → Holds (Idempotency.put store other other_run ttl later) key again run_id
put-Holds store other key run_id other_run ttl later again apart held =
    get-put_lifetime store other key other_run ttl later again ∙ rw apart held

recorded-Holds :
    (req : Request) (r : Result Exn Outcome) (store : IdempotencyStore) (key run_id : String)
    (later again : ℕ)
    → (req.key == key) ≡ false
    → Holds store key again run_id
    → Holds (recorded req r later store) key again run_id
unfolding recorded
recorded-Holds req (ok (submitted st)) store key run_id later again apart held =
    put-Holds store req.key key run_id st.run_id req.key_ttl later again apart held
recorded-Holds req (ok (refused e)) store key run_id later again apart held = held
recorded-Holds req (ok (account_refused e)) store key run_id later again apart held = held
recorded-Holds req (ok (needs_confirmation n m)) store key run_id later again apart held = held
recorded-Holds req (ok (already_submitted r)) store key run_id later again apart held = held
recorded-Holds req (err e) store key run_id later again apart held = held

module _ (texts : Texts) (fl : Floats) (clock : Clock) (c : Client) (key run_id : String) where
  -- A run under another key.
  known_apart :
      (req : Request) (found : Option String) (store : IdempotencyStore) (later again : ℕ)
      (s : c.State)
      → (req.key == key) ≡ false
      → Holds store key again run_id
      → Holds (run_known fl clock c req (found, store) later s).1 key again run_id
  unfolding run_known run_fresh
  known_apart req none store later again s apart held =
      recorded-Holds req _ store key run_id later again apart held
  known_apart req (some r) store later again s apart held = elim (Bool-cases (r == "")) [
    | inl blank ↦ rw blank (recorded-Holds req _ store key run_id later again apart held)
    | inr named ↦ rw named held
  ]

  -- A repetition of the call itself.
  known_same :
      (req : Request) (found : Option String) (store : IdempotencyStore) (later again : ℕ)
      (s : c.State)
      → run_id ≢ ""
      → found ≡ some run_id
      → Holds store key again run_id
      → Holds (run_known fl clock c req (found, store) later s).1 key again run_id
  unfolding run_known
  known_same req found store later again s named e held = elim (Bool-cases (run_id == "")) [
    | inl blank ↦ absurd (named ((eq_iff run_id "").0 blank))
    | inr other ↦ rw (e, run_known, other) held
  ]

  scraper-Holds :
      (req : Request) (store : IdempotencyStore) (now later again : ℕ) (s : c.State)
      → run_id ≢ ""
      → now ≤ again
      → Holds store key again run_id
      → Holds (run_scraper fl clock c req store now later s).1 key again run_id
  unfolding run_scraper
  scraper-Holds req store now later again s named h held =
      let read = Idempotency.get store req.key now in
      let still = get-get_other store req.key key now again h ∙ held in
      elim (Bool-cases (req.key == key)) [
        | inl same ↦
            let e = (eq_iff req.key key).0 same in
            let found : read.0 ≡ some run_id =
              rw e (held_before store key now again run_id h held) in
            known_same req read.0 read.1 later again s named found still
        | inr apart ↦ known_apart req read.0 read.1 later again s apart still
      ]

  opened-Holds :
      (out : Result Exn Opened × c.State) (store : IdempotencyStore) (now later again : ℕ)
      → run_id ≢ ""
      → now ≤ again
      → Holds store key again run_id
      → Holds (run_opened texts c fl clock out store now later).1 key again run_id
  unfolding run_opened completed
  opened-Holds (err e, s) store now later again named h held = held
  opened-Holds (ok invalid_request, s) store now later again named h held = held
  opened-Holds (ok (validation_error errors), s) store now later again named h held = held
  opened-Holds (ok (opened req), s) store now later again named h held =
      scraper-Holds req store now later again s named h held

-- A call, when it looks up its key and when it records its run, and the state that it finds the API
-- in.
pub record Turn (c : Client) : Type 0 where
  pub call : Call
  pub now : ℕ
  pub later : ℕ
  pub state : c.State

module _ (texts : Texts) (fl : Floats) (clock : Clock) (c : Client) where
  -- The store after the calls.
  abbrev pub after_calls : List (Turn c) → IdempotencyStore → IdempotencyStore
  after_calls [] store = store
  after_calls (t ∷ turns) store =
      after_calls turns (run_scraper_impl texts c fl clock t.call store t.now t.later t.state).1

  -- The calls look up their keys by the time.
  abbrev pub Before : ℕ → List (Turn c) → Type 0
  Before again [] = Unit
  Before again (t ∷ turns) = (t.now ≤ again) × Before again turns

  pub after_calls-Holds :
      (turns : List (Turn c)) (store : IdempotencyStore) (key run_id : String) (again : ℕ)
      → run_id ≢ ""
      → Before again turns
      → Holds store key again run_id
      → Holds (after_calls turns store) key again run_id
  unfolding run_scraper_impl
  after_calls-Holds [] store key run_id again named h held = held
  after_calls-Holds (t ∷ turns) store key run_id again named (h, hs) held =
      after_calls-Holds turns _ key run_id again named hs (
        opened-Holds texts fl clock c key run_id (opening texts c t.call t.state) store t.now
          t.later again named h held)
