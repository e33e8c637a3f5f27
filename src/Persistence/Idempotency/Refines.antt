-- ===== src/Persistence/Idempotency/Refines.antt =====
-- Any sequence of calls of the idempotency store, in Redis and in memory.
use lobstr_mcp.Prelude.{
  ℕ, zero, suc, ◌≤◌, String, ◌<>◌, List, [], ◌∷◌, Option, none, some, if◌then◌else◌, ◌≡◌, refl, sym,
  ◌∙◌, arith, or_else,
}
use mathlib.Core.Path.{subst}
use mathlib.Core.Option.{some-injective}
use lobstr_mcp.Prelude.Dict.{lookup}
use lobstr_mcp.Safeguards.Idempotency.{IdempotencyStore, expiry}
use lobstr_mcp.Safeguards.Idempotency as Memory
use lobstr_mcp.Safeguards.Idempotency.Expiry.{
  answer_of, default_ttl-get, get-put_lifetime, get-get_other,
}
use lobstr_mcp.Persistence.{Redis, RedisLaws, idem_prefix, prefixed, held}
use lobstr_mcp.Persistence.Idempotency.{get, put}

pub data Call : Type 0 where
  put_call : String → String → Option ℕ → Call
  get_call : String → Call

abbrev pub Schedule : Type 0
Schedule = List (ℕ × Call)

-- The calls come in the order of their instants, and every time to live is at least a second.
abbrev pub Lasting : Call → Type 0
Lasting (put_call key run_id ttl) = (n : ℕ) → ttl ≡ some n → 1 ≤ n
Lasting (get_call key) = Unit

abbrev pub Ordered : ℕ → Schedule → ℕ → Type 0
Ordered now [] later = now ≤ later
Ordered now ((t, call) ∷ rest) later = (now ≤ t) × Lasting call × Ordered t rest later

abbrev pub step_memory : ℕ → Call → IdempotencyStore → IdempotencyStore
step_memory t (put_call key run_id ttl) store = Memory.put store key run_id ttl t
step_memory t (get_call key) store = (Memory.get store key t).1

abbrev pub run_memory : Schedule → IdempotencyStore → IdempotencyStore
run_memory [] store = store
run_memory ((t, call) ∷ rest) store = run_memory rest (step_memory t call store)

answer_of-expiry :
    (run_id : String) (now later ttl : ℕ)
    → 1 ≤ ttl
    → answer_of (some (run_id, expiry now ttl)) later
      ≡ (if held (some ttl) now later then some run_id else none)
unfolding expiry
answer_of-expiry run_id now later zero h = absurd (ground arith)
answer_of-expiry run_id now later (suc n) h = ground arith

or_else-positive :
    (ttl : Option ℕ) (default n : ℕ)
    → ((m : ℕ) → ttl ≡ some m → 1 ≤ m)
    → 1 ≤ default
    → 1 ≤ or_else ttl default
or_else-positive none default n h d = d
or_else-positive (some ttl) default n h d = h ttl refl

put-Agree :
    (r : Redis) (laws : RedisLaws r) (key other run_id : String) (ttl : Option ℕ) (t later : ℕ)
    (s : r.State) (store : IdempotencyStore)
    → t ≤ later
    → Lasting (put_call key run_id ttl)
    → 1 ≤ store.default_ttl
    → get r other later s ≡ (Memory.get store other later).0
    → get r other later (put r store.default_ttl key run_id ttl t s)
      ≡ (Memory.get (Memory.put store key run_id ttl t) other later).0
unfolding get put
put-Agree r laws key other run_id ttl t later s store after l lasting agree =
    let ttl' = or_else ttl store.default_ttl in
    let positive = or_else-positive ttl store.default_ttl ttl' l lasting in
    rw
      (
        get-put_lifetime store key other run_id ttl t later,
        laws.get-set (idem_prefix <> key) (idem_prefix <> other) run_id (some ttl') t later s after
            (λ n e. rw (some-injective _ _ e) at positive),
        prefixed idem_prefix key other,
        answer_of-expiry run_id t later ttl' positive,
        agree,
      )
      refl

module _ (r : Redis) (default_ttl : ℕ) where
  abbrev pub step_redis : ℕ → Call → r.State → r.State
  step_redis t (put_call key run_id ttl) s = put r default_ttl key run_id ttl t s
  step_redis t (get_call key) s = s

  abbrev pub run_redis : Schedule → r.State → r.State
  run_redis [] s = s
  run_redis ((t, call) ∷ rest) s = run_redis rest (step_redis t call s)

  abbrev Agree : r.State → IdempotencyStore → ℕ → Type 0
  Agree s store now =
      (key : String) (later : ℕ) → now ≤ later → get r key later s ≡ (Memory.get store key later).0

  module _ (laws : RedisLaws r) (lasting : 1 ≤ default_ttl) where
    step-Agree :
        (call : Call) (now t : ℕ) (s : r.State) (store : IdempotencyStore)
        → now ≤ t
        → Lasting call
        → store.default_ttl ≡ default_ttl
        → Agree s store now
        → Agree (step_redis t call s) (step_memory t call store) t
    step-Agree (put_call key run_id ttl) now t s store h l same agree other later after =
        subst
          (λ d.
            get r other later (put r d key run_id ttl t s)
            ≡ (Memory.get (Memory.put store key run_id ttl t) other later).0)
          same
          (put-Agree r laws key other run_id ttl t later s store after l (rw same lasting)
            (agree other later (omega (arith, h, after))))
    step-Agree (get_call key) now t s store h l same agree other later after =
        agree other later (omega (arith, h, after))
        ∙ sym (get-get_other store key other t later after)

    default-step :
        (call : Call) (t : ℕ) (store : IdempotencyStore)
        → (step_memory t call store).default_ttl ≡ store.default_ttl
    unfolding Memory.put
    default-step (put_call key run_id ttl) t store = refl
    default-step (get_call key) t store = default_ttl-get key store t

    run-Agree :
        (calls : Schedule) (now later : ℕ) (s : r.State) (store : IdempotencyStore)
        → Ordered now calls later
        → store.default_ttl ≡ default_ttl
        → Agree s store now
        → Agree (run_redis calls s) (run_memory calls store) later
    run-Agree [] now later s store h same agree key at_end after =
        agree key at_end (omega (arith, h, after))
    run-Agree ((t, call) ∷ rest) now later s store (h, l, ordered) same agree key at_end after =
        run-Agree rest t later _ _ ordered (default-step call t store ∙ same)
          (step-Agree call now t s store h l same agree) key at_end after

-- After any sequence of calls in the order of time, starting from empty stores with the same default
-- time to live, the run that Redis has on file for a key is the one that memory has, for as long and
-- no longer, provided that every time to live is at least a second.
pub run_refines_memory :
    (r : Redis) (laws : RedisLaws r) (default_ttl : ℕ) (calls : Schedule) (now later : ℕ)
    (key : String)
    → 1 ≤ default_ttl
    → Ordered now calls later
    → get r key later (run_redis r default_ttl calls laws.empty)
      ≡ (Memory.get
          (run_memory calls (record { entries = []; default_ttl = default_ttl }))
          key
          later).0
unfolding get lookup Memory.get
run_refines_memory r laws default_ttl calls now later key lasting ordered =
    run-Agree r default_ttl laws lasting calls now later laws.empty _ ordered refl
      (λ other after h. laws.get_empty (idem_prefix <> other) after) key later (omega arith)
