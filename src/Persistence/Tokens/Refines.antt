-- ===== src/Persistence/Tokens/Refines.antt =====
-- The store in Redis answers as the store in memory does.
use lobstr_mcp.Prelude.{
  ℕ, ◌≤◌, String, ◌<>◌, true, [], ◌∷◌, Option, none, some, if◌then◌else◌, ◌==◌, ◌≡◌, inl, inr, refl,
  sym, ap, ◌∙◌, arith, eq_iff, Bool-cases,
}
use mathlib.Core.Option.{some-injective}
use lobstr_mcp.Prelude.Dict.{lookup, lookup-insert, lookup-erase}
use lobstr_mcp.Prelude.Result.{ok, Result-cases, ok-injective}
use lobstr_mcp.Auth.TokenStore.{TokenLink, is_expired, expired_at, Tokens}
use lobstr_mcp.Auth.TokenStore as Memory
use lobstr_mcp.Auth.TokenStore.Laws.{live, get-answer}
use lobstr_mcp.Persistence.{
  Redis, RedisLaws, token_prefix, prefixed, ttl_from, ttl_from-positive, held, held-ttl_from,
}
use lobstr_mcp.Persistence.Link.{
  Crypto, CryptoLaws, TokenCipher, link_to_json, link_from_json, link_from_json-link_to_json,
}
use lobstr_mcp.Persistence.Tokens.{put, get, revoke, get_raw, get_link}
use lobstr_mcp.Persistence.Tokens.Schedule.{
  Call, put_call, get_call, revoke_call, Schedule, Ordered, step_memory, run_memory, Stands,
  step_redis, run_redis, Agrees, Agree,
}

expired_later :
    (e : Option ℕ) (now later : ℕ)
    → now ≤ later
    → expired_at e now ≡ true
    → expired_at e later ≡ true
unfolding expired_at
expired_later none now later h e = absurd (ground arith)
expired_later (some t) now later h e = ground arith

module _ (r : Redis) (f : Crypto) (cipher : TokenCipher) (laws : RedisLaws r)
    (crypto : CryptoLaws f) where
  put-entry :
      (link : TokenLink) (now later : ℕ) (salt : String)
      → Agrees r f cipher
          (if held (ttl_from link.expires_at now) now later
            then some (link_to_json f link cipher salt)
            else none)
          (some link)
          later
  put-entry link now later salt =
      elim (Bool-cases (held (ttl_from link.expires_at now) now later)) [
        | inl live ↦ rw live (link, salt, refl, inl refl)
        | inr gone ↦ rw gone (held-ttl_from link.expires_at now later gone)
      ]

  put-Agree :
      (token : String) (link : TokenLink) (now t : ℕ) (salt : String) (s : r.State) (d : Tokens)
      → now ≤ t
      → Agree r f cipher s d now
      → Agree r f cipher (put r f cipher token link t salt s) (Memory.put d token link) t
  unfolding put Memory.put
  put-Agree token link now t salt s d h agree other later after =
      rw
        (
          laws.get-set (token_prefix <> token) (token_prefix <> other)
              (link_to_json f link cipher salt) (ttl_from link.expires_at t) t later s after
              (ttl_from-positive link.expires_at t),
          prefixed token_prefix token other,
          lookup-insert token other link d,
        )
        (elim (Bool-cases (token == other)) [
          | inl same ↦ rw same (put-entry link t later salt)
          | inr apart ↦ rw apart (agree other later (omega (arith, h, after)))
        ])

  revoke-Agree :
      (token : String) (now t : ℕ) (s : r.State) (d : Tokens)
      → now ≤ t
      → Agree r f cipher s d now
      → Agree r f cipher (revoke r f cipher token s) (Memory.revoke d token) t
  unfolding revoke Memory.revoke
  revoke-Agree token now t s d h agree other later after =
      rw
        (
          laws.get-delete (token_prefix <> token) (token_prefix <> other) later s,
          prefixed token_prefix token other,
          lookup-erase token other d,
        )
        (elim (Bool-cases (token == other)) [
          | inl same ↦ rw same tt
          | inr apart ↦ rw apart (agree other later (omega (arith, h, after)))
        ])

-- What the store in memory holds after a read.
lookup-get :
    (d : Tokens) (token other : String) (t : ℕ)
    → lookup other (Memory.get d token t).1
      ≡ (if token == other then live (lookup token d) t else lookup other d)
unfolding Memory.get
lookup-get d token other t = ground (arith, lookup-erase token other d, eq_iff token other)

module _ (r : Redis) (f : Crypto) (cipher : TokenCipher) where
  live-Agrees :
      (raw : Option String) (entry : Option TokenLink) (t later : ℕ)
      → t ≤ later
      → Agrees r f cipher raw entry later
      → Agrees r f cipher raw (live entry t) later
  unfolding is_expired
  live-Agrees none none t later h a = a
  live-Agrees none (some link) t later h a = elim (Bool-cases (is_expired link t)) [
    | inl gone ↦ rw gone tt
    | inr lives ↦ rw lives a
  ]
  live-Agrees (some raw) none t later h a = a
  live-Agrees (some raw) (some held_link) t later h (link, salt, e, inr (n, gone)) = absurd (cc n)
  live-Agrees (some raw) (some held_link) t later h (link, salt, e, inl same) =
      elim (Bool-cases (is_expired held_link t)) [
        | inl gone ↦
            let gone' : is_expired link t ≡ true = rw (some-injective _ _ same) at gone in
            rw gone (link, salt, e, inr (refl, expired_later link.expires_at t later h gone'))
        | inr lives ↦ rw lives (link, salt, e, inl same)
      ]

  -- A link that Redis finds expired is expired in memory.
  expired-live :
      (raw : String) (entry : Option TokenLink) (link : TokenLink) (t : ℕ)
      → CryptoLaws f
      → Agrees r f cipher (some raw) entry t
      → link_from_json f raw cipher ≡ ok link
      → is_expired link t ≡ true
      → live entry t ≡ none
  expired-live raw entry link t crypto (written, salt, e, inr (n, gone)) read old = rw n refl
  expired-live raw entry link t crypto (written, salt, e, inl same) read old =
      let back = link_from_json-link_to_json f crypto written cipher salt in
      let equal : link ≡ written =
        ok-injective _ _ (sym read ∙ ap (λ x. link_from_json f x cipher) e ∙ back) in
      rw (same, sym equal, old) refl

  module _ (laws : RedisLaws r) (crypto : CryptoLaws f) where
    kept-Agree :
        (token : String) (now t : ℕ) (s : r.State) (d : Tokens)
        → now ≤ t
        → Agree r f cipher s d now
        → Agree r f cipher s (Memory.get d token t).1 t
    kept-Agree token now t s d h agree other later after =
        rw (lookup-get d token other t) (elim (Bool-cases (token == other)) [
          | inl same ↦
              rw (same, (eq_iff token other).0 same)
                (live-Agrees _ _ t later after (agree other later (omega (arith, h, after))))
          | inr apart ↦ rw apart (agree other later (omega (arith, h, after)))
        ])

    dropped-Agree :
        (token : String) (now t : ℕ) (s : r.State) (d : Tokens)
        → now ≤ t
        → live (lookup token d) t ≡ none
        → Agree r f cipher s d now
        → Agree r f cipher (revoke r f cipher token s) (Memory.get d token t).1 t
    unfolding Memory.revoke
    dropped-Agree token now t s d h gone agree other later after =
        let revoked =
          revoke-Agree r f cipher laws crypto token now t s d h agree other later after in
        rw (lookup-get d token other t, gone) (rw (lookup-erase token other d) at revoked)

    read-Agree :
        (token : String) (now t : ℕ) (s : r.State) (d : Tokens) (raw : Option String)
        → now ≤ t
        → r.get (token_prefix <> token) t s ≡ raw
        → Agree r f cipher s d now
        → Agree r f cipher (get_raw r f cipher token t raw s).1 (Memory.get d token t).1 t
    unfolding get_raw get_link
    read-Agree token now t s d none h e agree = kept-Agree token now t s d h agree
    read-Agree token now t s d (some raw) h e agree =
        elim (Result-cases (link_from_json f raw cipher)) [
          | inl (link, read) ↦ elim (Bool-cases (is_expired link t)) [
            | inl old ↦
                let at_t = rw e at (agree token t h) in
                rw (read, old)
                  λ other later after.
                    (dropped-Agree token now t s d h
                      (expired-live raw _ link t crypto at_t read old) agree other later after)
            | inr lives ↦ rw (read, lives) (kept-Agree token now t s d h agree)
          ]
          | inr (failure, read) ↦ rw read (kept-Agree token now t s d h agree)
        ]

    step-Agree :
        (call : Call) (now t : ℕ) (s : r.State) (d : Tokens)
        → now ≤ t
        → Agree r f cipher s d now
        → Agree r f cipher (step_redis r f cipher t call s) (step_memory t call d) t
    unfolding get
    step-Agree (put_call token link salt) now t s d h agree =
        put-Agree r f cipher laws crypto token link now t salt s d h agree
    step-Agree (get_call token) now t s d h agree = read-Agree token now t s d _ h refl agree
    step-Agree (revoke_call token) now t s d h agree =
        revoke-Agree r f cipher laws crypto token now t s d h agree

    run-Agree :
        (calls : Schedule) (now later : ℕ) (s : r.State) (d : Tokens)
        → Ordered now calls later
        → Agree r f cipher s d now
        → Agree r f cipher (run_redis r f cipher calls s) (run_memory calls d) later
    run-Agree [] now later s d h agree token at_end after =
        agree token at_end (omega (arith, h, after))
    run-Agree ((t, call) ∷ rest) now later s d (h, ordered) agree token at_end after =
        run-Agree rest t later _ _ ordered (step-Agree call now t s d h agree) token at_end after

    answer-Stands :
        (token : String) (later : ℕ) (s : r.State) (raw : Option String) (entry : Option TokenLink)
        → Agrees r f cipher raw entry later
        → Stands (get_raw r f cipher token later raw s).0 (live entry later) later
    unfolding get_raw get_link
    answer-Stands token later s none none a = inl refl
    answer-Stands token later s none (some link) a = elim (Bool-cases (is_expired link later)) [
      | inl gone ↦ rw gone (inl refl)
      | inr lives ↦ rw lives (inr (link, refl, refl, a))
    ]
    answer-Stands token later s (some raw) entry (link, salt, e, inl same) =
        rw (same, e, link_from_json-link_to_json f crypto link cipher salt)
          (elim (Bool-cases (is_expired link later)) [
            | inl gone ↦ rw gone (inl refl)
            | inr lives ↦ rw lives (inl refl)
          ])
    answer-Stands token later s (some raw) entry (link, salt, e, inr (n, gone)) =
        rw (n, e, link_from_json-link_to_json f crypto link cipher salt, gone) (inl refl)

-- After any sequence of calls in the order of time, starting from empty stores, a token answers in
-- Redis with the link that the store in memory answers, and without one exactly when memory has
-- none, except that Redis may already have dropped a link that has less than a second left. No
-- answer is an error.
pub run_refines :
    (r : Redis) (laws : RedisLaws r) (f : Crypto) (crypto : CryptoLaws f) (cipher : TokenCipher)
    (calls : Schedule) (now later : ℕ) (token : String)
    → Ordered now calls later
    → Stands
        (get r f cipher token later (run_redis r f cipher calls laws.empty)).0
        (Memory.get (run_memory calls []) token later).0
        later
unfolding get lookup
run_refines r laws f crypto cipher calls now later token ordered =
    rw (get-answer (run_memory calls []) token later) (
      answer-Stands r f cipher laws crypto token later _ _ _ (
        run-Agree r f cipher laws crypto calls now later laws.empty [] ordered
          (λ other after h. rw (laws.get_empty (token_prefix <> other) after) tt) token later
          (omega arith)))
