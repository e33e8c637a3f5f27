-- ===== src/Persistence/Refreshes/Popping.antt =====
-- A refresh token is redeemed from Redis once.
use Prim.Native.Nat.{◌/◌}
use lobstr_mcp.Prelude.{
  ℕ, ◌≤◌, ◌+◌, ◌-◌, ◌*◌, ltb, Bool, true, String, ◌<>◌, false, Option, none, some, ◌≡◌, refl,
  if◌then◌else◌, ap, ◌∙◌, Bool-cases, inl, inr, eq_refl, arith,
}
use lobstr_mcp.Prelude.Dict.{lookup}
use lobstr_mcp.Prelude.Result.{ok, ◌>>=◌}
use lobstr_mcp.Json.{dict}
use lobstr_mcp.Auth.TokenStore.{TokenLink}
use lobstr_mcp.Auth.Provider.State.{RefreshToken}
use lobstr_mcp.Persistence.{
  Redis, RedisLaws, refresh_prefix, held, positive, ttl_from, ttl_from-positive,
}
use lobstr_mcp.Persistence.Link.{
  Crypto, CryptoLaws, TokenCipher, text_at, dict_of, dict_of-dict, link_from_json-link_to_json,
}
use lobstr_mcp.Persistence.Refreshes.{
  Models, ModelLaws, validated, expiry_of, refresh_payload, put_refresh_in, load_fields, load,
  loaded, pop_raw, pop_refresh_in,
}

held-false :
    (ttl : Option ℕ) (now later at_last : ℕ)
    → later ≤ at_last
    → held ttl now later ≡ false
    → held ttl now at_last ≡ false
held-false none now later at_last h e = e
held-false (some n) now later at_last h e = ground arith

-- Whether an entry that is put now is there later: until the last whole second before it expires,
-- counted from now, and for ever if it does not expire or has less than a second left.
abbrev pub lasts : Option ℕ → ℕ → ℕ → Bool
lasts none now later = true
lasts (some n) now later =
    if ltb (n * 1000000) (now + 1000000)
    then true
    else ltb later (now + (n * 1000000 - now) / 1000000 * 1000000)

held-lasts :
    (e : Option ℕ) (now later : ℕ) → held (ttl_from (expiry_of e) now) now later ≡ lasts e now later
unfolding ttl_from expiry_of positive
held-lasts none now later = refl
held-lasts (some n) now later = ground arith

module _ (r : Redis) (f : Crypto) (m : Models) (cipher : TokenCipher) (laws : RedisLaws r)
    (crypto : CryptoLaws f) (models : ModelLaws m) where
  load_fields-refresh_payload :
      (rt : RefreshToken) (link : TokenLink) (salt : String)
      → load_fields r f m cipher (refresh_payload r f m cipher rt link salt) ≡ ok (rt, link)
  unfolding load_fields refresh_payload lookup text_at validated
  load_fields-refresh_payload rt link salt =
      rw (models.validate-dump_refresh rt, link_from_json-link_to_json f crypto link cipher salt)
        refl

  load-dumps :
      (rt : RefreshToken) (link : TokenLink) (salt : String)
      → load r f m cipher (f.dumps (dict (refresh_payload r f m cipher rt link salt)))
        ≡ ok (rt, link)
  unfolding load
  load-dumps rt link salt =
      let d = refresh_payload r f m cipher rt link salt in
      ap (λ o. dict_of o >>= load_fields r f m cipher) (crypto.loads-dumps (dict d))
      ∙ ap (λ o. o >>= load_fields r f m cipher) (dict_of-dict d)
      ∙ load_fields-refresh_payload rt link salt

  pop-none :
      (token : String) (now : ℕ) (s : r.State)
      → r.get (refresh_prefix <> token) now s ≡ none
      → pop_refresh_in r f m cipher token now s ≡ (ok none, s)
  unfolding pop_refresh_in pop_raw
  pop-none token now s e = rw e refl

  pop-some :
      (token raw : String) (now : ℕ) (s : r.State) (pair : RefreshToken × TokenLink)
      → r.get (refresh_prefix <> token) now s ≡ some raw
      → load r f m cipher raw ≡ ok pair
      → pop_refresh_in r f m cipher token now s
        ≡ (ok (some pair), r.delete (refresh_prefix <> token) s)
  unfolding pop_refresh_in pop_raw loaded
  pop-some token raw now s pair e l = rw (e, l) refl

  get-put_refresh :
      (rt : RefreshToken) (link : TokenLink) (salt : String) (now later : ℕ) (s : r.State)
      → now ≤ later
      → r.get (refresh_prefix <> rt.token) later (put_refresh_in r f m cipher rt link now salt s)
        ≡ (if held (ttl_from (expiry_of rt.expires_at) now) now later
            then some (f.dumps (dict (refresh_payload r f m cipher rt link salt)))
            else none)
  unfolding put_refresh_in
  get-put_refresh rt link salt now later s h =
      let key = refresh_prefix <> rt.token in
      let payload = f.dumps (dict (refresh_payload r f m cipher rt link salt)) in
      let ttl = ttl_from (expiry_of rt.expires_at) now in
      let positive = ttl_from-positive (expiry_of rt.expires_at) now in
      laws.get-set key key payload ttl now later s h positive
      ∙ ap
          (λ b.
            if b then (if held ttl now later then some payload else none) else r.get key later s)
          (eq_refl key)

  -- A refresh token that was put comes back whole from the first `pop`, with its link, until the
  -- last whole second before it expires, counted from the `put`, and for ever if it has no expiry or
  -- less than a second left when it is put. Then, and after the first `pop`, a `pop` of it finds
  -- nothing.
  pub pop-put_once :
      (rt : RefreshToken) (link : TokenLink) (salt : String) (now later at_last : ℕ) (s : r.State)
      → now ≤ later
      → later ≤ at_last
      → let stored = put_refresh_in r f m cipher rt link now salt s in
        let (popped, s') = pop_refresh_in r f m cipher rt.token later stored in
        (popped ≡ ok (if lasts rt.expires_at now later then some (rt, link) else none))
        × ((pop_refresh_in r f m cipher rt.token at_last s').0 ≡ ok none)
  pop-put_once rt link salt now later at_last s h h' =
      let stored = put_refresh_in r f m cipher rt link now salt s in
      let ttl = ttl_from (expiry_of rt.expires_at) now in
      let found = get-put_refresh rt link salt now later s h in
      rw (← held-lasts rt.expires_at now later) (elim (Bool-cases (held ttl now later)) [
        | inl live ↦
            let first =
              pop-some rt.token _ later stored (rt, link) (rw live at found)
                (load-dumps rt link salt) in
            let key = refresh_prefix <> rt.token in
            let empty : r.get key at_last (r.delete key stored) ≡ none =
              rw (laws.get-delete key key at_last stored, eq_refl key) refl in
            rw (first, live) (refl, ap (λ p. p.0) (pop-none rt.token at_last _ empty))
        | inr gone ↦
            let first = pop-none rt.token later stored (rw gone at found) in
            let still = get-put_refresh rt link salt now at_last s (omega (arith, h, h')) in
            let empty = rw (held-false ttl now later at_last h' gone) at still in
            rw (first, gone) (refl, ap (λ p. p.0) (pop-none rt.token at_last stored empty))
      ])
