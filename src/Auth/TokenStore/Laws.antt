-- ===== src/Auth/TokenStore/Laws.antt =====
-- What a token answers after each operation of the store.
use lobstr_mcp.Prelude.{
  ℕ, String, Option, none, some, if◌then◌else◌, ◌==◌, ◌≡◌, refl, arith, eq_iff, ◌≤◌,
}
use lobstr_mcp.Prelude.Dict.{lookup, insert, erase, lookup-insert, lookup-erase}
use lobstr_mcp.Auth.TokenStore.{TokenLink, is_expired, Tokens, put, get, revoke}

-- What `get` answers, as a function of the entry alone.
abbrev pub live : Option TokenLink → ℕ → Option TokenLink
live none now = none
live (some link) now = if is_expired link now then none else some link

pub get-answer :
    (d : Tokens) (token : String) (now : ℕ) → (get d token now).0 ≡ live (lookup token d) now
unfolding get
get-answer d token now = ground arith

pub live_idem : (o : Option TokenLink) (now : ℕ) → live (live o now) now ≡ live o now
live_idem none now = refl
live_idem (some link) now = ground arith

-- A read, which drops the entry that it finds expired, changes the answer of no token at the same
-- instant or later.
pub get-get :
    (d : Tokens) (token other : String) (now later : ℕ)
    → now ≤ later
    → (get (get d token now).1 other later).0 ≡ (get d other later).0
unfolding get is_expired
get-get d token other now later h = ground (arith, lookup-erase token other d, eq_iff token other)

-- A token that is put answers with its link for as long as the link lives; every other token answers
-- as before.
pub get-put :
    (d : Tokens) (token other : String) (link : TokenLink) (now : ℕ)
    → (get (put d token link) other now).0
      ≡ (if token == other then live (some link) now else (get d other now).0)
unfolding put
get-put d token other link now = ground (
  arith,
  get-answer (insert token link d) other now,
  get-answer d other now,
  lookup-insert token other link d,
)

-- A revoked token answers nothing; every other token answers as before.
pub get-revoke :
    (d : Tokens) (token other : String) (now : ℕ)
    → (get (revoke d token) other now).0 ≡ (if token == other then none else (get d other now).0)
unfolding revoke
get-revoke d token other now = ground (
  arith,
  get-answer (erase token d) other now,
  get-answer d other now,
  lookup-erase token other d,
)
