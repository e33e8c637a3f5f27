-- ===== src/Persistence/Link.antt =====
-- `TokenCipher`, and a link as the text under which it is stored.
use lobstr_mcp.Prelude.{
  ℕ, String, Bool, List, [], ◌∷◌, Option, none, some, ◌≡◌, refl, if◌then◌else◌, ◌==◌, ap, ◌∙◌,
}
use lobstr_mcp.Prelude.Dict.{Dict, lookup}
use lobstr_mcp.Prelude.Int.{pos}
use lobstr_mcp.Prelude.Result.{Result, ok, err, ◌>>=◌}
use lobstr_mcp.Json.{
  Json, null, bool, int, float, str, arr, obj, list, dict, items, of_items, nil, cons, members,
  of_members, truthy, items-of_items, members-of_members,
}
use lobstr_mcp.Json
use lobstr_mcp.Auth.TokenStore.{TokenLink}

-- Fernet under a key, and the JSON module. Each encryption takes fresh random bytes, `salt`.
pub record Crypto : Type 0 where
  pub accepts : String → Bool
  pub encrypt : String → String → String → String
  pub decrypt : String → String → Option String
  pub dumps : Json → String
  pub loads : String → Option Json

pub record CryptoLaws (f : Crypto) : Type 0 where
  pub decrypt-encrypt :
      (key salt text : String) → f.decrypt key (f.encrypt key salt text) ≡ some text
  pub loads-dumps : (v : Json) → f.loads (f.dumps v) ≡ some v

-- What is raised: `ValueError` for a key, `InvalidToken`, `KeyError`, or an error of the decoder. A
-- value of another type than was written counts as the last.
pub data StoreError : Type 0 where
  value_error invalid_token malformed : StoreError
  key_error : String → StoreError

pub record TokenCipher : Type 0 where
  pub key : String

module _ (f : Crypto) where
  -- `TokenCipher.__init__`; an empty key counts as none.
  unfoldable pub new_cipher : Option String → Result StoreError TokenCipher
  new_cipher none = err value_error
  new_cipher (some key) =
      if key == ""
      then err value_error
      else if f.accepts key
      then ok (record { key = key })
      else err value_error

  unfoldable pub encrypt : TokenCipher → String → String → String
  encrypt cipher salt plaintext = f.encrypt cipher.key salt plaintext

  opened : Option String → Result StoreError String
  opened none = err invalid_token
  opened (some plaintext) = ok plaintext

  unfoldable pub decrypt : TokenCipher → String → Result StoreError String
  unfolding opened
  decrypt cipher blob = opened (f.decrypt cipher.key blob)

-- An instant is written as its number.
unfoldable pub of_expiry : Option ℕ → Json
of_expiry none = null
of_expiry (some t) = int (pos t)

unfoldable pub to_expiry : Json → Result StoreError (Option ℕ)
to_expiry null = ok none
to_expiry (int (pos t)) = ok (some t)
to_expiry _ = err malformed

abbrev pub of_texts : List String → List Json
of_texts [] = []
of_texts (t ∷ ts) = str t ∷ of_texts ts

-- `list(d.get("scopes") or [])`
unfoldable pub to_texts : List Json → Result StoreError (List String)
to_texts [] = ok []
to_texts (str t ∷ vs) = to_texts vs >>= λ ts. ok (t ∷ ts)
to_texts (_ ∷ vs) = err malformed

unfoldable pub to_scopes : Json → Result StoreError (List String)
unfolding to_texts
to_scopes (arr vs) = to_texts (items vs)
to_scopes v = if truthy v then err malformed else ok []

-- `d[key]`, of a text.
unfoldable pub text_of : Option Json → String → Result StoreError String
text_of none key = err (key_error key)
text_of (some (str t)) key = ok t
text_of (some _) key = err malformed

unfoldable pub text_at : String → Dict Json → Result StoreError String
unfolding text_of
text_at key d = text_of (lookup key d) key

unfoldable pub dict_of : Option Json → Result StoreError (Dict Json)
dict_of none = err malformed
dict_of (some (obj ms)) = ok (members ms)
dict_of (some _) = err malformed

module _ (f : Crypto) where
  unfoldable pub link_fields : TokenLink → TokenCipher → String → Dict Json
  unfolding encrypt of_expiry
  link_fields link cipher salt =
      ("lobstr_user_id", str link.lobstr_user_id)
      ∷ ("lobstr_api_token_enc", str (encrypt f cipher salt link.lobstr_api_token))
      ∷ ("scopes", list (of_texts link.scopes))
      ∷ ("expires_at", of_expiry link.expires_at)
      ∷ []

  unfoldable pub link_to_json : TokenLink → TokenCipher → String → String
  unfolding link_fields
  link_to_json link cipher salt = f.dumps (dict (link_fields link cipher salt))

  unfoldable pub link_of_dict : Dict Json → TokenCipher → Result StoreError TokenLink
  unfolding text_at decrypt to_scopes to_expiry
  link_of_dict d cipher = do
    user ← text_at "lobstr_user_id" d
    blob ← text_at "lobstr_api_token_enc" d
    token ← decrypt f cipher blob
    scopes ← to_scopes (Json.get "scopes" d)
    expires_at ← to_expiry (Json.get "expires_at" d)
    ok (record {
      lobstr_user_id = user;
      lobstr_api_token = token;
      scopes = scopes;
      expires_at = expires_at;
    })

  unfoldable pub link_from_json : String → TokenCipher → Result StoreError TokenLink
  unfolding link_of_dict dict_of
  link_from_json raw cipher = dict_of (f.loads raw) >>= λ d. link_of_dict d cipher

to_texts-of_texts : (ts : List String) → to_texts (of_texts ts) ≡ ok ts
unfolding to_texts
to_texts-of_texts [] = refl
to_texts-of_texts (t ∷ ts) = rw (to_texts-of_texts ts) refl

pub to_expiry-of_expiry : (o : Option ℕ) → to_expiry (of_expiry o) ≡ ok o
unfolding to_expiry of_expiry
to_expiry-of_expiry none = refl
to_expiry-of_expiry (some t) = refl

pub dict_of-dict : (d : Dict Json) → dict_of (some (dict d)) ≡ ok d
unfolding dict_of
dict_of-dict d = rw (members-of_members d) refl

-- What is written to a list of texts is read back from it.
pub to_scopes-list : (ts : List String) → to_scopes (list (of_texts ts)) ≡ ok ts
unfolding to_scopes
to_scopes-list ts = rw (items-of_items (of_texts ts)) (to_texts-of_texts ts)

link_of_dict-link_fields :
    (f : Crypto) (laws : CryptoLaws f) (link : TokenLink) (cipher : TokenCipher) (salt : String)
    → link_of_dict f (link_fields f link cipher salt) cipher ≡ ok link
unfolding link_of_dict link_fields lookup decrypt encrypt
link_of_dict-link_fields f laws link cipher salt =
    rw
      (
        laws.decrypt-encrypt cipher.key salt link.lobstr_api_token,
        to_scopes-list link.scopes,
        to_expiry-of_expiry link.expires_at,
      )
      refl

-- A link that is stored under a cipher is read back whole, whatever the random bytes were.
pub link_from_json-link_to_json :
    (f : Crypto) (laws : CryptoLaws f) (link : TokenLink) (cipher : TokenCipher) (salt : String)
    → link_from_json f (link_to_json f link cipher salt) cipher ≡ ok link
unfolding link_from_json link_to_json
link_from_json-link_to_json f laws link cipher salt =
    let d = link_fields f link cipher salt in
    ap (λ o. dict_of o >>= λ e. link_of_dict f e cipher) (laws.loads-dumps (dict d))
    ∙ ap (λ o. o >>= λ e. link_of_dict f e cipher) (dict_of-dict d)
    ∙ link_of_dict-link_fields f laws link cipher salt
