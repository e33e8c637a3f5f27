-- ===== src/Tests/Wire.antt =====
-- A concrete encoding of JSON values, a cipher and a Redis that meet their laws.
use Prim.Native.Char.{Char}
use Prim.Native.String.{[] as blank, ◌∷◌ as ◌then◌}
use lobstr_mcp.Prelude.{
  ℕ, zero, suc, String, Bool, true, false, List, [], ◌∷◌, Option, none, some, ◌≡◌, refl, ap, ◌∙◌,
  if◌then◌else◌, ◌==◌, arith,
}
use lobstr_mcp.Prelude.Dict.{Dict, lookup, insert, erase, lookup-insert, lookup-erase}
use lobstr_mcp.Prelude.Int.{pos, negsuc}
use lobstr_mcp.Json.{
  Json, null, bool, int, float, str, arr, obj, Items, nil, cons, Members, end, member,
}
use lobstr_mcp.Persistence.{Redis, RedisLaws, held}
use lobstr_mcp.Persistence.Link.{Crypto, CryptoLaws}

data Token : Type 0 where
  t_null t_true t_false t_zero t_minus t_float t_suc t_text t_char : Token
  t_nil t_cons t_end t_member t_bad : Token

one : Char → String
one c = c then blank

token : Char → Token
unfolding one
token c =
    if one c == "n"
    then t_null
    else if one c == "t"
    then t_true
    else if one c == "f"
    then t_false
    else if one c == "z"
    then t_zero
    else if one c == "m"
    then t_minus
    else if one c == "g"
    then t_float
    else if one c == "s"
    then t_suc
    else if one c == "q"
    then t_text
    else if one c == "a"
    then t_char
    else if one c == "0"
    then t_nil
    else if one c == ","
    then t_cons
    else if one c == "e"
    then t_end
    else if one c == ":"
    then t_member
    else t_bad

-- The decoder: a stack of values; after an "a" comes a character of the text on top.
grow : Json → Json
grow (int (pos n)) = int (pos (suc n))
grow (int (negsuc n)) = int (negsuc (suc n))
grow (float n) = float (suc n)
grow v = v

spell : Char → List Json → List Json
spell c (str t ∷ st) = str (c then t) ∷ st
spell c st = st

join : List Json → List Json
join (v ∷ arr vs ∷ st) = arr (cons v vs) ∷ st
join st = st

enter : List Json → List Json
enter (str k ∷ v ∷ obj ms ∷ st) = obj (member k v ms) ∷ st
enter st = st

raise_top : List Json → List Json
unfolding grow
raise_top [] = []
raise_top (v ∷ st) = grow v ∷ st

apply : Token → List Json → List Json
unfolding raise_top join enter
apply t_null st = null ∷ st
apply t_true st = bool true ∷ st
apply t_false st = bool false ∷ st
apply t_zero st = int (pos 0) ∷ st
apply t_minus st = int (negsuc 0) ∷ st
apply t_float st = float 0 ∷ st
apply t_suc st = raise_top st
apply t_text st = str blank ∷ st
apply t_char st = st
apply t_nil st = arr nil ∷ st
apply t_cons st = join st
apply t_end st = obj end ∷ st
apply t_member st = enter st
apply t_bad st = st

spells : Token → Bool
spells t_char = true
spells _ = false

decode : String → Bool → List Json → List Json
unfolding token apply spells spell
decode blank waiting st = st
decode (c then s) true st = decode s false (spell c st)
decode (c then s) false st = decode s (spells (token c)) (apply (token c) st)

-- The encoder writes a value in front of what follows it.
encode_nat : Char → ℕ → String → String
encode_nat base zero rest = base then rest
encode_nat base (suc n) rest = encode_nat base n ("s" then rest)

encode_text : String → String → String
encode_text blank rest = "q" then rest
encode_text (c then s) rest = encode_text s ("a" then (c then rest))

mutual
  unfolding encode_nat encode_text

  encode : Json → String → String
  encode null rest = "n" then rest
  encode (bool true) rest = "t" then rest
  encode (bool false) rest = "f" then rest
  encode (int (pos n)) rest = encode_nat "z" n rest
  encode (int (negsuc n)) rest = encode_nat "m" n rest
  encode (float n) rest = encode_nat "g" n rest
  encode (str s) rest = encode_text s rest
  encode (arr vs) rest = encode_items vs rest
  encode (obj ms) rest = encode_members ms rest

  encode_items : Items → String → String
  encode_items nil rest = "0" then rest
  encode_items (cons v vs) rest = encode_items vs (encode v ("," then rest))

  encode_members : Members → String → String
  encode_members end rest = "e" then rest
  encode_members (member k v ms) rest = encode_members ms (encode v (encode_text k (":" then rest)))

decode-encode_text :
    (s rest : String) (st : List Json)
    → decode (encode_text s rest) false st ≡ decode rest false (str s ∷ st)
unfolding decode encode_text
decode-encode_text blank rest st = refl
decode-encode_text (c then s) rest st = decode-encode_text s ("a" then (c then rest)) st

decode-encode_nat :
    (base : Char) (v : ℕ → Json)
    → ((rest : String) (st : List Json)
        → decode (base then rest) false st ≡ decode rest false (v 0 ∷ st))
    → ((n : ℕ) → grow (v n) ≡ v (suc n))
    → (n : ℕ) (rest : String) (st : List Json)
    → decode (encode_nat base n rest) false st ≡ decode rest false (v n ∷ st)
unfolding decode encode_nat
decode-encode_nat base v h g zero rest st = h rest st
decode-encode_nat base v h g (suc n) rest st =
    decode-encode_nat base v h g n ("s" then rest) st ∙ ap (λ w. decode rest false (w ∷ st)) (g n)

mutual
  unfolding decode encode grow

  decode-encode :
      (v : Json) (rest : String) (st : List Json)
      → decode (encode v rest) false st ≡ decode rest false (v ∷ st)
  decode-encode null rest st = refl
  decode-encode (bool true) rest st = refl
  decode-encode (bool false) rest st = refl
  decode-encode (int (pos n)) rest st =
      decode-encode_nat "z" (λ k. int (pos k)) (λ r t. refl) (λ k. refl) n rest st
  decode-encode (int (negsuc n)) rest st =
      decode-encode_nat "m" (λ k. int (negsuc k)) (λ r t. refl) (λ k. refl) n rest st
  decode-encode (float n) rest st =
      decode-encode_nat "g" (λ k. float k) (λ r t. refl) (λ k. refl) n rest st
  decode-encode (str s) rest st = decode-encode_text s rest st
  decode-encode (arr vs) rest st = decode-encode_items vs rest st
  decode-encode (obj ms) rest st = decode-encode_members ms rest st

  decode-encode_items :
      (vs : Items) (rest : String) (st : List Json)
      → decode (encode_items vs rest) false st ≡ decode rest false (arr vs ∷ st)
  decode-encode_items nil rest st = refl
  decode-encode_items (cons v vs) rest st =
      decode-encode_items vs (encode v ("," then rest)) st
      ∙ decode-encode v ("," then rest) (arr vs ∷ st)

  decode-encode_members :
      (ms : Members) (rest : String) (st : List Json)
      → decode (encode_members ms rest) false st ≡ decode rest false (obj ms ∷ st)
  decode-encode_members end rest st = refl
  decode-encode_members (member k v ms) rest st =
      decode-encode_members ms (encode v (encode_text k (":" then rest))) st
      ∙ decode-encode v (encode_text k (":" then rest)) (obj ms ∷ st)
      ∙ decode-encode_text k (":" then rest) (v ∷ obj ms ∷ st)

top : List Json → Option Json
top (v ∷ []) = some v
top _ = none

strip_first : String → Option String
strip_first blank = none
strip_first (c then s) = some s

pub crypto : Crypto
unfolding encode decode top strip_first
crypto = record {
  accepts = λ key. true;
  encrypt = λ key salt text. "*" then text;
  decrypt = λ key blob. strip_first blob;
  dumps = λ v. encode v "";
  loads = λ s. top (decode s false []);
}

pub crypto-accepts : (key : String) → crypto.accepts key ≡ true
unfolding crypto
crypto-accepts key = refl

pub crypto-CryptoLaws : CryptoLaws crypto
unfolding crypto decode
crypto-CryptoLaws = record {
  decrypt-encrypt = λ key salt text. refl;
  loads-dumps = λ v. ap top (decode-encode v "" []);
}

-- A Redis in memory: values with the instant at which they were set and their time to live.
abbrev Slot : Type 0
Slot = (String × Option ℕ) × ℕ

read : Option Slot → ℕ → Option String
read none now = none
read (some ((v, ex), since)) now = if held ex since now then some v else none

unfoldable pub redis : Redis
unfolding read
redis = record {
  State = Dict Slot;
  set = λ k v ex now s. insert k ((v, ex), now) s;
  get = λ k now s. read (lookup k s) now;
  delete = λ k s. erase k s;
}

pub redis-RedisLaws : RedisLaws redis
unfolding redis lookup
redis-RedisLaws = record {
  empty = [];
  get_empty = λ k now. refl;
  get-set = λ k j v ex now later s h positive. ground (arith, lookup-insert k j ((v, ex), now) s);
  get-delete = λ k j now s. ground (arith, lookup-erase k j s);
}
