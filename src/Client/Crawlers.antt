-- ===== src/Client/Crawlers.antt =====
-- lobstr_client.py: `resolve_crawler_id`, which accepts an id, a slug or a short name. A missing
-- scraper is `none`.
use Prim.Native.Char.{Char, code}
use Prim.Native.String.{[] as blank, ◌∷◌ as ◌then◌}
use text.Mathlib.Text
use lobstr_mcp.Prelude.{
  ℕ, zero, suc, String, ◌<>◌, Bool, true, false, ◌&&◌, ◌||◌, List, [], ◌∷◌, Option, none, some,
  if◌then◌else◌, ◌==◌, leb, keep_if, or_else,
}
use lobstr_mcp.Prelude.Dict.{Dict}
use lobstr_mcp.Prelude.Result.{Result, ok, err}
use lobstr_mcp.Json.{Json, null, str, get, get_str}
use lobstr_mcp.Errors.{Exn, nonempty}
use lobstr_mcp.Client.{Client, Exec, pure, attempt, ◌>>=◌}

abbrev is_hex : Char → Bool
is_hex c = (leb 48 (code c) && leb (code c) 57) || (leb 97 (code c) && leb (code c) 102)

-- So many hex digits, and at most a line break after them, which `$` lets through.
hex_digits : ℕ → String → Bool
hex_digits zero blank = true
hex_digits zero (c then s) = (c then s) == "\n"
hex_digits (suc n) blank = false
hex_digits (suc n) (c then s) = let rest = hex_digits n s in is_hex c && rest

-- `_CRAWLER_ID`
unfoldable pub is_crawler_id : String → Bool
unfolding hex_digits
is_crawler_id s = hex_digits 32 s

equals : Option String → Json → Bool
equals none null = true
equals none _ = false
equals (some t) (str u) = u == t
equals (some t) _ = false

-- `crawler.get("id") or scraper`
id_or : Option String → Dict Json → Option String
id_or scraper crawler = elim (nonempty (get_str "id" crawler)) [
  | none ↦ scraper
  | some id ↦ some id
]

-- The first crawler with the property.
first_with : (Dict Json → Bool) → List (Dict Json) → Option (Dict Json)
first_with p [] = none
first_with p (crawler ∷ crawlers) = if p crawler then some crawler else first_with p crawlers

is_named : Option String → Dict Json → Bool
unfolding equals
is_named scraper crawler = equals scraper (get "slug" crawler) || equals scraper (get "id" crawler)

only_one : Option String → List (Dict Json) → Option String
unfolding id_or
only_one scraper (crawler ∷ []) = id_or scraper crawler
only_one scraper _ = scraper

has_prefix : String → Dict Json → Bool
has_prefix short crawler = Text.starts_with (or_else (get_str "slug" crawler) "") (short <> "-")

-- Short names: the slug that adds "-scraper", or the one that the name prefixes.
by_short_name : String → Option String → List (Dict Json) → Option String
unfolding first_with equals id_or only_one has_prefix
by_short_name short scraper crawlers =
    if short == ""
    then scraper
    else elim (first_with (λ d. equals (some (short <> "-scraper")) (get "slug" d)) crawlers) [
      | some crawler ↦ id_or scraper crawler
      | none ↦ only_one scraper (keep_if (has_prefix short) crawlers)
    ]

-- `short t` is `t.strip().lower()`.
module _ (short : String → String) where
  unfoldable pub resolved_in : Option String → List (Dict Json) → Option String
  unfolding first_with is_named id_or by_short_name
  resolved_in scraper crawlers = elim (first_with (is_named scraper) crawlers) [
    | some crawler ↦ id_or scraper crawler
    | none ↦ by_short_name (short (or_else scraper "")) scraper crawlers
  ]

  unfoldable pub resolved_from : Option String → Result Exn (List (Dict Json)) → Option String
  unfolding resolved_in
  resolved_from scraper (err e) = scraper
  resolved_from scraper (ok crawlers) = resolved_in scraper crawlers

  -- A catalog that cannot be read leaves the scraper as it is.
  unfoldable pub resolve_crawler_id : (c : Client) → Option String → Exec c.State (Option String)
  unfolding resolved_from is_crawler_id
  resolve_crawler_id c scraper =
      if is_crawler_id (or_else scraper "")
      then pure scraper
      else (do crawlers ← attempt c.list_crawlers; pure (resolved_from scraper crawlers))
