-- ===== src/Tests/Schemas.antt =====
-- Crawler schemas.
use text.Mathlib.TextLemmas.{length-append}
use Prim.Native.String.{count}
use lobstr_mcp.Prelude.{
  inl, ℕ, zero, suc, String, ◌<>◌, true, false, List, [], ◌∷◌, none, some, ◌≡◌, refl, sym, ap, ◌∙◌,
  arith, All,
}
use lobstr_mcp.Prelude.Dict.{Dict, lookup, has, insert}
use lobstr_mcp.Json.{Json, str, bool, truthy}
use lobstr_mcp.Schema.Items.{Item, normalized_level}
use lobstr_mcp.Schema.Alias.{alias_name, candidate}
use lobstr_mcp.Schema.Params.{params_only_specs, levels_from_params}
use lobstr_mcp.Schema.Alias.Fresh.{alias_name-fresh}
use lobstr_mcp.Schema.Translate.{rank_from, no_ranking, shadowed_level, translate_input_schema}
use lobstr_mcp.Schema.Collisions.{Kept, rank_from-Kept-All}
use lobstr_mcp.Schema.Collisions.Wire.{
  Declared, translate_input_schema-covers, translate_input_schema-aliases,
}

-- Numbers in tally marks.
tally : ℕ → String
tally zero = ""
tally (suc n) = "1" <> tally n

count-tally : (n : ℕ) → count (tally n) ≡ n
unfolding tally
count-tally zero = refl
count-tally (suc n) = length-append "1" (tally n) ∙ omega (arith, count-tally n)

tally_inj : (i j : ℕ) → tally i ≡ tally j → i ≡ j
tally_inj i j e = sym (count-tally i) ∙ ap count e ∙ count-tally j

abbrev url_task : Item
url_task = record { name = "url"; fields = ("level", str "task") ∷ ("required", bool true) ∷ [] }

abbrev url_squid : Item
url_squid = record { name = "url"; fields = ("level", str "squid") ∷ [] }

abbrev entries : List Item
entries = url_squid ∷ url_task ∷ []

-- The required entry keeps the name; the other one goes by an alias.
kept_test :
    (lookup "url" (rank_from no_ranking entries).seen ≡ some url_task)
    × (lookup "squid_url" (translate_input_schema tally entries none).wire_names ≡ some "url")
unfolding translate_input_schema lookup insert tally truthy normalized_level params_only_specs
    alias_name candidate shadowed_level levels_from_params
kept_test = (refl, refl)

rank_from-Kept-All_example : All (Kept (rank_from no_ranking entries).seen) entries
rank_from-Kept-All_example = rank_from-Kept-All entries

abbrev published : Dict (Dict Json)
published = ("squid_url", []) ∷ ("url", []) ∷ []

alias_name-fresh_example : has (alias_name tally (some "squid") "url" published) published ≡ false
alias_name-fresh_example = alias_name-fresh tally (some "squid") "url" published tally_inj

translate_input_schema-covers_example :
    has "url" (translate_input_schema tally entries none).json_schema.properties ≡ true
unfolding rank_from lookup insert truthy
translate_input_schema-covers_example =
    translate_input_schema-covers tally tally_inj entries none "url" (inl refl)

translate_input_schema-aliases_example :
    (¬ Declared "squid_url" entries)
    × Declared "url" entries
    × (has "squid_url" (translate_input_schema tally entries none).json_schema.properties ≡ true)
unfolding translate_input_schema lookup insert tally truthy normalized_level params_only_specs
    alias_name candidate shadowed_level levels_from_params
translate_input_schema-aliases_example =
    translate_input_schema-aliases tally tally_inj entries none "squid_url" "url" refl
