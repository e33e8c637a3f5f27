-- ===== src/Schema/Collisions/Wire.antt =====
-- The aliases of shadowed inputs, and the names that they are sent under.
use lobstr_mcp.Prelude.{
  ℕ, String, true, false, List, [], ◌∷◌, Option, none, some, ◌≡◌, refl, sym, ◌∙◌, arith, ◌==◌,
  eq_iff, eq_refl, is_some, Bool-cases, inl, inr, ◌⊎◌, All, ap,
}
use mathlib.Core.Option.{some-injective}
use mathlib.Core.Bool.{false≢true}
use lobstr_mcp.Prelude.Dict.{Dict, lookup, has, lookup-insert}
use lobstr_mcp.Json.{Json}
use lobstr_mcp.Schema.Items.{Item}
use lobstr_mcp.Schema.Alias.{alias_name}
use lobstr_mcp.Schema.Alias.Fresh.{alias_name-fresh}
use lobstr_mcp.Schema.Params.{levels_from_params, placement_from_params, params_only_specs}
use lobstr_mcp.Schema.Translate.{
  Ranking, rank_item, rank_from, no_ranking, Draft, no_draft, publish_seen, publish_shadowed,
  shadowed_level, kept_of, add_alias, draft_of, translate_input_schema,
}
use lobstr_mcp.Schema.Collisions.{Kept, lookup-rank_item, rank_from-Kept-All}
use lobstr_mcp.Schema.Collisions.Published.{
  Covers, has-insert, has-insert_self, rank_from-Covers, publish_seen-Covers,
  publish_seen-wire_names, publish_params-keeps, publish_params-wire_names,
}

-- An entry of the list has the name.
abbrev pub Declared : String → List Item → Type 0
Declared name [] = ⊥
Declared name (item ∷ items) = (item.name ≡ name) ⊎ Declared name items

Declared-has :
    (name : String) (items : List Item) (seen : Dict Item)
    → All (Kept seen) items
    → Declared name items
    → has name seen ≡ true
Declared-has name [] seen kept h = elim h [ ]
Declared-has name (item ∷ items) seen ((k, found, _, _), kept) h = elim h [
  | inl here ↦ rw (sym here) (ap (λ o. is_some o) found)
  | inr later ↦ Declared-has name items seen kept later
]

rank_from-Declared :
    (name : String) (r : Ranking) (items : List Item)
    → (has name r.seen ≡ true → ⊥)
    → has name (rank_from r items).seen ≡ true
    → Declared name items
unfolding rank_from
rank_from-Declared name r [] new h = new h
rank_from-Declared name r (item ∷ items) new h = elim (Bool-cases (item.name == name)) [
  | inl same ↦ inl ((eq_iff item.name name).0 same)
  | inr other ↦ inr (
      rank_from-Declared name (rank_item r item) items
        (λ k. new (ap (λ o. is_some o) (sym (lookup-rank_item r item name ∙ rw other refl)) ∙ k)) h)
]

-- What an alias stands for: a name that an entry kept. The alias is no entry's name itself.
abbrev pub IsAlias : Dict Item → Draft → String → String → Type 0
IsAlias seen d alias name =
    (lookup alias seen ≡ none) × (has name seen ≡ true) × (has alias d.properties ≡ true)

record IsWired (seen : Dict Item) (d : Draft) : Type 0 where
  covered : Covers seen d.properties
  wired : (alias name : String) → lookup alias d.wire_names ≡ some name → IsAlias seen d alias name

none_of_has : {V : Type 0} (o : Option V) → (is_some o ≡ true → ⊥) → o ≡ none
none_of_has none h = refl
none_of_has (some v) h = absurd (h refl)

add_alias-IsWired :
    (seen : Dict Item) (d : Draft) (alias name : String) (level : Option String) (item : Item)
    → has alias d.properties ≡ false
    → has name seen ≡ true
    → IsWired seen d
    → IsWired seen (add_alias alias name level item d)
add_alias-IsWired seen d alias name level item fresh known w = record {
  covered = λ k h. has-insert alias k _ d.properties (w.covered k h);
  wired = λ a n h. elim (Bool-cases (alias == a)) [
    | inl same ↦
        let e = (eq_iff alias a).0 same in
        let value : some name ≡ some n = rw (lookup-insert, same) at h in
        (
          none_of_has (lookup a seen) (λ p. false≢true (sym fresh ∙ rw e (w.covered a p))),
          rw (← some-injective name n value) known,
          rw (← e) (has-insert_self alias _ d.properties),
        )
    | inr other ↦
        let (unseen, sent, published) = w.wired a n (rw (lookup-insert, other) at h) in
        (unseen, sent, has-insert alias a _ d.properties published)
  ];
}

module _ (show : ℕ → String) (distinct : (i j : ℕ) → show i ≡ show j → i ≡ j) where
  publish_shadowed-IsWired :
      (seen : Dict Item) (at : Dict (List String)) (shadowed : Dict Item) (d : Draft)
      → Covers shadowed seen
      → IsWired seen d
      → IsWired seen (publish_shadowed show seen at shadowed d)
  unfolding publish_shadowed lookup
  publish_shadowed-IsWired seen at [] d known w = w
  publish_shadowed-IsWired seen at ((name, item) ∷ rest) d known w =
      let level = shadowed_level name item (kept_of name seen item) at in
      publish_shadowed-IsWired seen at rest _ (λ k h. known k (ground arith))
        (add_alias-IsWired seen d (alias_name show level name d.properties) name level item
          (alias_name-fresh show level name d.properties distinct) (known name (rw (eq_refl name)))
          w)

  draft_of-IsWired :
      (items : List Item) (params : Option (Dict Json))
      → IsWired (rank_from no_ranking items).seen (draft_of show items params)
  unfolding draft_of lookup
  draft_of-IsWired items params =
      let r = rank_from no_ranking items in
      let placement = placement_from_params params in
      let d = publish_seen r.shadowed placement r.seen no_draft in
      publish_shadowed-IsWired r.seen (levels_from_params params) r.shadowed _
        (rank_from-Covers no_ranking items (λ k h. absurd (cc h)))
        (record {
          covered = λ k h.
              publish_params-keeps placement (params_only_specs params) d k
                (publish_seen-Covers r.shadowed placement r.seen no_draft k h);
          wired = λ alias name h.
              let unwired =
                publish_params-wire_names placement (params_only_specs params) d
                ∙ publish_seen-wire_names r.shadowed placement r.seen no_draft in
              absurd (cc (unwired, h));
        })

  -- Every name in `input[]` is a property of the translated schema. Requires that numbers are
  -- written distinctly.
  pub translate_input_schema-covers :
      (items : List Item) (params : Option (Dict Json)) (name : String)
      → Declared name items
      → has name (translate_input_schema show items params).json_schema.properties ≡ true
  unfolding translate_input_schema
  translate_input_schema-covers items params name h =
      (draft_of-IsWired items params).covered name
        (Declared-has name items (rank_from no_ranking items).seen (rank_from-Kept-All items) h)

  -- An alias of a translated schema is a property of it, is the name of no entry of `input[]`, and
  -- goes out under a name that an entry of `input[]` has. Requires that numbers are written
  -- distinctly.
  pub translate_input_schema-aliases :
      (items : List Item) (params : Option (Dict Json)) (alias name : String)
      → lookup alias (translate_input_schema show items params).wire_names ≡ some name
      → (¬ Declared alias items)
        × Declared name items
        × (has alias (translate_input_schema show items params).json_schema.properties ≡ true)
  unfolding translate_input_schema lookup
  translate_input_schema-aliases items params alias name h =
      let (unseen, sent, published) = (draft_of-IsWired items params).wired alias name h in
      let seen = (rank_from no_ranking items).seen in
      (
        λ declared. false≢true (
            ap (λ o. is_some o) (sym unseen)
            ∙ Declared-has alias items seen (rank_from-Kept-All items) declared),
        rank_from-Declared name no_ranking items (λ k. absurd (cc k)) sent,
        published,
      )
