-- ===== src/Schema/Collisions/Published.antt =====
-- Every entry that keeps its name is published under it, and nothing that follows takes it back.
use lobstr_mcp.Prelude.{
  String, true, List, [], ◌∷◌, ◌≡◌, refl, ap, ◌∙◌, arith, ◌==◌, eq_iff, eq_refl, Option-cases,
  Bool-cases, inl, inr,
}
use lobstr_mcp.Prelude.Dict.{Dict, lookup, has, insert, lookup-insert}
use lobstr_mcp.Json.{Json}
use lobstr_mcp.Schema.Items.{Item}
use lobstr_mcp.Schema.Translate.{
  Ranking, outranks, rank_item, rank_from, Draft, require, publish_seen, publish_params,
}

-- Every name of one dict is a name of the other.
abbrev pub Covers {ℓ κ} : {V : Type ℓ} {W : Type κ} → Dict V → Dict W → Type 0
Covers d e = (k : String) → has k d ≡ true → has k e ≡ true

pub has-insert {ℓ} :
    {V : Type ℓ} (k j : String) (v : V) (d : Dict V) → has j d ≡ true → has j (insert k v d) ≡ true
has-insert k j v d h = ground (arith, lookup-insert k j v d)

pub has-insert_self {ℓ} :
    {V : Type ℓ} (k : String) (v : V) (d : Dict V) → has k (insert k v d) ≡ true
has-insert_self k v d = ground (arith, lookup-insert k k v d, eq_refl k)

pub has-insert_ne {ℓ} :
    {V : Type ℓ} (k j : String) (v : V) (d : Dict V)
    → has j (insert k v d) ≡ true
    → ((k == j) ≡ true → has j d ≡ true)
    → has j d ≡ true
has-insert_ne k j v d h old = ground (arith, lookup-insert k j v d)

-- A shadowed name is one that an entry keeps.
rank_item-Covers :
    (r : Ranking) (item : Item)
    → Covers r.shadowed r.seen
    → Covers (rank_item r item).shadowed (rank_item r item).seen
unfolding rank_item
rank_item-Covers r item h k = elim (Option-cases (lookup item.name r.seen)) [
  | inl e ↦ rw (e, rank_item) (λ p. has-insert item.name k item r.seen (h k p))
  | inr (old, e) ↦
      let known : has item.name r.seen ≡ true = rw e refl in
      let same : (item.name == k) ≡ true → has k r.seen ≡ true =
        λ s. rw ((eq_iff item.name k).0 s) at known in
      elim (Bool-cases (outranks item old)) [
        | inl over ↦
            rw (e, rank_item, over)
              (ground (
                arith,
                h k,
                same,
                lookup-insert item.name k item r.seen,
                lookup-insert item.name k old r.shadowed,
              ))
        | inr under ↦
            rw (e, rank_item, under)
              (ground (
                arith,
                h k,
                same,
                lookup-insert item.name k old r.seen,
                lookup-insert item.name k item r.shadowed,
              ))
      ]
]

pub rank_from-Covers :
    (r : Ranking) (items : List Item)
    → Covers r.shadowed r.seen
    → Covers (rank_from r items).shadowed (rank_from r items).seen
unfolding rank_from
rank_from-Covers r [] h = h
rank_from-Covers r (item ∷ items) h =
    rank_from-Covers (rank_item r item) items (rank_item-Covers r item h)

require_lem :
    (item : Item) (d : Draft)
    → ((require item d).properties ≡ d.properties) × ((require item d).wire_names ≡ d.wire_names)
unfolding require
require_lem item d = ground arith

-- Publishing the entries covers them, and leaves the wire names alone.
module _ (shadowed : Dict Item) (placement : Dict String) where
  publish_seen-keeps :
      (seen : Dict Item) (d : Draft) (k : String)
      → has k d.properties ≡ true
      → has k (publish_seen shadowed placement seen d).properties ≡ true
  unfolding publish_seen
  publish_seen-keeps [] d k h = h
  publish_seen-keeps ((name, item) ∷ rest) d k h =
      publish_seen-keeps rest _ k
        (ap (has k) (require_lem item _).0 ∙ has-insert name k _ d.properties h)

  pub publish_seen-Covers :
      (seen : Dict Item) (d : Draft)
      → Covers seen (publish_seen shadowed placement seen d).properties
  unfolding publish_seen lookup
  publish_seen-Covers [] d k h = absurd (cc h)
  publish_seen-Covers ((name, item) ∷ rest) d k h = elim (Bool-cases (name == k)) [
    | inl same ↦ publish_seen-keeps rest _ k (
        ap (has k) (require_lem item _).0
        ∙ rw (← (eq_iff name k).0 same) (has-insert_self name _ d.properties))
    | inr other ↦ publish_seen-Covers rest _ k (rw other at h)
  ]

  pub publish_seen-wire_names :
      (seen : Dict Item) (d : Draft)
      → (publish_seen shadowed placement seen d).wire_names ≡ d.wire_names
  unfolding publish_seen
  publish_seen-wire_names [] d = refl
  publish_seen-wire_names ((name, item) ∷ rest) d =
      publish_seen-wire_names rest _ ∙ (require_lem item _).1

module _ (placement : Dict String) where
  pub publish_params-keeps :
      (specs : Dict (Dict Json)) (d : Draft) (k : String)
      → has k d.properties ≡ true
      → has k (publish_params placement specs d).properties ≡ true
  unfolding publish_params
  publish_params-keeps [] d k h = h
  publish_params-keeps ((name, spec) ∷ rest) d k h = elim (Bool-cases (has name d.properties)) [
    | inl old ↦ rw (old, publish_params) (publish_params-keeps rest d k h)
    | inr new ↦
        rw (new, publish_params)
          (publish_params-keeps rest _ k (has-insert name k _ d.properties h))
  ]

  pub publish_params-wire_names :
      (specs : Dict (Dict Json)) (d : Draft)
      → (publish_params placement specs d).wire_names ≡ d.wire_names
  unfolding publish_params
  publish_params-wire_names [] d = refl
  publish_params-wire_names ((name, spec) ∷ rest) d = elim (Bool-cases (has name d.properties)) [
    | inl old ↦ rw (old, publish_params) (publish_params-wire_names rest d)
    | inr new ↦ rw (new, publish_params) (publish_params-wire_names rest _)
  ]
