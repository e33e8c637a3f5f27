-- ===== src/Schema/Collisions.antt =====
-- Inputs that a crawler declares twice under one name.
pub mod Published
pub mod Wire
use lobstr_mcp.Prelude.{
  String, Bool, true, false, not, ◌||◌, List, [], ◌∷◌, Option, none, some, ◌≡◌, refl, sym, ap, ◌∙◌,
  ◌&&◌, arith, if◌then◌else◌, ◌==◌, eq_iff, eq_refl, is_some, All, Option-cases, Bool-cases, inl,
  inr,
}
use mathlib.Core.Option.{some-injective}
use lobstr_mcp.Prelude.Dict.{Dict, lookup, has, insert, lookup-insert}
use lobstr_mcp.Schema.Items.{Item, is_required, normalized_level, level_of}
use lobstr_mcp.Schema.Translate.{
  Ranking, outranks, keep_one, rank_item, rank_from, no_ranking, same_level,
}

-- The name of the entry is kept by an entry of that name that is required if the entry is.
abbrev pub Kept : Dict Item → Item → Type 0
Kept seen item =
    (kept : Item) × (lookup item.name seen ≡ some kept)
    × (kept.name ≡ item.name)
    × ((not (is_required item) || is_required kept) ≡ true)

implied : (a b : Bool) → (a ≡ true → b ≡ true) → (not a || b) ≡ true
implied true b h = h refl
implied false b h = refl

implies : (a b : Bool) → (not a || b) ≡ true → a ≡ true → b ≡ true
implies true b h e = h
implies false b h e = absurd (cc e)

-- An entry is filed under its own name.
abbrev pub Named : Ranking → Type 0
Named r = (name : String) (item : Item) → lookup name r.seen ≡ some item → item.name ≡ name

-- The entry that is filed under the new entry's name afterwards.
abbrev pub winner : Item → Option Item → Item
winner new none = new
winner new (some old) = if outranks new old then new else old

pub lookup-rank_item :
    (r : Ranking) (new : Item) (name : String)
    → lookup name (rank_item r new).seen ≡ (
        if new.name == name then some (winner new (lookup new.name r.seen)) else lookup name r.seen)
unfolding rank_item
lookup-rank_item r new name = elim (Option-cases (lookup new.name r.seen)) [
  | inl e ↦ rw (e, rank_item) (lookup-insert new.name name new r.seen)
  | inr (old, e) ↦ elim (Bool-cases (outranks new old)) [
    | inl over ↦ rw (e, rank_item, over) (lookup-insert new.name name new r.seen)
    | inr under ↦ rw (e, rank_item, under) (lookup-insert new.name name old r.seen)
  ]
]

winner_lem :
    (new : Item) (found : Option Item)
    → ((old : Item) → found ≡ some old → old.name ≡ new.name)
    → ((winner new found).name ≡ new.name)
      × (is_required new ≡ true → is_required (winner new found) ≡ true)
      × ((old : Item)
          → found ≡ some old
          → is_required old ≡ true
          → is_required (winner new found) ≡ true)
unfolding outranks
winner_lem new none named = (refl, λ h. h, λ old e. absurd (cc e))
winner_lem new (some old) named = elim (Bool-cases (is_required new && not (is_required old))) [
  | inl over ↦ (rw over refl, λ h. rw over h, λ o e h. rw over (ground arith))
  | inr under ↦ (
    rw under (named old refl),
    λ h. rw under (ground arith),
    λ o e h. rw under (rw (some-injective old o e) h),
  )
]

Named-at :
    (r : Ranking) (new : Item)
    → Named r
    → (old : Item) → lookup new.name r.seen ≡ some old
    → old.name ≡ new.name
Named-at r new named old e = named new.name old e

rank_item-Named : (r : Ranking) (new : Item) → Named r → Named (rank_item r new)
rank_item-Named r new named name item h = elim (Bool-cases (new.name == name)) [
  | inl same ↦
      let e : some (winner new (lookup new.name r.seen)) ≡ some item =
        rw (lookup-rank_item, same) at h in
      ap (λ i. i.name) (sym (some-injective _ _ e))
      ∙ (winner_lem new (lookup new.name r.seen) (Named-at r new named)).0
      ∙ (eq_iff new.name name).0 same
  | inr other ↦ named name item (rw (lookup-rank_item, other) at h)
]

rank_item-Kept_new : (r : Ranking) (new : Item) → Named r → Kept (rank_item r new).seen new
rank_item-Kept_new r new named =
    let (name, asked, _) = winner_lem new (lookup new.name r.seen) (Named-at r new named) in
    (
      winner new (lookup new.name r.seen),
      lookup-rank_item r new new.name ∙ rw (eq_refl new.name),
      name,
      implied _ _ asked,
    )

rank_item-Kept :
    (r : Ranking) (new item : Item) → Named r → Kept r.seen item → Kept (rank_item r new).seen item
rank_item-Kept r new item named (kept, found, name, asked) =
    elim (Bool-cases (new.name == item.name)) [
      | inl same ↦
          let e = (eq_iff new.name item.name).0 same in
          let at_new : lookup new.name r.seen ≡ some kept = rw e found in
          let (n, _, old) = winner_lem new (lookup new.name r.seen) (Named-at r new named) in
          (
            winner new (lookup new.name r.seen),
            lookup-rank_item r new item.name ∙ rw same,
            n ∙ e,
            implied _ _ (λ h. old kept at_new (implies _ _ asked h)),
          )
      | inr other ↦ (kept, lookup-rank_item r new item.name ∙ rw other found, name, asked)
    ]

All-Kept :
    (r : Ranking) (new : Item) (items : List Item)
    → Named r
    → All (Kept r.seen) items
    → All (Kept (rank_item r new).seen) items
All-Kept r new [] named h = tt
All-Kept r new (item ∷ items) named (k, ks) =
    (rank_item-Kept r new item named k, All-Kept r new items named ks)

rank_from-Kept :
    (r : Ranking) (item : Item) (items : List Item)
    → Named r
    → Kept r.seen item
    → Kept (rank_from r items).seen item
unfolding rank_from
rank_from-Kept r item [] named k = k
rank_from-Kept r item (new ∷ items) named k =
    rank_from-Kept (rank_item r new) item items (rank_item-Named r new named)
      (rank_item-Kept r new item named k)

rank_from-All :
    (r : Ranking) (items : List Item) → Named r → All (Kept (rank_from r items).seen) items
unfolding rank_from
rank_from-All r [] named = tt
rank_from-All r (item ∷ items) named = (
  rank_from-Kept (rank_item r item) item items (rank_item-Named r item named)
      (rank_item-Kept_new r item named),
  rank_from-All (rank_item r item) items (rank_item-Named r item named),
)

pub rank_from-Named : (r : Ranking) (items : List Item) → Named r → Named (rank_from r items)
unfolding rank_from
rank_from-Named r [] named = named
rank_from-Named r (item ∷ items) named =
    rank_from-Named (rank_item r item) items (rank_item-Named r item named)

-- However often and in whatever order a crawler declares a name, one entry of that name keeps it,
-- and that entry is required if any of them is.
pub rank_from-Kept-All : (items : List Item) → All (Kept (rank_from no_ranking items).seen) items
unfolding lookup
rank_from-Kept-All items = rank_from-All no_ranking items (λ name item e. absurd (cc e))
