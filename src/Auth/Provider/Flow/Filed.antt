-- ===== src/Auth/Provider/Flow/Filed.antt =====
-- Codes stay filed beside their identities while other codes come and go.
use mathlib.Core.Path.{subst₂}
use mathlib.Core.Option.{some-injective}
use lobstr_mcp.Prelude.{
  String, true, false, none, some, ◌≡◌, ◌∙◌, ◌==◌, eq_iff, eq_refl, inl, inr, Bool-cases,
}
use lobstr_mcp.Prelude.Dict.{Dict, insert, erase, lookup-insert, lookup-erase, Holds}
use lobstr_mcp.Auth.TokenStore.{TokenLink}
use lobstr_mcp.Auth.Provider.State.{AuthorizationCode}
use lobstr_mcp.Auth.Provider.Grants.{within}
use lobstr_mcp.Auth.Provider.Flow.{IsFiled}

IsFiled-insert :
    (identity : Dict TokenLink) (c : String) (new : TokenLink) (key : String)
    (code : AuthorizationCode)
    → (c == key) ≡ false
    → IsFiled identity key code
    → IsFiled (insert c new identity) key code
IsFiled-insert identity c new key code other f = record {
  link = f.link;
  own_name = f.own_name;
  filed = rw (lookup-insert, other) f.filed;
  covered = f.covered;
}

IsFiled-erase :
    (identity : Dict TokenLink) (c key : String) (code : AuthorizationCode)
    → (c == key) ≡ false
    → IsFiled identity key code
    → IsFiled (erase c identity) key code
IsFiled-erase identity c key code other f = record {
  link = f.link;
  own_name = f.own_name;
  filed = rw (lookup-erase, other) f.filed;
  covered = f.covered;
}

-- Filing a code together with its identity.
pub codes-IsFiled-insert :
    (identity : Dict TokenLink) (codes : Dict AuthorizationCode) (c : String) (new : TokenLink)
    (code : AuthorizationCode)
    → code.code ≡ c
    → within code.scopes new.scopes ≡ true
    → Holds (IsFiled identity) codes
    → Holds (IsFiled (insert c new identity)) (insert c code codes)
codes-IsFiled-insert identity codes c new code named covered old key v found =
    elim (Bool-cases (c == key)) [
      | inl same ↦
          let e : some code ≡ some v = rw (lookup-insert, same) at found in
          subst₂ (IsFiled (insert c new identity)) ((eq_iff c key).0 same) (some-injective code v e)
            (record {
              link = new;
              own_name = named;
              filed = lookup-insert c c new identity ∙ rw (eq_refl c);
              covered = covered;
            })
      | inr other ↦
          IsFiled-insert identity c new key v other (old key v (rw (lookup-insert, other) at found))
    ]

pub codes-IsFiled-erase :
    (identity : Dict TokenLink) (codes : Dict AuthorizationCode) (c : String)
    → Holds (IsFiled identity) codes
    → Holds (IsFiled (erase c identity)) (erase c codes)
codes-IsFiled-erase identity codes c old key v found = elim (Bool-cases (c == key)) [
  | inl same ↦ let e : none ≡ some v = rw (lookup-erase, same) at found in absurd (cc e)
  | inr other ↦ IsFiled-erase identity c key v other (old key v (rw (lookup-erase, other) at found))
]
