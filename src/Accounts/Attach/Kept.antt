-- ===== src/Accounts/Attach/Kept.antt =====
-- What saving an account does to those that the squid has, and what its errors give away.
use lobstr_mcp.Prelude.{
  String, true, List, [], ◌∷◌, ◌++◌, Option, none, some, ◌≡◌, refl, sym, ap, ◌∙◌, arith, all,
  contains, if◌then◌else◌, Bool-cases, inl, inr,
}
use lobstr_mcp.Prelude.Dict.{Dict}
use lobstr_mcp.Prelude.Result.{Result, ok, err}
use lobstr_mcp.Json.{Json, get_str}
use lobstr_mcp.Errors.{Exn, api, transport, other}
use lobstr_mcp.Client.{Client, continue, ◌>>=◌}
use lobstr_mcp.Auth.Scopes.Coverage.{contains-append}
use lobstr_mcp.Auth.Provider.Grants.{all-contains_self}
use lobstr_mcp.Accounts.Resolve.{checked_account, found_account, resolve_account}
use lobstr_mcp.Accounts.{
  Clock, AccountError, crawler_account_type, pick, split_candidates, dicts_in, rows_in,
  pick_or_explain,
}
use lobstr_mcp.Accounts.Attach.{
  Attached, redact_account_error, current_ids, add_account, named, set_account, picked,
  attach_of_type, attach_with, find_account,
}

all-contains-append :
    (zs xs ys : List String)
    → all (λ z. contains z xs) zs ≡ true
    → all (λ z. contains z (xs ++ ys)) zs ≡ true
all-contains-append [] xs ys h = refl
all-contains-append (z ∷ zs) xs ys h =
    ground (arith, contains-append z xs ys, all-contains-append zs xs ys)

-- The ids that are to be saved, if any are, have all the current ones among them.
abbrev pub KeepsIds : List String → Option (List String) → Type 0
KeepsIds current none = Unit
KeepsIds current (some ids) = all (λ id. contains id ids) current ≡ true

module _ (clock : Clock) (c : Client) (current : List String) where
  -- An answer keeps the current accounts, and an error lists none of the connected ones.
  abbrev pub Discreet : Result Exn (Result AccountError Attached) × c.State → Type 0
  Discreet (ok (ok attached), s) = KeepsIds current attached.accounts_to_save
  Discreet (ok (err e), s) = e.candidates ≡ none
  Discreet (err e, s) = Unit

  kept-or-added :
      (id : String)
      → KeepsIds current (if contains id current then none else some (current ++ (id ∷ [])))
  kept-or-added id = elim (Bool-cases (contains id current)) [
    | inl known ↦ rw known tt
    | inr fresh ↦
        rw fresh (all-contains-append current current (id ∷ []) (all-contains_self current))
  ]

  add_account-Discreet :
      (account : Dict Json) (id : Option String) (s : c.State)
      → Discreet (add_account clock c current account id s)
  unfolding add_account
  add_account-Discreet account none s = tt
  add_account-Discreet account (some id) s = kept-or-added id

  checked_account-none :
      (account_id account_type : String) (found : Option (Dict Json)) (e : AccountError)
      → Path
          (Result AccountError (Dict Json))
          (checked_account account_id account_type found)
          (err e)
      → e.candidates ≡ none
  unfolding checked_account
  checked_account-none account_id account_type none e h = ground arith
  checked_account-none account_id account_type (some account) e h = ground arith

  named-Discreet :
      (r : Result AccountError (Dict Json)) (s : c.State)
      → ((e : AccountError) → r ≡ err e → e.candidates ≡ none)
      → Discreet (named clock c current r s)
  unfolding named
  named-Discreet (ok account) s h = add_account-Discreet account (get_str "id" account) s
  named-Discreet (err e) s h = h e refl

  resolved-Discreet :
      (account_id account_type : String) (r : Result Exn Json) (s : c.State)
      → Discreet (continue (named clock c current) (found_account account_id account_type r, s))
  unfolding found_account
  resolved-Discreet account_id account_type (ok payload) s =
      named-Discreet (checked_account account_id account_type _) s
        (checked_account-none account_id account_type _)
  resolved-Discreet account_id account_type (err (api e)) s =
      named-Discreet _ s (λ e h. ground arith)
  resolved-Discreet account_id account_type (err (transport e)) s = tt
  resolved-Discreet account_id account_type (err (other e)) s = tt

  same_error : {x e : AccountError} → Path (Result AccountError (Dict Json)) (err x) (err e) → x ≡ e
  same_error h = cc h

  pick-redacted :
      (account_type : String) (split : List (Dict Json) × List (Dict Json)) (e : AccountError)
      → Path (Result AccountError (Dict Json)) (pick clock account_type split) (err e)
      → (redact_account_error e).candidates ≡ none
  unfolding pick redact_account_error
  pick-redacted account_type (a ∷ [], ls) e h = absurd (cc h)
  pick-redacted account_type (a ∷ b ∷ more, ls) e h =
      ap (λ x. (redact_account_error x).candidates) (sym (same_error h)) ∙ refl
  pick-redacted account_type ([], l ∷ ls) e h =
      ap (λ x. (redact_account_error x).candidates) (sym (same_error h)) ∙ refl
  pick-redacted account_type ([], []) e h =
      ap (λ x. (redact_account_error x).candidates) (sym (same_error h)) ∙ refl

module _ (clock : Clock) (c : Client) where
  set_account-Discreet :
      (id : Option String) (s : c.State) → Discreet clock c [] (set_account clock c id s)
  unfolding set_account
  set_account-Discreet none s = tt
  set_account-Discreet (some id) s = refl

  picked-Discreet :
      (r : Result AccountError (Dict Json)) (s : c.State)
      → ((e : AccountError) → r ≡ err e → (redact_account_error e).candidates ≡ none)
      → Discreet clock c [] (picked clock c r s)
  unfolding picked
  picked-Discreet (ok account) s h = set_account-Discreet (get_str "id" account) s
  picked-Discreet (err e) s h = h e refl

  pick_or_explain-Discreet :
      (account_type : String) (s : c.State)
      → Discreet clock c [] ((pick_or_explain clock c account_type >>= picked clock c) s)
  unfolding pick_or_explain
  pick_or_explain-Discreet account_type s = after (c.list_accounts account_type s)
    where
      after :
          (out : Result Exn Json × c.State)
          → Discreet clock c [] (
              continue (picked clock c) (
                continue
                  (λ payload s. (
                    ok (
                        pick clock account_type
                          (split_candidates clock account_type (dicts_in (rows_in payload)))),
                    s,
                  ))
                  out))
      after (err e, s) = tt
      after (ok payload, s) = picked-Discreet _ s (pick-redacted clock c [] account_type _)

  attach_of_type-Discreet :
      (account_type account_id : Option String) (current : List String) (s : c.State)
      → Discreet clock c current (attach_of_type clock c account_type account_id current s)
  unfolding attach_of_type resolve_account
  attach_of_type-Discreet none none current s = tt
  attach_of_type-Discreet none (some id) current s = refl
  attach_of_type-Discreet (some t) (some id) current s = resolved-Discreet clock c current id t _ _
  attach_of_type-Discreet (some t) none [] s = pick_or_explain-Discreet t s
  attach_of_type-Discreet (some t) none (x ∷ current) s = tt

-- Finding the account of a run unlinks none that the squid has, since the ids that are saved
-- include all the current ones, and its errors list no connected account of the user. Requires that
-- the squid's accounts can be read.
pub find_account-Discreet :
    (clock : Clock) (c : Client) (crawler : Dict Json) (existing_squid : Option (Dict Json))
    (account_id : Option String) (current : List String) (s : c.State)
    → current_ids existing_squid ≡ ok current
    → Discreet clock c current (find_account clock c crawler existing_squid account_id s)
unfolding find_account
find_account-Discreet clock c crawler existing_squid account_id current s h =
    rw (h, attach_with)
      (attach_of_type-Discreet clock c (crawler_account_type crawler) account_id current s)
