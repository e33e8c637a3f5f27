-- ===== src/Accounts/Linking/Preserved.antt =====
-- Linking an account to a squid unlinks none.
use lobstr_mcp.Prelude.{
  String, Bool, true, false, List, [], ◌∷◌, ◌++◌, Option, none, some, contains, ◌≡◌, refl, arith,
}
use lobstr_mcp.Prelude.Dict.{Dict}
use lobstr_mcp.Prelude.Result.{Result, ok, err}
use lobstr_mcp.Json.{Json, get_str}
use lobstr_mcp.Errors.{Exn, nonempty}
use lobstr_mcp.Client.{Client, Exec, continue, ◌>>=◌}
use lobstr_mcp.Client.Rows.{Keeps, bind-Keeps, if-Keeps}
use lobstr_mcp.Accounts.Resolve.{resolve_account}
use lobstr_mcp.Accounts.{
  Clock, AccountError, ShapeError, HealthNote, crawler_account_type, squid_account_ids,
}
use lobstr_mcp.Accounts.Linking.{
  accounts_body, link, link_named, attach_to, attach_read, crawler_of_squid, attach_account_impl,
}

-- `holds s q a`: account a is linked to squid q. Requests that read keep every link, a squid shows
-- all its links, and a write of `accounts` keeps the links that it lists.
pub record LinkLaws (c : Client) : Type 1 where
  pub holds : c.State → String → String → Type 0
  pub get_squid-Keeps : (q a id : String) → Keeps (λ s. holds s q a) (c.get_squid id)
  pub get_crawler-Keeps : (q a id : String) → Keeps (λ s. holds s q a) (c.get_crawler id)
  pub get_account-Keeps : (q a id : String) → Keeps (λ s. holds s q a) (c.get_account id)
  pub list_accounts-Keeps : (q a type : String) → Keeps (λ s. holds s q a) (c.list_accounts type)
  pub get_squid_shows :
      (q a : String) (s s' : c.State) (squid : Dict Json) (ids : List String)
      → holds s q a
      → c.get_squid q s ≡ (ok squid, s')
      → squid_account_ids squid ≡ ok ids
      → contains a ids ≡ true
  pub update_squid-Keeps :
      (q a : String) (ids : List String)
      → contains a ids ≡ true
      → Keeps (λ s. holds s q a) (c.update_squid q (accounts_body ids))

contains-append :
    (a : String) (xs ys : List String) → contains a xs ≡ true → contains a (xs ++ ys) ≡ true
contains-append a [] ys h = absurd (ground arith)
contains-append a (x ∷ xs) ys h = ground (arith, contains-append a xs ys)

module _ (clock : Clock) (c : Client) (laws : LinkLaws c) (q a : String) where
  abbrev Kept {ℓ} : {A : Type ℓ} → Exec c.State A → Type 0
  Kept m = Keeps (λ s. laws.holds s q a) m

  link-Kept :
      (ids : List String) (auto : Bool) (health : Option HealthNote) (account : Dict Json)
      (id : String)
      → contains a ids ≡ true
      → Kept (link clock c q ids auto health account id)
  unfolding link
  link-Kept ids auto health account id shown =
      if-Keeps _ (contains id ids) _ _ (λ s h. h)
        (bind-Keeps _ (c.update_squid q (accounts_body (ids ++ (id ∷ [])))) _
          (laws.update_squid-Keeps q a (ids ++ (id ∷ [])) (contains-append a ids (id ∷ []) shown))
          (λ d s h. h))

  link_named-Kept :
      (ids : List String) (id : String) (r : Result AccountError (Dict Json))
      → contains a ids ≡ true
      → Kept (link_named clock c q ids id r)
  unfolding link_named
  link_named-Kept ids id (err e) shown = λ s h. h
  link_named-Kept ids id (ok account) shown = link-Kept ids false _ account id shown

  resolve_account-Kept : (id type : String) → Kept (resolve_account c id type)
  unfolding resolve_account
  resolve_account-Kept id type = laws.get_account-Keeps q a id

  -- The squid shows the link, so that the squid's accounts are not empty.
  attach_to-Kept :
      (t : String) (account_id : Option String) (ids : List String)
      → contains a ids ≡ true
      → Kept (attach_to clock c q t account_id ids)
  unfolding attach_to
  attach_to-Kept t (some id) ids shown =
      bind-Keeps _ (resolve_account c id t) _ (resolve_account-Kept id t)
        (λ r. link_named-Kept ids id r shown)
  attach_to-Kept t none [] shown = absurd (ground arith)
  attach_to-Kept t none (x ∷ ids) shown = λ s h. h

  attach_read-Kept :
      (t account_id : Option String) (current : Result ShapeError (List String))
      → ((ids : List String) → current ≡ ok ids → contains a ids ≡ true)
      → Kept (attach_read clock c q t account_id current)
  unfolding attach_read
  attach_read-Kept none account_id current shown = λ s h. h
  attach_read-Kept (some t) account_id (err e) shown = λ s h. h
  attach_read-Kept (some t) account_id (ok ids) shown =
      attach_to-Kept t account_id ids (shown ids refl)

  crawler_of_squid-Kept : (crawler : Option String) → Kept (crawler_of_squid clock c crawler)
  unfolding crawler_of_squid
  crawler_of_squid-Kept none = λ s h. h
  crawler_of_squid-Kept (some id) = laws.get_crawler-Keeps q a id

  after_read :
      (account_id : Option String) (s : c.State)
      → laws.holds s q a
      → (read : Result Exn (Dict Json) × c.State) → c.get_squid q s ≡ read
      → laws.holds read.1 q a
      → laws.holds
          (continue
            (λ squid. do
              crawler ← crawler_of_squid clock c (nonempty (get_str "crawler" squid))
              attach_read clock c q
                  (crawler_account_type crawler)
                  account_id
                  (squid_account_ids squid))
            read).1
          q
          a
  after_read account_id s before (err e, s') same h = h
  after_read account_id s before (ok squid, s') same h =
      bind-Keeps _ (crawler_of_squid clock c (nonempty (get_str "crawler" squid))) _
        (crawler_of_squid-Kept (nonempty (get_str "crawler" squid)))
        (λ crawler.
          attach_read-Kept (crawler_account_type crawler) account_id (squid_account_ids squid)
            (λ ids. laws.get_squid_shows q a s s' squid ids before same))
        s' h

-- Linking an account keeps every account that was linked to the squid, whatever the API answers and
-- wherever the call stops, as long as no one else changes the squid between the read and the write.
pub attach_account_impl-Keeps :
    (clock : Clock) (c : Client) (laws : LinkLaws c) (q a : String) (account_id : Option String)
    → Keeps (λ s. laws.holds s q a) (attach_account_impl clock c q account_id)
unfolding attach_account_impl
attach_account_impl-Keeps clock c laws q a account_id s h =
    after_read clock c laws q a account_id s h (c.get_squid q s) refl
      (laws.get_squid-Keeps q a q s h)
