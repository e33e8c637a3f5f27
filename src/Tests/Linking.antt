-- ===== src/Tests/Linking.antt =====
-- A squid with one account, to which another is linked.
use lobstr_mcp.Prelude.{
  String, true, List, [], ◌∷◌, Option, none, some, contains, ◌≡◌, refl, sym, ap, ◌∙◌,
}
use lobstr_mcp.Prelude.Dict.{lookup}
use lobstr_mcp.Prelude.Result.{ok, ok-injective}
use lobstr_mcp.Json.{Json, null, str, list, dict, items, of_items, items-of_items, as_list, get}
use lobstr_mcp.Client.{Client, pure}
use lobstr_mcp.Client.Rows.{Keeps}
use lobstr_mcp.Accounts.{squid_account_ids, all_texts, ids_of_list}
use lobstr_mcp.Accounts.Linking.{texts, attach_account_impl}
use lobstr_mcp.Accounts.Linking.Preserved.{LinkLaws, attach_account_impl-Keeps}
use lobstr_mcp.Tests.Accounts.{clock}

-- The ids that a body lists.
abbrev ids_in : List Json → List String
ids_in [] = []
ids_in (str t ∷ vs) = t ∷ ids_in vs
ids_in (_ ∷ vs) = ids_in vs

ids_of : Option (List Json) → List String
ids_of none = []
ids_of (some vs) = ids_in vs

abbrev linking : Client
linking = record {
  State = List String;
  list_crawlers = pure [];
  get_crawler = λ id. pure (("account", dict (("type", str "linkedin-sync") ∷ [])) ∷ []);
  get_crawler_params = λ id. pure [];
  get_squid = λ id ids. (ok (("crawler", str "c") ∷ ("accounts", list (texts ids)) ∷ []), ids);
  create_squid = λ id name. pure [];
  update_squid = λ id body ids. (ok [], ids_of (as_list (get "accounts" body)));
  empty_squid = λ id. pure [];
  delete_squid = λ id. pure [];
  list_tasks = λ id. pure null;
  add_tasks = λ id rows. pure [];
  start_run = λ id. pure [];
  get_balance = pure [];
  get_account = λ id. pure (dict (("id", str id) ∷ ("type", str "linkedin-sync") ∷ []));
  list_accounts = λ type. pure (list []);
  user_scope = λ s. "me";
}

abbrev Links : List String → String → String → Type 0
Links ids q a = contains a ids ≡ true

ids_in-texts : (ids : List String) → ids_in (items (of_items (texts ids))) ≡ ids
ids_in-texts [] = refl
ids_in-texts (t ∷ ids) = ap (λ r. t ∷ r) (ids_in-texts ids)

all_texts-texts : (ids : List String) → all_texts (texts ids) ≡ some ids
unfolding all_texts
all_texts-texts [] = refl
all_texts-texts (t ∷ ids) = rw (all_texts-texts ids) refl

shows :
    (ids : List String)
    → squid_account_ids (("crawler", str "c") ∷ ("accounts", list (texts ids)) ∷ []) ≡ ok ids
unfolding lookup squid_account_ids ids_of_list
shows ids = rw (items-of_items (texts ids), ids_of_list, all_texts-texts ids) refl

linking-LinkLaws : LinkLaws linking
unfolding lookup ids_of
linking-LinkLaws = record {
  holds = Links;
  get_squid-Keeps = λ q a id s h. h;
  get_crawler-Keeps = λ q a id s h. h;
  get_account-Keeps = λ q a id s h. h;
  list_accounts-Keeps = λ q a type s h. h;
  get_squid_shows = λ q a s s' squid ids h answered read.
      let same = ok-injective _ _ (ap (λ p. p.0) answered) in
      let shown : s ≡ ids = ok-injective _ _ (sym (shows s) ∙ ap squid_account_ids same ∙ read) in
      rw shown at h;
  update_squid-Keeps = λ q a ids listed s h. rw (ids_in-texts ids) listed;
}

attach_account_impl-Keeps_example :
    Keeps
      (λ s. linking-LinkLaws.holds s "q" "a1")
      (attach_account_impl clock linking "q" (some "a2"))
attach_account_impl-Keeps_example =
    attach_account_impl-Keeps clock linking linking-LinkLaws "q" "a1" (some "a2")
