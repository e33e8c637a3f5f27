-- ===== src/Accounts/Linking.antt =====
-- tools/accounts.py: `attach_account_impl`, which links a platform account to a squid.
pub mod Preserved
use lobstr_mcp.Prelude.{
  String, Bool, true, false, List, [], ◌∷◌, ◌++◌, Option, none, some, if◌then◌else◌, contains,
}
use lobstr_mcp.Prelude.Dict.{Dict}
use lobstr_mcp.Prelude.Result.{Result, ok, err}
use lobstr_mcp.Json.{Json, str, list, get, get_str}
use lobstr_mcp.Errors.{other, nonempty}
use lobstr_mcp.Client.{Client, Exec, pure, raise, continue, ◌>>=◌}
use lobstr_mcp.Accounts.Resolve.{resolve_account}
use lobstr_mcp.Accounts.{
  Clock, AccountError, account_error, ShapeError, HealthNote, crawler_account_type,
  squid_account_ids, account_health_note, pick_or_explain,
}

-- `result`; `previously_attached` is there when the link was written.
pub record Linked : Type 0 where
  pub account_id : String
  pub account_status : Json
  pub auto_picked : Bool
  pub warning : Option HealthNote
  pub accounts : List String
  pub previously_attached : Option (List String)

pub data AttachReply : Type 0 where
  linked : Linked → AttachReply
  not_linked : AccountError → AttachReply
  already_attached : List String → AttachReply

abbrev pub texts : List String → List Json
texts [] = []
texts (t ∷ ts) = str t ∷ texts ts

abbrev pub accounts_body : List String → Dict Json
accounts_body ids = ("accounts", list (texts ids)) ∷ []

unfoldable pub link_result :
    String → Dict Json → Bool → Option HealthNote → List String → Option (List String) → Linked
link_result account_id account auto_picked warning accounts previously = record {
  account_id = account_id;
  account_status = get "status" account;
  auto_picked = auto_picked;
  warning = warning;
  accounts = accounts;
  previously_attached = previously;
}

module _ (clock : Clock) (c : Client) where
  unfoldable pub link :
      String
      → List String
      → Bool
      → Option HealthNote
      → Dict Json
      → String
      → Exec c.State AttachReply
  unfolding link_result
  link squid_id current_ids auto_picked warning account account_id =
      if contains account_id current_ids
      then pure (linked (link_result account_id account auto_picked warning current_ids none))
      else (do
        _ ← c.update_squid squid_id (accounts_body (current_ids ++ (account_id ∷ [])))
        pure (
            linked (
              link_result account_id account auto_picked warning (current_ids ++ (account_id ∷ []))
                (some current_ids))))

  unfoldable pub link_picked : String → Dict Json → Option String → Exec c.State AttachReply
  unfolding link
  link_picked squid_id account none = raise (other "KeyError")
  link_picked squid_id account (some id) = link squid_id [] true none account id

  unfoldable pub auto_pick : String → Result AccountError (Dict Json) → Exec c.State AttachReply
  unfolding link_picked
  auto_pick squid_id (err e) = pure (not_linked e)
  auto_pick squid_id (ok account) = link_picked squid_id account (get_str "id" account)

  unfoldable pub link_named :
      String → List String → String → Result AccountError (Dict Json) → Exec c.State AttachReply
  unfolding link
  link_named squid_id current_ids account_id (err e) = pure (not_linked e)
  link_named squid_id current_ids account_id (ok account) =
      link squid_id current_ids false (account_health_note clock account) account account_id

  -- The squid's accounts, the type that the crawler needs and `account_id` if the caller gave one.
  unfoldable pub attach_to :
      String → String → Option String → List String → Exec c.State AttachReply
  unfolding auto_pick link_named
  attach_to squid_id account_type (some account_id) current_ids = do
    account ← resolve_account c account_id account_type
    link_named squid_id current_ids account_id account
  attach_to squid_id account_type none [] = do
    account ← pick_or_explain clock c account_type
    auto_pick squid_id account
  attach_to squid_id account_type none (id ∷ ids) = pure (already_attached (id ∷ ids))

  unfoldable pub attach_read :
      String
      → Option String
      → Option String
      → Result ShapeError (List String)
      → Exec c.State AttachReply
  unfolding attach_to
  attach_read squid_id none account_id current =
      pure (not_linked (account_error "no_account_needed"))
  attach_read squid_id (some t) account_id (err e) =
      pure (not_linked (account_error "accounts_unreadable"))
  attach_read squid_id (some t) account_id (ok current_ids) =
      attach_to squid_id t account_id current_ids

  unfoldable pub crawler_of_squid : Option String → Exec c.State (Dict Json)
  crawler_of_squid none = pure []
  crawler_of_squid (some crawler_id) = c.get_crawler crawler_id

  unfoldable pub attach_account_impl : String → Option String → Exec c.State AttachReply
  unfolding attach_read crawler_of_squid crawler_account_type
  attach_account_impl squid_id account_id = do
    squid ← c.get_squid squid_id
    crawler ← crawler_of_squid (nonempty (get_str "crawler" squid))
    attach_read squid_id (crawler_account_type crawler) account_id (squid_account_ids squid)
