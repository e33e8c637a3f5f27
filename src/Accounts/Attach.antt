-- ===== src/Accounts/Attach.antt =====
-- execution.py, `run_scraper_impl`: which account a run needs, and what is saved of it.
pub mod Kept
use lobstr_mcp.Prelude.{
  String, Bool, true, false, List, [], ◌∷◌, ◌++◌, Option, none, some, if◌then◌else◌, contains, ◌==◌,
  ◌||◌,
}
use lobstr_mcp.Prelude.Dict.{Dict}
use lobstr_mcp.Prelude.Result.{Result, ok, err}
use lobstr_mcp.Json.{Json, get_str}
use lobstr_mcp.Errors.{Exn, other}
use lobstr_mcp.Client.{Client, Exec, pure, raise, continue, ◌>>=◌}
use lobstr_mcp.Accounts.Resolve.{resolve_account}
use lobstr_mcp.Accounts.{
  Clock, AccountError, account_error, ShapeError, HealthNote, crawler_account_type,
  squid_account_ids, account_health_note, pick_or_explain,
}

-- `accounts_to_save`, `resolved_account_id` and `account_warning`.
pub record Attached : Type 0 where
  pub accounts_to_save : Option (List String)
  pub resolved_account_id : Option String
  pub warning : Option HealthNote

-- `_redact_account_error`
unfoldable pub redact_account_error : AccountError → AccountError
redact_account_error error =
    if error.error_code == "multiple_accounts_available" || error.error_code == "account_locked"
    then record (account_error error.error_code) { required_type = error.required_type }
    else error

abbrev pub no_change : Attached
no_change = record { accounts_to_save = none; resolved_account_id = none; warning = none }

unfoldable pub current_ids : Option (Dict Json) → Result ShapeError (List String)
current_ids none = ok []
current_ids (some squid) = squid_account_ids squid

module _ (clock : Clock) (c : Client) where
  -- An account that the caller named is added to those that the squid has.
  unfoldable pub add_account :
      List String → Dict Json → Option String → Exec c.State (Result AccountError Attached)
  add_account current account none = raise (other "KeyError")
  add_account current account (some id) = pure (
      ok (record {
        accounts_to_save = if contains id current then none else some (current ++ (id ∷ []));
        resolved_account_id = some id;
        warning = account_health_note clock account;
      }))

  unfoldable pub named :
      List String → Result AccountError (Dict Json) → Exec c.State (Result AccountError Attached)
  unfolding add_account
  named current (err e) = pure (err e)
  named current (ok account) = add_account current account (get_str "id" account)

  unfoldable pub set_account : Option String → Exec c.State (Result AccountError Attached)
  set_account none = raise (other "KeyError")
  set_account (some id) = pure (
      ok (record {
        accounts_to_save = some (id ∷ []);
        resolved_account_id = some id;
        warning = none;
      }))

  unfoldable pub picked :
      Result AccountError (Dict Json) → Exec c.State (Result AccountError Attached)
  unfolding set_account redact_account_error
  picked (err e) = pure (err (redact_account_error e))
  picked (ok account) = set_account (get_str "id" account)

  unfoldable pub attach_of_type :
      Option String → Option String → List String → Exec c.State (Result AccountError Attached)
  unfolding named picked
  attach_of_type none (some account_id) current = pure (err (account_error "no_account_needed"))
  attach_of_type none none current = pure (ok no_change)
  attach_of_type (some account_type) (some account_id) current = do
    r ← resolve_account c account_id account_type
    named current r
  attach_of_type (some account_type) none [] = do r ← pick_or_explain clock c account_type; picked r
  attach_of_type (some account_type) none (id ∷ ids) = pure (ok no_change)

  unfoldable pub attach_with :
      Option String
      → Option String
      → Result ShapeError (List String)
      → Exec c.State (Result AccountError Attached)
  unfolding attach_of_type
  attach_with account_type account_id (err e) = pure (err (account_error "accounts_unreadable"))
  attach_with account_type account_id (ok current) = attach_of_type account_type account_id current

  -- The crawler, the squid if one is reused, and `account_id` if the caller gave one.
  unfoldable pub find_account :
      Dict Json → Option (Dict Json) → Option String → Exec c.State (Result AccountError Attached)
  unfolding attach_with current_ids crawler_account_type
  find_account crawler existing_squid account_id =
      attach_with (crawler_account_type crawler) account_id (current_ids existing_squid)
