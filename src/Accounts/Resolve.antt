-- ===== src/Accounts/Resolve.antt =====
-- account_linking.py: `resolve_account`, for an account that the caller names.
use lobstr_mcp.Prelude.{String, not, List, [], ◌∷◌, Option, none, some, if◌then◌else◌, or_else}
use lobstr_mcp.Prelude.Dict.{Dict}
use lobstr_mcp.Prelude.Result.{Result, ok, err}
use lobstr_mcp.Json.{Json, as_dict, as_list, get, truthy}
use lobstr_mcp.Errors.{Exn, api, transport, other}
use lobstr_mcp.Client.{Client, Exec}
use lobstr_mcp.Accounts.{AccountError, account_error, has_text}

-- The payload of an account, which can come inside a list under `data`.
first_of : List Json → Json → Json
first_of [] payload = payload
first_of (v ∷ vs) payload = v

unwrapped : Json → Json
unwrapped payload = elim (as_dict payload) [
  | none ↦ payload
  | some d ↦ first_of (or_else (as_list (get "data" d)) []) payload
]

not_found : String → AccountError
not_found account_id = record (account_error "account_not_found") { account_id = some account_id }

unfoldable pub checked_account :
    String → String → Option (Dict Json) → Result AccountError (Dict Json)
unfolding not_found
checked_account account_id account_type none = err (not_found account_id)
checked_account account_id account_type (some account) =
    if not (truthy (get "id" account))
    then err (not_found account_id)
    else if has_text "type" account_type account
    then ok account
    else err (record (account_error "account_type_mismatch") {
      required_type = some account_type;
      given_type = some (get "type" account);
    })

unfoldable pub found_account :
    String → String → Result Exn Json → Result Exn (Result AccountError (Dict Json))
unfolding checked_account not_found unwrapped first_of
found_account account_id account_type (ok payload) =
    ok (checked_account account_id account_type (as_dict (unwrapped payload)))
found_account account_id account_type (err (api e)) = ok (err (not_found account_id))
found_account account_id account_type (err (transport e)) = err (transport e)
found_account account_id account_type (err (other e)) = err (other e)

unfoldable pub resolve_account :
    (c : Client) → String → String → Exec c.State (Result AccountError (Dict Json))
unfolding found_account
resolve_account c account_id account_type s =
    let (r, s') = c.get_account account_id s in (found_account account_id account_type r, s')
