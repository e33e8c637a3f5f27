-- ===== src/Accounts.antt =====
-- account_linking.py, and the part of `run_scraper_impl` (execution.py) that finds the platform
-- account for a run. The prose of errors and notes is left out.
pub mod Resolve
pub mod Picking
pub mod Attach
pub mod Linking
use lobstr_mcp.Prelude.{
  ℕ, String, Bool, true, false, not, ◌||◌, ◌&&◌, List, [], ◌∷◌, Option, none, some, if◌then◌else◌,
  ◌==◌, keep_if, or_else,
}
use lobstr_mcp.Prelude.Dict.{Dict}
use lobstr_mcp.Prelude.Result.{Result, ok, err}
use lobstr_mcp.Json.{
  Json, null, bool, int, float, str, arr, obj, as_dict, as_list, as_str, get, get_dict, get_str,
  truthy,
}
use lobstr_mcp.Errors.{Exn, api, transport, other}
use lobstr_mcp.Client.{Client, Exec, pure, raise, continue, attempt, ◌>>=◌}

-- `str` of a value, and whether the time that a text names, if it names one, is still to come.
pub record Clock : Type 0 where
  pub py_str : Json → String
  pub is_to_come : String → Bool

-- A structured error about accounts. `candidates` lists connected accounts of the user. The
-- `squid_id` of an unreadable squid is left out.
pub record AccountError : Type 0 where
  pub error_code : String
  pub account_id : Option String
  pub required_type : Option String
  pub given_type : Option Json
  pub candidates : Option (List (Dict Json))

abbrev pub account_error : String → AccountError
account_error code = record {
  error_code = code;
  account_id = none;
  required_type = none;
  given_type = none;
  candidates = none;
}

-- `_account_summary`
unfoldable pub account_summary : Dict Json → Dict Json
account_summary a =
    ("id", get "id" a)
    ∷ ("username", get "username" a)
    ∷ ("type", get "type" a)
    ∷ ("status", get "status" a)
    ∷ ("status_code_info", get "status_code_info" a)
    ∷ (if truthy (get "lock_time" a) then ("lock_time", get "lock_time" a) ∷ [] else [])

unfoldable pub summaries : List (Dict Json) → List (Dict Json)
unfolding account_summary
summaries [] = []
summaries (a ∷ accounts) = account_summary a ∷ summaries accounts

-- The first of the keys under which there is a list.
unfoldable pub first_list : List String → Dict Json → List Json
first_list [] payload = []
first_list (k ∷ ks) payload = elim (as_list (get k payload)) [
  | none ↦ first_list ks payload
  | some rows ↦ rows
]

-- `_rows`
unfoldable pub rows_in : Json → List Json
unfolding first_list
rows_in (arr vs) = or_else (as_list (arr vs)) []
rows_in (obj ms) = first_list ("data" ∷ "results" ∷ "records" ∷ []) (or_else (as_dict (obj ms)) [])
rows_in _ = []

-- The source returns a `type` of any kind; here it is a text or nothing.
unfoldable pub crawler_account_type : Dict Json → Option String
crawler_account_type crawler = elim (get_dict "account" crawler) [
  | none ↦ none
  | some account ↦ get_str "type" account
]

-- Texts of a list all of whose entries are texts, and ids of one whose entries are all dicts with
-- a text for an id.
unfoldable pub all_texts : List Json → Option (List String)
all_texts [] = some []
all_texts (v ∷ vs) = elim (as_str v) [
  | none ↦ none
  | some t ↦ elim (all_texts vs) [ none ↦ none | some ts ↦ some (t ∷ ts) ]
]

abbrev pub id_in : Json → Option String
id_in v = elim (as_dict v) [ none ↦ none | some d ↦ get_str "id" d ]

unfoldable pub all_ids : List Json → Option (List String)
all_ids [] = some []
all_ids (v ∷ vs) = elim (id_in v) [
  | none ↦ none
  | some t ↦ elim (all_ids vs) [ none ↦ none | some ts ↦ some (t ∷ ts) ]
]

-- The error stands for `AccountsShapeError`.
pub data ShapeError : Type 0 where
  accounts_shape_error : ShapeError

abbrev pub ids_or_error : Option (List String) → Result ShapeError (List String)
ids_or_error none = err accounts_shape_error
ids_or_error (some ids) = ok ids

unfoldable pub ids_of_list : List Json → Result ShapeError (List String)
unfolding all_texts all_ids
ids_of_list accounts = elim (all_texts accounts) [
  | none ↦ ids_or_error (all_ids accounts)
  | some texts ↦ ok texts
]

abbrev pub ids_of_value : Json → Result ShapeError (List String)
ids_of_value null = ok []
ids_of_value (arr vs) = ids_of_list (or_else (as_list (arr vs)) [])
ids_of_value _ = err accounts_shape_error

unfoldable pub squid_account_ids : Dict Json → Result ShapeError (List String)
unfolding ids_of_list
squid_account_ids squid = ids_of_value (get "accounts" squid)

pub data HealthNote : Type 0 where
  bad_status : String → HealthNote
  cookies_expired locked : HealthNote

-- A key whose value is the text; any other value, and a missing one, is not.
abbrev pub has_text : String → String → Dict Json → Bool
has_text k t d = elim (get_str k d) [ none ↦ false | some u ↦ u == t ]

unfoldable pub dicts_in : List Json → List (Dict Json)
dicts_in [] = []
dicts_in (v ∷ vs) = elim (as_dict v) [ none ↦ dicts_in vs | some d ↦ d ∷ dicts_in vs ]

module _ (clock : Clock) where
  unfoldable pub is_locked : Dict Json → Bool
  is_locked account =
      let lock_time = get "lock_time" account in
      truthy lock_time && clock.is_to_come (clock.py_str lock_time)

  -- `str(account.get("status") or "")`
  abbrev pub status_of : Dict Json → String
  status_of account =
      let status = get "status" account in if truthy status then clock.py_str status else ""

  unfoldable pub account_health_note : Dict Json → Option HealthNote
  unfolding is_locked
  account_health_note account =
      if not (status_of account == "200")
      then some (bad_status (status_of account))
      else if has_text "status_code_info" "cookies_expired" account
      then some cookies_expired
      else if is_locked account
      then some locked
      else none

  unfoldable pub type_status_ok : String → Dict Json → Bool
  type_status_ok account_type account =
      has_text "type" account_type account
      && (status_of account == "200")
      && not (has_text "status_code_info" "cookies_expired" account)

  -- The accounts that are unlocked, and those that are locked.
  unfoldable pub split_candidates : String → List (Dict Json) → List (Dict Json) × List (Dict Json)
  unfolding type_status_ok is_locked
  split_candidates account_type rows =
      let candidates = keep_if (type_status_ok account_type) rows in
      (keep_if (λ a. not (is_locked a)) candidates, keep_if is_locked candidates)

  unfoldable pub pick :
      String → List (Dict Json) × List (Dict Json) → Result AccountError (Dict Json)
  unfolding summaries
  pick account_type (a ∷ [], locked_ones) = ok a
  pick account_type (a ∷ b ∷ more, locked_ones) =
      err (record (account_error "multiple_accounts_available") {
        required_type = some account_type;
        candidates = some (summaries (a ∷ b ∷ more));
      })
  pick account_type ([], l ∷ locked_ones) = err (record (account_error "account_locked") {
    required_type = some account_type;
    candidates = some (summaries (l ∷ locked_ones));
  })
  pick account_type ([], []) =
      err (record (account_error "no_account_available") { required_type = some account_type })

  unfoldable pub pick_or_explain :
      (c : Client) → String → Exec c.State (Result AccountError (Dict Json))
  unfolding pick split_candidates dicts_in rows_in
  pick_or_explain c account_type = do
    payload ← c.list_accounts account_type
    pure (pick account_type (split_candidates account_type (dicts_in (rows_in payload))))
