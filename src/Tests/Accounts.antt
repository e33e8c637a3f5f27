-- ===== src/Tests/Accounts.antt =====
-- Platform accounts.
use lobstr_mcp.Prelude.{true, false, [], ◌∷◌, Option, none, some, ◌≡◌, ◌↔◌, refl, keep_if, or_else}
use lobstr_mcp.Prelude.Dict.{Dict, lookup}
use lobstr_mcp.Prelude.Result.{ok}
use lobstr_mcp.Json.{Json, str, list, dict, as_str}
use lobstr_mcp.Accounts.{Clock, pick, split_candidates, squid_account_ids}
use lobstr_mcp.Accounts.Picking.{is_usable, pick_iff}
use lobstr_mcp.Accounts.Attach.{find_account, current_ids}
use lobstr_mcp.Accounts.Attach.Kept.{Discreet, find_account-Discreet}
use lobstr_mcp.Tests.Service.{service}
use lobstr_mcp.Tests.Saving.{filled}

-- A time is a text, and "later" is to come.
abbrev pub clock : Clock
clock = record {
  py_str = λ v. or_else (as_str v) "";
  is_to_come = λ t. elim (lookup t (("later", true) ∷ [])) [ none ↦ false | some b ↦ b ];
}

abbrev healthy : Dict Json
healthy = ("id", str "a") ∷ ("type", str "linkedin") ∷ ("status", str "200") ∷ []

abbrev resting : Dict Json
resting =
    ("id", str "b")
    ∷ ("type", str "linkedin")
    ∷ ("status", str "200")
    ∷ ("lock_time", str "later")
    ∷ []

pick_iff_example :
    (pick clock "linkedin" (split_candidates clock "linkedin" (resting ∷ healthy ∷ []))
      ≡ ok healthy)
    ↔ (keep_if (is_usable clock "linkedin") (resting ∷ healthy ∷ []) ≡ healthy ∷ [])
pick_iff_example = pick_iff clock "linkedin" (resting ∷ healthy ∷ []) healthy

abbrev linked : Option (Dict Json)
linked = some (("accounts", list (str "a" ∷ str "b" ∷ [])) ∷ [])

abbrev needy : Dict Json
needy = ("account", dict (("type", str "linkedin") ∷ [])) ∷ []

find_account-Discreet_example :
    Discreet clock service
      ("a" ∷ "b" ∷ [])
      (find_account clock service needy linked (some "c") filled)
unfolding current_ids squid_account_ids lookup
find_account-Discreet_example =
    find_account-Discreet clock service needy linked (some "c") ("a" ∷ "b" ∷ []) filled refl
