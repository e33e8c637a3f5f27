-- ===== src/Client/Runs.antt =====
-- lobstr_client.py: the requests of a `LobstrClient` that read and stop runs and read their rows.
use lobstr_mcp.Prelude.{ℕ, String, Bool, Option, List}
use lobstr_mcp.Prelude.Dict.{Dict}
use lobstr_mcp.Prelude.Int.{ℤ}
use lobstr_mcp.Prelude.Result.{Result}
use lobstr_mcp.Json.{Json}
use lobstr_mcp.Errors.{Exn, Reply, structured}
use lobstr_mcp.Client.{Exec}

-- A query of rows: run, squid, task, page and page size.
pub record RowQuery : Type 0 where
  pub run : Option String
  pub squid : Option String
  pub task : Option String
  pub page : ℤ
  pub page_size : ℕ

pub record RunClient : Type 1 where
  pub State : Type 0
  pub get_run : String → Exec State (Dict Json)
  pub get_run_stats : String → Exec State (Dict Json)
  pub get_run_credits : String → Exec State (Dict Json)
  pub get_squid : String → Exec State (Dict Json)
  pub list_tasks : String → Exec State Json
  pub list_runs : String → ℕ → Exec State (List (Dict Json))
  pub abort_run : String → Exec State Json
  pub get_run_download_url : String → String → Exec State Json
  pub get_results : RowQuery → Exec State (Dict Json)

-- `@structured` on code that talks to the service.
abbrev pub replying {ℓ} : {S : Type 0} {A : Type ℓ} → Bool → Exec S A → S → Result Exn (Reply A) × S
replying writes m s = let (r, s') = m s in (structured writes r, s')
