-- ===== src/Client.antt =====
-- lobstr_client.py as the tools see it: the requests of a `LobstrClient`, over an unknown state of
-- the service, and the monad of code that sends them.
pub mod Rows
pub mod Runs
pub mod Crawlers
use lobstr_mcp.Prelude.{ℕ, String, Bool, List, Option, none, some}
use lobstr_mcp.Prelude.Dict.{Dict}
use lobstr_mcp.Prelude.Result.{Result, ok, err}
use lobstr_mcp.Json.{Json}
use lobstr_mcp.Errors.{Exn}

-- Code that talks to the service: it changes the state, and returns or raises.
abbrev pub Exec {ℓ} : Type 0 → Type ℓ → Type ℓ
Exec S A = S → Result Exn A × S

module _ {S : Type 0} where
  abbrev pub pure {ℓ} : {A : Type ℓ} → A → Exec S A
  pure a s = (ok a, s)

  abbrev pub raise {ℓ} : {A : Type ℓ} → Exn → Exec S A
  raise e s = (err e, s)

  abbrev pub continue {ℓ κ} :
      {A : Type ℓ} {B : Type κ} → (A → Exec S B) → Result Exn A × S → Result Exn B × S
  continue f (ok a, s) = f a s
  continue f (err e, s) = (err e, s)

  infixl 5 ◌>>=◌ ◌>>◌
  abbrev pub ◌>>=◌ {ℓ κ} : {A : Type ℓ} {B : Type κ} → Exec S A → (A → Exec S B) → Exec S B
  ◌>>=◌ m f s = continue f (m s)

  abbrev pub ◌>>◌ {ℓ κ} : {A : Type ℓ} {B : Type κ} → Exec S A → Exec S B → Exec S B
  m >> k = m >>= λ _. k

  -- The body of a `try`: what it raises is handed on as a value.
  abbrev pub attempt {ℓ} : {A : Type ℓ} → Exec S A → Exec S (Result Exn A)
  attempt m s = let (r, s') = m s in (ok r, s')

-- The requests of the client.
pub record Client : Type 1 where
  pub State : Type 0
  pub list_crawlers : Exec State (List (Dict Json))
  pub get_crawler : String → Exec State (Dict Json)
  pub get_crawler_params : String → Exec State (Dict Json)
  pub get_squid : String → Exec State (Dict Json)
  pub create_squid : String → Option String → Exec State (Dict Json)
  pub update_squid : String → Dict Json → Exec State (Dict Json)
  pub empty_squid : String → Exec State (Dict Json)
  pub delete_squid : String → Exec State (Dict Json)
  pub list_tasks : String → Exec State Json
  pub add_tasks : String → List (Dict Json) → Exec State (Dict Json)
  pub start_run : String → Exec State (Dict Json)
  pub get_balance : Exec State (Dict Json)
  pub get_account : String → Exec State Json
  pub list_accounts : String → Exec State Json
  pub user_scope : State → String
