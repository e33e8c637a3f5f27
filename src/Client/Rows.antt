-- ===== src/Client/Rows.antt =====
-- What the API promises about the saved input rows of a squid.
use lobstr_mcp.Prelude.{String, Option, Bool, true, false, if◌then◌else◌, List, ◌≡◌, ◌≢◌, some, All}
use lobstr_mcp.Prelude.Dict.{Dict}
use lobstr_mcp.Prelude.Result.{Result, ok, err}
use lobstr_mcp.Json.{Json, get_str}
use lobstr_mcp.Errors.{Exn}
use lobstr_mcp.Client.{Exec, Client, continue, ◌>>=◌, attempt}

-- A property of the service's state that a piece of code never takes away, whatever it answers.
abbrev pub Keeps {ℓ} : {S : Type 0} {A : Type ℓ} → (S → Type 0) → Exec S A → Type 0
Keeps {S} P m = (s : S) → P s → P (m s).1

module _ {S : Type 0} (P : S → Type 0) where
  continue-Keeps {ℓ κ} :
      {A : Type ℓ} {B : Type κ} (f : A → Exec S B)
      → ((a : A) → Keeps P (f a))
      → (out : Result Exn A × S) → P out.1
      → P (continue f out).1
  continue-Keeps f h (ok a, s) p = h a s p
  continue-Keeps f h (err e, s) p = p

  pub bind-Keeps {ℓ κ} :
      {A : Type ℓ} {B : Type κ} (m : Exec S A) (f : A → Exec S B)
      → Keeps P m
      → ((a : A) → Keeps P (f a))
      → Keeps P (m >>= f)
  bind-Keeps m f hm hf s p = continue-Keeps f hf (m s) (hm s p)

  pub attempt-Keeps {ℓ} : {A : Type ℓ} (m : Exec S A) → Keeps P m → Keeps P (attempt m)
  attempt-Keeps m h s p = h s p

  pub if-Keeps {ℓ} :
      {A : Type ℓ} (b : Bool) (m n : Exec S A)
      → Keeps P m
      → Keeps P n
      → Keeps P (if b then m else n)
  if-Keeps true m n hm hn = hm
  if-Keeps false m n hm hn = hn

-- The requests that delete nothing keep the property.
pub record Additive (c : Client) (P : c.State → Type 0) : Type 1 where
  pub list_crawlers-Keeps : Keeps P c.list_crawlers
  pub get_crawler-Keeps : (id : String) → Keeps P (c.get_crawler id)
  pub get_crawler_params-Keeps : (id : String) → Keeps P (c.get_crawler_params id)
  pub get_squid-Keeps : (id : String) → Keeps P (c.get_squid id)
  pub create_squid-Keeps : (id : String) (name : Option String) → Keeps P (c.create_squid id name)
  pub update_squid-Keeps : (id : String) (body : Dict Json) → Keeps P (c.update_squid id body)
  pub list_tasks-Keeps : (id : String) → Keeps P (c.list_tasks id)
  pub add_tasks-Keeps : (id : String) (rows : List (Dict Json)) → Keeps P (c.add_tasks id rows)
  pub start_run-Keeps : (id : String) → Keeps P (c.start_run id)
  pub get_balance-Keeps : Keeps P c.get_balance
  pub get_account-Keeps : (id : String) → Keeps P (c.get_account id)
  pub list_accounts-Keeps : (type : String) → Keeps P (c.list_accounts type)

-- `holds s q r`: squid q has the input row r. A request to add rows that is answered has added
-- them. Rows that are added twice are kept once, so the laws speak of which rows are there and not
-- of how many. A squid that is created has an id that no squid with rows has, and deleting a squid
-- leaves the others alone.
pub record RowLaws (c : Client) : Type 1 where
  pub holds : c.State → String → Dict Json → Type 0
  pub add_tasks_adds :
      (q : String) (rows : List (Dict Json)) (s s' : c.State) (d : Dict Json)
      → c.add_tasks q rows s ≡ (ok d, s')
      → All (holds s' q) rows
  pub additive : (q : String) (row : Dict Json) → Additive c (λ s. holds s q row)
  pub create_squid_fresh :
      (crawler q : String) (name : Option String) (row : Dict Json) (s s' : c.State) (d : Dict Json)
      → c.create_squid crawler name s ≡ (ok d, s')
      → holds s q row
      → get_str "id" d ≢ some q
  pub delete_squid-Keeps :
      (r q : String) (row : Dict Json) → r ≢ q → Keeps (λ s. holds s q row) (c.delete_squid r)
