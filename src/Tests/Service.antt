-- ===== src/Tests/Service.antt =====
-- A service in memory that meets what the models assume of the API.
use text.Mathlib.TextLemmas.{length-append}
use Prim.Native.String.{count}
use lobstr_mcp.Prelude.{
  ◌<◌, Option, String, ◌<>◌, Bool, true, false, List, [], ◌∷◌, some, ◌≡◌, ◌≢◌, refl, sym, ap, ◌∙◌,
  ◌⊎◌, inl, inr, arith, if◌then◌else◌, ◌==◌, eq_iff, Bool-cases, All, ◌||◌,
}
use mathlib.Core.Option.{some-injective}
use lobstr_mcp.Prelude.Dict.{Dict, lookup, has}
use lobstr_mcp.Prelude.Int.{pos}
use lobstr_mcp.Prelude.Result.{ok, err}
use lobstr_mcp.Json.{Json, null, bool, int, str, list, dict, get_str}
use lobstr_mcp.Errors.{api, ApiError}
use lobstr_mcp.Client.{Client, pure}
use lobstr_mcp.Client.Rows.{Keeps, Additive, RowLaws}

abbrev pub Rows : Type 0
Rows = List (String × Dict Json)

abbrev pub Saved : Rows → String → Dict Json → Type 0
Saved [] q row = ⊥
Saved ((p, r) ∷ rest) q row = ((p ≡ q) × (r ≡ row)) ⊎ Saved rest q row

abbrev pub clear : String → Rows → Rows
clear q [] = []
clear q ((p, r) ∷ rest) = if p == q then clear q rest else (p, r) ∷ clear q rest

abbrev pub save : String → List (Dict Json) → Rows → Rows
save q [] rows = rows
save q (r ∷ rs) rows = (q, r) ∷ save q rs rows

abbrev fresh_id : Rows → String
fresh_id [] = "squid"
fresh_id ((p, r) ∷ rest) = p <> fresh_id rest

abbrev tasks_of : String → Rows → List Json
tasks_of q [] = []
tasks_of q ((p, r) ∷ rest) =
    if p == q then dict (("params", dict r) ∷ []) ∷ tasks_of q rest else tasks_of q rest

save-keeps :
    (p q : String) (rs : List (Dict Json)) (rows : Rows) (row : Dict Json)
    → Saved rows q row
    → Saved (save p rs rows) q row
save-keeps p q [] rows row h = h
save-keeps p q (r ∷ rs) rows row h = inr (save-keeps p q rs rows row h)

pub clear-keeps :
    (p q : String) (rows : Rows) (row : Dict Json)
    → p ≢ q
    → Saved rows q row
    → Saved (clear p rows) q row
clear-keeps p q [] row d h = h
clear-keeps p q ((o, r) ∷ rest) row d h = elim (Bool-cases (o == p)) [
  | inl same ↦ rw same (elim h [
    | inl (e, _) ↦ absurd (d (sym ((eq_iff o p).0 same) ∙ e))
    | inr later ↦ clear-keeps p q rest row d later
  ])
  | inr apart ↦
      rw apart (elim h [ inl here ↦ inl here | inr later ↦ inr (clear-keeps p q rest row d later) ])
]

fresh_id-pos : (rows : Rows) → 0 < count (fresh_id rows)
fresh_id-pos [] = omega arith
fresh_id-pos ((p, r) ∷ rest) = omega (arith, fresh_id-pos rest, length-append p (fresh_id rest))

fresh_id-longer :
    (rows : Rows) (q : String) (row : Dict Json)
    → Saved rows q row
    → count q < count (fresh_id rows)
fresh_id-longer [] q row h = elim h [ ]
fresh_id-longer ((p, r) ∷ rest) q row h = elim h [
  | inl (e, _) ↦
      let same = ap count e in
      omega (arith, same, fresh_id-pos rest, length-append p (fresh_id rest))
  | inr later ↦ omega (arith, fresh_id-longer rest q row later, length-append p (fresh_id rest))
]

pub record Store : Type 0 where
  pub rows : Rows
  pub runs : List String

-- The API refuses a batch with a row that has the key "bad".
abbrev refused : List (Dict Json) → Bool
refused [] = false
refused (r ∷ rs) = has "bad" r || refused rs

abbrev pub rejection : ApiError
rejection = record { status = 400; error_type = some "InvalidParam"; message = "bad" }

abbrev pub crawler : Dict Json
crawler =
    ("id", str "maps")
    ∷ ("credits_per_row", int (pos 1))
    ∷ ("input", list (dict (("name", str "url") ∷ ("required", bool true) ∷ []) ∷ []))
    ∷ []

abbrev pub service : Client
service = record {
  State = Store;
  list_crawlers = pure (crawler ∷ []);
  get_crawler = λ id. pure crawler;
  get_crawler_params = λ id. pure [];
  get_squid = λ id. pure (("id", str id) ∷ ("crawler", str "maps") ∷ []);
  create_squid = λ crawler name s. (ok (("id", str (fresh_id s.rows)) ∷ []), s);
  update_squid = λ id body. pure [];
  empty_squid = λ id s. (ok [], record s { rows = clear id s.rows });
  delete_squid = λ id s. (ok [], record s { rows = clear id s.rows });
  list_tasks = λ id s. (ok (list (tasks_of id s.rows)), s);
  add_tasks = λ id rows s.
      if refused rows
      then (err (api rejection), s)
      else (ok [], record s { rows = save id rows s.rows });
  start_run = λ id s. (ok (("id", str "run") ∷ []), record s { runs = id ∷ s.runs });
  get_balance = pure (("available", int (pos 500)) ∷ ("consumed", int (pos 20)) ∷ []);
  get_account = λ id. pure null;
  list_accounts = λ type. pure (list []);
  user_scope = λ s. "me";
}

All-later :
    (p q : String) (r : Dict Json) (rows : Rows) (rs : List (Dict Json))
    → All (Saved rows q) rs
    → All (Saved ((p, r) ∷ rows) q) rs
All-later p q r rows [] h = tt
All-later p q r rows (x ∷ rs) (h, hs) = (inr h, All-later p q r rows rs hs)

save-adds : (q : String) (rs : List (Dict Json)) (rows : Rows) → All (Saved (save q rs rows) q) rs
save-adds q [] rows = tt
save-adds q (r ∷ rs) rows =
    (inl (refl, refl), All-later q q r (save q rs rows) rs (save-adds q rs rows))

abbrev pub SavedIn : Store → String → Dict Json → Type 0
SavedIn s q row = Saved s.rows q row

pub add_tasks_adds :
    (q : String) (rs : List (Dict Json)) (s s' : Store) (d : Dict Json)
    → service.add_tasks q rs s ≡ (ok d, s')
    → All (SavedIn s' q) rs
add_tasks_adds q rs s s' d h = elim (Bool-cases (refused rs)) [
  | inl bad ↦ absurd (ground arith)
  | inr good ↦
      let e : s' ≡ record s { rows = save q rs s.rows } = ground arith in
      rw e (save-adds q rs s.rows)
]

add_tasks-Keeps :
    (p q : String) (rs : List (Dict Json)) (row : Dict Json)
    → Keeps (λ s. SavedIn s q row) (service.add_tasks p rs)
add_tasks-Keeps p q rs row s h = elim (Bool-cases (refused rs)) [
  | inl bad ↦ rw bad h
  | inr good ↦ rw good (save-keeps p q rs s.rows row h)
]

pub service-Additive : (q : String) (row : Dict Json) → Additive service (λ s. SavedIn s q row)
service-Additive q row = record {
  list_crawlers-Keeps = λ s h. h;
  get_crawler-Keeps = λ id s h. h;
  get_crawler_params-Keeps = λ id s h. h;
  get_squid-Keeps = λ id s h. h;
  create_squid-Keeps = λ id name s h. h;
  update_squid-Keeps = λ id body s h. h;
  list_tasks-Keeps = λ id s h. h;
  add_tasks-Keeps = λ id rs. add_tasks-Keeps id q rs row;
  start_run-Keeps = λ id s h. h;
  get_balance-Keeps = λ s h. h;
  get_account-Keeps = λ id s h. h;
  list_accounts-Keeps = λ type s h. h;
}

pub create_squid_fresh :
    (crawler_id q : String) (name : Option String) (row : Dict Json) (s s' : Store) (d : Dict Json)
    → service.create_squid crawler_id name s ≡ (ok d, s')
    → SavedIn s q row
    → get_str "id" d ≢ some q
unfolding lookup
create_squid_fresh crawler_id q name row s s' d h held e =
    let made : ("id", str (fresh_id s.rows)) ∷ [] ≡ d = ground arith in
    let same : fresh_id s.rows ≡ q = some-injective _ _ (ap (get_str "id") made ∙ e) in
    let equal = ap count same in absurd (omega (arith, equal, fresh_id-longer s.rows q row held))

abbrev pub service-RowLaws : RowLaws service
service-RowLaws = record {
  holds = λ s q row. SavedIn s q row;
  add_tasks_adds = add_tasks_adds;
  additive = service-Additive;
  create_squid_fresh = create_squid_fresh;
  delete_squid-Keeps = λ r q row apart s h. clear-keeps r q s.rows row apart h;
}
