-- ===== src/Tests/Primitives.antt =====
-- A service that refuses every configuration, with a call of create_squid that cleans up after it,
-- and a service that keeps settings, with a call of update_scraper.
use lobstr_mcp.Prelude.{
  String, false, List, [], ◌∷◌, Option, none, some, contains, ◌≡◌, refl, arith, if◌then◌else◌, ◌==◌,
  Bool-cases, eq_iff, or_else, inl, inr,
}
use lobstr_mcp.Prelude.Dict.{Dict, lookup, erase, insert, update}
use lobstr_mcp.Prelude.Int.{pos}
use lobstr_mcp.Prelude.Result.{ok, err}
use lobstr_mcp.Json.{Json, null, int, str, list, dict, get_dict}
use lobstr_mcp.Errors.{api}
use lobstr_mcp.Client.{Client, pure}
use lobstr_mcp.Client.Crawlers.{resolve_crawler_id}
use lobstr_mcp.Primitives.Creating.{create_squid_impl}
use lobstr_mcp.Primitives.Creating.Orphans.{Looks, DeleteLaws, Told, create_squid_impl-Told}
use lobstr_mcp.Execution.Request.Opening.{translated_of, params_of}
use lobstr_mcp.Primitives.{squid_and_wire_names}
use lobstr_mcp.Primitives.Updating.{update_scraper_impl}
use lobstr_mcp.Primitives.Updating.Saved.{Sends, update_scraper_impl-Keeps}
use mathlib.Core.Bool.{false≢true}
use lobstr_mcp.Json.{truthy}
use lobstr_mcp.Schema.Items.{input_items, input_modes, property_from_item}
use lobstr_mcp.Schema.Params.{params_only_specs, placement_from_params}
use lobstr_mcp.Schema.Translate.{translate_input_schema}
use lobstr_mcp.Client.Rows.{Keeps}
use lobstr_mcp.Tests.Service.{crawler, rejection}
use lobstr_mcp.Tests.Calls.{texts}

abbrev without : String → List String → List String
without q [] = []
without q (p ∷ ids) = if q == p then without q ids else p ∷ without q ids

-- The state is the ids of the squids.
abbrev refusing : Client
refusing = record {
  State = List String;
  list_crawlers = pure (crawler ∷ []);
  get_crawler = λ id. pure crawler;
  get_crawler_params = λ id. pure [];
  get_squid = λ id. pure (("id", str id) ∷ []);
  create_squid = λ crawler name ids. (ok (("id", str "new") ∷ []), "new" ∷ ids);
  update_squid = λ id body ids. (err (api rejection), ids);
  empty_squid = λ id. pure [];
  delete_squid = λ id ids. (ok [], without id ids);
  list_tasks = λ id. pure (list []);
  add_tasks = λ id rows. pure [];
  start_run = λ id. pure [];
  get_balance = pure [];
  get_account = λ id. pure null;
  list_accounts = λ type. pure (list []);
  user_scope = λ s. "me";
}

abbrev Old : List String → Type 0
Old ids = ids ≡ "old" ∷ []

abbrev old_looks : Looks refusing Old
old_looks = record {
  list_crawlers-Keeps = λ s p. p;
  get_crawler-Keeps = λ id s p. p;
  get_crawler_params-Keeps = λ id s p. p;
}

contains-without : (q : String) (ids : List String) → contains q (without q ids) ≡ false
contains-without q [] = refl
contains-without q (p ∷ ids) = elim (Bool-cases (q == p)) [
  | inl same ↦ rw same (contains-without q ids)
  | inr apart ↦ rw apart (ground (arith, contains-without q ids))
]

deleted_gone :
    (id : String) (s s' : List String) (d : Dict Json)
    → refusing.delete_squid id s ≡ (ok d, s')
    → contains id s' ≡ false
deleted_gone id s s' d h = let e : s' ≡ without id s = ground arith in rw e (contains-without id s)

abbrev refusing_laws : DeleteLaws refusing
refusing_laws = record {
  gone = λ ids id. contains id ids ≡ false;
  delete_squid_gone = deleted_gone;
}

create_squid_impl-Told_example :
    Told texts refusing Old old_looks refusing_laws
      (create_squid_impl texts refusing "maps" none [] (some (int (pos 2))) ("old" ∷ []))
create_squid_impl-Told_example =
    create_squid_impl-Told texts refusing Old old_looks refusing_laws "maps" none []
      (some (int (pos 2))) ("old" ∷ []) refl

-- The squid of the call is gone, and the other is still there.
refused_test :
    (create_squid_impl texts refusing "maps" none [] (some (int (pos 2))) ("old" ∷ [])).1
    ≡ "old" ∷ []
unfolding create_squid_impl resolve_crawler_id erase lookup
refused_test = refl

-- The state is the settings that every squid has saved.
abbrev settings : Client
settings = record {
  State = Dict Json;
  list_crawlers = pure (crawler ∷ []);
  get_crawler = λ id. pure crawler;
  get_crawler_params = λ id. pure [];
  get_squid = λ id s. (ok (("crawler", str "maps") ∷ ("params", dict s) ∷ []), s);
  create_squid = λ crawler name. pure [];
  update_squid = λ id body s. (ok [], or_else (get_dict "params" body) s);
  empty_squid = λ id. pure [];
  delete_squid = λ id. pure [];
  list_tasks = λ id. pure (list []);
  add_tasks = λ id rows. pure [];
  start_run = λ id. pure [];
  get_balance = pure [];
  get_account = λ id. pure null;
  list_accounts = λ type. pure (list []);
  user_scope = λ s. "me";
}

abbrev ten : Json
ten = int (pos 10)

abbrev saved : Dict Json
saved = ("max_results", ten) ∷ ("depth", int (pos 1)) ∷ []

abbrev Limited : Dict Json → Type 0
Limited s = lookup "max_results" s ≡ some ten

kept_or_sent :
    (sent : Option (Dict Json)) (s : Dict Json)
    → ((params : Dict Json) → sent ≡ some params → Limited params)
    → Limited s
    → Limited (or_else sent s)
kept_or_sent none s sends h = h
kept_or_sent (some params) s sends h = sends params refl

limit_law :
    (body : Dict Json)
    → Sends "max_results" ten body
    → Keeps Limited (settings.update_squid "q" body)
limit_law body sends s h = kept_or_sent (get_dict "params" body) s sends h

read_test :
    squid_and_wire_names texts settings "q" saved
    ≡ (ok ([], ("crawler", str "maps") ∷ ("params", dict saved) ∷ []), saved)
unfolding squid_and_wire_names lookup insert input_items translate_input_schema input_modes truthy
    params_only_specs property_from_item placement_from_params update translated_of params_of
read_test = refl

abbrev deeper : Dict Json
deeper = ("concurrency", int (pos 3)) ∷ ("depth", int (pos 2)) ∷ []

update_scraper_impl-Keeps_example :
    Limited (update_scraper_impl texts settings "q" none deeper none saved).1
unfolding lookup erase
update_scraper_impl-Keeps_example =
    update_scraper_impl-Keeps texts settings Limited "q" "max_results" ten none deeper none []
      (("crawler", str "maps") ∷ ("params", dict saved) ∷ []) saved saved saved limit_law read_test
      refl refl (λ e. absurd (false≢true ((eq_iff "max_results" "functions").1 e))) refl refl refl
