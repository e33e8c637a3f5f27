-- ===== src/Primitives/Creating/Orphans.antt =====
-- What `create_squid` leaves behind.
use lobstr_mcp.Prelude.{
  String, Bool, true, false, not, ◌||◌, List, [], ◌∷◌, Option, none, some, if◌then◌else◌, or_else,
  ◌≡◌, refl,
}
use mathlib.Core.Bool.{false≢true}
use mathlib.Core.Option.{some-injective}
use lobstr_mcp.Prelude.Dict.{Dict, erase}
use lobstr_mcp.Prelude.Result.{Result, ok, err}
use lobstr_mcp.Json.{Json, get, get_str, is_none}
use lobstr_mcp.Errors.{Exn, api, transport, other, ErrorDict, to_error_dict, nonempty}
use lobstr_mcp.Client.{Client, Exec, pure, continue, attempt, ◌>>=◌}
use lobstr_mcp.Client.Rows.{Keeps, bind-Keeps, attempt-Keeps, if-Keeps}
use lobstr_mcp.Client.Crawlers.{resolve_crawler_id, resolved_from, is_crawler_id}
use lobstr_mcp.Schema.Items.{Item, input_items}
use lobstr_mcp.Schema.Translate.{Translated}
use lobstr_mcp.Safeguards.Validation.{ValidationError}
use lobstr_mcp.Execution.Request.Opening.{Texts, translated_of, params_of}
use lobstr_mcp.Primitives.{translated_schema, effective_concurrency, nonempty_dict}
use lobstr_mcp.Primitives.Creating.{
  Created, CreateReply, made, cleaned, text_or_null, config_apply_unknown, invalid_config,
  not_configured, config_rejected, configured, configure, created_reply, create_filled,
  create_valid, create_checked, create_with, create_squid_impl,
}

-- The requests that read, and so create and delete nothing.
pub record Looks (c : Client) (P : c.State → Type 0) : Type 0 where
  pub list_crawlers-Keeps : Keeps P c.list_crawlers
  pub get_crawler-Keeps : (id : String) → Keeps P (c.get_crawler id)
  pub get_crawler_params-Keeps : (id : String) → Keeps P (c.get_crawler_params id)

module _ (texts : Texts) (c : Client) (P : c.State → Type 0) (looks : Looks c P) where
  pub resolve-Looks : (scraper : Option String) → Keeps P (resolve_crawler_id texts.short c scraper)
  unfolding resolve_crawler_id
  resolve-Looks scraper =
      if-Keeps P (is_crawler_id (or_else scraper "")) (pure scraper)
        (attempt c.list_crawlers >>= λ crawlers. pure (resolved_from texts.short scraper crawlers))
        (λ s p. p)
        (bind-Keeps P (attempt c.list_crawlers)
          (λ crawlers. pure (resolved_from texts.short scraper crawlers))
          (attempt-Keeps P c.list_crawlers looks.list_crawlers-Keeps) (λ crawlers s p. p))

  translated_of-Looks :
      (items : Option (List Item)) (params : Option (Dict Json))
      → Keeps P (translated_of texts c items params)
  unfolding translated_of
  translated_of-Looks none params = λ s p. p
  translated_of-Looks (some items) params = λ s p. p

  pub translated_schema-Looks : (id : String) → Keeps P (translated_schema texts c id)
  unfolding translated_schema
  translated_schema-Looks id =
      bind-Keeps P (c.get_crawler id)
        (λ crawler. attempt (c.get_crawler_params id) >>= λ params.
          translated_of texts c (input_items crawler) (params_of params))
        (looks.get_crawler-Keeps id)
        (λ crawler.
          bind-Keeps P (attempt (c.get_crawler_params id))
            (λ params. translated_of texts c (input_items crawler) (params_of params))
            (attempt-Keeps P (c.get_crawler_params id) (looks.get_crawler_params-Keeps id))
            (λ params. translated_of-Looks (input_items crawler) (params_of params)))

-- `gone s id`: there is no squid with the id. A squid whose deletion was answered is gone.
pub record DeleteLaws (c : Client) : Type 1 where
  pub gone : c.State → String → Type 0
  pub delete_squid_gone :
      (id : String) (s s' : c.State) (d : Dict Json) → c.delete_squid id s ≡ (ok d, s') → gone s' id

module _ (texts : Texts) (c : Client) (P : c.State → Type 0) (looks : Looks c P)
    (laws : DeleteLaws c) where
  -- What is true when the call ends with the answer.
  abbrev pub Told : Result Exn CreateReply × c.State → Type 0
  Told (err e, s) = Unit
  Told (ok (made squid), s) = Unit
  Told (ok (invalid_config errors), s) = P s
  Told (ok (not_configured e), s) =
      e.deleted ≡ some true → (id : String) × (e.squid_id ≡ some id) × laws.gone s id

  continue-Told :
      {A : Type 0} (f : A → Exec c.State CreateReply) (out : Result Exn A × c.State)
      → P out.1
      → ((a : A) (s : c.State) → P s → Told (f a s))
      → Told (continue f out)
  continue-Told f (ok a, s) p h = h a s p
  continue-Told f (err e, s) p h = tt

  any-Told :
      {A : Type 0} (f : A → Exec c.State CreateReply) (out : Result Exn A × c.State)
      → ((a : A) (s : c.State) → Told (f a s))
      → Told (continue f out)
  any-Told f (ok a, s) h = h a s
  any-Told f (err e, s) h = tt

  deleted-gone :
      (id : String) (s : c.State) (out : Result Exn (Dict Json) × c.State)
      → c.delete_squid id s ≡ out
      → some (cleaned texts c out.0) ≡ some true
      → laws.gone out.1 id
  unfolding cleaned
  deleted-gone id s (ok d, s') e claims = laws.delete_squid_gone id s s' d e
  deleted-gone id s (err x, s') e claims = absurd (false≢true (some-injective _ _ claims))

  config_rejected-Told :
      (id crawler_id : String) (base : ErrorDict) (s : c.State)
      → Told (config_rejected texts c id crawler_id base s)
  unfolding config_rejected
  config_rejected-Told id crawler_id base s =
      λ claims. (id, refl, deleted-gone id s (c.delete_squid id s) refl claims)

  configured-Told :
      (id crawler_id : String) (squid : Created) (r : Result Exn (Dict Json)) (s : c.State)
      → Told (configured texts c id crawler_id (made squid) r s)
  unfolding configured config_apply_unknown
  configured-Told id crawler_id squid (ok d) s = tt
  configured-Told id crawler_id squid (err (api e)) s =
      config_rejected-Told id crawler_id (to_error_dict e) s
  configured-Told id crawler_id squid (err (transport e)) s = λ claims. absurd (cc claims)
  configured-Told id crawler_id squid (err (other e)) s = tt

  if-Told :
      (b : Bool) (m n : Exec c.State CreateReply) (s : c.State)
      → Told (m s)
      → Told (n s)
      → Told ((if b then m else n) s)
  if-Told true m n s hm hn = hm
  if-Told false m n s hm hn = hn

  configure-Told :
      (crawler_id : String) (name : Option String) (cfg : Dict Json) (wire_names : Dict String)
      (concurrency : Json) (squid : Dict Json) (s : c.State)
      → Told (configure texts c crawler_id name cfg wire_names concurrency squid s)
  unfolding configure created_reply
  configure-Told crawler_id name cfg wire_names concurrency squid s =
      if-Told (nonempty_dict cfg || not (is_none concurrency)) _ _ s
        (any-Told _ (attempt (c.update_squid (or_else (get_str "id" squid) "None") _) s) (λ r t.
          configured-Told (or_else (get_str "id" squid) "None") crawler_id
            (record {
              squid_id = or_else (get_str "id" squid) "None";
              scraper = crawler_id;
              name = text_or_null (nonempty name) (get "name" squid);
              concurrency = concurrency;
            })
            r t))
        tt

  create_filled-Told :
      (crawler_id : String) (name : Option String) (wire_names : Dict String) (concurrency : Json)
      (cfg : Option (Dict Json)) (s : c.State)
      → Told (create_filled texts c crawler_id name wire_names concurrency cfg s)
  unfolding create_filled
  create_filled-Told crawler_id name wire_names concurrency none s = tt
  create_filled-Told crawler_id name wire_names concurrency (some cfg) s =
      any-Told _ (c.create_squid crawler_id name s)
        (configure-Told crawler_id name cfg wire_names concurrency)

  create_valid-Told :
      (crawler_id : String) (name : Option String) (cfg : Dict Json) (concurrency : Json)
      (translated : Translated) (errors : List ValidationError) (s : c.State)
      → P s
      → Told (create_valid texts c crawler_id name cfg concurrency translated errors s)
  unfolding create_valid
  create_valid-Told crawler_id name cfg concurrency translated (e ∷ errors) s p = p
  create_valid-Told crawler_id name cfg concurrency translated [] s p =
      create_filled-Told crawler_id name translated.wire_names concurrency _ s

  create_checked-Told :
      (crawler_id : String) (name : Option String) (cfg : Dict Json) (concurrency : Json)
      (r : Result Exn Translated) (s : c.State)
      → P s
      → Told (create_checked texts c crawler_id name cfg concurrency r s)
  unfolding create_checked
  create_checked-Told crawler_id name cfg concurrency (err e) s p =
      create_filled-Told crawler_id name [] concurrency (some cfg) s
  create_checked-Told crawler_id name cfg concurrency (ok translated) s p =
      create_valid-Told crawler_id name cfg concurrency translated _ s p

  create_with-Told :
      (crawler_id : String) (name : Option String) (cfg : Dict Json) (concurrency : Json)
      (s : c.State)
      → P s
      → Told (create_with texts c crawler_id name cfg concurrency s)
  unfolding create_with
  create_with-Told crawler_id name [] concurrency s p =
      create_filled-Told crawler_id name [] concurrency (some []) s
  create_with-Told crawler_id name (entry ∷ cfg) concurrency s p =
      continue-Told (create_checked texts c crawler_id name (entry ∷ cfg) concurrency)
        (attempt (translated_schema texts c crawler_id) s)
        (attempt-Keeps P (translated_schema texts c crawler_id)
          (translated_schema-Looks texts c P looks crawler_id) s p)
        (create_checked-Told crawler_id name (entry ∷ cfg) concurrency)

-- Whatever the API answers, a call of `create_squid` that says it has deleted the squid whose
-- configuration was rejected names the squid and leaves none with its id, and a call that finds the
-- configuration invalid has only read: what every reading request keeps is as before it.
pub create_squid_impl-Told :
    (texts : Texts) (c : Client) (P : c.State → Type 0) (looks : Looks c P) (laws : DeleteLaws c)
    (scraper : String) (name : Option String) (config : Dict Json) (concurrency : Option Json)
    (s : c.State)
    → P s
    → Told texts c P looks laws (create_squid_impl texts c scraper name config concurrency s)
unfolding create_squid_impl
create_squid_impl-Told texts c P looks laws scraper name config concurrency s p =
    continue-Told texts c P looks laws
      (λ id.
        create_with texts c (or_else id scraper) name (erase "concurrency" config)
          (effective_concurrency concurrency config))
      (resolve_crawler_id texts.short c (some scraper) s)
      (resolve-Looks texts c P looks (some scraper) s p)
      (λ id.
        create_with-Told texts c P looks laws (or_else id scraper) name (erase "concurrency" config)
          (effective_concurrency concurrency config))
