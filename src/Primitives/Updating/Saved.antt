-- ===== src/Primitives/Updating/Saved.antt =====
-- What `update_scraper` leaves of the settings that a squid has saved.
use lobstr_mcp.Prelude.{
  String, Bool, true, false, ◌&&◌, not, [], ◌∷◌, Option, none, some, if◌then◌else◌, ◌==◌, ◌≡◌, ◌≢◌,
  refl, sym, ap, ◌∙◌, arith, eq_iff, Bool-cases, inl, inr, is_empty,
}
use lobstr_mcp.Prelude.Dict.{Dict, lookup, has, erase, update, lookup-insert}
use mathlib.Core.Option.{some-injective, none-ne-some}
use lobstr_mcp.Prelude.Result.{Result, ok, err}
use lobstr_mcp.Client.{Client, Exec, pure, continue, ◌>>=◌}
use lobstr_mcp.Errors.{Exn, failed, error_with}
use lobstr_mcp.Client.Rows.{Keeps}
use lobstr_mcp.Execution.Request.Opening.{Texts}
use lobstr_mcp.Json.{Json, dict, as_dict, get_dict, members-of_members, is_none}
use lobstr_mcp.Execution.Inputs.{routed, wire_name, effective_settings}
use lobstr_mcp.Execution.Inputs.Settings.{lookup-update_other, lookup-merged}
use lobstr_mcp.Primitives.{
  is_functions, apply_wire_names, with_functions, effective_concurrency, squid_and_wire_names,
}
use lobstr_mcp.Primitives.Updating.{
  update_scraper_impl, update_settings, update_with, settings_body, params_part, named_part,
  no_name,
}

-- Whether a key of the configuration goes out under the name.
abbrev pub gives : Dict String → Dict Json → String → Bool
gives wire_names [] name = false
gives wire_names ((k, v) ∷ cfg) name =
    if wire_name wire_names k == name then true else gives wire_names cfg name

has-routed_other :
    (goes : String → Bool) (wire_names : Dict String) (cfg out : Dict Json) (name : String)
    → has name out ≡ false
    → gives wire_names cfg name ≡ false
    → has name (routed goes wire_names cfg out) ≡ false
unfolding routed
has-routed_other goes wire_names [] out name absent h = absent
has-routed_other goes wire_names ((k, v) ∷ cfg) out name absent h =
    elim (Bool-cases (wire_name wire_names k == name)) [
      | inl same ↦ absurd (ground arith)
      | inr other ↦ elim (Bool-cases (goes k)) [
        | inl here ↦ rw here (
            has-routed_other goes wire_names cfg _ name
              (ground (arith, lookup-insert (wire_name wire_names k) name v out)) (ground arith))
        | inr stays ↦ rw stays (has-routed_other goes wire_names cfg out name absent (ground arith))
      ]
    ]

has-with_functions :
    (functions : Option (Dict Json)) (wire_names : Dict String) (out : Dict Json) (name : String)
    → name ≢ "functions"
    → has name out ≡ false
    → has name (with_functions functions wire_names out) ≡ false
unfolding with_functions
has-with_functions none wire_names out name other h = h
has-with_functions (some functions) wire_names out name other h = ground (
  arith,
  eq_iff "functions" name,
  lookup-insert "functions" name (dict (routed (λ k. true) wire_names functions [])) out,
)

has-apply_wire_names :
    (cfg : Dict Json) (wire_names : Dict String) (name : String)
    → name ≢ "functions"
    → gives wire_names cfg name ≡ false
    → has name (apply_wire_names cfg wire_names) ≡ false
unfolding apply_wire_names lookup
has-apply_wire_names cfg wire_names name other h =
    has-with_functions (get_dict "functions" cfg) wire_names _ name other
      (has-routed_other (λ k. not (is_functions k)) wire_names cfg [] name refl h)

lookup-effective :
    (squid params saved : Dict Json) (k : String)
    → get_dict "params" squid ≡ some saved
    → k ≢ "functions"
    → has k params ≡ false
    → lookup k (effective_settings squid params) ≡ lookup k saved
unfolding effective_settings
lookup-effective squid params saved k e other absent = rw e (
    lookup-merged k (get_dict "functions" saved) (get_dict "functions" params) (update saved params)
      other
    ∙ lookup-update_other k saved params absent)

-- A body that sends settings sends the one asked for.
abbrev pub Sends : String → Json → Dict Json → Type 0
Sends k v body =
    (params : Dict Json) → get_dict "params" body ≡ some params → lookup k params ≡ some v

part-params :
    (b : Bool) (v : Json) → get_dict "params" (if b then [] else ("concurrency", v) ∷ []) ≡ none
unfolding lookup
part-params true v = refl
part-params false v = refl

sent :
    (d params : Dict Json) (k : String) (v : Json)
    → as_dict (dict d) ≡ some params
    → lookup k d ≡ some v
    → lookup k params ≡ some v
sent d params k v e h =
    let same : d ≡ params = some-injective _ _ (sym (ap some (members-of_members d)) ∙ e) in
    rw (sym same) h

settings_body-Sends :
    (q : String) (name : Option String) (cfg : Dict Json) (concurrency : Json)
    (wire_names : Dict String) (squid saved : Dict Json) (k : String) (v : Json)
    → get_dict "params" squid ≡ some saved
    → lookup k saved ≡ some v
    → k ≢ "functions"
    → gives wire_names cfg k ≡ false
    → Sends k v (settings_body q name cfg concurrency wire_names squid)
unfolding settings_body named_part params_part lookup
settings_body-Sends q none [] concurrency wire_names squid saved k v e found other h params p =
    absurd (none-ne-some _ (sym (part-params (is_none concurrency) concurrency) ∙ p))
settings_body-Sends q (some n) [] concurrency wire_names squid saved k v e found other h params p =
    absurd (none-ne-some _ (sym (part-params (is_none concurrency) concurrency) ∙ p))
settings_body-Sends q none (x ∷ cfg) concurrency wire_names squid saved k v e found other h params
      p =
    sent (effective_settings squid (apply_wire_names (x ∷ cfg) wire_names)) params k v p (
      lookup-effective squid _ saved k e other (has-apply_wire_names (x ∷ cfg) wire_names k other h)
      ∙ found)
settings_body-Sends q (some n) (x ∷ cfg) concurrency wire_names squid saved k v e found other h
      params p =
    sent (effective_settings squid (apply_wire_names (x ∷ cfg) wire_names)) params k v p (
      lookup-effective squid _ saved k e other (has-apply_wire_names (x ∷ cfg) wire_names k other h)
      ∙ found)

module _ {S : Type 0} (P : S → Type 0) where
  if-after :
      {A : Type 0} (b : Bool) (m n : Exec S A) (s : S)
      → P (m s).1
      → P (n s).1
      → P ((if b then m else n) s).1
  if-after true m n s hm hn = hm
  if-after false m n s hm hn = hn

  pure-after :
      {A B : Type 0} (f : A → B) (out : Result Exn A × S)
      → P out.1
      → P (continue (λ a. pure (f a)) out).1
  pure-after f (ok a, s) p = p
  pure-after f (err e, s) p = p

-- Whatever the API answers to an update of a squid, a property of the service's state holds after
-- the call if it held before it and after the squid was read, the squid showed a setting other than
-- the toggles, the configuration does not give that setting, and a request to update the squid keeps
-- the property unless it sends settings without this one.
pub update_scraper_impl-Keeps :
    (texts : Texts) (c : Client) (P : c.State → Type 0) (q k : String) (v : Json)
    (name : Option String) (config : Dict Json) (concurrency : Option Json)
    (wire_names : Dict String) (squid saved : Dict Json) (s s' : c.State)
    → ((body : Dict Json) → Sends k v body → Keeps P (c.update_squid q body))
    → squid_and_wire_names texts c q s ≡ (ok (wire_names, squid), s')
    → get_dict "params" squid ≡ some saved
    → lookup k saved ≡ some v
    → k ≢ "functions"
    → gives wire_names (erase "concurrency" config) k ≡ false
    → P s
    → P s'
    → P (update_scraper_impl texts c q name config concurrency s).1
unfolding update_scraper_impl update_settings update_with
update_scraper_impl-Keeps texts c P q k v name config concurrency wire_names squid saved s s' law
      reading e found other h p p' =
    let cfg = erase "concurrency" config in
    let n = effective_concurrency concurrency config in
    if-after P (no_name name && (is_empty cfg && is_none n))
      (pure (failed (error_with "invalid_request")))
      (squid_and_wire_names texts c q >>= update_with texts c q name cfg n) s p
      (rw reading (
        pure-after P _ (c.update_squid q (settings_body q name cfg n wire_names squid) s') (
          law (settings_body q name cfg n wire_names squid)
            (settings_body-Sends q name cfg n wire_names squid saved k v e found other h) s' p')))
