-- ===== src/Tests/Saving.antt =====
-- The service in memory, the safeguards and the error contract.
use lobstr_mcp.Prelude.{
  ◌+◌, ◌*◌, String, true, false, List, [], ◌∷◌, none, some, ◌≡◌, refl, inl, inr, ◌↔◌, ◌⊎◌,
}
use lobstr_mcp.Prelude.Dict.{Dict, lookup}
use lobstr_mcp.Prelude.Int.{pos}
use lobstr_mcp.Prelude.Result.{Result, ok, err}
use lobstr_mcp.Json
use lobstr_mcp.Json.{Json, str, int, bool}
use lobstr_mcp.Errors.{
  Exn, transport, TransportError, connect_error, structured, transport_error_dict,
}
use lobstr_mcp.Errors.Codes.{NeverSent, structured_retry_safe}
use lobstr_mcp.Execution.Tasks.{replace_squid_input, save_squid_input, snapshot_tasks}
use lobstr_mcp.Execution.Tasks.Loss.{Safe, replace_squid_input-Safe, save_squid_input-Keeps}
use lobstr_mcp.Safeguards.Validation.{JsonSchema, must_be, is_required, validate_input}
use lobstr_mcp.Safeguards.Validation.Meaning.{IsValidInput, validate_input_iff}
use lobstr_mcp.Safeguards.Cost.{
  Floats, estimate_cost, first_rate, task_price_keys, resolve_credit_rate, positive_int,
}
use lobstr_mcp.Safeguards.Cost.Bounds.{estimate_cost_unknown_iff}
use lobstr_mcp.Tests.Service.{service, service-RowLaws, Store, crawler, SavedIn}

abbrev pub row : String → Dict Json
row url = ("url", str url) ∷ []

abbrev pub bad_row : Dict Json
bad_row = ("bad", str "x") ∷ []

abbrev pub filled : Store
filled = record { rows = ("q", row "a") ∷ ("q", row "b") ∷ ("p", row "c") ∷ []; runs = [] }

abbrev pub both : List (Dict Json)
both = row "a" ∷ row "b" ∷ []

snapshot_test : snapshot_tasks service "q" filled ≡ (ok (some both, 2), filled)
unfolding snapshot_tasks lookup
snapshot_test = refl

-- The new row is refused after the old ones were deleted, and they are put back.
replace_squid_input-Safe_example :
    Safe service service-RowLaws "q" both 2 bad_row
      (replace_squid_input service "q" [] bad_row (some both, 2) filled)
replace_squid_input-Safe_example =
    replace_squid_input-Safe service service-RowLaws "q" [] bad_row both 2 filled
      (inl (refl, refl), (inr (inl (refl, refl)), tt))

save_squid_input-Keeps_example :
    SavedIn (save_squid_input service "p" [] (row "d") filled).1 "q" (row "b")
save_squid_input-Keeps_example =
    save_squid_input-Keeps service (λ s. SavedIn s "q" (row "b"))
      (service-RowLaws.additive "q" (row "b")) "p" [] (row "d") filled (inr (inl (refl, refl)))

abbrev unreachable : TransportError
unreachable = record { kind = connect_error; detail = "ConnectError" }

structured_retry_safe_example :
    (exc : TransportError) × (Path
      (Result Exn (Unit {0}))
      (err (transport unreachable))
      (err (transport exc)))
    × NeverSent exc.kind
unfolding structured
structured_retry_safe_example =
    structured_retry_safe (err (transport unreachable)) (transport_error_dict unreachable true) refl
      refl

abbrev schema : JsonSchema
schema = record {
  properties = ("url", ("type", str "string") ∷ []) ∷ ("n", ("type", str "integer") ∷ []) ∷ [];
  required = "url" ∷ [];
}

validate_tests :
    (validate_input (("n", bool true) ∷ []) schema none true
      ≡ is_required "url" ∷ must_be "n" "integer" ∷ [])
    × (validate_input (("n", int (pos 3)) ∷ []) schema none false ≡ [])
unfolding validate_input lookup
validate_tests = (refl, refl)

validate_input_iff_example :
    (validate_input (row "a") schema none true ≡ []) ↔ IsValidInput (row "a") schema none true
validate_input_iff_example = validate_input_iff (row "a") schema none true

-- Floats that stand for whole numbers.
abbrev pub whole : Floats
whole = record {
  of_int = λ z. elim z [ pos n ↦ n | _ ↦ 0 ];
  mul = λ a b. a * b;
  add = λ a b. a + b;
  trunc = λ a. pos a;
  round_4 = λ a. a;
  above = λ a z. false;
}

cost_test : (estimate_cost whole crawler 3 (int (pos 10)) (int (pos 0)) []).credits ≡ some 30
unfolding estimate_cost lookup
cost_test = refl

estimate_cost_unknown_iff_example :
    ((estimate_cost whole crawler 3 (int (pos 10)) (int (pos 0)) []).credits ≡ none) ↔ (
      (first_rate whole task_price_keys crawler ≡ none)
      × ((resolve_credit_rate whole (Json.get "credits_per_row" crawler) ≡ none)
          ⊎ (positive_int (int (pos 0)) ≡ none) × (positive_int (int (pos 10)) ≡ none)))
estimate_cost_unknown_iff_example =
    estimate_cost_unknown_iff whole crawler 3 (int (pos 10)) (int (pos 0)) []
