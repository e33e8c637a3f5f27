-- ===== src/Execution/Inputs/Placement.antt =====
-- No input of a call is left out of what is sent.
use lobstr_mcp.Prelude.{
  contains, none, String, Bool, true, false, ◌||◌, [], ◌∷◌, ◌++◌, Option, some, ◌≡◌, ◌≢◌, refl, ap,
  ◌∙◌, arith, ◌==◌, eq_iff, eq_refl, Bool-cases, ◌⊎◌, inl, inr, or_else,
}
use lobstr_mcp.Prelude.Dict.{Dict, lookup, lookup-insert}
use lobstr_mcp.Json.{Json, dict, get_dict}
use lobstr_mcp.Execution.Inputs.Settings.{get_dict-insert}
use lobstr_mcp.Execution.Inputs.{
  level_at, at_squid_level, at_function_level, at_task_level, wire_name, routed, functions_of,
  task_params_of, squid_params_of, nested,
}

-- Whether an input goes out under the name.
abbrev pub sends : Dict String → Dict Json → String → Bool
sends wires [] name = false
sends wires ((k, v) ∷ input) name = wire_name wires k == name || sends wires input name

module _ (goes : String → Bool) (wires : Dict String) where
  routed_other :
      (input out : Dict Json) (name : String)
      → sends wires input name ≡ false
      → lookup name (routed goes wires input out) ≡ lookup name out
  unfolding routed
  routed_other [] out name h = refl
  routed_other ((k, v) ∷ input) out name h = elim (Bool-cases (goes k)) [
    | inl here ↦ rw here (
        routed_other input _ name (ground (arith, h))
        ∙ ground (arith, h, lookup-insert (wire_name wires k) name v out))
    | inr stays ↦ rw stays (routed_other input out name (ground (arith, h)))
  ]

  routed_last :
      (later out : Dict Json) (k : String) (v : Json)
      → goes k ≡ true
      → sends wires later (wire_name wires k) ≡ false
      → lookup (wire_name wires k) (routed goes wires ((k, v) ∷ later) out) ≡ some v
  unfolding routed
  routed_last later out k v here last = rw here (
      routed_other later _ (wire_name wires k) last
      ∙ lookup-insert (wire_name wires k) (wire_name wires k) v out
      ∙ rw (eq_refl (wire_name wires k)) refl)

  -- The last input of a name is the one that is sent under it.
  routed_lem :
      (before later out : Dict Json) (k : String) (v : Json)
      → goes k ≡ true
      → sends wires later (wire_name wires k) ≡ false
      → lookup (wire_name wires k) (routed goes wires (before ++ ((k, v) ∷ later)) out) ≡ some v
  unfolding routed
  routed_lem [] later out k v here last = routed_last later out k v here last
  routed_lem ((j, w) ∷ before) later out k v here last = routed_lem before later _ k v here last

nested_other :
    (functions params : Dict Json) (name : String)
    → name ≢ "functions"
    → lookup name (nested functions params) ≡ lookup name params
unfolding nested
nested_other [] params name h = refl
nested_other (f ∷ fs) params name h =
    ground (arith, eq_iff "functions" name, lookup-insert "functions" name (dict (f ∷ fs)) params)

nested_lem :
    (functions params : Dict Json) (name : String) (v : Json)
    → lookup name functions ≡ some v
    → lookup name (or_else (get_dict "functions" (nested functions params)) []) ≡ some v
unfolding nested lookup
nested_lem [] params name v h = absurd (cc h)
nested_lem (f ∷ fs) params name v h =
    ap (λ o. lookup name (or_else o [])) (get_dict-insert "functions" (f ∷ fs) params) ∙ h

-- The levels by their names; an input without a level is a task's.
abbrev pub IsFunctionLevel : Option String → Type 0
IsFunctionLevel none = ⊥
IsFunctionLevel (some level) = level ≡ "function"

abbrev pub IsSquidLevel : Option String → Type 0
IsSquidLevel none = ⊥
IsSquidLevel (some level) = contains level ("squid" ∷ "cluster" ∷ []) ≡ true

abbrev pub IsTaskLevel : Option String → Type 0
IsTaskLevel none = Unit
IsTaskLevel (some level) =
    (contains level ("squid" ∷ "cluster" ∷ []) ≡ false) × ((level == "function") ≡ false)

level-cases :
    (level : Option String)
    → (at_task_level level ≡ true) × IsTaskLevel level
      ⊎ (at_function_level level ≡ true) × IsFunctionLevel level
      ⊎ (at_squid_level level ≡ true) × IsSquidLevel level
unfolding at_task_level at_squid_level at_function_level
level-cases none = inl (refl, tt)
level-cases (some level) = elim (Bool-cases (contains level ("squid" ∷ "cluster" ∷ []))) [
  | inl squid ↦ inr (inr (squid, squid))
  | inr not_squid ↦ elim (Bool-cases (level == "function")) [
    | inl function ↦ inr (inl (function, (eq_iff level "function").0 function))
    | inr neither ↦ inl (ground (arith, not_squid, neither), (not_squid, neither))
  ]
]

-- Where an input of a level goes: into the task row, among the toggles under "functions" in the
-- squid's settings, or beside them.
abbrev pub Placed : Dict (Option String) → Dict String → Dict Json → String → Json → Type 0
Placed levels wires input k v =
    IsTaskLevel (level_at levels k)
      × (lookup (wire_name wires k) (task_params_of levels wires input) ≡ some v)
    ⊎ IsFunctionLevel (level_at levels k)
      × (lookup (wire_name wires k)
            (or_else (get_dict "functions" (squid_params_of levels wires input)) [])
          ≡ some v)
    ⊎ IsSquidLevel (level_at levels k)
      × (lookup (wire_name wires k) (squid_params_of levels wires input) ≡ some v)

-- Every input of a call goes out with its value, under the name that the API knows and in the place
-- of its level: an input of the level "function" among the toggles under "functions" in the squid's
-- settings, one of the level "squid" or "cluster" in these settings, and any other in the task row.
-- Requires that no
-- later input goes out under the same name, and that the name is not "functions".
pub placed_somewhere :
    (levels : Dict (Option String)) (wires : Dict String) (before later : Dict Json) (k : String)
    (v : Json)
    → sends wires later (wire_name wires k) ≡ false
    → wire_name wires k ≢ "functions"
    → Placed levels wires (before ++ ((k, v) ∷ later)) k v
unfolding task_params_of squid_params_of functions_of
placed_somewhere levels wires before later k v last other = elim (level-cases (level_at levels k)) [
  | inl (task, is) ↦ inl (is, routed_lem _ wires before later [] k v task last)
  | inr (inl (function, is)) ↦ inr (
      inl (
        is,
        nested_lem _ _ (wire_name wires k) v (routed_lem _ wires before later [] k v function last),
      ))
  | inr (inr (squid, is)) ↦ inr (
      inr (
        is,
        nested_other _ _ (wire_name wires k) other
            ∙ routed_lem _ wires before later [] k v squid last,
      ))
]
