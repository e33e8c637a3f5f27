-- ===== src/Schema/Alias.antt =====
-- schema_translator.py: `_alias_name`. `show` is Python's `str` of a number.
pub mod Fresh
use lobstr_mcp.Prelude.{ℕ, zero, suc, String, ◌<>◌, Bool, Option, if◌then◌else◌, length}
use lobstr_mcp.Prelude.Dict.{Dict, has}
use lobstr_mcp.Json.{Json}
use lobstr_mcp.Schema.Items.{normalized_level}

module _ (show : ℕ → String) where
  -- The first candidate is the base; from the second on they carry their number.
  unfoldable pub candidate : String → ℕ → String
  candidate base zero = base
  candidate base (suc zero) = base
  candidate base (suc (suc n)) = base <> ("_" <> show (suc (suc n)))

-- The `while` loop; `fuel` bounds the candidates that are tried.
unfoldable pub first_free {ℓ} : {V : Type ℓ} → (ℕ → String) → ℕ → ℕ → Dict V → String
first_free cand zero n taken = cand n
first_free cand (suc fuel) n taken =
    let next = first_free cand fuel (suc n) taken in if has (cand n) taken then next else cand n

unfoldable pub alias_name : (ℕ → String) → Option String → String → Dict (Dict Json) → String
unfolding first_free
alias_name show level name taken =
    first_free (candidate show (normalized_level level <> ("_" <> name))) (suc (length taken)) 1
      taken
