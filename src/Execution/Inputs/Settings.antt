-- ===== src/Execution/Inputs/Settings.antt =====
-- What a call leaves of the settings that a squid has saved.
use lobstr_mcp.Prelude.{
  String, false, [], ◌∷◌, Option, none, some, ◌≡◌, ◌≢◌, refl, ap, ◌∙◌, arith, eq_iff, eq_refl,
  or_else,
}
use lobstr_mcp.Prelude.Dict.{Dict, lookup, has, insert, update, lookup-insert}
use lobstr_mcp.Json.{Json, dict, null, as_dict, members-of_members, get_dict}
use lobstr_mcp.Execution.Inputs.{merged}

pub lookup-update_other {ℓ} :
    {V : Type ℓ} (k : String) (d e : Dict V) → has k e ≡ false → lookup k (update d e) ≡ lookup k d
unfolding update lookup
lookup-update_other k d [] h = refl
lookup-update_other k d ((j, v) ∷ e) h =
    ground (arith, lookup-update_other k (insert j v d) e, lookup-insert j k v d)

pub lookup-merged :
    (k : String) (old new : Option (Dict Json)) (effective : Dict Json)
    → k ≢ "functions"
    → lookup k (merged old new effective) ≡ lookup k effective
unfolding merged
lookup-merged k none new effective h = refl
lookup-merged k (some old) none effective h = refl
lookup-merged k (some old) (some new) effective h =
    ground
      (arith, eq_iff "functions" k, lookup-insert "functions" k (dict (update old new)) effective)

pub get_dict-insert :
    (k : String) (new d : Dict Json) → get_dict k (insert k (dict new) d) ≡ some new
get_dict-insert k new d =
    ap (λ o. as_dict (or_else o null)) (lookup-insert k k (dict new) d)
    ∙ rw (eq_refl k) (ap some (members-of_members new))
