-- ===== src/Accounts/Picking.antt =====
-- When an account is picked without being named.
use lobstr_mcp.Prelude.{
  String, Bool, not, ◌&&◌, List, [], ◌∷◌, ◌≡◌, ◌↔◌, refl, sym, ap, ◌∙◌, arith, keep_if, is_some,
}
use lobstr_mcp.Prelude.Dict.{Dict}
use lobstr_mcp.Prelude.Result.{Result, ok}
use lobstr_mcp.Json.{Json}
use lobstr_mcp.Accounts.{
  Clock, AccountError, has_text, is_locked, account_health_note, type_status_ok, split_candidates,
  pick,
}

keep_if-keep_if :
    {A : Type 0} (p q r : A → Bool) (xs : List A)
    → ((x : A) → (p x && q x) ≡ r x)
    → keep_if q (keep_if p xs) ≡ keep_if r xs
keep_if-keep_if p q r [] h = refl
keep_if-keep_if p q r (x ∷ xs) h = ground (arith, h x, keep_if-keep_if p q r xs h)

module _ (clock : Clock) (account_type : String) where
  -- The condition under which the run worker uses an account: its platform, and `is_healthy`.
  abbrev pub is_usable : Dict Json → Bool
  is_usable a = has_text "type" account_type a && not (is_some (account_health_note clock a))

  is_usable_lem :
      (a : Dict Json)
      → (type_status_ok clock account_type a && not (is_locked clock a)) ≡ is_usable a
  unfolding account_health_note type_status_ok
  is_usable_lem a = ground arith

  split_candidates-unlocked :
      (rows : List (Dict Json))
      → (split_candidates clock account_type rows).0 ≡ keep_if is_usable rows
  unfolding split_candidates
  split_candidates-unlocked rows =
      keep_if-keep_if (type_status_ok clock account_type) (λ a. not (is_locked clock a)) is_usable
        rows is_usable_lem

  sole : {a b : Dict Json} → Path (Result AccountError (Dict Json)) (ok a) (ok b) → a ≡ b
  sole e = cc e

  pick-sole :
      (found locked_ones : List (Dict Json)) (a : Dict Json)
      → (pick clock account_type (found, locked_ones) ≡ ok a) ↔ (found ≡ a ∷ [])
  unfolding pick
  pick-sole [] [] a = (λ e. absurd (cc e), λ e. absurd (cc e))
  pick-sole [] (l ∷ locked_ones) a = (λ e. absurd (cc e), λ e. absurd (cc e))
  pick-sole (b ∷ []) locked_ones a = (λ e. ap (λ x. x ∷ []) (sole e), λ e. cc e)
  pick-sole (b ∷ d ∷ found) locked_ones a = (λ e. absurd (cc e), λ e. absurd (cc e))

-- An account that was not named is picked exactly when it is the only connected account that the
-- run worker could use: of the platform that the crawler needs, and healthy.
pub pick_iff :
    (clock : Clock) (account_type : String) (rows : List (Dict Json)) (a : Dict Json)
    → (pick clock account_type (split_candidates clock account_type rows) ≡ ok a)
      ↔ (keep_if (is_usable clock account_type) rows ≡ a ∷ [])
pick_iff clock account_type rows a =
    let split = split_candidates clock account_type rows in
    let same = split_candidates-unlocked clock account_type rows in
    let (to, from) = pick-sole clock account_type split.0 split.1 a in
    (λ e. sym same ∙ to e, λ e. from (same ∙ e))
