-- ===== src/Execution/Status/Done.antt =====
-- When `get_run` says that a run is done.
use lobstr_mcp.Prelude.{
  String, Bool, true, false, not, ◌||◌, [], ◌∷◌, ◌++◌, Option, none, some, if◌then◌else◌, ◌==◌,
  contains, or_else, is_some, ◌≡◌, inl, inr, refl, sym, ap, arith, eq_refl, Bool-cases,
}
use lobstr_mcp.Prelude.Dict.{Dict, lookup}
use lobstr_mcp.Prelude.Result.{Result, ok, err}
use lobstr_mcp.Json.{Json, null, dict, as_dict, get, get_str, truthy, members-of_members}
use lobstr_mcp.Errors.{Exn, api, transport, other}
use lobstr_mcp.Client.{Exec, continue, attempt, ◌>>=◌}
use lobstr_mcp.Client.Runs.{RunClient}
use lobstr_mcp.Execution.Status.{
  entry_if, of_dict, is_false, verifying, fully_done, unfinished_run_states, verification_out,
  trimmed_of, run_is_done, status_of, run_status_of, run_fields, later_fields, get_run_impl,
  detail_of, account_limit_out, done_reason_fields, credits_of, full_fields,
}

-- What code answers, whenever it answers.
abbrev pub Yielded {ℓ} : {S : Type 0} {A : Type ℓ} → (A → Type 0) → Result Exn A × S → Type 0
Yielded Q (ok a, s) = Q a
Yielded Q (err e, s) = Unit

abbrev pub Yields {ℓ} : {S : Type 0} {A : Type ℓ} → (A → Type 0) → Exec S A → Type 0
Yields {S} Q m = (s : S) → Yielded Q (m s)

module _ {ℓ κ} {S : Type 0} {A : Type ℓ} {B : Type κ} (P : A → Type 0) (Q : B → Type 0) where
  continue-Yields :
      (f : A → Exec S B) (out : Result Exn A × S)
      → Yielded P out
      → ((a : A) → P a → Yields Q (f a))
      → Yielded Q (continue f out)
  continue-Yields f (ok a, s) p h = h a p s
  continue-Yields f (err e, s) p h = tt

  pub bind-Yields :
      (m : Exec S A) (f : A → Exec S B)
      → Yields P m
      → ((a : A) → P a → Yields Q (f a))
      → Yields Q (m >>= f)
  bind-Yields m f hm hf s = continue-Yields f (m s) (hm s) hf

any_Yielded {ℓ} : {S : Type 0} {A : Type ℓ} (out : Result Exn A × S) → Yielded (λ a. Unit) out
any_Yielded (ok a, s) = tt
any_Yielded (err e, s) = tt

any_Yields {ℓ} : {S : Type 0} {A : Type ℓ} (m : Exec S A) → Yields (λ a. Unit) m
any_Yields m s = any_Yielded (m s)

-- What an answer says of a run that it calls done.
abbrev pub Finished : (Json → String) → Dict Json → Type 0
Finished lower out =
    truthy (get "is_done" out) ≡ true
    → (get "status" out ≡ get "run_status" out)
      × (contains (lower (get "run_status" out)) unfinished_run_states ≡ false)
      × (verifying (as_dict (get "email_verification" out)) ≡ false)
      × (is_false (get "export_done" out) ≡ false)

-- A part of an answer that says nothing of verification or export.
abbrev Silent : Dict Json → Type 0
Silent d = (lookup "email_verification" d ≡ none) × (lookup "export_done" d ≡ none)

lookup-append : (k : String) (d e : Dict Json) → lookup k d ≡ none → lookup k (d ++ e) ≡ lookup k e
unfolding lookup
lookup-append k [] e h = refl
lookup-append k ((j, v) ∷ d) e h = ground (arith, lookup-append k d e)

lookup-entry_if :
    (k : String) (b : Bool) (v : Json) (e : Dict Json)
    → lookup k (entry_if b k v ++ e) ≡ (if b then some v else lookup k e)
unfolding lookup entry_if
lookup-entry_if k true v e = rw (eq_refl k) refl
lookup-entry_if k false v e = refl

lookup-entry_if_other :
    (k j : String) (b : Bool) (v : Json) (e : Dict Json)
    → (j == k) ≡ false
    → lookup k (entry_if b j v ++ e) ≡ lookup k e
unfolding lookup entry_if
lookup-entry_if_other k j true v e h = rw h refl
lookup-entry_if_other k j false v e h = refl

-- What the last part of the answer says of verification and export.
found_or_null :
    (o : Option Json) (v : Json)
    → (o ≡ none → v ≡ null)
    → or_else (if is_some o then some v else none) null ≡ v
found_or_null none v h = sym (h refl)
found_or_null (some w) v h = refl

verification-none :
    (o : Option Json) → o ≡ none → of_dict (trimmed_of (as_dict (or_else o null))) ≡ null
unfolding trimmed_of
verification-none none h = refl
verification-none (some v) h = absurd (cc h)

or_else-none : (o : Option Json) → o ≡ none → or_else o null ≡ null
or_else-none none h = refl
or_else-none (some v) h = absurd (cc h)

module _ (lower : Json → String) (detail stats extra : Dict Json) (silent : Silent extra) where
  later-email_verification :
      or_else (lookup "email_verification" (later_fields lower detail stats extra)) null
      ≡ of_dict (verification_out detail)
  unfolding later_fields verification_out
  later-email_verification =
      rw
        (
          lookup-entry_if_other "email_verification" "next_launch_at" _ _ _ refl,
          lookup-entry_if_other "email_verification" "total_unique_results" _ _ _ refl,
          lookup-entry_if "email_verification",
          lookup-entry_if_other "email_verification" "export_done" _ _ _ refl,
          silent.0,
        )
        (found_or_null (lookup "email_verification" detail) _ (verification-none _))

  later-export_done :
      or_else (lookup "export_done" (later_fields lower detail stats extra)) null
      ≡ get "export_done" detail
  unfolding later_fields
  later-export_done =
      rw
        (
          lookup-entry_if_other "export_done" "next_launch_at" _ _ _ refl,
          lookup-entry_if_other "export_done" "total_unique_results" _ _ _ refl,
          lookup-entry_if_other "export_done" "email_verification" _ _ _ refl,
          lookup-entry_if "export_done",
          silent.1,
        )
        (found_or_null (lookup "export_done" detail) _ (or_else-none _))

verifying-of_dict : (o : Option (Dict Json)) → verifying (as_dict (of_dict o)) ≡ verifying o
verifying-of_dict none = refl
verifying-of_dict (some d) = ap verifying (ap some (members-of_members d))

all_clear :
    (done unfinished waits unsaved : Bool)
    → (if not done || unfinished
        then false
        else if waits
        then false
        else if unsaved
        then false
        else true)
      ≡ true
    → (unfinished ≡ false) × (waits ≡ false) × (unsaved ≡ false)
all_clear done unfinished waits unsaved h = ground arith

done_parts :
    (lower : Json → String) (detail stats : Dict Json)
    → run_is_done lower detail stats ≡ true
    → (status_of lower (run_status_of lower detail stats) (verification_out detail)
        ≡ run_status_of lower detail stats)
      × (contains (lower (run_status_of lower detail stats)) unfinished_run_states ≡ false)
      × (verifying (verification_out detail) ≡ false)
      × (is_false (get "export_done" detail) ≡ false)
unfolding run_is_done fully_done status_of
done_parts lower detail stats done =
    let parts = all_clear (truthy (get "is_done" stats)) _ _ _ done in
    let (clear, waits, saved) = parts in (rw waits refl, clear, waits, saved)

answer-Finished :
    (lower : Json → String) (run_id : String) (detail stats reason extra : Dict Json)
    → Silent reason
    → Silent extra
    → Finished lower
        (run_fields lower run_id detail stats ++ (reason ++ later_fields lower detail stats extra))
unfolding run_fields lookup truthy
answer-Finished lower run_id detail stats reason extra quiet silent done =
    rw
      (
        lookup-append "email_verification" reason (later_fields lower detail stats extra) quiet.0,
        lookup-append "export_done" reason (later_fields lower detail stats extra) quiet.1,
        later-email_verification lower detail stats extra silent,
        later-export_done lower detail stats extra silent,
        verifying-of_dict (verification_out detail),
      )
      (done_parts lower detail stats done)

module _ (c : RunClient) where
  reason-Silent :
      (b : Bool) (v : Json) (rest : Dict Json)
      → Silent rest
      → Silent (entry_if b "done_reason_code" v ++ rest)
  reason-Silent b v rest h =
      rw
        (
          lookup-entry_if_other "email_verification" "done_reason_code" b v rest refl,
          lookup-entry_if_other "export_done" "done_reason_code" b v rest refl,
        )
        h

  if-Yields :
      {A : Type 0} (Q : A → Type 0) (b : Bool) (m n : Exec c.State A)
      → Yields Q m
      → Yields Q n
      → Yields Q (if b then m else n)
  if-Yields Q true m n hm hn = hm
  if-Yields Q false m n hm hn = hn

  done_reason_fields-Silent : (detail : Dict Json) → Yields Silent (done_reason_fields c detail)
  unfolding done_reason_fields lookup entry_if
  done_reason_fields-Silent detail =
      let code = get "done_reason" detail in
      if-Yields Silent (or_else (get_str "done_reason" detail) "" == "limit_exceeded") _ _
        (bind-Yields (λ a. Unit) Silent (account_limit_out c (get_str "squid" detail)) _
          (any_Yields (account_limit_out c (get_str "squid" detail)))
          (λ limit u s.
            reason-Silent (truthy code) code (("account_limit", dict limit) ∷ []) (refl, refl)))
        (λ s. elim (Bool-cases (truthy code)) [
          | inl e ↦ rw e (refl, refl)
          | inr e ↦ rw e (refl, refl)
        ])

  credits_of-Silent :
      (r : Result Exn (Dict Json))
      → Yields (λ d. (v : Json) → Silent (("stats", v) ∷ d)) (credits_of c r)
  unfolding credits_of lookup
  credits_of-Silent (ok credits) s = λ v. (refl, refl)
  credits_of-Silent (err (api e)) s = λ v. (refl, refl)
  credits_of-Silent (err (transport e)) s = tt
  credits_of-Silent (err (other e)) s = tt

  full_fields-Silent :
      (run_id : String) (stats : Dict Json) (full : Bool)
      → Yields Silent (full_fields c run_id stats full)
  unfolding full_fields lookup
  full_fields-Silent run_id stats false s = (refl, refl)
  full_fields-Silent run_id stats true s =
      bind-Yields (λ d. (v : Json) → Silent (("stats", v) ∷ d)) Silent
        (attempt (c.get_run_credits run_id) >>= credits_of c) _
        (bind-Yields (λ a. Unit) _ (attempt (c.get_run_credits run_id)) (credits_of c)
          (any_Yields (attempt (c.get_run_credits run_id))) (λ r u. credits_of-Silent r))
        (λ breakdown h s'. h (dict stats)) s

-- Whatever the API answers, a run that `get_run` calls done has a status that is the run's own and
-- none of those of an unfinished run, no email verification that is still to be done, and no export
-- that is still to be made.
pub get_run_impl-Finished :
    (c : RunClient) (lower : Json → String) (run_id : String) (full : Bool)
    → Yields (Finished lower) (get_run_impl c lower run_id full)
unfolding get_run_impl
get_run_impl-Finished c lower run_id full =
    bind-Yields (λ a. Unit) _ (c.get_run_stats run_id) _ (any_Yields (c.get_run_stats run_id))
      λ stats u.
        bind-Yields (λ a. Unit) _ (attempt (c.get_run run_id) >>= detail_of c) _
          (any_Yields (attempt (c.get_run run_id) >>= detail_of c))
          λ detail v.
            bind-Yields Silent _ (done_reason_fields c detail) _
              (done_reason_fields-Silent c detail)
              λ reason quiet.
                bind-Yields Silent _ (full_fields c run_id stats full) _
                  (full_fields-Silent c run_id stats full)
                  λ extra silent s.
                    answer-Finished lower run_id detail stats reason extra quiet silent
