-- ===== src/Execution/Submit/Counts.antt =====
-- The rows that a call says it leaves to be scraped, and those that its estimate covers.
pub mod Answer
use lobstr_mcp.Prelude.{
  ℕ, String, Bool, true, false, not, List, [], ◌∷◌, Option, none, some, ◌≡◌, ◌≢◌, refl, sym, ap,
  ◌∙◌, is_empty, arith, leb, if◌then◌else◌, Bool-cases, inl, inr, is_some,
}
use lobstr_mcp.Prelude.Dict.{Dict}
use lobstr_mcp.Prelude.Result.{Result, ok, err}
use lobstr_mcp.Json.{Json, get_str}
use lobstr_mcp.Errors.{
  Exn, api, transport, other, TasksAction, unchanged, created, added, replaced, ErrorDict, Reply,
  answer, failed,
}
use lobstr_mcp.Execution.Inputs.{rows_this_run, rows_of_reuse}
use lobstr_mcp.Client.{Client, Exec, pure, continue, attempt, ◌>>=◌}
use lobstr_mcp.Execution.Tasks.{Snapshot}
use lobstr_mcp.Execution.Submit.{
  Plan, Written, Started, known_count, refusal, saved_reply, replaced_reply, not_started,
}
use lobstr_mcp.Execution.Submit.Writes.{
  Placed, placed_at, left_alone, write_keeping, write_replacing, write_accounts, write_input,
  write_reused, new_squid_written, new_squid_write_failed, write_new, write_to, write_plan,
  start_refused, run_of, run_started, start, submit,
}

-- The count of rows in an answer.
abbrev pub Tells : ℕ → Reply Written → Type 0
Tells k (failed e) = Unit
Tells k (answer w) = w.task_count ≡ some k

saved_reply-Tells :
    (q : String) (saved : Snapshot) (task : Dict Json) (k : ℕ) (failure : Option ErrorDict)
    → refusal q saved task ≡ none
    → rows_of_reuse (not (is_empty task)) false saved.0 saved.1 ≡ some k
    → Tells k (saved_reply (known_count saved) task failure)
unfolding saved_reply rows_of_reuse known_count refusal
saved_reply-Tells q saved task k (some e) open_ h = tt
saved_reply-Tells q (none, n) [] k none open_ h = h
saved_reply-Tells q (none, n) (entry ∷ task) k none open_ h = absurd (cc h)
saved_reply-Tells q (some rows, n) [] k none open_ h = h
saved_reply-Tells q (some rows, n) (entry ∷ task) k none open_ h = elim (Bool-cases (leb 1 n)) [
  | inl some_rows ↦ absurd (ground arith)
  | inr no_rows ↦ ground arith
]

known_count_lem :
    (replace_tasks : Bool) (saved : Snapshot) (k : ℕ)
    → rows_of_reuse false replace_tasks saved.0 saved.1 ≡ some k
    → known_count saved ≡ some k
unfolding known_count rows_of_reuse
known_count_lem replace_tasks (none, n) k h = absurd (cc h)
known_count_lem replace_tasks (some rows, n) k h = h

module _ (c : Client) (plan : Plan) (k : ℕ) where
  abbrev ToldW : Result Exn (Reply Written) × c.State → Type 0
  ToldW (ok reply, s) = Tells k reply
  ToldW (err e, s) = Unit

  abbrev pub ToldP : Result Exn (Reply Placed) × c.State → Type 0
  ToldP (ok (failed e), s) = Unit
  ToldP (ok (answer (q, w)), s) = w.task_count ≡ some k
  ToldP (err e, s) = Unit

  answered {ℓ} :
      {A : Type ℓ} (f : A → Reply Written) (out : Result Exn A × c.State)
      → ((a : A) → Tells k (f a))
      → ToldW (continue (λ a s. (ok (f a), s)) out)
  answered f (ok a, s) h = h a
  answered f (err e, s) h = tt

  placed-Told :
      (q : String) (out : Result Exn (Reply Written) × c.State)
      → ToldW out
      → ToldP (continue (λ w s. (ok (placed_at q w), s)) out)
  placed-Told q (ok (answer w), s) h = h
  placed-Told q (ok (failed e), s) h = tt
  placed-Told q (err e, s) h = tt

  replaced_reply-Tells :
      (done : Option ErrorDict × ℕ) → some 1 ≡ some k → Tells k (replaced_reply done)
  unfolding replaced_reply
  replaced_reply-Tells (some e, n) h = tt
  replaced_reply-Tells (none, n) h = h

  write_accounts-Told :
      (q : String) (accounts : Option (List String)) (s : c.State)
      → Tells k (left_alone plan)
      → ToldW (write_accounts c plan q accounts s)
  unfolding write_accounts
  write_accounts-Told q none s h = h
  write_accounts-Told q (some []) s h = h
  write_accounts-Told q (some (a ∷ accounts)) s h = answered (λ d. left_alone plan) _ (λ d. h)

  write_keeping-Told :
      (q : String) (squid : Dict Json) (refused : Option ErrorDict) (s : c.State)
      → refusal q plan.saved plan.task_params ≡ refused
      → rows_of_reuse (not (is_empty plan.task_params)) false plan.saved.0 plan.saved.1 ≡ some k
      → ToldW (write_keeping c plan q squid refused s)
  unfolding write_keeping
  write_keeping-Told q squid (some e) s r h = tt
  write_keeping-Told q squid none s r h =
      answered (saved_reply (known_count plan.saved) plan.task_params) _
        (λ failure. saved_reply-Tells q plan.saved plan.task_params k failure r h)

  write_input-Told :
      (q : String) (squid : Dict Json) (replace_tasks : Bool) (s : c.State)
      → (replace_tasks ≡ true → is_empty plan.task_params ≡ false)
      → rows_of_reuse (not (is_empty plan.task_params)) replace_tasks plan.saved.0 plan.saved.1
        ≡ some k
      → ToldW (write_input c plan q squid replace_tasks s)
  unfolding write_input write_replacing rows_of_reuse
  write_input-Told q squid false s task h =
      write_keeping-Told q squid (refusal q plan.saved plan.task_params) s refl h
  write_input-Told q squid true s task h =
      answered replaced_reply _ (λ done. replaced_reply-Tells done (one plan.saved.0 h))
    where
      one :
          (rows : Option (List (Dict Json)))
          → rows_of_reuse (not (is_empty plan.task_params)) true rows plan.saved.1 ≡ some k
          → some 1 ≡ some k
      one none e = absurd (cc e)
      one (some rows) e = ground (arith, task refl)

  write_reused-Told :
      (q : String) (squid input : Dict Json) (s : c.State)
      → (is_empty input ≡ true → is_empty plan.task_params ≡ true)
      → (plan.replace_tasks ≡ true → is_empty plan.task_params ≡ false)
      → rows_of_reuse (not (is_empty plan.task_params)) plan.replace_tasks plan.saved.0 plan.saved.1
        ≡ some k
      → ToldW (write_reused c plan q squid input s)
  unfolding write_reused
  write_reused-Told q squid [] s no_task task h =
      write_accounts-Told q plan.accounts_to_save s
        (known_count_lem plan.replace_tasks plan.saved k (rw (no_task refl) at h))
  write_reused-Told q squid (entry ∷ input) s no_task task h =
      write_input-Told q squid plan.replace_tasks s task h

  new_squid_written-Told :
      (q : String) (r : Result Exn (Dict Json)) (s : c.State)
      → some 1 ≡ some k
      → ToldW (new_squid_written c plan q r s)
  unfolding new_squid_written new_squid_write_failed
  new_squid_written-Told q (ok d) s h = h
  new_squid_written-Told q (err (api e)) s h = tt
  new_squid_written-Told q (err (transport e)) s h = tt
  new_squid_written-Told q (err (other e)) s h = tt

  write_to-Told :
      (write : String → Dict Json → Exec c.State (Reply Written)) (squid : Dict Json)
      (id : Option String) (s : c.State)
      → ((q : String) → ToldW (write q squid s))
      → ToldP (write_to c plan write squid id s)
  unfolding write_to
  write_to-Told write squid none s h = tt
  write_to-Told write squid (some q) s h = placed-Told q _ (h q)

  made-Told :
      (out : Result Exn (Dict Json) × c.State)
      → some 1 ≡ some k
      → ToldP
          (continue (λ squid. write_to c plan (write_new c plan) squid (get_str "id" squid)) out)
  unfolding write_new
  made-Told (err e, s) h = tt
  made-Told (ok squid, s) h =
      write_to-Told (write_new c plan) squid (get_str "id" squid) s
        (λ q. new_squid_written-Told q _ _ h)

  pub write_plan-Told :
      (existing : Option (Dict Json)) (s : c.State)
      → (is_empty plan.input ≡ true → is_empty plan.task_params ≡ true)
      → (plan.replace_tasks ≡ true → is_empty plan.task_params ≡ false)
      → rows_this_run
          (is_some existing)
          (not (is_empty plan.task_params))
          plan.replace_tasks
          plan.saved.0
          plan.saved.1
        ≡ some k
      → ToldP (write_plan c plan existing s)
  unfolding write_plan rows_this_run
  write_plan-Told none s no_task task h = made-Told _ h
  write_plan-Told (some squid) s no_task task h =
      write_to-Told (λ q t. write_reused c plan q t plan.input) squid (get_str "id" squid) s
        (λ q. write_reused-Told q squid plan.input s no_task task h)
