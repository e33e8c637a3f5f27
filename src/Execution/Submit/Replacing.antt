-- ===== src/Execution/Submit/Replacing.antt =====
-- A rewrite of a squid's rows that ends in an error accounts for them, up to the start of the run.
use lobstr_mcp.Prelude.{ℕ, String, true, List, ◌∷◌, Option, none, some, ◌≡◌, refl, All}
use lobstr_mcp.Prelude.Dict.{Dict}
use lobstr_mcp.Prelude.Result.{Result, ok, err}
use lobstr_mcp.Json.{Json, get_str}
use lobstr_mcp.Errors.{
  Exn, api, transport, other, ErrorDict, to_error_dict, transport_error_dict, TasksAction, replaced,
  Reply, answer, failed,
}
use lobstr_mcp.Client.{Client, continue}
use lobstr_mcp.Client.Rows.{RowLaws}
use lobstr_mcp.Execution.Tasks.Loss.{
  Foreign, Accounted, Restored, restore_tasks-Restored, Safe, replace_squid_input-Safe,
}
use lobstr_mcp.Execution.Submit.{Plan, Written, Started, replaced_reply, not_started}
use lobstr_mcp.Execution.Submit.Writes.{
  Placed, placed_at, write_replacing, write_input, write_reused, write_to, write_plan,
  start_refused, run_of, run_started, start, submit,
}

-- A call with input and `replace_tasks=true` on a squid whose rows could be read.
abbrev pub rewriting : Plan → Dict Json → String × Json → Dict Json → List (Dict Json) → ℕ → Plan
rewriting plan squid entry input rows n = record plan {
  existing_squid = some squid;
  input = entry ∷ input;
  replace_tasks = true;
  saved = (some rows, n);
}

module _ (c : Client) (laws : RowLaws c) (q : String) (rows : List (Dict Json)) (n : ℕ)
    (task : Dict Json) where
  -- What a rewriting call promises when it returns.
  abbrev pub SubmitSafe : Result Exn (Reply Started) × c.State → Type 0
  SubmitSafe (ok (failed d), s) = Accounted c laws q rows d s
  SubmitSafe (ok (answer st), s) = (st.written.replaced_count ≡ n) × laws.holds s q task
  SubmitSafe (err e, s) = Foreign e

  abbrev pub PlacedSafe : Result Exn (Reply Placed) × c.State → Type 0
  PlacedSafe (ok (failed d), s) = Accounted c laws q rows d s
  PlacedSafe (ok (answer (p, w)), s) =
      (p ≡ q) × (w.action ≡ replaced) × (w.replaced_count ≡ n) × laws.holds s q task
  PlacedSafe (err e, s) = Foreign e

  module _ (plan : Plan) (squid : Dict Json) (entry : String × Json) (input : Dict Json) where
    abbrev the_plan : Plan
    the_plan = rewriting plan squid entry input rows n

    refused-Safe :
        (out : Result Exn ErrorDict × c.State)
        → Restored c laws q rows out
        → SubmitSafe (continue (λ d s. (ok (failed d), s)) out)
    refused-Safe (ok d, s) h = h
    refused-Safe (err e, s) h = h

    start_refused-Safe :
        (action : TasksAction) (failure : ErrorDict) (s : c.State)
        → action ≡ replaced
        → SubmitSafe (start_refused c the_plan q action failure s)
    unfolding start_refused
    start_refused-Safe action failure s same =
        rw same (refused-Safe _ (restore_tasks-Restored c laws q rows n failure s))

    run_of-Safe :
        (w : Written) (id : Option String) (s : c.State)
        → w.replaced_count ≡ n
        → laws.holds s q task
        → SubmitSafe (run_of c the_plan q w id s)
    unfolding run_of
    run_of-Safe w none s count held = tt
    run_of-Safe w (some id) s count held = (count, held)

    run_started-Safe :
        (w : Written) (r : Result Exn (Dict Json)) (s : c.State)
        → w.action ≡ replaced
        → w.replaced_count ≡ n
        → laws.holds s q task
        → SubmitSafe (run_started c the_plan q w r s)
    unfolding run_started
    run_started-Safe w (ok run) s action count held = run_of-Safe w (get_str "id" run) s count held
    run_started-Safe w (err (api e)) s action count held =
        start_refused-Safe w.action (not_started the_plan q w (to_error_dict e)) s action
    run_started-Safe w (err (transport e)) s action count held =
        start_refused-Safe w.action (not_started the_plan q w (transport_error_dict e true)) s
          action
    run_started-Safe w (err (other e)) s action count held = tt

    start-Safe :
        (out : Result Exn (Reply Placed) × c.State)
        → PlacedSafe out
        → SubmitSafe (continue (start c the_plan) out)
    unfolding start
    start-Safe (err e, s) h = h
    start-Safe (ok (failed d), s) h = h
    start-Safe (ok (answer (p, w)), s) (same, action, count, held) =
        rw same
          (run_started-Safe w _ _ action count ((laws.additive q task).start_run-Keeps q s held))

    replaced-Safe :
        (out : Result Exn (Option ErrorDict × ℕ) × c.State)
        → Safe c laws q rows n task out
        → PlacedSafe (
            continue
              (λ w s. (ok (placed_at q w), s))
              (continue (λ done s. (ok (replaced_reply done), s)) out))
    unfolding replaced_reply
    replaced-Safe (err e, s) h = h
    replaced-Safe (ok (none, k), s) (count, held) = (refl, refl, count, held)
    replaced-Safe (ok (some d, k), s) h = h

-- A call that rewrites the rows of a squid accounts for them in its answer, whichever of its
-- requests is refused by the API or fails in transport: such a failure is never raised. An answer with an error says either `tasks_lost: false`, and every row that was
-- saved is saved, or `tasks_lost: true`, and holds all the rows verbatim. In an answer with a run
-- the new row is saved and the count of replaced rows is the number that was listed. Requires that
-- the rows could be read and are saved when the call begins to write.
pub submit-Safe :
    (c : Client) (laws : RowLaws c) (plan : Plan) (squid input : Dict Json) (entry : String × Json)
    (q : String) (rows : List (Dict Json)) (n : ℕ) (s : c.State)
    → get_str "id" squid ≡ some q
    → All (laws.holds s q) rows
    → SubmitSafe c laws q rows n plan.task_params
        (submit c (rewriting plan squid entry input rows n) s)
unfolding submit write_plan write_to write_reused write_input write_replacing
submit-Safe c laws plan squid input entry q rows n s id held =
    rw (id, write_to)
      (start-Safe c laws q rows n plan.task_params plan squid entry input _ (
        replaced-Safe c laws q rows n plan.task_params plan squid entry input _
          (replace_squid_input-Safe c laws q _ plan.task_params rows n s held)))
