-- ===== src/Execution/Results/Unfailing.antt =====
-- The index of tasks never costs the caller the page.
use lobstr_mcp.Prelude.{
  suc, ◌≤◌, true, false, not, ◌||◌, List, [], ◌∷◌, Option, none, some, ltb, length, is_some, ◌≡◌,
  refl, ap, arith, Bool-cases, inl, inr,
}
use lobstr_mcp.Prelude.Dict.{Dict}
use lobstr_mcp.Prelude.Result.{Result, ok, err, ok-injective}
use lobstr_mcp.Json.{Json, as_dict, as_list}
use lobstr_mcp.Errors.{Exn, answer, nonempty}
use lobstr_mcp.Client.{continue, pure, ◌>>=◌}
use lobstr_mcp.Client.Runs.{RunClient}
use lobstr_mcp.Execution.Results.{take, get_results}
use lobstr_mcp.Execution.Results.Bounds.{length-take}
use lobstr_mcp.Execution.Results.Index.{
  TaskIndex, PageRequest, is_one, task_entry, task_entries, index_of, index_or_none, tasks_of_squid,
  squid_of_tasks, task_index_of, query_of, index_for, get_results_impl,
}

-- An index lists 50 tasks at most, and comes with the first page of all tasks only.
abbrev pub Small : PageRequest → Option TaskIndex → Type 0
Small req none = Unit
Small req (some index) =
    (length index.tasks ≤ 50) × (is_one req.page ≡ true) × (is_some (nonempty req.task_id) ≡ false)

length-task_entry :
    (t : Option (Dict Json)) (rest : List (Json × Json))
    → length (task_entry t rest) ≤ suc (length rest)
unfolding task_entry
length-task_entry none rest = omega arith
length-task_entry (some t) rest = omega arith

length-task_entries : (tasks : List Json) → length (task_entries tasks) ≤ length tasks
unfolding task_entries
length-task_entries [] = omega arith
length-task_entries (t ∷ tasks) =
    omega (arith, length-task_entry (as_dict t) (task_entries tasks), length-task_entries tasks)

index_of-Small :
    (req : PageRequest) (tasks : Option (List Json))
    → is_one req.page ≡ true
    → is_some (nonempty req.task_id) ≡ false
    → Small req (index_of tasks)
unfolding index_of
index_of-Small req none first all_tasks = tt
index_of-Small req (some tasks) first all_tasks = elim (Bool-cases (ltb (length tasks) 2)) [
  | inl few ↦ rw few tt
  | inr more ↦
      rw more
        (omega (arith, length-task_entries (take 50 tasks), length-take 50 tasks), first, all_tasks)
]

-- No index comes of a request for the tasks that fails.
abbrev pub Fits : PageRequest → Result Exn Json → Option TaskIndex → Type 0
Fits req (err e) index = index ≡ none
Fits req (ok tasks) index = Small req index

no_index-Fits : (req : PageRequest) (r : Result Exn Json) → Fits req r none
no_index-Fits req (err e) = refl
no_index-Fits req (ok tasks) = tt

index_or_none-Fits :
    (req : PageRequest) (r : Result Exn Json)
    → is_one req.page ≡ true
    → is_some (nonempty req.task_id) ≡ false
    → Fits req r (index_or_none r)
unfolding index_or_none
index_or_none-Fits req (err e) first all_tasks = refl
index_or_none-Fits req (ok tasks) first all_tasks =
    index_of-Small req (as_list tasks) first all_tasks

module _ (c : RunClient) where
  -- What comes of the requests for the tasks in a state.
  abbrev pub tasks_at : PageRequest → c.State → Result Exn Json
  tasks_at req s = ((squid_of_tasks c (nonempty req.squid_id) req.run_id >>= tasks_of_squid c) s).0

  index_for-Fits :
      (req : PageRequest) (s : c.State)
      → (index : Option TaskIndex) × ((index_for c req s).0 ≡ ok index)
        × Fits req (tasks_at req s) index
  unfolding index_for task_index_of
  index_for-Fits req s =
      elim (Bool-cases
        (is_some (nonempty req.task_id) || (not (is_one req.page) || not req.task_index))) [
          | inl without ↦ (none, rw without refl, no_index-Fits req (tasks_at req s))
          | inr with_index ↦
              let tasks = tasks_at req s in
              (
                index_or_none tasks,
                rw with_index refl,
                index_or_none-Fits req tasks (ground arith) (ground arith),
              )
        ]

continue-answer :
    {S A B : Type 0} (out : Result Exn A × S) (f : A → B) (a : A)
    → out.0 ≡ ok a
    → (continue (λ x. pure (f x)) out).0 ≡ ok (f a)
continue-answer (ok x, s) f a e = ap (λ y. ok (f y)) (ok-injective x a e)
continue-answer (err x, s) f a e = absurd (cc e)

-- A page that the API answers is returned, whatever becomes of the requests for the index. There is
-- no index when one of these fails; otherwise it lists 50 tasks at most, and comes with the first
-- page of all tasks only. Requires that a run or a squid is named.
pub get_results_impl-Answers :
    (c : RunClient) (req : PageRequest) (s s' : c.State) (payload : Dict Json)
    → (is_some (nonempty req.run_id) || is_some (nonempty req.squid_id)) ≡ true
    → c.get_results (query_of c req) s ≡ (ok payload, s')
    → (index : Option TaskIndex) × ((get_results_impl c req s).0
        ≡ ok (
            answer
              (get_results req.page req.page_size req.max_rows req.fields req.full payload, index)))
      × Fits req (tasks_at c req s') index
unfolding get_results_impl
get_results_impl-Answers c req s s' payload named answered =
    let (index, found, small) = index_for-Fits c req s' in
    (index, rw (named, answered) (continue-answer (index_for c req s') _ index found), small)
