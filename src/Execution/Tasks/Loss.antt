-- ===== src/Execution/Tasks/Loss.antt =====
-- No saved input row is lost without a copy in the answer.
use lobstr_mcp.Prelude.{
  Option, ℕ, String, true, false, List, [], ◌∷◌, none, some, ◌≡◌, refl, ◌⊎◌, inl, inr, All,
}
use lobstr_mcp.Prelude.Dict.{Dict}
use lobstr_mcp.Prelude.Result.{Result, ok, err}
use lobstr_mcp.Json.{Json}
use lobstr_mcp.Errors.{Exn, api, transport, other, ErrorDict}
use lobstr_mcp.Client.{Client, pure, continue}
use lobstr_mcp.Client.Rows.{RowLaws, Keeps, Additive}
use lobstr_mcp.Execution.Tasks.{
  Snapshot, step_failure, restored, restore_rows, restore_tasks, Replaced, restoring, row_added,
  emptied, saved, replace_squid_input, saved_config, saved_added, save_failed, save_squid_input,
}

-- Neither a refusal by the API nor a transport failure.
abbrev pub Foreign : Exn → Type 0
Foreign (api e) = ⊥
Foreign (transport e) = ⊥
Foreign (other e) = Unit

module _ (c : Client) (laws : RowLaws c) (q : String) (rows : List (Dict Json)) where
  -- The rows are all saved, and the answer says so; or the answer holds every one of them.
  abbrev pub Accounted : ErrorDict → c.State → Type 0
  Accounted d s =
      (d.tasks_lost ≡ some false) × All (laws.holds s q) rows
      ⊎ (d.tasks_lost ≡ some true) × (d.lost_tasks ≡ some rows)

  abbrev pub Restored : Result Exn ErrorDict × c.State → Type 0
  Restored (ok d, s) = Accounted d s
  Restored (err e, s) = Foreign e

  restored-Restored :
      (out : ErrorDict) (r : Result Exn (Dict Json)) (s s' : c.State)
      → c.add_tasks q rows s ≡ (r, s')
      → Restored (restored c out rows r s')
  unfolding restored step_failure
  restored-Restored out (ok d) s s' h = inl (refl, laws.add_tasks_adds q rows s s' d h)
  restored-Restored out (err (api e)) s s' h = inr (refl, refl)
  restored-Restored out (err (transport e)) s s' h = inr (refl, refl)
  restored-Restored out (err (other e)) s s' h = tt

restore_rows-Restored :
    (c : Client) (laws : RowLaws c) (q : String) (rows : List (Dict Json)) (out : ErrorDict)
    (s : c.State)
    → Restored c laws q rows (restore_rows c q out (some rows) s)
unfolding restore_rows
restore_rows-Restored c laws q [] out s = inl (refl, tt)
restore_rows-Restored c laws q (row ∷ rows) out s =
    restored-Restored c laws q (row ∷ rows) out (c.add_tasks q (row ∷ rows) s).0 s
      (c.add_tasks q (row ∷ rows) s).1 refl

pub restore_tasks-Restored :
    (c : Client) (laws : RowLaws c) (q : String) (rows : List (Dict Json)) (n : ℕ)
    (failure : ErrorDict) (s : c.State)
    → Restored c laws q rows (restore_tasks c q (some rows, n) failure s)
unfolding restore_tasks
restore_tasks-Restored c laws q rows n failure s =
    restore_rows-Restored c laws q rows (record failure { squid_id = some q }) s

module _ (c : Client) (laws : RowLaws c) (q : String) (rows : List (Dict Json)) (n : ℕ)
    (task : Dict Json) where
  -- What `_replace_squid_input` promises when it returns.
  abbrev pub Safe : Result Exn (Replaced c) × c.State → Type 0
  Safe (ok (none, k), s) = (k ≡ n) × laws.holds s q task
  Safe (ok (some d, k), s) = Accounted c laws q rows d s
  Safe (err e, s) = Foreign e

  Restored-Safe :
      (out : Result Exn ErrorDict × c.State)
      → Restored c laws q rows out
      → Safe (continue (λ d. pure (some d, 0)) out)
  Restored-Safe (ok d, s) h = h
  Restored-Safe (err e, s) h = h

  restoring-Safe :
      (failure : ErrorDict) (s : c.State) → Safe (restoring c q (some rows, n) failure s)
  unfolding restoring
  restoring-Safe failure s = Restored-Safe _ (restore_tasks-Restored c laws q rows n failure s)

  row_added-Safe :
      (r : Result Exn (Dict Json)) (s s' : c.State)
      → c.add_tasks q (task ∷ []) s ≡ (r, s')
      → Safe (row_added c q (some rows, n) r s')
  unfolding row_added step_failure
  row_added-Safe (ok d) s s' h = (refl, (laws.add_tasks_adds q (task ∷ []) s s' d h).0)
  row_added-Safe (err (api e)) s s' h = restoring-Safe _ s'
  row_added-Safe (err (transport e)) s s' h = restoring-Safe _ s'
  row_added-Safe (err (other e)) s s' h = tt

  emptied-Safe :
      (r : Result Exn (Dict Json)) (s : c.State) → Safe (emptied c q task (some rows, n) r s)
  unfolding emptied step_failure
  emptied-Safe (ok d) s = row_added-Safe _ s _ refl
  emptied-Safe (err (api e)) s = restoring-Safe _ s
  emptied-Safe (err (transport e)) s = restoring-Safe _ s
  emptied-Safe (err (other e)) s = tt

  saved-Safe :
      (r : Result Exn (Dict Json)) (s : c.State)
      → All (laws.holds s q) rows
      → Safe (saved c q task (some rows, n) r s)
  unfolding saved step_failure
  saved-Safe (ok d) s held = emptied-Safe _ _
  saved-Safe (err (api e)) s held = inl (refl, held)
  saved-Safe (err (transport e)) s held = inl (refl, held)
  saved-Safe (err (other e)) s held = tt

-- A property of single rows that an operation keeps is kept of a list of them.
All-keeps :
    (c : Client) (laws : RowLaws c) (q : String) (body : Dict Json) (rows : List (Dict Json))
    (s : c.State)
    → All (laws.holds s q) rows
    → All (laws.holds (c.update_squid q body s).1 q) rows
All-keeps c laws q body [] s h = tt
All-keeps c laws q body (row ∷ rows) s (h, hs) =
    ((laws.additive q row).update_squid-Keeps q body s h, All-keeps c laws q body rows s hs)

-- Rewriting the inputs of a squid accounts for every row, when a request of its is refused by the
-- API or fails in transport. When the rewrite returns an error,
-- either every row of the snapshot is saved in the squid and the error says `tasks_lost: false`, or
-- it says `tasks_lost: true` and carries all the rows verbatim. When it returns success, the new
-- row is saved and the count of destroyed rows is the snapshot's. No refusal by the API and no
-- transport failure of any of its requests is raised: only an exception of another kind is. Requires
-- that the snapshot could be read and that its rows are saved when the rewrite begins.
pub replace_squid_input-Safe :
    (c : Client) (laws : RowLaws c) (q : String) (body task : Dict Json) (rows : List (Dict Json))
    (n : ℕ) (s : c.State)
    → All (laws.holds s q) rows
    → Safe c laws q rows n task (replace_squid_input c q body task (some rows, n) s)
unfolding replace_squid_input
replace_squid_input-Safe c laws q body task rows n s held =
    saved-Safe c laws q rows n task _ _ (All-keeps c laws q body rows s held)

module _ (c : Client) (P : c.State → Type 0) (additive : Additive c P) where
  save_failed-Keeps : (q : String) (e : Exn) → Keeps P (save_failed c q e)
  unfolding save_failed step_failure
  save_failed-Keeps q (api e) s p = p
  save_failed-Keeps q (transport e) s p = p
  save_failed-Keeps q (other e) s p = p

  saved_added-Keeps : (q : String) (r : Result Exn (Dict Json)) → Keeps P (saved_added c q r)
  unfolding saved_added
  saved_added-Keeps q (ok d) s p = p
  saved_added-Keeps q (err e) s p = save_failed-Keeps q e s p

  saved_config-Keeps :
      (q : String) (task : Dict Json) (r : Result Exn (Dict Json))
      → Keeps P (saved_config c q task r)
  unfolding saved_config
  saved_config-Keeps q [] (ok d) s p = p
  saved_config-Keeps q (entry ∷ task) (ok d) s p =
      saved_added-Keeps q _ _ (additive.add_tasks-Keeps q ((entry ∷ task) ∷ []) s p)
  saved_config-Keeps q [] (err e) s p = save_failed-Keeps q e s p
  saved_config-Keeps q (entry ∷ task) (err e) s p = save_failed-Keeps q e s p

  -- Saving input on a reused squid without replacing deletes nothing: whatever the requests answer,
  -- a property that every additive request keeps is kept by it.
  pub save_squid_input-Keeps :
      (q : String) (body task : Dict Json) (s : c.State)
      → P s
      → P (save_squid_input c q body task s).1
  unfolding save_squid_input
  save_squid_input-Keeps q body task s p =
      saved_config-Keeps q task _ _ (additive.update_squid-Keeps q body s p)

  -- Putting rows back only adds.
  restored-Keeps :
      (out : ErrorDict) (rows : List (Dict Json)) (r : Result Exn (Dict Json))
      → Keeps P (restored c out rows r)
  unfolding restored step_failure
  restored-Keeps out rows (ok d) s p = p
  restored-Keeps out rows (err (api e)) s p = p
  restored-Keeps out rows (err (transport e)) s p = p
  restored-Keeps out rows (err (other e)) s p = p

  restore_rows-Keeps :
      (q : String) (out : ErrorDict) (rows : Option (List (Dict Json)))
      → Keeps P (restore_rows c q out rows)
  unfolding restore_rows
  restore_rows-Keeps q out none s p = p
  restore_rows-Keeps q out (some []) s p = p
  restore_rows-Keeps q out (some (row ∷ rows)) s p =
      restored-Keeps out (row ∷ rows) _ _ (additive.add_tasks-Keeps q (row ∷ rows) s p)

  pub restore_tasks-Keeps :
      (q : String) (saved : Snapshot) (failure : ErrorDict)
      → Keeps P (restore_tasks c q saved failure)
  unfolding restore_tasks
  restore_tasks-Keeps q saved failure =
      restore_rows-Keeps q (record failure { squid_id = some q }) saved.0
