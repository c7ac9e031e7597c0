-- ===== src/Task/Service/Update/Stale.antt =====
-- What a successful UpdateFullTask returns.
use distributed_workflow_sys.Prelude.{
  ◌≡◌, refl, ap, String, none, some, [], ◌∷◌, ◌==◌, eq_refl, if◌then◌else◌, Bool-cases, inl, inr,
}
use distributed_workflow_sys.Prelude.Act.{ok, pure, relabelled, ◌>>=◌, when}
use distributed_workflow_sys.Prelude.Keeps.{Returns, Returns-bind, Returns-mono}
use distributed_workflow_sys.Domain.Task.{Task, TaskUpdateInput}
use distributed_workflow_sys.Task.Service.{
  Service, get_task_by_id, check_access, send_task_updated, send_notification,
}
use distributed_workflow_sys.Task.Service.Create.{concerns}
use distributed_workflow_sys.Task.Service.Update.{
  found_task, with_input, assignee_name_of, replace_task, announce_update, update_full_task,
  update_failure, updated_payload,
}

-- The task that is returned: the input's fields, and the name that belonged to the old assignee.
unfoldable pub renamed : Task → TaskUpdateInput → Task
unfolding with_input
renamed old input = record (with_input old input) {
  assignee_name = if input.assignee_id == "" then none else old.assignee_name;
}

module _ {W : Type 0} (s : Service W) where
  assignee_name-kept :
      (workspace_id : String) (old : Task) (input : TaskUpdateInput) (w : W)
      → assignee_name_of s workspace_id (with_input old input) input w
        ≡ (ok (if input.assignee_id == "" then none else old.assignee_name), w)
  unfolding assignee_name_of with_input
  assignee_name-kept workspace_id old input w = elim (Bool-cases (input.assignee_id == "")) [
    | inl empty ↦ rw empty refl
    | inr named ↦ rw (named, eq_refl input.assignee_id) refl
  ]

  announce_update-Returns :
      (t : Task) (user_id : String) (w : W) → Returns (λ u. u ≡ t) (announce_update s t user_id w).0
  unfolding announce_update
  announce_update-Returns t user_id w =
      Returns-bind (λ u. u ≡ t) (relabelled update_failure (send_task_updated s t w)) _
        (λ a w1 h1.
          let (r, w2) = s.task_cache.update_task_meta t w1 in
          Returns-bind (λ u. u ≡ t)
            (when (concerns t user_id) (send_notification s (updated_payload t) t.assignee_id) w2)
            (λ x. pure t) (λ b w3 h3. refl))

  -- The old task, and the permission that was given when it had been read.
  abbrev pub Replaced : String → String → String → TaskUpdateInput → W → Task → Type 0
  Replaced workspace_id task_id user_id input w t =
      (old : Task) × (w1 : W) × (get_task_by_id s workspace_id task_id w ≡ (ok (some old), w1))
      × ((check_access s workspace_id user_id ("ADMIN" ∷ []) w1).0 ≡ ok tt)
      × (t ≡ renamed old input)

  module _ (workspace_id task_id user_id : String) (input : TaskUpdateInput) (w : W) where
    replace-Returns :
        (old : Task) (w1 : W)
        → get_task_by_id s workspace_id task_id w ≡ (ok (some old), w1)
        → Returns
            (Replaced workspace_id task_id user_id input w)
            (replace_task s workspace_id old input user_id w1).0
    unfolding replace_task renamed
    replace-Returns old w1 h1 =
        let R = Replaced workspace_id task_id user_id input w in
        Returns-bind R (check_access s workspace_id user_id ("ADMIN" ∷ []) w1) _ (λ a w2 h2.
          rw (assignee_name-kept workspace_id old input w2) (
            Returns-mono (λ t same. (old, w1, h1, ap (λ o. o.0) h2, same))
              (announce_update s (renamed old input) user_id w2).0
              (announce_update-Returns (renamed old input) user_id w2)))

    -- A task that UpdateFullTask returns is the stored task with the five fields of the input, and
    -- with no assignee's name if the input has no assignee, else with the name stored before, even
    -- if the input names another assignee; and its caller passed the check as an administrator or
    -- owner.
    pub update_full_task-Returns :
        Returns
          (Replaced workspace_id task_id user_id input w)
          (update_full_task s workspace_id task_id input user_id w).0
    unfolding update_full_task found_task
    update_full_task-Returns =
        Returns-bind (Replaced workspace_id task_id user_id input w)
          (get_task_by_id s workspace_id task_id w) _
          (λ found w1 h1.
            elim found
                as (λ o.
                  get_task_by_id s workspace_id task_id w ≡ (ok o, w1)
                  → Returns (Replaced workspace_id task_id user_id input w)
                      ((found_task o >>= λ old. replace_task s workspace_id old input user_id)
                        w1).0) [ none ↦ λ h. tt | some old ↦ λ h. replace-Returns old w1 h ]
              h1)
