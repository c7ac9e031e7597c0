-- ===== src/Task/Guarded.antt =====
-- Who may change a task by the methods of internal/task/service.go.
use distributed_workflow_sys.Prelude.{
  ◌≡◌, refl, ap, subst, String, Option, none, some, true, ◌⊎◌, inl, inr, Bool-cases, List, [], ◌∷◌,
  ◌==◌,
}
use distributed_workflow_sys.Prelude.Act.{Act, ok, relabel, pure, ◌>>=◌}
use distributed_workflow_sys.Prelude.Keeps.{
  Keeps, Keeps-if, Refused, Refused-bind, relabelled-Keeps, relabelled-ok,
}
use distributed_workflow_sys.Domain.Task.{
  Task, TaskCreateInput, TaskUpdateInput, CommentCreateInput,
}
use distributed_workflow_sys.Task.Service.{Service, check_access, get_task_by_id}
use distributed_workflow_sys.Task.Service.Create.{create_task}
use distributed_workflow_sys.Task.Service.Update.{
  found_task, replace_task, update_full_task, not_assigned, may_move, move_task, update_task_status,
}
use distributed_workflow_sys.Task.Service.Comments.{add_comment}
use distributed_workflow_sys.Task.Quiet.{Quiet, check_access-Keeps, get_task_by_id-Keeps}

module _ {W : Type 0} (s : Service W) (P : W → Type 0) (q : Quiet s P)
    (workspace_id user_id : String) where
  -- The check for an action was passed in the world `w`.
  abbrev pub Permitted : List String → W → Type 0
  Permitted allowed w = (check_access s workspace_id user_id allowed w).0 ≡ ok tt

  -- The task as it was read, and the world after that.
  abbrev Found : String → W → Task → W → Type 0
  Found task_id w t w1 = get_task_by_id s workspace_id task_id w ≡ (ok (some t), w1)

  -- For every predicate of the world that the reads of the check keep, CreateTask either returns an
  -- error and keeps the predicate, or its caller passed the check as an administrator or the owner.
  pub create_task-guarded :
      (project_id : String) (input : TaskCreateInput) (w : W)
      → P w
      → Refused P (create_task s workspace_id project_id input user_id w)
        ⊎ Permitted ("ADMIN" ∷ []) w
  unfolding create_task
  create_task-guarded project_id input w h =
      Refused-bind (Permitted ("ADMIN" ∷ []) w) (check_access s workspace_id user_id ("ADMIN" ∷ []))
        _ w (check_access-Keeps q workspace_id user_id ("ADMIN" ∷ [])) h
        (λ a w1 passed k. inr (ap (λ o. o.0) passed))

  -- For every predicate of the world that the reads of the check keep, AddComment either returns an
  -- error and keeps the predicate, or its caller passed the check as a member or the owner.
  pub add_comment-guarded :
      (task_id : String) (input : CommentCreateInput) (w : W)
      → P w
      → Refused P (add_comment s workspace_id task_id input user_id w) ⊎ Permitted [] w
  unfolding add_comment
  add_comment-guarded task_id input w h =
      Refused-bind (Permitted [] w) (check_access s workspace_id user_id []) _ w
        (check_access-Keeps q workspace_id user_id []) h
        (λ a w1 passed k. inr (ap (λ o. o.0) passed))

  -- What follows the reading of a task: refused if there is none.
  found_task-guarded :
      {B : Type 0} (X : Type 0) (found : Option Task) (f : Task → Act W B) (w1 : W)
      → P w1
      → ((t : Task) → found ≡ some t → Refused P (f t w1) ⊎ X)
      → Refused P ((found_task found >>= f) w1) ⊎ X
  unfolding found_task
  found_task-guarded X none f w1 h next = inl (tt, h)
  found_task-guarded X (some t) f w1 h next = next t refl

  abbrev pub MayReplace : String → W → Type 0
  MayReplace task_id w = (t : Task) × (w1 : W) × Found task_id w t w1 × Permitted ("ADMIN" ∷ []) w1

  -- For every predicate of the world that the reads keep, UpdateFullTask either returns an error
  -- and keeps the predicate, or the task was found and the caller passed the check as an
  -- administrator or the owner, in the world after the task was read.
  pub update_full_task-guarded :
      (task_id : String) (input : TaskUpdateInput) (w : W)
      → P w
      → Refused P (update_full_task s workspace_id task_id input user_id w) ⊎ MayReplace task_id w
  unfolding update_full_task replace_task
  update_full_task-guarded task_id input w h =
      let X = MayReplace task_id w in
      Refused-bind X (get_task_by_id s workspace_id task_id) _ w
        (get_task_by_id-Keeps q workspace_id task_id) h
        (λ found w1 read k. found_task-guarded X found _ w1 k (λ t is.
          Refused-bind X (check_access s workspace_id user_id ("ADMIN" ∷ [])) _ w1
            (check_access-Keeps q workspace_id user_id ("ADMIN" ∷ [])) k
            (λ a w2 passed k2. inr (
              t,
              w1,
              subst (λ o. get_task_by_id s workspace_id task_id w ≡ (ok o, w1)) is read,
              ap (λ o. o.0) passed,
            ))))

  may_move-Keeps : (t : Task) → Keeps P (may_move s workspace_id t user_id)
  unfolding may_move
  may_move-Keeps t =
      Keeps-if (t.assignee_id == user_id) (pure tt)
        (relabel (λ err. not_assigned) (check_access s workspace_id user_id ("ADMIN" ∷ [])))
        (λ w h. h)
        (λ w h.
          relabelled-Keeps P (λ err. not_assigned)
            (check_access s workspace_id user_id ("ADMIN" ∷ []) w)
            (check_access-Keeps q workspace_id user_id ("ADMIN" ∷ []) w h))

  abbrev May : Task → W → Type 0
  May t w = ((t.assignee_id == user_id) ≡ true) ⊎ Permitted ("ADMIN" ∷ []) w

  may_move-May :
      (t : Task) (w1 w2 : W) → may_move s workspace_id t user_id w1 ≡ (ok tt, w2) → May t w1
  unfolding may_move
  may_move-May t w1 w2 passed = elim (Bool-cases (t.assignee_id == user_id)) [
    | inl own ↦ inl own
    | inr other ↦ inr (
        relabelled-ok (λ err. not_assigned) (check_access s workspace_id user_id ("ADMIN" ∷ []) w1)
          tt w2 (rw other at passed))
  ]

  -- The assignee, an administrator or the owner.
  abbrev pub MayMove : String → W → Type 0
  MayMove task_id w = (t : Task) × (w1 : W) × Found task_id w t w1 × May t w1

  -- For every predicate of the world that the reads keep, UpdateTaskStatus either returns an error
  -- and keeps the predicate, or the task was found and the caller is its assignee or passed the
  -- check as an administrator or the owner, in the world after the task was read.
  pub update_task_status-guarded :
      (task_id status : String) (w : W)
      → P w
      → Refused P (update_task_status s workspace_id task_id status user_id w) ⊎ MayMove task_id w
  unfolding update_task_status move_task
  update_task_status-guarded task_id status w h =
      let X = MayMove task_id w in
      Refused-bind X (get_task_by_id s workspace_id task_id) _ w
        (get_task_by_id-Keeps q workspace_id task_id) h
        (λ found w1 read k. found_task-guarded X found _ w1 k (λ t is.
          Refused-bind X (may_move s workspace_id t user_id) _ w1 (may_move-Keeps t) k
            (λ a w2 passed k2. inr (
              t,
              w1,
              subst (λ o. get_task_by_id s workspace_id task_id w ≡ (ok o, w1)) is read,
              may_move-May t w1 w2 passed,
            ))))
