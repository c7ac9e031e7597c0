-- ===== src/Task/Service/Update.antt =====
-- UpdateFullTask and UpdateTaskStatus of internal/task/service.go.
pub mod Stale
use distributed_workflow_sys.Prelude.{
  ℕ, String, Option, none, some, List, [], ◌∷◌, ◌==◌, if◌then◌else◌, joined,
}
use distributed_workflow_sys.Prelude.Act.{
  Act, Error, Result, ok, fail, ◌>>=◌, ◌>>◌, pure, raise, attempt, ignore, relabel, when,
  error_text,
}
use distributed_workflow_sys.Apperror.{not_found, forbidden, service_unavailable}
use distributed_workflow_sys.Domain.Task.{Task, TaskUpdateInput, TaskStatusUpdate}
use distributed_workflow_sys.Domain.Event.{NotificationEventPayload}
use distributed_workflow_sys.Task.Service.{
  Service, check_access, get_task_by_id, find_assignee_name, send_task_updated,
  send_task_status_updated, send_notification,
}
use distributed_workflow_sys.Task.Service.Create.{concerns}

unfoldable pub update_failure : Error → Error
update_failure err =
    service_unavailable (joined ("failed to publish task updated event: " ∷ error_text err ∷ []))

unfoldable status_failure : Error → Error
status_failure err =
    service_unavailable
      (joined ("failed to publish task status update event: " ∷ error_text err ∷ []))

abbrev task_not_found : Error
task_not_found = not_found "Task not found"

abbrev pub not_assigned : Error
not_assigned = forbidden "Only the assigned member, admin, or owner can change this task status"

unfoldable pub found_task : {W : Type 0} → Option Task → Act W Task
found_task none = raise task_not_found
found_task (some t) = pure t

-- The five assignments to `t`.
unfoldable pub with_input : Task → TaskUpdateInput → Task
with_input t input = record t {
  title = input.title;
  description = input.description;
  priority = input.priority;
  assignee_id = input.assignee_id;
  deadline = input.deadline;
}

unfoldable pub updated_payload : Task → NotificationEventPayload
updated_payload t = record {
  channel = "IN_APP";
  user_id = t.assignee_id;
  title = "Task Updated";
  message = joined ("Assigned task '" ∷ t.title ∷ "' has been updated" ∷ []);
  kind = "INFO";
}

unfoldable status_payload : Task → String → NotificationEventPayload
status_payload t status = record {
  channel = "IN_APP";
  user_id = t.assignee_id;
  title = "Task Status Updated";
  message = joined ("The status of your task '" ∷ t.title ∷ "' was updated to " ∷ status ∷ []);
  kind = "INFO";
}

module _ {W : Type 0} (s : Service W) where
  -- The assignee's name, looked at when `t` already has the new assignee.
  unfoldable pub assignee_name_of : String → Task → TaskUpdateInput → Act W (Option String)
  assignee_name_of workspace_id t input =
      if input.assignee_id == ""
      then pure none
      else if input.assignee_id == t.assignee_id
      then pure t.assignee_name
      else find_assignee_name s workspace_id input.assignee_id

  -- From the event on.
  unfoldable pub announce_update : Task → String → Act W Task
  unfolding update_failure concerns updated_payload
  announce_update t user_id = do
    relabel update_failure (send_task_updated s t)
    ignore (s.task_cache.update_task_meta t)
    when (concerns t user_id) (send_notification s (updated_payload t) t.assignee_id)
    pure t

  -- From the check on.
  unfoldable pub replace_task : String → Task → TaskUpdateInput → String → Act W Task
  unfolding with_input assignee_name_of announce_update
  replace_task workspace_id old input user_id = do
    check_access s workspace_id user_id ("ADMIN" ∷ [])
    let t = with_input old input
    assignee_name ← assignee_name_of workspace_id t input
    announce_update (record t { assignee_name = assignee_name }) user_id

  unfoldable pub update_full_task : String → String → TaskUpdateInput → String → Act W Task
  unfolding found_task replace_task
  update_full_task workspace_id task_id input user_id = do
    found ← get_task_by_id s workspace_id task_id
    old ← found_task found
    replace_task workspace_id old input user_id

  -- The target column is loaded into the cache if it is not there.
  unfoldable warm_column : String → String → String → Act W (Unit {0})
  warm_column workspace_id project_id status = do
    column ← attempt (s.task_cache.get_task_ids project_id status 1 "")
    elim column [
      | fail e ↦ pure tt
      | ok (some ids) ↦ pure tt
      | ok none ↦ do
        rows ←
            attempt (
              s.task_repo.get_by_project_id_and_status_cursor workspace_id project_id status 100 "")
        elim rows [
          | fail e ↦ pure tt
          | ok db_tasks ↦ ignore (s.task_cache.set_column_cache project_id status db_tasks)
        ]
    ]

  unfoldable pub may_move : String → Task → String → Act W (Unit {0})
  may_move workspace_id t user_id =
      if t.assignee_id == user_id
      then pure tt
      else relabel (λ err. not_assigned) (check_access s workspace_id user_id ("ADMIN" ∷ []))

  -- From the event on.
  unfoldable announce_status : String → Task → String → String → String → Act W (Unit {0})
  unfolding status_failure warm_column concerns status_payload
  announce_status workspace_id t task_id status user_id = do
    relabel status_failure (
        send_task_status_updated s
          (record { workspace_id = workspace_id; task_id = task_id; status = status }))
    warm_column workspace_id t.project_id status
    ignore (s.task_cache.update_task_status t.project_id task_id t.status status)
    when (concerns t user_id) (send_notification s (status_payload t status) t.assignee_id)

  -- From the check on.
  unfoldable pub move_task : String → Task → String → String → String → Act W (Unit {0})
  unfolding may_move announce_status
  move_task workspace_id t task_id status user_id = do
    may_move workspace_id t user_id
    announce_status workspace_id t task_id status user_id

  unfoldable pub update_task_status : String → String → String → String → Act W (Unit {0})
  unfolding found_task move_task
  update_task_status workspace_id task_id status user_id = do
    found ← get_task_by_id s workspace_id task_id
    t ← found_task found
    move_task workspace_id t task_id status user_id
