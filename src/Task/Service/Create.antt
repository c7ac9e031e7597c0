-- ===== src/Task/Service/Create.antt =====
-- CreateTask of internal/task/service.go.
use distributed_workflow_sys.Prelude.{
  ℕ, String, Bool, Option, none, [], ◌∷◌, ◌==◌, not, ◌&&◌, if◌then◌else◌, joined,
}
use distributed_workflow_sys.Prelude.Act.{
  Act, Error, ok, ◌>>=◌, ◌>>◌, pure, ignore, relabel, when, error_text,
}
use distributed_workflow_sys.Apperror.{internal_server, service_unavailable}
use distributed_workflow_sys.Domain.Task.{Task, TaskCreateInput}
use distributed_workflow_sys.Domain.Event.{NotificationEventPayload}
use distributed_workflow_sys.Task.Service.{
  Service, check_access, find_assignee_name, send_task_created, send_notification,
}

unfoldable pub id_failure : Error → Error
id_failure err = internal_server (joined ("failed to generate task ID: " ∷ error_text err ∷ []))

unfoldable pub publish_failure : Error → Error
publish_failure err =
    service_unavailable (joined ("failed to publish task created event: " ∷ error_text err ∷ []))

-- The notification of an assignee who is not the acting user.
unfoldable pub concerns : Task → String → Bool
concerns t user_id = not (t.assignee_id == "") && not (t.assignee_id == user_id)

unfoldable pub assigned_payload : Task → NotificationEventPayload
assigned_payload t = record {
  channel = "IN_APP";
  user_id = t.assignee_id;
  title = "Task Assigned";
  message = joined ("You have been assigned the task '" ∷ t.title ∷ "'" ∷ []);
  kind = "INFO";
}

unfoldable pub new_task : String → String → String → TaskCreateInput → Option String → ℕ → Task
new_task id workspace_id project_id input assignee_name created_at = record {
  id = id;
  workspace_id = workspace_id;
  project_id = project_id;
  title = input.title;
  description = input.description;
  status = "TODO";
  priority = input.priority;
  assignee_id = input.assignee_id;
  assignee_name = assignee_name;
  deadline = input.deadline;
  created_at = created_at;
}

module _ {W : Type 0} (s : Service W) where
  unfoldable pub assignee_of : String → String → Act W (Option String)
  assignee_of workspace_id assignee_id =
      if assignee_id == "" then pure none else find_assignee_name s workspace_id assignee_id

  -- From the event on.
  unfoldable pub announce_task : Task → String → Act W Task
  unfolding publish_failure concerns assigned_payload
  announce_task t user_id = do
    relabel publish_failure (send_task_created s t)
    ignore (s.task_cache.add_task t)
    when (concerns t user_id) (send_notification s (assigned_payload t) t.assignee_id)
    pure t

  unfoldable pub create_task : String → String → TaskCreateInput → String → Act W Task
  unfolding id_failure assignee_of new_task announce_task
  create_task workspace_id project_id input user_id = do
    check_access s workspace_id user_id ("ADMIN" ∷ [])
    task_id ← relabel id_failure s.runtime.new_v7
    assignee_name ← assignee_of workspace_id input.assignee_id
    created_at ← λ w. let (now, w') = s.runtime.now w in (ok now, w')
    announce_task (new_task task_id workspace_id project_id input assignee_name created_at) user_id
