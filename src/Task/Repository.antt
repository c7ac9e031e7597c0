-- ===== src/Task/Repository.antt =====
-- services/workspace-service/internal/task/repository.go: the bulk operations of the Kafka workers.
-- PostgreSQL is the parameter `exec`, which runs a statement. The other operations of the file are
-- single statements and stand in Task/Repository/Queries.
pub mod Rows
pub mod Bindings
pub mod Conflict
pub mod Queries
use distributed_workflow_sys.Prelude.{ℕ, String, List, [], ◌∷◌, ◌++◌}
use distributed_workflow_sys.Prelude.Act.{Act}
use distributed_workflow_sys.Domain.Task.{Task, TaskStatusUpdate}
use distributed_workflow_sys.Sql.{
  Value, text, time, Statement, optional_text, optional_time, placeholder_rows, flat_vals,
}
use distributed_workflow_sys.Bulk.{bulk}

-- bulkCreateBatch: ten columns, no casts.
abbrev pub create_casts : List String
create_casts = "" ∷ "" ∷ "" ∷ "" ∷ "" ∷ "" ∷ "" ∷ "" ∷ "" ∷ "" ∷ []

unfoldable pub create_row : Task → List Value
create_row t =
    text t.id
    ∷ text t.workspace_id
    ∷ text t.project_id
    ∷ text t.title
    ∷ text t.description
    ∷ text t.status
    ∷ text t.priority
    ∷ optional_text t.assignee_id
    ∷ optional_time t.deadline
    ∷ time t.created_at
    ∷ []

pub create_statement : List Task → Statement
create_statement tasks = record {
  head =
      "INSERT INTO tasks (id, workspace_id, project_id, title, description, status, priority, assignee_id, deadline, created_at) VALUES ";
  rows = placeholder_rows 10 create_casts 0 tasks;
  tail = " ON CONFLICT (id, workspace_id) DO NOTHING";
  vals = flat_vals create_row tasks;
}

-- bulkUpdateBatch: seven columns.
abbrev pub update_casts : List String
update_casts = "uuid" ∷ "uuid" ∷ "varchar" ∷ "text" ∷ "varchar" ∷ "varchar" ∷ "timestamptz" ∷ []

unfoldable pub update_row : Task → List Value
update_row t =
    text t.id
    ∷ text t.workspace_id
    ∷ text t.title
    ∷ text t.description
    ∷ text t.priority
    ∷ optional_text t.assignee_id
    ∷ optional_time t.deadline
    ∷ []

pub update_statement : List Task → Statement
update_statement tasks = record {
  head =
      "UPDATE tasks AS t SET title = u.title, description = u.description, priority = u.priority, assignee_id = u.assignee_id, deadline = u.deadline FROM (VALUES ";
  rows = placeholder_rows 7 update_casts 0 tasks;
  tail =
      ") AS u(id, workspace_id, title, description, priority, assignee_id, deadline) WHERE t.id = u.id AND t.workspace_id = u.workspace_id";
  vals = flat_vals update_row tasks;
}

-- bulkUpdateStatusBatch: three columns.
abbrev pub status_casts : List String
status_casts = "uuid" ∷ "uuid" ∷ "varchar" ∷ []

unfoldable pub status_row : TaskStatusUpdate → List Value
status_row u = text u.task_id ∷ text u.workspace_id ∷ text u.status ∷ []

pub status_statement : List TaskStatusUpdate → Statement
status_statement updates = record {
  head = "UPDATE tasks AS t SET status = u.status FROM (VALUES ";
  rows = placeholder_rows 3 status_casts 0 updates;
  tail = ") AS u(id, workspace_id, status) WHERE t.id = u.id AND t.workspace_id = u.workspace_id";
  vals = flat_vals status_row updates;
}

module _ {W : Type 0} (exec : Statement → Act W (Unit {0})) where
  unfoldable pub bulk_create_batch : List Task → Act W (Unit {0})
  unfolding create_statement
  bulk_create_batch tasks = exec (create_statement tasks)

  unfoldable pub bulk_update_batch : List Task → Act W (Unit {0})
  unfolding update_statement
  bulk_update_batch tasks = exec (update_statement tasks)

  unfoldable pub bulk_update_status_batch : List TaskStatusUpdate → Act W (Unit {0})
  unfolding status_statement
  bulk_update_status_batch updates = exec (status_statement updates)

  -- BulkCreate with recursiveCreate.
  pub bulk_create : List Task → Act W (List Task)
  unfolding bulk_create_batch
  bulk_create = bulk bulk_create_batch

  -- BulkUpdate with recursiveUpdate.
  pub bulk_update : List Task → Act W (List Task)
  unfolding bulk_update_batch
  bulk_update = bulk bulk_update_batch

  -- BulkUpdateStatus with recursiveUpdateStatus.
  pub bulk_update_status : List TaskStatusUpdate → Act W (List TaskStatusUpdate)
  unfolding bulk_update_status_batch
  bulk_update_status = bulk bulk_update_status_batch
