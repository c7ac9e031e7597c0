-- ===== src/Task/Repository/Queries.antt =====
-- The methods of services/workspace-service/internal/task/repository.go that are one statement, and
-- the repository that they make with the bulk operations.
pub mod Statements
pub mod Nulls
pub mod Comments
pub mod Pages
pub mod Columns
use distributed_workflow_sys.Prelude.{
  ℕ, String, Option, none, some, List, [], ◌∷◌, ◌++◌, ◌==◌, if◌then◌else◌,
}
use distributed_workflow_sys.Prelude.Act.{Act, ◌>>=◌, pure}
use distributed_workflow_sys.Domain.Task.{Task, TaskComment, TaskRepository}
use distributed_workflow_sys.Sql.{Statement, text, time, number}
use distributed_workflow_sys.Sql.Query.{Row, Db, select, insert, update, equal, column}
use distributed_workflow_sys.Sql.Scan.{text_in, optional_in, time_in, scan_all, found_or_nil}
use distributed_workflow_sys.Task.Repository.{bulk_create, bulk_update, bulk_update_status}
use distributed_workflow_sys.Task.Repository.Queries.Statements.{
  task_by_id, tasks_of_project, tasks_of_column, tasks_below, comments_of_task, comments_above,
  create_task_row, update_task_row, update_status_row, create_comment_row, workspace_of_project,
}

module _ {W : Type 0} where
  -- The struct tags of Task and TaskComment.
  unfoldable pub scan_task : Row → Act W Task
  scan_task row = do
    id ← text_in row "id"
    workspace_id ← text_in row "workspace_id"
    project_id ← text_in row "project_id"
    title ← text_in row "title"
    description ← text_in row "description"
    status ← text_in row "status"
    priority ← text_in row "priority"
    assignee_id ← text_in row "assignee_id"
    assignee_name ← optional_in row "assignee_name"
    deadline ← time_in row "deadline"
    created_at ← time_in row "created_at"
    pure (record {
      id = id;
      workspace_id = workspace_id;
      project_id = project_id;
      title = title;
      description = description;
      status = status;
      priority = priority;
      assignee_id = assignee_id;
      assignee_name = assignee_name;
      deadline = deadline;
      created_at = created_at;
    })

  unfoldable pub scan_comment : Row → Act W TaskComment
  scan_comment row = do
    id ← text_in row "id"
    workspace_id ← text_in row "workspace_id"
    task_id ← text_in row "task_id"
    user_id ← text_in row "user_id"
    content ← text_in row "content"
    created_at ← time_in row "created_at"
    pure (record {
      id = id;
      workspace_id = workspace_id;
      task_id = task_id;
      user_id = user_id;
      content = content;
      created_at = created_at;
    })

module _ {W : Type 0} (db : Db W) where
  -- The method returns the task as the pointer holds it after the call.
  unfoldable create : String → Task → Act W Task
  create workspace_id t = do
    row ← db.query_row_context create_task_row (
        text t.id
        ∷ text workspace_id
        ∷ text t.project_id
        ∷ text t.title
        ∷ text t.description
        ∷ text t.status
        ∷ text t.priority
        ∷ text t.assignee_id
        ∷ time t.deadline
        ∷ [])
    id ← text_in row "id"
    created_at ← time_in row "created_at"
    pure (record t { id = id; workspace_id = workspace_id; created_at = created_at })

  unfoldable pub find_by_id : String → String → Act W (Option Task)
  unfolding scan_task
  find_by_id workspace_id id =
      found_or_nil
        (db.get_context (select task_by_id) (text id ∷ text workspace_id ∷ []) >>= scan_task)

  unfoldable get_by_project_id : String → String → Act W (List Task)
  unfolding scan_task
  get_by_project_id workspace_id project_id =
      db.select_context (select tasks_of_project) (text project_id ∷ text workspace_id ∷ [])
      >>= scan_all scan_task

  unfoldable pub get_by_project_id_and_status_cursor :
      String → String → String → ℕ → String → Act W (List Task)
  unfolding scan_task
  get_by_project_id_and_status_cursor workspace_id project_id status limit cursor =
      if cursor == ""
      then (db.select_context (select tasks_of_column)
            (text project_id ∷ text status ∷ text workspace_id ∷ number limit ∷ [])
          >>= scan_all scan_task)
      else (db.select_context (select tasks_below)
            (text project_id ∷ text status ∷ text workspace_id ∷ text cursor ∷ number limit ∷ [])
          >>= scan_all scan_task)

  unfoldable update_task : String → Task → Act W (Unit {0})
  update_task workspace_id t = db.exec_context update_task_row (
      text t.title
      ∷ text t.description
      ∷ text t.priority
      ∷ text t.assignee_id
      ∷ time t.deadline
      ∷ text t.id
      ∷ text workspace_id
      ∷ [])

  unfoldable update_status : String → String → String → Act W (Unit {0})
  update_status workspace_id task_id status =
      db.exec_context update_status_row (text status ∷ text task_id ∷ text workspace_id ∷ [])

  unfoldable pub create_comment : String → TaskComment → Act W TaskComment
  create_comment workspace_id c = do
    row ←
        db.query_row_context create_comment_row
          (text c.id ∷ text workspace_id ∷ text c.task_id ∷ text c.user_id ∷ text c.content ∷ [])
    id ← text_in row "id"
    created_at ← time_in row "created_at"
    pure (record c { id = id; workspace_id = workspace_id; created_at = created_at })

  unfoldable pub get_comments_by_task_id : String → String → ℕ → String → Act W (List TaskComment)
  unfolding scan_comment
  get_comments_by_task_id workspace_id task_id limit cursor =
      if cursor == ""
      then (db.select_context (select comments_of_task)
            (text task_id ∷ text workspace_id ∷ number limit ∷ [])
          >>= scan_all scan_comment)
      else (db.select_context (select comments_above)
            (text task_id ∷ text workspace_id ∷ text cursor ∷ number limit ∷ [])
          >>= scan_all scan_comment)

  unfoldable get_workspace_id_by_project_id : String → String → Act W String
  get_workspace_id_by_project_id workspace_id project_id = do
    row ← db.get_context (select workspace_of_project) (text project_id ∷ text workspace_id ∷ [])
    text_in row "workspace_id"

  -- The methods that the service and the consumers call.
  abbrev pub repository : (Statement → Act W (Unit {0})) → TaskRepository W
  repository exec = record {
    find_by_id = find_by_id;
    get_by_project_id_and_status_cursor = get_by_project_id_and_status_cursor;
    create_comment = create_comment;
    get_comments_by_task_id = get_comments_by_task_id;
    bulk_create = bulk_create exec;
    bulk_update = bulk_update exec;
    bulk_update_status = bulk_update_status exec;
  }
