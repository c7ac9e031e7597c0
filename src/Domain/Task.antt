-- ===== src/Domain/Task.antt =====
-- services/workspace-service/internal/domain/task.go.
use distributed_workflow_sys.Prelude.{ℕ, String, List, Option}
use distributed_workflow_sys.Prelude.Act.{Act}

pub record TaskCreateInput : Type 0 where
  pub title : String
  pub description : String
  pub priority : String
  pub assignee_id : String
  pub deadline : ℕ

pub record TaskUpdateInput : Type 0 where
  pub title : String
  pub description : String
  pub priority : String
  pub assignee_id : String
  pub deadline : ℕ

pub record TaskStatusUpdate : Type 0 where
  pub workspace_id : String
  pub task_id : String
  pub status : String

pub record CommentCreateInput : Type 0 where
  pub content : String

pub record Task : Type 0 where
  pub id : String
  pub workspace_id : String
  pub project_id : String
  pub title : String
  pub description : String
  pub status : String
  pub priority : String
  pub assignee_id : String
  pub assignee_name : Option String
  pub deadline : ℕ
  pub created_at : ℕ

pub record TaskComment : Type 0 where
  pub id : String
  pub workspace_id : String
  pub task_id : String
  pub user_id : String
  pub content : String
  pub created_at : ℕ

-- The methods that a service or a consumer calls. `create_comment` returns the comment as the
-- database completed it.
pub record TaskRepository (W : Type 0) : Type 0 where
  pub find_by_id : String → String → Act W (Option Task)
  pub get_by_project_id_and_status_cursor :
      String → String → String → ℕ → String → Act W (List Task)
  pub create_comment : String → TaskComment → Act W TaskComment
  pub get_comments_by_task_id : String → String → ℕ → String → Act W (List TaskComment)
  pub bulk_create : List Task → Act W (List Task)
  pub bulk_update : List Task → Act W (List Task)
  pub bulk_update_status : List TaskStatusUpdate → Act W (List TaskStatusUpdate)

-- `get_task_ids` returns `none` where the column is not cached; the scores beside the ids are
-- dropped, since no caller reads them.
pub record TaskCache (W : Type 0) : Type 0 where
  pub add_task : Task → Act W (Unit {0})
  pub get_task_ids : String → String → ℕ → String → Act W (Option (List String))
  pub get_task_metas : List String → Act W (List Task × List String)
  pub set_task_meta : Task → Act W (Unit {0})
  pub set_column_cache : String → String → List Task → Act W (Unit {0})
  pub update_task_meta : Task → Act W (Unit {0})
  pub update_task_status : String → String → String → String → Act W (Unit {0})
  pub invalidate_tasks : String → Act W (Unit {0})
