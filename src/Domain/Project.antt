-- ===== src/Domain/Project.antt =====
-- services/workspace-service/internal/domain/project.go.
use distributed_workflow_sys.Prelude.{ℕ, String, List, Option}
use distributed_workflow_sys.Prelude.Act.{Act}

pub record ProjectCreateInput : Type 0 where
  pub name : String
  pub description : String

pub record Project : Type 0 where
  pub id : String
  pub workspace_id : String
  pub name : String
  pub description : String
  pub status : String
  pub created_by : String
  pub created_at : ℕ

-- `create` returns the row as the database completed it (id, status and creation time).
pub record ProjectRepository (W : Type 0) : Type 0 where
  pub create : String → Project → Act W Project
  pub get_by_id : String → Act W (Option Project)
  pub get_by_workspace_id : String → ℕ → String → Act W (List Project)

-- The lookups of several projects return the ones found and the ids that are missing; that of the
-- ids returns `none` where the list is not cached.
pub record ProjectCache (W : Type 0) : Type 0 where
  pub add_project_id : String → String → Act W (Unit {0})
  pub set_project_meta : Project → Act W (Unit {0})
  pub get_project_metas : List String → Act W (List Project × List String)
  pub get_project_ids : String → ℕ → String → Act W (Option (List String))
  pub set_project_ids : String → List String → Act W (Unit {0})
  pub invalidate_projects : String → Act W (Unit {0})
